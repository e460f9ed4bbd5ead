-- ===== src/Agent/Pipeline/Tests.antt =====
-- The scan of a host with three sockets, inserted into an empty database.
use shawk.Prelude.{◌≡◌, ◌∷◌, ◌==◌, Bool-cases, refl, inl, inr, some, [], nat_eq, text_equality}
use shawk.Prelude.Map.{lookup}
use shawk.Probe.{values}
use shawk.Netutil.{InetDiagMsg}
use shawk.Netlink.Samples.{here, there, conns, host, opt, flows, conns-HasIps, program as scanning}
use shawk.Db.Insert.Samples.{server, empty, server-IsPostgres, program as inserting}
use shawk.Db.Session.{Session}
use shawk.Db.Insert.{insert_or_update_host_flows}
use shawk.Agent.Pipeline
use shawk.Agent.Pipeline.{ReachesAll}

values-ReachesAll : ReachesAll values
unfolding values lookup
values-ReachesAll [] k f e = absurd (cc)
values-ReachesAll ((j, g) ∷ m) k f e = elim (Bool-cases (j == k)) [
  | inl here ↦ let same : some g ≡ some f = rw here at e in inl (cc)
  | inr other ↦ inr (values-ReachesAll m k f (rw other at e))
]

-- The connection out of the host.
abbrev out : InetDiagMsg
out = record {
  state = 1;
  src_ip = here;
  src_port = 50000;
  dst_ip = there;
  dst_port = 5432;
  inode = 8;
}

abbrev after : Session
after = (insert_or_update_host_flows server 7 (values flows) empty).1

scan-IsTraced_example : Pipeline.IsTraced server 7 conns out after
unfolding scanning inserting values
scan-IsTraced_example =
    Pipeline.scan-IsTraced server server-IsPostgres 7 host opt values conns flows empty after 0 out
      values-ReachesAll refl conns-HasIps refl refl (inr (inr (inl refl))) refl refl refl
