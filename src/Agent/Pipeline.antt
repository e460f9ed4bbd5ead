-- ===== src/Agent/Pipeline.antt =====
-- From the sockets of a host to the tables: a scan of connections.go, and the insertion of db.go.
mod Tests
use shawk.Prelude.{
  ◌≡◌, ◌∙◌, All, Among, ok, Text, ℕ, refl, true, false, some, List, nat_eq, text_equality,
}
use shawk.Prelude.Map.{lookup}
use shawk.Net.{ip_string}
use shawk.Probe.{HostFlow, HostFlows}
use shawk.Netutil.{InetDiagMsg}
use shawk.Netlink.{GetHostFlowsOption, Host, is_counted, get_host_flows_by_netlink}
use shawk.Netlink.Classify.{listens, Describes}
use shawk.Netlink.Complete.{HasIps, get_host_flows_by_netlink-IsReported}
use shawk.Db.Tables.{Postgres, IsPostgres}
use shawk.Db.Session.{Session}
use shawk.Db.Insert.{is_loopback_addr, is_local_flow, insert_or_update_host_flows}
use shawk.Db.Insert.Edges.{IsActiveEdge, IsPassiveEdge}
use shawk.Db.Insert.Recorded.{
  insert_or_update_host_flows-IsActiveEdge, insert_or_update_host_flows-IsPassiveEdge,
}

-- A `range` over a map reaches every entry.
abbrev pub ReachesAll : (HostFlows → List HostFlow) → Type 0
ReachesAll iterate =
    (flows : HostFlows) (k : Text) (f : HostFlow)
    → lookup k flows ≡ some f
    → Among f (iterate flows)

remote_flow :
    (conns : List InetDiagMsg) (conn : InetDiagMsg) (f : HostFlow)
    → Describes conns f conn
    → is_loopback_addr (ip_string conn.src_ip) ≡ false
    → is_loopback_addr (ip_string conn.dst_ip) ≡ false
    → is_local_flow f ≡ false
unfolding is_local_flow
remote_flow conns conn f d src dst = rw (d.local_addr, d.peer_addr, src, dst) refl

-- The edge that the tables must hold for a socket: to the local process if some socket listens on
-- the local port, and from it otherwise.
abbrev pub IsTraced : Postgres → ℕ → List InetDiagMsg → InetDiagMsg → Session → Type 0
IsTraced pg now conns conn s =
    (f : HostFlow) × Describes conns f conn
    × (listens conns conn.src_port ≡ true → IsPassiveEdge pg now f s.tables)
    × (listens conns conn.src_port ≡ false → IsActiveEdge pg now f s.tables)

-- If a netlink scan succeeds on sockets with IP addresses, and the flows that it found are inserted
-- without error on a server that answers a search with one of its rows, then the tables hold the
-- edge of every socket that is past the handshake, passes the filter, and has no loopback address,
-- updated at the time of the insertion.
pub scan-IsTraced :
    (pg : Postgres) (law : IsPostgres pg) (now : ℕ) (host : Host) (opt : GetHostFlowsOption)
    (iterate : HostFlows → List HostFlow) (conns : List InetDiagMsg) (flows : HostFlows)
    (s s' : Session) (n : ℕ) (conn : InetDiagMsg)
    → ReachesAll iterate
    → host.inet_diag ≡ some conns
    → All HasIps conns
    → get_host_flows_by_netlink host opt ≡ ok flows
    → insert_or_update_host_flows pg now (iterate flows) s ≡ (ok n, s')
    → Among conn conns
    → is_counted opt.filter conn ≡ true
    → is_loopback_addr (ip_string conn.src_ip) ≡ false
    → is_loopback_addr (ip_string conn.dst_ip) ≡ false
    → IsTraced pg now conns conn s'
scan-IsTraced pg law now host opt iterate conns flows s s' n conn all answer ips scan inserted m
      counted src dst =
    let (k, f, found, d) =
      get_host_flows_by_netlink-IsReported host opt conns flows conn answer scan ips m counted in
    let among = all flows k f found in
    let remote = remote_flow conns conn f d src dst in
    (
      f,
      d,
      λ listening.
          insert_or_update_host_flows-IsPassiveEdge pg law now (iterate flows) s s' n f inserted
            among remote (d.direction ∙ rw listening refl),
      λ other.
          insert_or_update_host_flows-IsActiveEdge pg law now (iterate flows) s s' n f inserted
            among remote (d.direction ∙ rw other refl),
    )
