-- ===== src/Netlink/Samples.antt =====
-- A host with three sockets, for the tests.
use shawk.Prelude.{
  ◌≡◌, ◌∷◌, ◌++◌, any, All, ok, Text, codes, text_eq, ℕ, refl, inl, true, false, none, some, List,
  [], arith, nat_eq, text_equality,
}
use shawk.Net.Chars.{IsIp}
use shawk.Netlink.Complete.{HasIps}
use shawk.Prelude.Map.{lookup, insert, index}
use shawk.Strconv.{format_uint, join_host_port}
use shawk.Net.{Ip, ip_string}
use shawk.Probe.{
  HostFlow, HostFlows, filter_all, uniq_key, insert_flow, merge, direction_string, addr_port_string,
}
use shawk.Netutil.{
  UserEnt, InetDiagMsg, netlink_connections, netlink_filter_by_local_listening_ports,
}
use shawk.Netlink.{
  Host, GetHostFlowsOption, get_host_flows_by_netlink, contains, is_skipped, passes_filter,
  flow_of_conn, ports_of,
}

abbrev pub here : Ip
here = 10 ∷ 0 ∷ 0 ∷ 5 ∷ []

abbrev pub there : Ip
there = 10 ∷ 0 ∷ 0 ∷ 9 ∷ []

-- A listener on port 80, a connection to it, and a connection out.
abbrev pub conns : List InetDiagMsg
conns =
    record {
      state = 10;
      src_ip = 0 ∷ 0 ∷ 0 ∷ 0 ∷ [];
      src_port = 80;
      dst_ip = 0 ∷ 0 ∷ 0 ∷ 0 ∷ [];
      dst_port = 0;
      inode = 7;
    }
    ∷ record {
      state = 1;
      src_ip = here;
      src_port = 80;
      dst_ip = there;
      dst_port = 40000;
      inode = 0;
    }
    ∷ record {
      state = 1;
      src_ip = here;
      src_port = 50000;
      dst_ip = there;
      dst_port = 5432;
      inode = 8;
    }
    ∷ []

-- The same sockets as the kernel prints them.
abbrev pub table : Text
table =
    codes
      "sl local rem st tx tr tm uid to inode\n0: 00000000:0050 00000000:0000 0A 0 0 0 0 0 7 1\n1: 0500000A:0050 0900000A:9C40 01 0 0 0 0 0 0 1\n2: 0500000A:C350 0900000A:1538 01 0 0 0 0 0 8 1\n"

unfoldable pub reverse_bytes : List ℕ → List ℕ
reverse_bytes [] = []
reverse_bytes (b ∷ bs) = reverse_bytes bs ++ b ∷ []

abbrev pub ents : List (ℕ × UserEnt)
ents = (7, record { inode = 7; fd = 3; pid = 20; pname = codes "nginx"; ppid = 1; pgrp = 20 }) ∷ []

abbrev pub host : Host
host = record {
  user_entries = ok ents;
  inet_diag = some conns;
  proc_net_tcp = some table;
  resolve = λ a. a;
}

abbrev pub opt : GetHostFlowsOption
opt = record { numeric = true; processes = true; filter = filter_all }

abbrev pub plain : GetHostFlowsOption
plain = record { numeric = true; processes = false; filter = filter_all }

abbrev pub passive : HostFlow
passive = record {
  direction = 4;
  local = record { name = []; addr = codes "10.0.0.5"; port = codes "80" };
  peer = record { name = []; addr = codes "10.0.0.9"; port = codes "many" };
  connections = 1;
  process = some (record { name = codes "nginx"; pgid = 20 });
}

abbrev pub active : HostFlow
active = record {
  direction = 2;
  local = record { name = []; addr = codes "10.0.0.5"; port = codes "many" };
  peer = record { name = []; addr = codes "10.0.0.9"; port = codes "5432" };
  connections = 1;
  process = none;
}

abbrev pub flows : HostFlows
flows =
    (codes "passive-10.0.0.5:80-10.0.0.9:many", passive)
    ∷ (codes "active-10.0.0.5:many-10.0.0.9:5432", active)
    ∷ []

unfoldable pub program : Unit {0}
unfolding get_host_flows_by_netlink ip_string format_uint uniq_key insert_flow join_host_port
    text_eq any contains lookup netlink_connections netlink_filter_by_local_listening_ports
    is_skipped passes_filter insert direction_string flow_of_conn ports_of addr_port_string merge
    index
program = tt

pub conns-HasIps : All HasIps conns
conns-HasIps = (
  record { src = four_zeros; dst = four_zeros },
  (
    record { src = here-IsIp; dst = there-IsIp },
    (record { src = here-IsIp; dst = there-IsIp }, tt),
  ),
)
  where
    four_zeros : IsIp (0 ∷ 0 ∷ 0 ∷ 0 ∷ [])
    four_zeros = record { size = inl refl; bytes = omega arith }

    here-IsIp : IsIp here
    here-IsIp = record { size = inl refl; bytes = omega arith }

    there-IsIp : IsIp there
    there-IsIp = record { size = inl refl; bytes = omega arith }

pub scan : get_host_flows_by_netlink host opt ≡ ok flows
unfolding program
scan = refl
