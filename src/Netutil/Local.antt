-- ===== src/Netutil/Local.antt =====
-- `NetlinkLocalListeningPorts` and `LocalIPAddrs` of probe/netlink/netutil.
mod Tests
use shawk.Prelude.{
  ◌∷◌, ◌==◌, if◌then◌else◌, ◌>>=◌, system_error, Outcome, ok, err, Text, Option, none, some, List,
  [], nat_eq, text_equality,
}
use shawk.Strconv.{format_uint}
use shawk.Net.{Ip, IpNet, is_loopback, ip_string, to4}
use shawk.Netutil.{InetDiagMsg, tcp_listen, netlink_connections}

-- The loop over the sockets.
unfoldable pub ports_of_listeners : List InetDiagMsg → List Text
ports_of_listeners [] = []
ports_of_listeners (diag ∷ msgs) =
    let rest = ports_of_listeners msgs in
    if diag.state == tcp_listen then format_uint diag.src_port ∷ rest else rest

-- `NetlinkLocalListeningPorts`, on the answer of the kernel.
unfoldable pub netlink_local_listening_ports : Option (List InetDiagMsg) → Outcome (List Text)
unfolding ports_of_listeners netlink_connections
netlink_local_listening_ports answer = do
  msgs ← netlink_connections answer
  ok (ports_of_listeners msgs)

-- A `net.Addr` of an interface: an `*net.IPNet`, or of another type.
pub data InterfaceAddr : Type 0 where
  ip_net : IpNet → InterfaceAddr
  other_addr : InterfaceAddr

-- The loop over the addresses: no loopback, and IPv4 only.
unfoldable pub ipv4_addrs : List InterfaceAddr → List Text
unfolding is_loopback to4 ip_string
ipv4_addrs [] = []
ipv4_addrs (other_addr ∷ addrs) = ipv4_addrs addrs
ipv4_addrs (ip_net n ∷ addrs) =
    let rest = ipv4_addrs addrs in
    if is_loopback n.number
    then rest
    else elim (to4 n.number) [ none ↦ rest | some ip4 ↦ ip_string n.number ∷ rest ]

-- `LocalIPAddrs`, on the answer of `net.InterfaceAddrs`, `none` for an error.
unfoldable pub local_ip_addrs : Option (List InterfaceAddr) → Outcome (List Text)
unfolding ipv4_addrs
local_ip_addrs none = err (system_error 26)
local_ip_addrs (some addrs) = ok (ipv4_addrs addrs)
