-- ===== src/Netlink/Agree.antt =====
-- The netlink probe and the procfs probe of connections.go report the same flows.
use shawk.Prelude.{
  ◌≡◌, ◌∙◌, ◌∷◌, if◌then◌else◌, ok, text_eq, ℕ, refl, ap, true, false, none, some, List, [], map,
  arith,
}
use shawk.Net.{ip_string}
use shawk.Probe.{HostFlows, filter_all, insert_flow}
use shawk.Netutil.{InetDiagMsg, netlink_connections, netlink_filter_by_local_listening_ports}
use shawk.Netutil.Procfs.{ConnectionStat, procfs_connections, filter_by_local_listening_ports}
use shawk.Netlink.{
  Host, is_skipped, passes_filter, ports_of, is_counted, flow_of_conn, add_conns, flows_of_conns,
  get_host_flows_by_netlink, flow_of_stat, add_stats, flows_of_stats, get_host_flows_by_procfs,
}

-- What /proc/net/tcp says of a socket that netlink reports.
unfoldable pub stat_of : InetDiagMsg → ConnectionStat
stat_of msg = record {
  laddr = record { ip = ip_string msg.src_ip; port = msg.src_port };
  raddr = record { ip = ip_string msg.dst_ip; port = msg.dst_port };
  status = msg.state;
}

same_ports :
    (conns : List InetDiagMsg)
    → ports_of (netlink_filter_by_local_listening_ports conns)
      ≡ filter_by_local_listening_ports (map stat_of conns)
unfolding ports_of netlink_filter_by_local_listening_ports filter_by_local_listening_ports stat_of
same_ports [] = refl
same_ports (conn ∷ conns) = ground (arith, same_ports conns)

same_flow :
    (lconns : List InetDiagMsg) (conn : InetDiagMsg)
    → flow_of_conn none lconns conn ≡ flow_of_stat (ports_of lconns) (stat_of conn)
unfolding flow_of_conn flow_of_stat stat_of
same_flow lconns conn = refl

same_step :
    (lconns : List InetDiagMsg) (flows : HostFlows) (conn : InetDiagMsg)
    → (if is_counted filter_all conn
        then insert_flow flows (flow_of_conn none lconns conn)
        else flows)
      ≡ (if is_skipped conn.state
          then flows
          else insert_flow flows (flow_of_stat (ports_of lconns) (stat_of conn)))
unfolding is_counted passes_filter text_eq
same_step lconns flows conn = ground (arith, same_flow lconns conn)

same_flows :
    (lconns : List InetDiagMsg) (flows : HostFlows) (conns : List InetDiagMsg)
    → add_conns filter_all none lconns flows conns
      ≡ add_stats (ports_of lconns) flows (map stat_of conns)
unfolding add_conns add_stats is_counted passes_filter stat_of
same_flows lconns flows [] = refl
same_flows lconns flows (conn ∷ conns) = rw (same_step lconns flows conn) (
    same_flows lconns
      (if is_skipped conn.state
        then flows
        else insert_flow flows (flow_of_stat (ports_of lconns) (stat_of conn)))
      conns)

-- With no process information, no name lookup and the filter "all", a successful netlink scan of
-- some sockets and a successful read of the same sockets in /proc/net/tcp give the same map.
pub get_host_flows_by_netlink-get_host_flows_by_procfs :
    (reverse_bytes : List ℕ → List ℕ) (host : Host) (conns : List InetDiagMsg)
    → host.inet_diag ≡ some conns
    → procfs_connections reverse_bytes host.proc_net_tcp ≡ ok (map stat_of conns)
    → get_host_flows_by_netlink host
        (record { numeric = true; processes = false; filter = filter_all })
      ≡ get_host_flows_by_procfs reverse_bytes host
unfolding get_host_flows_by_netlink get_host_flows_by_procfs netlink_connections flows_of_stats
    flows_of_conns
get_host_flows_by_netlink-get_host_flows_by_procfs reverse_bytes host conns p q =
    rw (p, q)
      (ap ok (same_flows (netlink_filter_by_local_listening_ports conns) [] conns ∙ rw same_ports))
