-- ===== src/Netlink.antt =====
-- probe/netlink/connections.go: host flows from the sockets that the kernel reports.
pub mod Classify
pub mod Owners
pub mod FromProc
pub mod Counts
pub mod Agree
pub mod Complete
mod Tests
pub mod Samples
use shawk.Prelude.{
  ◌&&◌, ◌∷◌, ◌==◌, if◌then◌else◌, ◌>>=◌, netlink_error, Outcome, ok, err, panics, Text, ℕ, Bool,
  true, false, not, Option, none, some, List, [], nat_eq, text_equality,
}
use shawk.Prelude.Map.{lookup, insert, index}
use shawk.Strconv.{format_uint}
use shawk.Net.{Ip, ip_string}
use shawk.Probe.{
  filter_all, filter_public, filter_private, flow_active, flow_passive, many, Process, HostFlow,
  HostFlows, insert_flow, set_lookuped_name,
}
use shawk.Netutil.{
  UserEnt, UserEnts, UserEntByLport, InetDiagMsg, is_private_ip, tcp_syn_sent, tcp_syn_recv,
  tcp_listen, netlink_connections, netlink_filter_by_local_listening_ports,
}
use shawk.Netutil.Procfs.{ConnectionStat, procfs_connections, filter_by_local_listening_ports}

pub record GetHostFlowsOption : Type 0 where
  pub numeric : Bool
  pub processes : Bool
  pub filter : Text

-- What a probe is told: by the scan of /proc, by the netlink socket, by /proc/net/tcp, and by the
-- resolver of addresses.
pub record Host : Type 0 where
  pub user_entries : Outcome UserEnts
  pub inet_diag : Option (List InetDiagMsg)
  pub proc_net_tcp : Option Text
  pub resolve : Text → Text

-- `contains`
unfoldable pub contains : List Text → Text → Bool
contains [] s = false
contains (str ∷ strs) s = if str == s then true else contains strs s

-- The states that the loops skip: no connection yet, or none at all.
unfoldable pub is_skipped : ℕ → Bool
is_skipped state =
    if state == tcp_listen
    then true
    else if state == tcp_syn_sent
    then true
    else state == tcp_syn_recv

-- The `switch` on the filter: whether the peer's address lets the connection through.
unfoldable pub passes_filter : Text → Ip → Bool
passes_filter filter ip =
    if filter == filter_all
    then true
    else if filter == filter_public
    then not (is_private_ip ip)
    else if filter == filter_private
    then is_private_ip ip
    else true

unfoldable pub ports_of : List InetDiagMsg → List Text
ports_of [] = []
ports_of (lconn ∷ lconns) = format_uint lconn.src_port ∷ ports_of lconns

-- The loop that fills `lportEnt`, over a map `userEnts` that is not nil.
unfoldable pub lport_ents : UserEnts → UserEntByLport → List InetDiagMsg → UserEntByLport
lport_ents ents m [] = m
lport_ents ents m (lconn ∷ lconns) =
    lport_ents ents (insert (format_uint lconn.src_port) (lookup lconn.inode ents) m) lconns

process_of : Option UserEnt → Option Process
process_of none = none
process_of (some ent) = some (record { name = ent.pname; pgid = ent.pgrp })

or_else : Option UserEnt → Option UserEnt → Option UserEnt
or_else none other = other
or_else (some ent) other = some ent

-- The entry of the connection's own socket; inode 0 has none.
own_ent : Option UserEnts → ℕ → Option UserEnt
own_ent none inode = none
own_ent (some ents) inode = if inode == 0 then none else lookup inode ents

listener_ent : Option UserEnts → List InetDiagMsg → Text → Option UserEnt
unfolding lport_ents
listener_ent none lconns lport = none
listener_ent (some ents) lconns lport = index lport (lport_ents ents [] lconns)

passive_flow : Text → Text → Text → Option Process → HostFlow
passive_flow laddr lport raddr proc = record {
  direction = flow_passive;
  local = record { name = []; addr = laddr; port = lport };
  peer = record { name = []; addr = raddr; port = many };
  connections = 0;
  process = proc;
}

active_flow : Text → Text → Text → Option Process → HostFlow
active_flow laddr raddr rport proc = record {
  direction = flow_active;
  local = record { name = []; addr = laddr; port = many };
  peer = record { name = []; addr = raddr; port = rport };
  connections = 0;
  process = proc;
}

-- The flow that the netlink loop builds for a connection.
unfoldable pub flow_of_conn : Option UserEnts → List InetDiagMsg → InetDiagMsg → HostFlow
unfolding process_of or_else own_ent listener_ent passive_flow active_flow
flow_of_conn ents lconns conn =
    let ent = own_ent ents conn.inode in
    let lport = format_uint conn.src_port in
    if contains (ports_of lconns) lport
    then passive_flow (ip_string conn.src_ip) lport (ip_string conn.dst_ip)
        (process_of (or_else ent (listener_ent ents lconns lport)))
    else active_flow (ip_string conn.src_ip) (ip_string conn.dst_ip) (format_uint conn.dst_port)
        (process_of ent)

-- Whether the loop reaches the insertion.
unfoldable pub is_counted : Text → InetDiagMsg → Bool
is_counted filter conn = not (is_skipped conn.state) && passes_filter filter conn.dst_ip

unfoldable pub add_conns :
    Text → Option UserEnts → List InetDiagMsg → HostFlows → List InetDiagMsg → HostFlows
unfolding is_counted
add_conns filter ents lconns flows [] = flows
add_conns filter ents lconns flows (conn ∷ conns) =
    add_conns filter ents lconns
      (if is_counted filter conn then insert_flow flows (flow_of_conn ents lconns conn) else flows)
      conns

-- The last loop: names are looked up in place, and the keys stay.
unfoldable pub lookup_names : (Text → Text) → HostFlows → HostFlows
lookup_names resolve [] = []
lookup_names resolve ((k, f) ∷ flows) =
    (k, set_lookuped_name resolve f) ∷ lookup_names resolve flows

flows_of_conns : GetHostFlowsOption → (Text → Text) → Option UserEnts → List InetDiagMsg → HostFlows
unfolding lookup_names add_conns
flows_of_conns opt resolve ents conns =
    let lconns = netlink_filter_by_local_listening_ports conns in
    let flows = add_conns opt.filter ents lconns [] conns in
    if opt.numeric then flows else lookup_names resolve flows

wanted_entries : Bool → Outcome UserEnts → Outcome (Option UserEnts)
wanted_entries false entries = ok none
wanted_entries true entries = do ents ← entries; ok (some ents)

-- `GetHostFlowsByNetlink`
unfoldable pub get_host_flows_by_netlink : Host → GetHostFlowsOption → Outcome HostFlows
unfolding wanted_entries flows_of_conns
get_host_flows_by_netlink host opt = do
  ents ← wanted_entries opt.processes host.user_entries
  conns ← netlink_connections host.inet_diag
  ok (flows_of_conns opt host.resolve ents conns)

unfoldable pub flow_of_stat : List Text → ConnectionStat → HostFlow
unfolding passive_flow active_flow
flow_of_stat ports conn =
    let lport = format_uint conn.laddr.port in
    if contains ports lport
    then passive_flow conn.laddr.ip lport conn.raddr.ip none
    else active_flow conn.laddr.ip conn.raddr.ip (format_uint conn.raddr.port) none

unfoldable pub add_stats : List Text → HostFlows → List ConnectionStat → HostFlows
add_stats ports flows [] = flows
add_stats ports flows (conn ∷ conns) =
    add_stats ports
      (if is_skipped conn.status then flows else insert_flow flows (flow_of_stat ports conn)) conns

unfoldable pub flows_of_stats : List ConnectionStat → HostFlows
unfolding add_stats
flows_of_stats conns = add_stats (filter_by_local_listening_ports conns) [] conns

module _ (reverse_bytes : List ℕ → List ℕ) where
  -- `GetHostFlowsByProcfs`
  unfoldable pub get_host_flows_by_procfs : Host → Outcome HostFlows
  unfolding flows_of_stats
  get_host_flows_by_procfs host = do
    conns ← procfs_connections reverse_bytes host.proc_net_tcp
    ok (flows_of_stats conns)

  -- The error branch: only a `NetlinkError` falls back to procfs.
  or_procfs : Host → Outcome HostFlows → Outcome HostFlows
  unfolding get_host_flows_by_procfs
  or_procfs host (ok flows) = ok flows
  or_procfs host (err netlink_error) = get_host_flows_by_procfs host
  or_procfs host (err e) = err e
  or_procfs host panics = panics

  -- `GetHostFlows`
  unfoldable pub get_host_flows : Host → GetHostFlowsOption → Outcome HostFlows
  unfolding or_procfs get_host_flows_by_netlink
  get_host_flows host opt = or_procfs host (get_host_flows_by_netlink host opt)
