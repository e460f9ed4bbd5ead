-- ===== src/Netlink/Counts.antt =====
-- The loops of connections.go insert one flow for each connection that they do not skip.
use shawk.Prelude.{
  ◌^◌, ◌≤◌, ◌<◌, ◌≡◌, ◌∙◌, ◌∷◌, ◌>>=◌, Bool-cases, length, keep, count, All, Outcome, ok, err,
  panics, Text, refl, ap, inl, inr, Option, some, List, [], map, arith,
}
use shawk.Probe.{HostFlow, HostFlows, insert_flow, insert_flows, set_lookuped_name}
use shawk.Probe.Flows.{total, total-insert_flows, IsFresh}
use shawk.Netutil.{
  UserEnts, InetDiagMsg, netlink_connections, netlink_filter_by_local_listening_ports,
}
use shawk.Strconv.{format_uint}
use shawk.Netlink.{
  GetHostFlowsOption, Host, contains, ports_of, is_counted, flow_of_conn, add_conns, lookup_names,
  wanted_entries, flows_of_conns, get_host_flows_by_netlink,
}

-- The flows of the connections that count, in their order.
unfoldable pub counted_flows :
    Text → Option UserEnts → List InetDiagMsg → List InetDiagMsg → List HostFlow
counted_flows filter ents lconns conns =
    map (flow_of_conn ents lconns) (keep (is_counted filter) conns)

pub add_conns-counted :
    (filter : Text) (ents : Option UserEnts) (lconns : List InetDiagMsg) (flows : HostFlows)
    (conns : List InetDiagMsg)
    → add_conns filter ents lconns flows conns
      ≡ insert_flows flows (counted_flows filter ents lconns conns)
unfolding add_conns insert_flows counted_flows keep
add_conns-counted filter ents lconns flows [] = refl
add_conns-counted filter ents lconns flows (conn ∷ conns) =
    elim (Bool-cases (is_counted filter conn)) [
      | inl yes_counted ↦ rw yes_counted (
          add_conns-counted filter ents lconns (insert_flow flows (flow_of_conn ents lconns conn))
            conns)
      | inr not_counted ↦ rw not_counted (add_conns-counted filter ents lconns flows conns)
    ]

flow_of_conn-IsFresh :
    (ents : Option UserEnts) (lconns : List InetDiagMsg) (conn : InetDiagMsg)
    → IsFresh (flow_of_conn ents lconns conn)
unfolding flow_of_conn
flow_of_conn-IsFresh ents lconns conn =
    elim (Bool-cases (contains (ports_of lconns) (format_uint conn.src_port))) [
      | inl p ↦ rw p
      | inr p ↦ rw p
    ]

counted_flows-IsFresh :
    (filter : Text) (ents : Option UserEnts) (lconns conns : List InetDiagMsg)
    → All IsFresh (counted_flows filter ents lconns conns)
unfolding counted_flows keep
counted_flows-IsFresh filter ents lconns [] = tt
counted_flows-IsFresh filter ents lconns (conn ∷ conns) =
    elim (Bool-cases (is_counted filter conn)) [
      | inl p ↦
          rw p
            (flow_of_conn-IsFresh ents lconns conn, counted_flows-IsFresh filter ents lconns conns)
      | inr p ↦ rw p (counted_flows-IsFresh filter ents lconns conns)
    ]

length-counted_flows :
    (filter : Text) (ents : Option UserEnts) (lconns conns : List InetDiagMsg)
    → length (counted_flows filter ents lconns conns) ≡ count (is_counted filter) conns
unfolding counted_flows keep count
length-counted_flows filter ents lconns [] = refl
length-counted_flows filter ents lconns (conn ∷ conns) =
    ground (arith, length-counted_flows filter ents lconns conns)

count-le-length :
    (filter : Text) (conns : List InetDiagMsg) → count (is_counted filter) conns ≤ length conns
unfolding count
count-le-length filter [] = omega arith
count-le-length filter (conn ∷ conns) = ground (arith, count-le-length filter conns)

total-lookup_names :
    (resolve : Text → Text) (flows : HostFlows) → total (lookup_names resolve flows) ≡ total flows
unfolding total lookup_names set_lookuped_name
total-lookup_names resolve [] = refl
total-lookup_names resolve ((k, f) ∷ flows) = rw (total-lookup_names resolve flows)

total-flows_of_conns :
    (opt : GetHostFlowsOption) (resolve : Text → Text) (ents : Option UserEnts)
    (conns : List InetDiagMsg)
    → length conns < 2 ^ 64
    → total (flows_of_conns opt resolve ents conns) ≡ count (is_counted opt.filter) conns
unfolding flows_of_conns
total-flows_of_conns opt resolve ents conns small =
    let lconns = netlink_filter_by_local_listening_ports conns in
    let fs = counted_flows opt.filter ents lconns conns in
    let n = length-counted_flows opt.filter ents lconns conns in
    let sum : total (add_conns opt.filter ents lconns [] conns)
        ≡ count (is_counted opt.filter) conns =
      ap total (add_conns-counted opt.filter ents lconns [] conns)
      ∙ total-insert_flows fs (counted_flows-IsFresh opt.filter ents lconns conns)
          (omega (arith, n, count-le-length opt.filter conns))
      ∙ n in
    ground (arith, total-lookup_names resolve (add_conns opt.filter ents lconns [] conns), sum)

total-after_entries :
    (opt : GetHostFlowsOption) (resolve : Text → Text) (w : Outcome (Option UserEnts))
    (conns : List InetDiagMsg) (flows : HostFlows)
    → length conns < 2 ^ 64
    → (do
      ents ← w
      conns' ← netlink_connections (some conns)
      ok (flows_of_conns opt resolve ents conns'))
      ≡ ok flows
    → total flows ≡ count (is_counted opt.filter) conns
unfolding netlink_connections
total-after_entries opt resolve (ok ents) conns flows small e =
    ground (arith, total-flows_of_conns opt resolve ents conns small)
total-after_entries opt resolve (err x) conns flows small e = cc
total-after_entries opt resolve panics conns flows small e = cc

-- A netlink scan that succeeds on fewer than 2^64 sockets reports every socket that is past the
-- handshake and passes the filter in exactly one flow: the connections of the flows sum to the
-- number of such sockets.
pub total-get_host_flows_by_netlink :
    (host : Host) (opt : GetHostFlowsOption) (conns : List InetDiagMsg) (flows : HostFlows)
    → host.inet_diag ≡ some conns
    → length conns < 2 ^ 64
    → get_host_flows_by_netlink host opt ≡ ok flows
    → total flows ≡ count (is_counted opt.filter) conns
unfolding get_host_flows_by_netlink netlink_connections
total-get_host_flows_by_netlink host opt conns flows answer small e =
    total-after_entries opt host.resolve (wanted_entries opt.processes host.user_entries) conns
      flows small (rw answer at e)
