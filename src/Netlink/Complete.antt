-- ===== src/Netlink/Complete.antt =====
-- No socket that connections.go should report is missing from its flows.
use mathlib.Core.Path.{subst}
use shawk.Prelude.{
  ◌≡◌, ◌∙◌, ◌∷◌, ◌>>=◌, Bool-cases, keep, All, Among, All-at, Outcome, ok, err, panics, Text, ℕ,
  refl, sym, ap, inl, inr, true, Option, some, List, [], arith, nat_eq, text_equality,
}
use shawk.Prelude.Map.{lookup}
use shawk.Strconv.{format_uint, is_digit}
use shawk.Strconv.Decimal.{format_uint-IsDecimal}
use shawk.Net.Chars.{IsIp, ip_string-IsAddrText}
use shawk.Probe.{HostFlow, HostFlows, many, uniq_key, set_lookuped_name}
use shawk.Probe.Keys.{IsProbed, is_port_char, All-map, uniq_key-injective}
use shawk.Probe.Origin.{insert_flows-origin}
use shawk.Probe.Present.{insert_flows-IsPresent}
use shawk.Netutil.{
  UserEnts, InetDiagMsg, netlink_connections, netlink_filter_by_local_listening_ports,
}
use shawk.Netlink.{
  GetHostFlowsOption, Host, contains, ports_of, is_counted, flow_of_conn, add_conns, lookup_names,
  wanted_entries, flows_of_conns, get_host_flows_by_netlink,
}
use shawk.Netlink.Counts.{counted_flows, add_conns-counted}
use shawk.Netlink.Classify.{
  Describes, Among-counted, SameEnds-Describes, flow_of_conn-Describes, named, lookup-lookup_names,
}

IsPortText : Text → Type 0
IsPortText = All (λ c. is_port_char c ≡ true)

format_uint-IsPortText : (n : ℕ) → IsPortText (format_uint n)
unfolding IsPortText is_port_char
format_uint-IsPortText n =
    All-map _ _ (format_uint n) (λ c d. ground arith) (format_uint-IsDecimal n)

many-IsPortText : IsPortText many
unfolding IsPortText is_port_char is_digit
many-IsPortText = (refl, (refl, (refl, (refl, tt))))

-- Both addresses of the socket are addresses.
pub record HasIps (conn : InetDiagMsg) : Type 0 where
  pub src : IsIp conn.src_ip
  pub dst : IsIp conn.dst_ip

flow_of_conn-IsProbed :
    (ents : Option UserEnts) (lconns : List InetDiagMsg) (conn : InetDiagMsg)
    → HasIps conn
    → IsProbed (flow_of_conn ents lconns conn)
unfolding flow_of_conn IsPortText
flow_of_conn-IsProbed ents lconns conn h =
    let src = ip_string-IsAddrText conn.src_ip h.src in
    let dst = ip_string-IsAddrText conn.dst_ip h.dst in
    elim (Bool-cases (contains (ports_of lconns) (format_uint conn.src_port))) [
      | inl listening ↦ rw listening (record {
        direction = inr refl;
        local = record {
          unnamed = refl;
          addr_chars = src;
          port_chars = format_uint-IsPortText conn.src_port;
        };
        peer = record { unnamed = refl; addr_chars = dst; port_chars = many-IsPortText };
      })
      | inr other ↦ rw other (record {
        direction = inl refl;
        local = record { unnamed = refl; addr_chars = src; port_chars = many-IsPortText };
        peer = record {
          unnamed = refl;
          addr_chars = dst;
          port_chars = format_uint-IsPortText conn.dst_port;
        };
      })
    ]

counted-Among :
    (filter : Text) (ents : Option UserEnts) (lconns conns : List InetDiagMsg) (conn : InetDiagMsg)
    → Among conn conns
    → is_counted filter conn ≡ true
    → Among (flow_of_conn ents lconns conn) (counted_flows filter ents lconns conns)
unfolding counted_flows keep
counted-Among filter ents lconns [] conn m e = elim m [ ]
counted-Among filter ents lconns (c ∷ conns) conn (inl same) e =
    let counted : is_counted filter c ≡ true = rw (sym same) e in
    rw counted (inl (ap (flow_of_conn ents lconns) same))
counted-Among filter ents lconns (c ∷ conns) conn (inr m) e =
    elim (Bool-cases (is_counted filter c)) [
      | inl counted ↦ rw counted (inr (counted-Among filter ents lconns conns conn m e))
      | inr skipped ↦ rw skipped (counted-Among filter ents lconns conns conn m e)
    ]

-- A map reports a socket under some key.
abbrev pub IsReported : List InetDiagMsg → InetDiagMsg → HostFlows → Type 0
IsReported conns conn flows =
    (k : Text) × (f : HostFlow) × (lookup k flows ≡ some f) × Describes conns f conn

add_conns-IsReported :
    (filter : Text) (ents : Option UserEnts) (conns : List InetDiagMsg) (conn : InetDiagMsg)
    → All HasIps conns
    → Among conn conns
    → is_counted filter conn ≡ true
    → IsReported conns conn
        (add_conns filter ents (netlink_filter_by_local_listening_ports conns) [] conns)
add_conns-IsReported filter ents conns conn ips m e =
    let lconns = netlink_filter_by_local_listening_ports conns in
    let fs = counted_flows filter ents lconns conns in
    let own = flow_of_conn ents lconns conn in
    let (g, found) =
      insert_flows-IsPresent own fs [] (counted-Among filter ents lconns conns conn m e) in
    let (h, at, key, ends) = insert_flows-origin (uniq_key own) fs g found in
    let (other, among, counted, made) = Among-counted filter ents lconns conns h at in
    let probed : IsProbed h =
      subst IsProbed (sym made)
        (flow_of_conn-IsProbed ents lconns other (All-at HasIps conns other among ips)) in
    let (d, l, p) =
      uniq_key-injective h own probed
        (flow_of_conn-IsProbed ents lconns conn (All-at HasIps conns conn m ips)) key in
    (
      uniq_key own,
      g,
      rw add_conns-counted found,
      SameEnds-Describes conns conn g own
          (record { direction = ends.direction ∙ d; local = ends.local ∙ l; peer = ends.peer ∙ p })
          (flow_of_conn-Describes ents conns conn),
    )

named-IsReported :
    (resolve : Text → Text) (conns : List InetDiagMsg) (conn : InetDiagMsg) (flows : HostFlows)
    → IsReported conns conn flows
    → IsReported conns conn (lookup_names resolve flows)
unfolding named set_lookuped_name
named-IsReported resolve conns conn flows (k, f, found, d) = (
  k,
  set_lookuped_name resolve f,
  lookup-lookup_names resolve k flows ∙ rw found refl,
  record {
    direction = d.direction;
    local_port = d.local_port;
    peer_port = d.peer_port;
    local_addr = d.local_addr;
    peer_addr = d.peer_addr;
  },
)

flows_of_conns-IsReported :
    (opt : GetHostFlowsOption) (resolve : Text → Text) (ents : Option UserEnts)
    (conns : List InetDiagMsg) (conn : InetDiagMsg)
    → All HasIps conns
    → Among conn conns
    → is_counted opt.filter conn ≡ true
    → IsReported conns conn (flows_of_conns opt resolve ents conns)
unfolding flows_of_conns
flows_of_conns-IsReported opt resolve ents conns conn ips m e =
    let reported = add_conns-IsReported opt.filter ents conns conn ips m e in
    elim (Bool-cases opt.numeric) [
      | inl numeric ↦ rw numeric reported
      | inr names ↦ rw names (named-IsReported resolve conns conn _ reported)
    ]

after_entries-IsReported :
    (opt : GetHostFlowsOption) (resolve : Text → Text) (w : Outcome (Option UserEnts))
    (conns : List InetDiagMsg) (flows : HostFlows) (conn : InetDiagMsg)
    → (do
      ents ← w
      conns' ← netlink_connections (some conns)
      ok (flows_of_conns opt resolve ents conns'))
      ≡ ok flows
    → All HasIps conns
    → Among conn conns
    → is_counted opt.filter conn ≡ true
    → IsReported conns conn flows
unfolding netlink_connections
after_entries-IsReported opt resolve (ok ents) conns flows conn e ips m counted =
    let same : flows_of_conns opt resolve ents conns ≡ flows = cc in
    subst (IsReported conns conn) same
      (flows_of_conns-IsReported opt resolve ents conns conn ips m counted)
after_entries-IsReported opt resolve (err x) conns flows conn e ips m counted = absurd (cc)
after_entries-IsReported opt resolve panics conns flows conn e ips m counted = absurd (cc)

-- A netlink scan that succeeds on sockets with IP addresses reports each socket that is past the
-- handshake and passes the filter: some flow of the result has its direction, its addresses, and
-- the port of the end that listens.
pub get_host_flows_by_netlink-IsReported :
    (host : Host) (opt : GetHostFlowsOption) (conns : List InetDiagMsg) (flows : HostFlows)
    (conn : InetDiagMsg)
    → host.inet_diag ≡ some conns
    → get_host_flows_by_netlink host opt ≡ ok flows
    → All HasIps conns
    → Among conn conns
    → is_counted opt.filter conn ≡ true
    → IsReported conns conn flows
unfolding get_host_flows_by_netlink
get_host_flows_by_netlink-IsReported host opt conns flows conn answer e =
    after_entries-IsReported opt host.resolve (wanted_entries opt.processes host.user_entries) conns
      flows conn (rw answer at e)
