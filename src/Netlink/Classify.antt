-- ===== src/Netlink/Classify.antt =====
-- Passive and active flows in connections.go, against the sockets that listen.
use shawk.Prelude.{
  ◌≡◌, ◌∙◌, ◌&&◌, ◌∷◌, ◌==◌, if◌then◌else◌, ◌>>=◌, Bool-cases, keep, any, Among, Outcome, ok, err,
  panics, Text, text_eq_iff, ℕ, refl, sym, ap, inl, inr, Bool, true, Option, none, some, List, [],
  arith, nat_eq, text_equality,
}
use shawk.Prelude.Map.{lookup}
use shawk.Strconv.{format_uint}
use shawk.Strconv.Decimal.{format_uint-injective}
use shawk.Net.{ip_string}
use shawk.Probe.{HostFlow, HostFlows, flow_active, flow_passive, many, set_lookuped_name}
use shawk.Probe.Origin.{SameEnds, insert_flows-origin}
use shawk.Netutil.{
  UserEnts, InetDiagMsg, tcp_listen, is_local_text, netlink_connections,
  netlink_filter_by_local_listening_ports,
}
use shawk.Netlink.{
  GetHostFlowsOption, Host, contains, ports_of, is_counted, flow_of_conn, add_conns, lookup_names,
  wanted_entries, flows_of_conns, get_host_flows_by_netlink,
}
use shawk.Netlink.Counts.{counted_flows, add_conns-counted}

-- Some socket listens on the port, at an address that counts as local.
unfoldable pub listens : List InetDiagMsg → ℕ → Bool
listens conns port =
    any (λ c. c.state == tcp_listen && is_local_text (ip_string c.src_ip) && c.src_port == port)
      conns

contains-listens :
    (conns : List InetDiagMsg) (port : ℕ)
    → contains (ports_of (netlink_filter_by_local_listening_ports conns)) (format_uint port)
      ≡ listens conns port
unfolding contains ports_of netlink_filter_by_local_listening_ports listens any
contains-listens [] port = refl
contains-listens (c ∷ conns) port = ground (
  arith,
  contains-listens conns port,
  format_uint-injective c.src_port port,
  text_eq_iff (format_uint c.src_port) (format_uint port),
)

-- How the flow of a connection reads: on a listening port the local port is kept and the peer's
-- is dropped, on any other port it is the other way round.
pub record Describes (conns : List InetDiagMsg) (f : HostFlow) (conn : InetDiagMsg) : Type 0 where
  pub direction : f.direction ≡ (if listens conns conn.src_port then flow_passive else flow_active)
  pub local_port :
      f.local.port ≡ (if listens conns conn.src_port then format_uint conn.src_port else many)
  pub peer_port :
      f.peer.port ≡ (if listens conns conn.src_port then many else format_uint conn.dst_port)
  pub local_addr : f.local.addr ≡ ip_string conn.src_ip
  pub peer_addr : f.peer.addr ≡ ip_string conn.dst_ip

pub flow_of_conn-Describes :
    (ents : Option UserEnts) (conns : List InetDiagMsg) (conn : InetDiagMsg)
    → Describes conns (flow_of_conn ents (netlink_filter_by_local_listening_ports conns) conn) conn
unfolding flow_of_conn
flow_of_conn-Describes ents conns conn = ground (arith, contains-listens conns conn.src_port)

-- A flow describes one of the sockets that the scan counts.
abbrev pub Reports : Text → List InetDiagMsg → HostFlow → Type 0
Reports filter conns f =
    (conn : InetDiagMsg) × Among conn conns
    × (is_counted filter conn ≡ true)
    × Describes conns f conn

pub Among-counted :
    (filter : Text) (ents : Option UserEnts) (lconns : List InetDiagMsg) (conns : List InetDiagMsg)
    (g : HostFlow)
    → Among g (counted_flows filter ents lconns conns)
    → (conn : InetDiagMsg) × Among conn conns
      × (is_counted filter conn ≡ true)
      × (g ≡ flow_of_conn ents lconns conn)
unfolding counted_flows keep
Among-counted filter ents lconns [] g m = elim m [ ]
Among-counted filter ents lconns (c ∷ conns) g m = elim (Bool-cases (is_counted filter c)) [
  | inl counted ↦ elim (rw counted at m) [
    | inl same ↦ (c, inl refl, counted, same)
    | inr later ↦
        let (conn, at, k, e) = Among-counted filter ents lconns conns g later in
        (conn, inr at, k, e)
  ]
  | inr skipped ↦
      let (conn, at, k, e) = Among-counted filter ents lconns conns g (rw skipped at m) in
      (conn, inr at, k, e)
]

pub SameEnds-Describes :
    (conns : List InetDiagMsg) (conn : InetDiagMsg) (f g : HostFlow)
    → SameEnds f g
    → Describes conns g conn
    → Describes conns f conn
SameEnds-Describes conns conn f g s d = record {
  direction = s.direction ∙ d.direction;
  local_port = ap (λ a. a.port) s.local ∙ d.local_port;
  peer_port = ap (λ a. a.port) s.peer ∙ d.peer_port;
  local_addr = ap (λ a. a.addr) s.local ∙ d.local_addr;
  peer_addr = ap (λ a. a.addr) s.peer ∙ d.peer_addr;
}

add_conns-Reports :
    (filter : Text) (ents : Option UserEnts) (conns : List InetDiagMsg) (k : Text) (f : HostFlow)
    → lookup k (add_conns filter ents (netlink_filter_by_local_listening_ports conns) [] conns)
      ≡ some f
    → Reports filter conns f
add_conns-Reports filter ents conns k f e =
    let lconns = netlink_filter_by_local_listening_ports conns in
    let fs = counted_flows filter ents lconns conns in
    let (g, m, key, same) = insert_flows-origin k fs f (rw add_conns-counted at e) in
    let (conn, at, counted, p) = Among-counted filter ents lconns conns g m in
    (
      conn,
      at,
      counted,
      SameEnds-Describes conns conn f g same (rw p (flow_of_conn-Describes ents conns conn)),
    )

unfoldable pub named : (Text → Text) → Option HostFlow → Option HostFlow
named resolve none = none
named resolve (some f) = some (set_lookuped_name resolve f)

pub lookup-lookup_names :
    (resolve : Text → Text) (k : Text) (flows : HostFlows)
    → lookup k (lookup_names resolve flows) ≡ named resolve (lookup k flows)
unfolding lookup lookup_names named
lookup-lookup_names resolve k [] = refl
lookup-lookup_names resolve k ((j, f) ∷ flows) = ground (arith, lookup-lookup_names resolve k flows)

named-Reports :
    (filter : Text) (conns : List InetDiagMsg) (resolve : Text → Text) (o : Option HostFlow)
    (f : HostFlow)
    → ((g : HostFlow) → o ≡ some g → Reports filter conns g)
    → named resolve o ≡ some f
    → Reports filter conns f
unfolding named set_lookuped_name
named-Reports filter conns resolve none f h e = cc
named-Reports filter conns resolve (some g) f h e =
    let (conn, at, counted, d) = h g refl in (conn, at, counted, ground (arith, d))

flows_of_conns-Reports :
    (opt : GetHostFlowsOption) (resolve : Text → Text) (ents : Option UserEnts)
    (conns : List InetDiagMsg) (k : Text) (f : HostFlow)
    → lookup k (flows_of_conns opt resolve ents conns) ≡ some f
    → Reports opt.filter conns f
unfolding flows_of_conns
flows_of_conns-Reports opt resolve ents conns k f e =
    let flows =
      add_conns opt.filter ents (netlink_filter_by_local_listening_ports conns) [] conns in
    elim (Bool-cases opt.numeric) [
      | inl numeric ↦ add_conns-Reports opt.filter ents conns k f (rw numeric at e)
      | inr names ↦
          named-Reports opt.filter conns resolve (lookup k flows) f
            (add_conns-Reports opt.filter ents conns k)
            (sym (lookup-lookup_names resolve k flows) ∙ rw names at e)
    ]

after_entries-Reports :
    (opt : GetHostFlowsOption) (resolve : Text → Text) (w : Outcome (Option UserEnts))
    (conns : List InetDiagMsg) (flows : HostFlows) (k : Text) (f : HostFlow)
    → (do
      ents ← w
      conns' ← netlink_connections (some conns)
      ok (flows_of_conns opt resolve ents conns'))
      ≡ ok flows
    → lookup k flows ≡ some f
    → Reports opt.filter conns f
unfolding netlink_connections
after_entries-Reports opt resolve (ok ents) conns flows k f e found =
    flows_of_conns-Reports opt resolve ents conns k f (cc)
after_entries-Reports opt resolve (err x) conns flows k f e found = cc
after_entries-Reports opt resolve panics conns flows k f e found = cc

-- Every flow that a successful netlink scan reports describes a socket of the kernel's answer that
-- is past the handshake and passes the filter. It is passive exactly when some socket listens on
-- the local port at one of the addresses 0.0.0.0, 127.0.0.1 and ::; then it has that port and the peer's port "many", and otherwise the peer's port
-- and the local port "many".
pub get_host_flows_by_netlink-Reports :
    (host : Host) (opt : GetHostFlowsOption) (conns : List InetDiagMsg) (flows : HostFlows)
    (k : Text) (f : HostFlow)
    → host.inet_diag ≡ some conns
    → get_host_flows_by_netlink host opt ≡ ok flows
    → lookup k flows ≡ some f
    → Reports opt.filter conns f
unfolding get_host_flows_by_netlink
get_host_flows_by_netlink-Reports host opt conns flows k f answer e found =
    after_entries-Reports opt host.resolve (wanted_entries opt.processes host.user_entries) conns
      flows k f (rw answer at e) found
