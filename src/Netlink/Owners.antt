-- ===== src/Netlink/Owners.antt =====
-- Which entry names the process of a flow in the netlink scan of connections.go.
use shawk.Prelude.{
  ◌≡◌, ◌∙◌, ◌≢◌, ◌⊎◌, ◌∷◌, ◌==◌, if◌then◌else◌, Bool-cases, Option-cases, Among, Text, text_eq,
  text_eq_iff, ℕ, refl, sym, ap, inl, inr, Option, none, some, List, [], arith, nat_eq,
  text_equality,
}
use shawk.Prelude.Map.{lookup, insert, index}
use shawk.Strconv.{format_uint}
use shawk.Strconv.Decimal.{format_uint-injective}
use shawk.Probe.{HostFlow, Process}
use shawk.Probe.Flows.{first_process}
use shawk.Net.{ip_string}
use shawk.Netutil.{
  tcp_listen, is_local_text, UserEnt, UserEnts, UserEntByLport, InetDiagMsg,
  netlink_filter_by_local_listening_ports,
}
use shawk.Netlink.{
  contains, ports_of, flow_of_conn, passive_flow, active_flow, process_of, or_else, own_ent,
  lport_ents, listener_ent,
}

-- Whose entry counts for a connection: its own socket's, unless its inode is 0 or has no entry, and
-- then that of a listener on its local port.
abbrev pub Serves : UserEnts → InetDiagMsg → InetDiagMsg → Type 0
Serves ents conn l =
    ((l ≡ conn) × (conn.inode ≢ 0))
    ⊎ (((conn.inode ≡ 0) ⊎ (lookup conn.inode ents ≡ none))
        × (l.state ≡ tcp_listen)
        × (l.src_port ≡ conn.src_port))

-- The entry of a socket that counts for the connection names the process.
abbrev pub IsOwner : UserEnts → List InetDiagMsg → InetDiagMsg → Process → Type 0
IsOwner ents conns conn p =
    (l : InetDiagMsg) × (ent : UserEnt) × Among l conns
    × (lookup l.inode ents ≡ some ent)
    × (p ≡ record { name = ent.pname; pgid = ent.pgrp })
    × Serves ents conn l

pub first_process-some :
    (fs : List HostFlow) (p : Process)
    → first_process fs ≡ some p
    → (f : HostFlow) × Among f fs × (f.process ≡ some p)
unfolding first_process
first_process-some [] p h = cc
first_process-some (f ∷ fs) p h = elim (Option-cases f.process) [
  | inl nothing ↦ let (g, m, e) = first_process-some fs p (ground arith) in (g, inr m, e)
  | inr (q, one) ↦ (f, inl refl, ground arith)
]

Among-listening :
    (conns : List InetDiagMsg) (l : InetDiagMsg)
    → Among l (netlink_filter_by_local_listening_ports conns)
    → Among l conns × (l.state ≡ tcp_listen)
unfolding netlink_filter_by_local_listening_ports
Among-listening [] l m = elim m [ ]
Among-listening (c ∷ conns) l m =
    let later : Among l (netlink_filter_by_local_listening_ports conns)
        → Among l (c ∷ conns) × (l.state ≡ tcp_listen) =
      λ n. let (at, state) = Among-listening conns l n in (inr at, state) in
    elim (Bool-cases (c.state == tcp_listen)) [
      | inr other ↦ later (rw other at m)
      | inl listening ↦ elim (Bool-cases (is_local_text (ip_string c.src_ip))) [
        | inr remote ↦ later (rw (listening, remote) at m)
        | inl local ↦ elim (rw (listening, local) at m) [
          | inl here ↦
              (inl here, ap (λ (x : InetDiagMsg). x.state) here ∙ ground (arith, listening))
          | inr n ↦ later n
        ]
      ]
    ]

index-insert :
    (k at : Text) (v : Option UserEnt) (m : UserEntByLport)
    → index at (insert k v m) ≡ (if k == at then v else index at m)
unfolding index insert
index-insert k at v [] = refl
index-insert k at v ((j, w) ∷ m) =
    ground (arith, text_eq_iff j at, text_eq_iff j k, text_eq_iff k at, index-insert k at v m)

listener_found :
    (ents : UserEnts) (lport : Text) (lconns : List InetDiagMsg) (m : UserEntByLport)
    (ent : UserEnt)
    → index lport (lport_ents ents m lconns) ≡ some ent
    → (index lport m ≡ some ent)
      ⊎ ((l : InetDiagMsg) × Among l lconns
          × (lookup l.inode ents ≡ some ent)
          × (format_uint l.src_port ≡ lport))
unfolding lport_ents
listener_found ents lport [] m ent h = inl h
listener_found ents lport (l ∷ lconns) m ent h =
    let key = format_uint l.src_port in
    elim (listener_found ents lport lconns (insert key (lookup l.inode ents) m) ent h) [
      | inr (c, later, e, port) ↦ inr (c, inr later, e, port)
      | inl old ↦
          let found = sym (index-insert key lport (lookup l.inode ents) m) ∙ old in
          elim (Bool-cases (text_eq key lport)) [
            | inl same ↦ inr (l, inl refl, rw same at found, (text_eq_iff key lport).0 same)
            | inr other ↦ inl (rw other at found)
          ]
    ]

process_of-some :
    (o : Option UserEnt) (p : Process)
    → process_of o ≡ some p
    → (ent : UserEnt) × (o ≡ some ent) × (p ≡ record { name = ent.pname; pgid = ent.pgrp })
unfolding process_of
process_of-some none p h = cc
process_of-some (some ent) p h = (ent, refl, cc)

none-some : {e : UserEnt} → none ≢ some e
none-some h = cc

or_else-some :
    (o other : Option UserEnt) (ent : UserEnt)
    → or_else o other ≡ some ent
    → (o ≡ some ent) ⊎ ((o ≡ none) × (other ≡ some ent))
unfolding or_else
or_else-some none other ent h = inr (refl, h)
or_else-some (some e) other ent h = inl h

own_ent-some :
    (ents : UserEnts) (ino : ℕ) (ent : UserEnt)
    → own_ent (some ents) ino ≡ some ent
    → (ino ≢ 0) × (lookup ino ents ≡ some ent)
unfolding own_ent
own_ent-some ents ino ent h = elim (Bool-cases (ino == 0)) [
  | inl none_at ↦ absurd (none-some (rw none_at at h))
  | inr other ↦ (ground (arith, other), rw other at h)
]

own_ent-none :
    (ents : UserEnts) (ino : ℕ)
    → own_ent (some ents) ino ≡ none
    → (ino ≡ 0) ⊎ (lookup ino ents ≡ none)
unfolding own_ent
own_ent-none ents ino h = elim (Bool-cases (ino == 0)) [
  | inl none_at ↦ inl (ground (arith, none_at))
  | inr other ↦ inr (rw other at h)
]

listener_ent-IsFound :
    (ents : UserEnts) (conns : List InetDiagMsg) (port : ℕ) (ent : UserEnt)
    → listener_ent (some ents) (netlink_filter_by_local_listening_ports conns) (format_uint port)
      ≡ some ent
    → (l : InetDiagMsg) × Among l conns
      × (lookup l.inode ents ≡ some ent)
      × (l.state ≡ tcp_listen)
      × (l.src_port ≡ port)
unfolding listener_ent index
listener_ent-IsFound ents conns port ent h =
    let lconns = netlink_filter_by_local_listening_ports conns in
    elim (listener_found ents (format_uint port) lconns [] ent h) [
      | inl nothing ↦ absurd (none-some nothing)
      | inr (l, m, e, same) ↦
          let (at, state) = Among-listening conns l m in
          (l, at, e, state, format_uint-injective l.src_port port same)
    ]

own-IsOwner :
    (ents : UserEnts) (conns : List InetDiagMsg) (conn : InetDiagMsg) (p : Process)
    → Among conn conns
    → process_of (own_ent (some ents) conn.inode) ≡ some p
    → IsOwner ents conns conn p
own-IsOwner ents conns conn p m h =
    let (ent, one, same) = process_of-some (own_ent (some ents) conn.inode) p h in
    let (inode, found) = own_ent-some ents conn.inode ent one in
    (conn, ent, m, found, same, inl (refl, inode))

own_or_listener-IsOwner :
    (ents : UserEnts) (conns : List InetDiagMsg) (conn : InetDiagMsg) (p : Process)
    → Among conn conns
    → process_of (
        or_else (own_ent (some ents) conn.inode) (
          listener_ent
            (some ents)
            (netlink_filter_by_local_listening_ports conns)
            (format_uint conn.src_port)))
      ≡ some p
    → IsOwner ents conns conn p
own_or_listener-IsOwner ents conns conn p m h =
    let own = own_ent (some ents) conn.inode in
    let listener =
      listener_ent (some ents) (netlink_filter_by_local_listening_ports conns)
        (format_uint conn.src_port) in
    let (ent, one, same) = process_of-some (or_else own listener) p h in
    elim (or_else-some own listener ent one) [
      | inl its ↦
          let (inode, found) = own_ent-some ents conn.inode ent its in
          (conn, ent, m, found, same, inl (refl, inode))
      | inr (nothing, other) ↦
          let (l, at, found, state, port) =
            listener_ent-IsFound ents conns conn.src_port ent other in
          (l, ent, at, found, same, inr (own_ent-none ents conn.inode nothing, state, port))
    ]

pub flow_of_conn-IsOwner :
    (ents : UserEnts) (conns : List InetDiagMsg) (conn : InetDiagMsg) (p : Process)
    → Among conn conns
    → (flow_of_conn (some ents) (netlink_filter_by_local_listening_ports conns) conn).process
      ≡ some p
    → IsOwner ents conns conn p
unfolding flow_of_conn passive_flow active_flow
flow_of_conn-IsOwner ents conns conn p m h =
    let lconns = netlink_filter_by_local_listening_ports conns in
    elim (Bool-cases (contains (ports_of lconns) (format_uint conn.src_port))) [
      | inl passive ↦ own_or_listener-IsOwner ents conns conn p m (rw passive at h)
      | inr active ↦ own-IsOwner ents conns conn p m (rw active at h)
    ]

pub flow_of_conn-none :
    (lconns : List InetDiagMsg) (conn : InetDiagMsg)
    → (flow_of_conn none lconns conn).process ≡ none
unfolding flow_of_conn passive_flow active_flow process_of or_else own_ent listener_ent
flow_of_conn-none lconns conn = ground arith
