-- ===== src/Db/Finds.antt =====
-- What the searches of db.go find: a peer's node at its address.
use shawk.Prelude.{
  ◌≡◌, ◌&&◌, ◌∷◌, ◌==◌, Bool-cases, Option-cases, any, any-witness, any_of_Among, any_mono, Among,
  Text, ℕ, inl, inr, true, some, List, [], arith, nat_eq, text_equality,
}
use shawk.Db.Tables.{PassiveNode, FlowRow, Tables, Postgres, IsPostgres}
use shawk.Db.Session.{Session}
use shawk.Db.Statements.{
  first_row, same_process, runs_at, active_at, passive_on, active_rows, find_active_nodes,
  passive_rows, find_passive_nodes,
}
use shawk.Db.Grows.{Grows, Grows-refl, process_is, active_is, passive_is}
use shawk.Db.Posts.{Post}

-- The node is passive, on the port, and its process runs at the address.
abbrev pub PeerPassive : Postgres → Text → Text → ℕ → Tables → Type 0
PeerPassive pg ipv4 port id u =
    (ip : Text) × (p : ℕ) × (pid : ℕ) × (pg.to_inet ipv4 ≡ some ip)
    × (pg.to_integer port ≡ some p)
    × (passive_is id pid p u ≡ true)
    × (runs_at ip u.processes pid ≡ true)

-- The node is active, and its process runs at the address.
abbrev pub PeerActive : Postgres → Text → ℕ → Tables → Type 0
PeerActive pg ipv4 id u =
    (ip : Text) × (pid : ℕ) × (pg.to_inet ipv4 ≡ some ip)
    × (active_is id pid u ≡ true)
    × (runs_at ip u.processes pid ≡ true)

-- A process at an address runs at it.
pub runs_at_of_process_is :
    (id : ℕ) (ip : Text) (pgid : ℕ) (pname : Text) (t : Tables)
    → process_is id ip pgid pname t ≡ true
    → runs_at ip t.processes id ≡ true
unfolding process_is runs_at same_process
runs_at_of_process_is id ip pgid pname t h =
    any_mono (λ p. p.process_id == id && same_process ip pgid pname p)
      (λ p. p.process_id == id && p.ipv4 == ip) t.processes (λ p e. ground arith) h

passive_rows-found :
    (ip : Text) (port : ℕ) (t : Tables) (ns : List PassiveNode) (id : ℕ)
    → Among id (passive_rows ip port t ns)
    → (pid : ℕ) × (any (λ n. n.node_id == id && n.process_id == pid && n.port == port) ns ≡ true)
      × (runs_at ip t.processes pid ≡ true)
unfolding passive_rows any
passive_rows-found ip port t [] id m = elim m [ ]
passive_rows-found ip port t (n ∷ ns) id m =
    elim (Bool-cases (runs_at ip t.processes n.process_id && n.port == port)) [
      | inl fits ↦ elim (rw fits at m) [
        | inl here ↦ (n.process_id, ground arith, ground arith)
        | inr later ↦
            let (pid, found, at) = passive_rows-found ip port t ns id later in
            (pid, ground arith, at)
      ]
      | inr other ↦
          let (pid, found, at) = passive_rows-found ip port t ns id (rw other at m) in
          (pid, ground arith, at)
    ]

active_rows-found :
    (port : ℕ) (ip : Text) (t : Tables) (fs : List FlowRow) (id : ℕ)
    → Among id (active_rows port ip t fs)
    → active_at ip t id ≡ true
unfolding active_rows
active_rows-found port ip t [] id m = elim m [ ]
active_rows-found port ip t (f ∷ fs) id m =
    elim (Bool-cases (passive_on port t f.destination_node_id && active_at ip t f.source_node_id)) [
      | inl fits ↦ elim (rw fits at m) [
        | inl here ↦ rw here (ground arith)
        | inr later ↦ active_rows-found port ip t fs id later
      ]
      | inr other ↦ active_rows-found port ip t fs id (rw other at m)
    ]

active_at-found :
    (ip : Text) (t : Tables) (id : ℕ)
    → active_at ip t id ≡ true
    → (pid : ℕ) × (active_is id pid t ≡ true) × (runs_at ip t.processes pid ≡ true)
unfolding active_at active_is
active_at-found ip t id h =
    let (n, m, e) =
      any-witness (λ n. n.node_id == id && runs_at ip t.processes n.process_id) t.active_nodes h in
    (
      n.process_id,
      any_of_Among (λ k. k.node_id == id && k.process_id == n.process_id) t.active_nodes n m
          (ground arith),
      ground arith,
    )

-- A row of an unordered result is one of the result's.
first_row-Post :
    (pg : Postgres) (s : Session) (ids : List ℕ) (P : ℕ → Tables → Type 0) (R : Tables → Type 0)
    → IsPostgres pg
    → ((id : ℕ) → Among id ids → P id s.tables)
    → R s.tables
    → Post P R (first_row pg ids, s)
unfolding first_row
first_row-Post pg s [] P R law each nothing = rw (law.first_none, first_row) nothing
first_row-Post pg s (x ∷ xs) P R law each nothing =
    let (y, e, m) = law.first_some x xs in rw (e, first_row) (each y m)

abbrev pub Found : ℕ → (ℕ → Tables → Type 0) → Tables → ℕ → Tables → Type 0
Found now P t id u = Grows now t u × P id u

pub find_passive_nodes-Post :
    (pg : Postgres) (now : ℕ) (ipv4 port : Text) (s : Session)
    → IsPostgres pg
    → Post
        (Found now (PeerPassive pg ipv4 port) s.tables)
        (Grows now s.tables)
        (find_passive_nodes pg ipv4 port s)
unfolding find_passive_nodes passive_is
find_passive_nodes-Post pg now ipv4 port s law = elim (Option-cases (pg.to_inet ipv4)) [
  | inl bad ↦ rw (bad, find_passive_nodes) tt
  | inr (ip, good) ↦ elim (Option-cases (pg.to_integer port)) [
    | inl bad ↦ rw (good, find_passive_nodes, bad) tt
    | inr (p, number) ↦
        rw (good, find_passive_nodes, number)
          (first_row-Post pg s (passive_rows ip p s.tables s.tables.passive_nodes)
            (Found now (PeerPassive pg ipv4 port) s.tables) (Grows now s.tables) law
            (λ id m.
              let (pid, found, at) = passive_rows-found ip p s.tables s.tables.passive_nodes id m in
              (Grows-refl now s.tables, (ip, p, pid, good, number, found, at)))
            (Grows-refl now s.tables))
  ]
]

pub find_active_nodes-Post :
    (pg : Postgres) (now : ℕ) (port ipv4 : Text) (s : Session)
    → IsPostgres pg
    → Post
        (Found now (PeerActive pg ipv4) s.tables)
        (Grows now s.tables)
        (find_active_nodes pg port ipv4 s)
unfolding find_active_nodes
find_active_nodes-Post pg now port ipv4 s law = elim (Option-cases (pg.to_integer port)) [
  | inl bad ↦ rw (bad, find_active_nodes) tt
  | inr (p, number) ↦ elim (Option-cases (pg.to_inet ipv4)) [
    | inl bad ↦ rw (number, find_active_nodes, bad) tt
    | inr (ip, good) ↦
        rw (number, find_active_nodes, good)
          (first_row-Post pg s (active_rows p ip s.tables s.tables.flows)
            (Found now (PeerActive pg ipv4) s.tables) (Grows now s.tables) law
            (λ id m.
              let (pid, found, at) =
                active_at-found ip s.tables id
                  (active_rows-found p ip s.tables s.tables.flows id m) in
              (Grows-refl now s.tables, (ip, pid, good, found, at)))
            (Grows-refl now s.tables))
  ]
]
