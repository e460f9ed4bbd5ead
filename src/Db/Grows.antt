-- ===== src/Db/Grows.antt =====
-- No statement of db.go takes a process, a node or an edge away.
use shawk.Prelude.{
  ◌≡◌, ◌∙◌, ◌&&◌, ◌∷◌, ◌++◌, ◌==◌, Bool-cases, Option-cases, any, any-append_left, Text, ℕ, refl,
  inl, inr, Bool, true, List, [], arith, nat_eq, text_equality,
}
use shawk.Db.Tables.{ProcessRow, ActiveNode, PassiveNode, FlowRow, Tables}
use shawk.Db.Session.{Session}
use shawk.Db.Statements.{
  same_process, find_process, touch_process, write_process, has_process, find_active, write_active,
  find_passive, write_passive, runs_at, same_edge, set_connections, write_flow,
}

-- A process of the given id and attributes is there.
unfoldable pub process_is : ℕ → Text → ℕ → Text → Tables → Bool
process_is id ip pgid pname t =
    any (λ p. p.process_id == id && same_process ip pgid pname p) t.processes

-- An active node of the given id belongs to the process.
unfoldable pub active_is : ℕ → ℕ → Tables → Bool
active_is node pid t = any (λ n. n.node_id == node && n.process_id == pid) t.active_nodes

-- A passive node of the given id belongs to the process and has the port.
unfoldable pub passive_is : ℕ → ℕ → ℕ → Tables → Bool
passive_is node pid port t =
    any (λ n. n.node_id == node && n.process_id == pid && n.port == port) t.passive_nodes

-- A flow leads from the one node to the other, and was updated at the given time.
unfoldable pub edge_is : ℕ → ℕ → ℕ → Tables → Bool
edge_is now source destination t =
    any (λ f. same_edge source destination f && f.updated == now) t.flows

-- The tables `u` have what `t` has, where writes are dated `now`.
pub record Grows (now : ℕ) (t u : Tables) : Type 0 where
  pub hosts :
      (ip : Text) (pid : ℕ) → runs_at ip t.processes pid ≡ true → runs_at ip u.processes pid ≡ true
  pub processes :
      (id : ℕ) (ip : Text) (pgid : ℕ) (pname : Text)
      → process_is id ip pgid pname t ≡ true
      → process_is id ip pgid pname u ≡ true
  pub active : (node pid : ℕ) → active_is node pid t ≡ true → active_is node pid u ≡ true
  pub passive :
      (node pid port : ℕ) → passive_is node pid port t ≡ true → passive_is node pid port u ≡ true
  pub edges :
      (source destination : ℕ)
      → edge_is now source destination t ≡ true
      → edge_is now source destination u ≡ true

pub Grows-refl : (now : ℕ) (t : Tables) → Grows now t t
Grows-refl now t = record {
  hosts = λ ip pid h. h;
  processes = λ id ip pgid pname h. h;
  active = λ node pid h. h;
  passive = λ node pid port h. h;
  edges = λ source destination h. h;
}

pub Grows-trans : {now : ℕ} {t u v : Tables} → Grows now t u → Grows now u v → Grows now t v
Grows-trans g h = record {
  hosts = λ ip pid x. h.hosts ip pid (g.hosts ip pid x);
  processes = λ id ip pgid pname x. h.processes id ip pgid pname (g.processes id ip pgid pname x);
  active = λ node pid x. h.active node pid (g.active node pid x);
  passive = λ node pid port x. h.passive node pid port (g.passive node pid port x);
  edges = λ source destination x. h.edges source destination (g.edges source destination x);
}

Grows-processes :
    (now : ℕ) (t : Tables) (ps : List ProcessRow)
    → ((q : ProcessRow → Bool)
        → ((p : ProcessRow) (n : ℕ) → q (record p { updated = n }) ≡ q p)
        → any q t.processes ≡ true
        → any q ps ≡ true)
    → Grows now t (record t { processes = ps })
unfolding process_is active_is passive_is edge_is same_process runs_at
Grows-processes now t ps h = record {
  hosts = λ ip pid. h (λ p. p.process_id == pid && p.ipv4 == ip) (λ p n. refl);
  processes =
      λ id ip pgid pname. h (λ p. p.process_id == id && same_process ip pgid pname p) (λ p n. refl);
  active = λ node pid x. x;
  passive = λ node pid port x. x;
  edges = λ source destination x. x;
}

Grows-active :
    (now : ℕ) (t : Tables) (n : ActiveNode)
    → Grows now t (record t { active_nodes = t.active_nodes ++ n ∷ [] })
unfolding process_is active_is passive_is edge_is
Grows-active now t n = record {
  hosts = λ ip pid x. x;
  processes = λ id ip pgid pname x. x;
  active = λ node pid. any-append_left _ t.active_nodes (n ∷ []);
  passive = λ node pid port x. x;
  edges = λ source destination x. x;
}

Grows-passive :
    (now : ℕ) (t : Tables) (n : PassiveNode)
    → Grows now t (record t { passive_nodes = t.passive_nodes ++ n ∷ [] })
unfolding process_is active_is passive_is edge_is
Grows-passive now t n = record {
  hosts = λ ip pid x. x;
  processes = λ id ip pgid pname x. x;
  active = λ node pid x. x;
  passive = λ node pid port. any-append_left _ t.passive_nodes (n ∷ []);
  edges = λ source destination x. x;
}

Grows-flows :
    (now : ℕ) (t : Tables) (fs : List FlowRow)
    → ((source destination : ℕ)
        → edge_is now source destination t ≡ true
        → any (λ f. same_edge source destination f && f.updated == now) fs ≡ true)
    → Grows now t (record t { flows = fs })
unfolding process_is active_is passive_is edge_is
Grows-flows now t fs h = record {
  hosts = λ ip pid x. x;
  processes = λ id ip pgid pname x. x;
  active = λ node pid x. x;
  passive = λ node pid port x. x;
  edges = h;
}

pub any-touch_process :
    (now id : ℕ) (ps : List ProcessRow) (q : ProcessRow → Bool)
    → ((p : ProcessRow) (n : ℕ) → q (record p { updated = n }) ≡ q p)
    → any q (touch_process now id ps) ≡ any q ps
unfolding any touch_process
any-touch_process now id [] q h = refl
any-touch_process now id (p ∷ ps) q h = ground (arith, h p now, any-touch_process now id ps q h)

pub any-set_connections :
    (now a b connections : ℕ) (fs : List FlowRow) (source destination : ℕ)
    → any (λ f. same_edge source destination f && f.updated == now) fs ≡ true
    → any
        (λ f. same_edge source destination f && f.updated == now)
        (set_connections now a b connections fs)
      ≡ true
unfolding any set_connections same_edge
any-set_connections now a b connections [] source destination h = h
any-set_connections now a b connections (f ∷ fs) source destination h =
    ground (arith, h, any-set_connections now a b connections fs source destination)

-- An edge that is set is dated.
pub set_connections-dated :
    (now source destination connections : ℕ) (fs : List FlowRow)
    → any (same_edge source destination) fs ≡ true
    → any
        (λ f. same_edge source destination f && f.updated == now)
        (set_connections now source destination connections fs)
      ≡ true
unfolding any set_connections same_edge
set_connections-dated now source destination connections [] h = h
set_connections-dated now source destination connections (f ∷ fs) h =
    ground (arith, h, set_connections-dated now source destination connections fs)

pub write_process-Grows :
    (now : ℕ) (ip : Text) (pgid : ℕ) (pname : Text) (s : Session)
    → Grows now s.tables (write_process now ip pgid pname s).1.tables
unfolding write_process
write_process-Grows now ip pgid pname s =
    elim (Option-cases (find_process ip pgid pname s.tables.processes)) [
      | inl new ↦
          rw (new, write_process)
            (Grows-processes now s.tables _ (λ q h. any-append_left q s.tables.processes _))
      | inr (id, old) ↦
          rw (old, write_process)
            (Grows-processes now s.tables _
              (λ q h x. any-touch_process now id s.tables.processes q h ∙ x))
    ]

pub write_active-Grows :
    (now pid : ℕ) (s : Session) → Grows now s.tables (write_active pid s).1.tables
unfolding write_active
write_active-Grows now pid s = elim (Bool-cases (has_process pid s.tables.processes)) [
  | inl known ↦ elim (Option-cases (find_active pid s.tables.active_nodes)) [
    | inl new ↦ rw (known, new) (Grows-active now s.tables _)
    | inr (id, old) ↦ rw (known, old) (Grows-refl now s.tables)
  ]
  | inr unknown ↦ rw unknown (Grows-refl now s.tables)
]

pub write_passive-Grows :
    (now pid port : ℕ) (s : Session) → Grows now s.tables (write_passive pid port s).1.tables
unfolding write_passive
write_passive-Grows now pid port s = elim (Bool-cases (has_process pid s.tables.processes)) [
  | inl known ↦ elim (Option-cases (find_passive pid port s.tables.passive_nodes)) [
    | inl new ↦ rw (known, new) (Grows-passive now s.tables _)
    | inr (id, old) ↦ rw (known, old) (Grows-refl now s.tables)
  ]
  | inr unknown ↦ rw unknown (Grows-refl now s.tables)
]

pub write_flow-Grows :
    (now source destination connections : ℕ) (s : Session)
    → Grows now s.tables (write_flow now source destination connections s).1.tables
unfolding write_flow edge_is
write_flow-Grows now source destination connections s =
    elim (Bool-cases (any (same_edge source destination) s.tables.flows)) [
      | inl old ↦ rw old (
          Grows-flows now s.tables _
            (λ a b x. any-set_connections now source destination connections s.tables.flows a b x))
      | inr new ↦ rw new (Grows-flows now s.tables _ (λ a b. any-append_left _ s.tables.flows _))
    ]
