-- ===== src/Db/Insert/Recorded.antt =====
-- After a successful `InsertOrUpdateHostFlows` every flow is in the tables.
use mathlib.Core.Bool.{false≢true}
use mathlib.Core.Path.{subst}
use shawk.Prelude.{
  ◌+◌, ◌≡◌, ◌∷◌, ◌==◌, Bool-cases, All, Among, All-at, Outcome, ok, err, panics, ℕ, sym, ap, inl,
  inr, false, List, [], arith, nat_eq, text_equality,
}
use shawk.Probe.{HostFlow, flow_active, flow_passive}
use shawk.Db.Tables.{Tables, Postgres, IsPostgres}
use shawk.Db.Session.{Session, query}
use shawk.Db.Statements.{insert_processes}
use shawk.Db.Grows.{Grows, Grows-refl, Grows-trans}
use shawk.Db.Posts.{MadeProcess, insert_processes-Post}
use shawk.Db.Insert.{
  pgid_of, pname_of, is_local_flow, insert_passive, insert_active, by_direction, insert_one,
  insert_all, finish, insert_or_update_host_flows,
}
use shawk.Db.Insert.Done.{Done, Done-bind, Done-query, Done-map}
use shawk.Db.Insert.Edges.{
  LocalProcess, IsActiveEdge, IsPassiveEdge, IsActiveEdge-Grows, IsPassiveEdge-Grows,
}
use shawk.Db.Insert.Branches.{insert_active-Done, insert_passive-Done}

-- What one round of the loop has written of its flow.
abbrev Written : Postgres → ℕ → HostFlow → Tables → Type 0
Written pg now f t =
    (f.direction ≡ flow_active → IsActiveEdge pg now f t)
    × (f.direction ≡ flow_passive → IsPassiveEdge pg now f t)

Written-Grows :
    (pg : Postgres) (now : ℕ) (f : HostFlow) {t u : Tables}
    → Grows now t u
    → Written pg now f t
    → Written pg now f u
Written-Grows pg now f g (a, p) =
    (λ e. IsActiveEdge-Grows pg now f g (a e), λ e. IsPassiveEdge-Grows pg now f g (p e))

module _ (pg : Postgres) (law : IsPostgres pg) (now : ℕ) where
  by_direction-Done :
      (f : HostFlow) (pid : ℕ) (s : Session)
      → LocalProcess pg f pid s.tables
      → Done (λ n u. Grows now s.tables u × Written pg now f u) (by_direction pg now f pid s)
  unfolding by_direction
  by_direction-Done f pid s p = elim (Bool-cases (f.direction == flow_passive)) [
    | inl passive ↦
        rw (passive, by_direction)
          (Done-map _ _ (insert_passive pg now f pid s) (insert_passive-Done pg law now f pid s p)
            λ n u (g, edge). (g, (λ e. absurd (ground arith), λ e. edge)))
    | inr not_passive ↦ elim (Bool-cases (f.direction == flow_active)) [
      | inl active ↦
          rw (not_passive, by_direction, active)
            (Done-map _ _ (insert_active pg now f pid s) (insert_active-Done pg law now f pid s p)
              λ n u (g, edge). (g, (λ e. edge, λ e. absurd (ground arith))))
      | inr other ↦
          rw (not_passive, by_direction, other)
            (Grows-refl now s.tables, (λ e. absurd (ground arith), λ e. absurd (ground arith)))
    ]
  ]

  pub insert_one-Done :
      (f : HostFlow) (s : Session)
      → Done (λ n u. Grows now s.tables u × Written pg now f u) (insert_one pg now f s)
  unfolding insert_one
  insert_one-Done f s =
      Done-bind (MadeProcess now pg f.local.addr (pgid_of f.process) (pname_of f.process) s.tables)
        _ (query pg (insert_processes pg now f.local.addr (pgid_of f.process) (pname_of f.process)))
        (λ local_process. by_direction pg now f local_process) s
        (Done-query pg _
          (insert_processes pg now f.local.addr (pgid_of f.process) (pname_of f.process)) s
          (insert_processes-Post pg now f.local.addr (pgid_of f.process) (pname_of f.process)
            (record s { answers = s.answers + 1 })))
        λ pid u (g, ip, good, is).
          Done-map _ _ (by_direction pg now f pid u)
            (by_direction-Done f pid u (record { ip = ip; address = good; found = is }))
            λ n v (g', written). (Grows-trans g g', written)

  insert_all-Done :
      (fs : List HostFlow) (s : Session)
      → Done
          (λ n u. Grows now s.tables u × All (λ f. is_local_flow f ≡ false → Written pg now f u) fs)
          (insert_all pg now fs s)
  unfolding insert_all
  insert_all-Done [] s = (Grows-refl now s.tables, tt)
  insert_all-Done (f ∷ fs) s = elim (Bool-cases (is_local_flow f)) [
    | inl skipped ↦ rw skipped (
        Done-map _ _ (insert_all pg now fs s) (insert_all-Done fs s)
          λ n u (g, rest). (g, (λ e. absurd (false≢true (sym e)), rest)))
    | inr counted ↦ rw counted (
        Done-bind _ _ (insert_one pg now f) (λ _. insert_all pg now fs) s (insert_one-Done f s)
          λ n u (g, written).
            Done-map _ _ (insert_all pg now fs u) (insert_all-Done fs u)
              λ m v (g', rest). (Grows-trans g g', (λ e. Written-Grows pg now f g' written, rest)))
  ]

  finish-Done :
      (P : Tables → Type 0) (before : Session) (r : Outcome ℕ × Session) (n : ℕ) (s' : Session)
      → Done (λ m u. P u) r
      → finish pg now before r ≡ (ok n, s')
      → P s'.tables
  unfolding finish
  finish-Done P before (ok m, u) n s' h e = elim (Bool-cases (pg.fails u.answers)) [
    | inl fault ↦ absurd (ground arith)
    | inr fine ↦ subst P (ap (λ (r : Outcome ℕ × Session). r.1.tables) (rw (fine, finish) at e)) h
  ]
  finish-Done P before (err x, u) n s' h e = cc
  finish-Done P before (panics, u) n s' h e = cc

  Written-of_success :
      (fs : List HostFlow) (s s' : Session) (n : ℕ) (f : HostFlow)
      → insert_or_update_host_flows pg now fs s ≡ (ok n, s')
      → Among f fs
      → is_local_flow f ≡ false
      → Written pg now f s'.tables
  unfolding insert_or_update_host_flows
  Written-of_success [] s s' n f e m counted = elim m [ ]
  Written-of_success (g ∷ fs) s s' n f e m counted = elim (Bool-cases (pg.fails s.answers)) [
    | inl fault ↦ absurd (ground arith)
    | inr fine ↦
        let begun = record s { answers = s.answers + 1 } in
        finish-Done (λ t. Written pg now f t) s (insert_all pg now (g ∷ fs) begun) n s'
          (Done-map _ _ (insert_all pg now (g ∷ fs) begun) (insert_all-Done (g ∷ fs) begun)
            λ k u (grows, all).
              All-at (λ x. is_local_flow x ≡ false → Written pg now x u) (g ∷ fs) f m all counted)
          (rw (fine, insert_or_update_host_flows) at e)
  ]

  -- On a server that answers a search with one of its rows, a call that returns without error has
  -- recorded every flow that the host opened, loopback addresses apart: the tables hold the flow's
  -- process at the local address, an active node of it, a passive node at the peer's address and
  -- port, and an edge from the one node to the other that was updated at the time of the call.
  pub insert_or_update_host_flows-IsActiveEdge :
      (fs : List HostFlow) (s s' : Session) (n : ℕ) (f : HostFlow)
      → insert_or_update_host_flows pg now fs s ≡ (ok n, s')
      → Among f fs
      → is_local_flow f ≡ false
      → f.direction ≡ flow_active
      → IsActiveEdge pg now f s'.tables
  insert_or_update_host_flows-IsActiveEdge fs s s' n f e m counted d =
      (Written-of_success fs s s' n f e m counted).0 d

  -- On a server that answers a search with one of its rows, a call that returns without error has
  -- recorded every flow that a peer opened, loopback addresses apart: the tables hold the flow's
  -- process at the local address, a passive node of it on the local port, an active node at the
  -- peer's address, and an edge from the peer's node to the local one that was updated at the time
  -- of the call.
  pub insert_or_update_host_flows-IsPassiveEdge :
      (fs : List HostFlow) (s s' : Session) (n : ℕ) (f : HostFlow)
      → insert_or_update_host_flows pg now fs s ≡ (ok n, s')
      → Among f fs
      → is_local_flow f ≡ false
      → f.direction ≡ flow_passive
      → IsPassiveEdge pg now f s'.tables
  insert_or_update_host_flows-IsPassiveEdge fs s s' n f e m counted d =
      (Written-of_success fs s s' n f e m counted).1 d
