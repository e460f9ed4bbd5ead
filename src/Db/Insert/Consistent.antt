-- ===== src/Db/Insert/Consistent.antt =====
-- `InsertOrUpdateHostFlows` keeps the constraints of the schema.
use shawk.Prelude.{◌+◌, ◌∷◌, Bool-cases, Outcome, ok, err, panics, ℕ, inl, inr, List, [], arith}
use shawk.Probe.{HostFlow}
use shawk.Db.Tables.{Sequences, Postgres}
use shawk.Db.Session.{Session}
use shawk.Db.Consistent.{IsConsistent}
use shawk.Db.Consistent.Inserts.{
  insert_processes-IsConsistent, insert_active_nodes-IsConsistent,
  insert_passive_nodes-IsConsistent, insert_flows-IsConsistent,
}
use shawk.Db.Consistent.Sound.{IsSound, Advances, IsSound-Advances, SoundSince}
use shawk.Db.Consistent.SoundInserts.{
  insert_processes-SoundSince, insert_active_nodes-SoundSince, insert_passive_nodes-SoundSince,
  insert_flows-SoundSince,
}
use shawk.Db.Insert.{insert_all, finish, insert_or_update_host_flows}
use shawk.Db.Insert.Keeps.{Keeps, insert_all-Keeps}

-- The rows meet the constraints of the schema, and the sequences are ahead of their numbers.
abbrev pub IsValid : Postgres → Session → Type 0
IsValid pg s = IsConsistent s.tables × IsSound pg s.tables s.sequences

-- The rows meet the constraints, and no sequence has gone back.
abbrev ValidSince : Postgres → Sequences → Session → Type 0
ValidSince pg q s = IsConsistent s.tables × SoundSince pg q s

module _ (pg : Postgres) (now : ℕ) where
  insert_all-ValidSince :
      (q : Sequences) (fs : List HostFlow) → Keeps (ValidSince pg q) (insert_all pg now fs)
  insert_all-ValidSince q =
      insert_all-Keeps (ValidSince pg q) pg (λ s v. v) now
        (λ ipv4 pgid pname s (c, k). (
          insert_processes-IsConsistent pg now ipv4 pgid pname s c,
          insert_processes-SoundSince pg q now ipv4 pgid pname s k,
        ))
        (λ pid s (c, k).
          (insert_active_nodes-IsConsistent pid s c, insert_active_nodes-SoundSince pg q pid s k))
        (λ pid port s (c, k). (
          insert_passive_nodes-IsConsistent pg pid port s c,
          insert_passive_nodes-SoundSince pg q pid port s k,
        ))
        (λ source destination connections s (c, k). (
          insert_flows-IsConsistent now source destination connections s c,
          insert_flows-SoundSince pg q now source destination connections s k,
        ))

  -- Back to the tables before, with the sequences as they are.
  rolled_back :
      (before s : Session) (n : ℕ)
      → IsValid pg before
      → ValidSince pg before.sequences s
      → IsValid pg (record s { tables = before.tables; answers = n })
  rolled_back before s n (c, k) v =
      (c, IsSound-Advances pg before.tables before.sequences s.sequences v.1.1 k)

  finish-IsValid :
      (before : Session) (r : Outcome ℕ) (s : Session)
      → IsValid pg before
      → ValidSince pg before.sequences s
      → IsValid pg (finish pg now before (r, s)).1
  unfolding finish
  finish-IsValid before (ok n) s b v = elim (Bool-cases (pg.fails s.answers)) [
    | inl fault ↦ elim (Bool-cases (pg.commits s.answers)) [
      | inl committed ↦ rw (fault, committed) (v.0, v.1.0)
      | inr refused ↦ rw (fault, refused) (rolled_back before s (s.answers + 1) b v)
    ]
    | inr fine ↦ rw fine (v.0, v.1.0)
  ]
  finish-IsValid before (err e) s b v = rolled_back before s s.answers b v
  finish-IsValid before panics s b v = rolled_back before s s.answers b v

  -- If the tables satisfy the constraints PRIMARY KEY, UNIQUE, REFERENCES and CHECK of the schema,
  -- names fit their column, and no number in a table is above its sequence, then all this holds
  -- after `InsertOrUpdateHostFlows` on any flows, also where it returns an error.
  pub insert_or_update_host_flows-IsValid :
      (fs : List HostFlow) (s : Session)
      → IsValid pg s
      → IsValid pg (insert_or_update_host_flows pg now fs s).1
  unfolding insert_or_update_host_flows
  insert_or_update_host_flows-IsValid [] s v = v
  insert_or_update_host_flows-IsValid (flow ∷ fs) s (c, k) =
      let begun = record s { answers = s.answers + 1 } in
      let same : Advances s.sequences s.sequences = record {
        process_seq = omega arith;
        active_seq = omega arith;
        passive_seq = omega arith;
        flow_seq = omega arith;
      } in
      let (r, u) = insert_all pg now (flow ∷ fs) begun in
      elim (Bool-cases (pg.fails s.answers)) [
        | inl fault ↦ rw fault (c, k)
        | inr fine ↦ rw fine (
            finish-IsValid s r u (c, k)
              (insert_all-ValidSince s.sequences (flow ∷ fs) begun (c, (k, same))))
      ]
