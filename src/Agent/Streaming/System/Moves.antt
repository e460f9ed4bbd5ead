-- ===== src/Agent/Streaming/System/Moves.antt =====
-- When `aggregator` of the streaming agent can go on.
use mathlib.Core.List.{Perm}
use shawk.Prelude.{
  ◌≡◌, ◌∙◌, ◌≢◌, ◌⊎◌, ◌∷◌, ◌++◌, ltb, Bool-cases, length, Error, Outcome, ok, err, panics, ℕ, zero,
  suc, refl, ap, inl, inr, List, [], arith,
}
use shawk.Probe.{HostFlow, HostFlows, values}
use shawk.Agent.Channel.{send}
use shawk.Agent.Channel.Moves.{receive-some}
use shawk.Agent.Streaming.System.{
  Aggregator, selecting, collecting, inserting, reporting, System, start, Step, ticks_empty, ticks,
  collects, returns, stores, fails, reports, Reach,
}
use shawk.Agent.Streaming.System.Keeps.{rounds_left, IsCounted}
use shawk.Agent.Streaming.System.Counts.{Reach-IsCounted}
use shawk.Agent.Streaming.System.Stuck.{IsStuck}

module _ {D : Type 0} (insert : List HostFlow → D → Outcome ℕ × D)
    (iterate : HostFlows → List HostFlow) where
  -- A step of `aggregator` can be made.
  abbrev pub CanMove : System D → Type 0
  CanMove s = (t : System D) × Step insert iterate s t × (t.aggregator ≢ s.aggregator)

  selecting-CanMove :
      (s : System D) (items : List HostFlow)
      → s.buffer.items ≡ items
      → s.aggregator ≡ selecting
      → CanMove s
  selecting-CanMove s [] e at =
      (_, ticks_empty at e, λ same. let no : inserting [] ≡ selecting = same ∙ at in cc)
  selecting-CanMove s (f ∷ fs) e at = (
    _,
    ticks f fs at e,
    λ same. let no : collecting (length s.buffer.items) [] ≡ selecting = same ∙ at in cc,
  )

  collecting-CanMove :
      (s : System D) (n : ℕ) (m : HostFlows)
      → IsCounted s
      → s.aggregator ≡ collecting n m
      → CanMove s
  unfolding rounds_left
  collecting-CanMove s zero m k at =
      (_, returns m at, λ same. let no : inserting (iterate m) ≡ collecting 0 m = same ∙ at in cc)
  collecting-CanMove s (suc n) m k at =
      let (f, c, go) = receive-some s.buffer (omega (arith, k.ready, ap rounds_left at)) in
      (
        _,
        collects n m f c at go,
        λ same. let less : n ≡ suc n = ap rounds_left (same ∙ at) in omega (arith, less),
      )

  inserting-CanMove :
      (s : System D) (b : List HostFlow) (r : Outcome ℕ) (db' : D)
      → insert b s.db ≡ (r, db')
      → r ≢ panics
      → s.aggregator ≡ inserting b
      → CanMove s
  inserting-CanMove s b (ok n) db' e safe at =
      (_, stores b n db' at e, λ same. let no : selecting ≡ inserting b = same ∙ at in cc)
  inserting-CanMove s b (err x) db' e safe at =
      (_, fails b x db' at e, λ same. let no : reporting x ≡ inserting b = same ∙ at in cc)
  inserting-CanMove s b panics db' e safe at = absurd (safe refl)

  reporting-CanMove :
      (s : System D) (e : Error) → s.aggregator ≡ reporting e → IsStuck s ⊎ CanMove s
  unfolding send
  reporting-CanMove s e at = elim (Bool-cases (ltb (length s.errs.items) s.errs.capacity)) [
    | inl room ↦ inr (
      _,
      reports e (record s.errs { items = s.errs.items ++ e ∷ [] }) at (rw (send, room) refl),
      λ same. let no : selecting ≡ reporting e = same ∙ at in cc,
    )
    | inr full ↦ inl (record { error = e; at = at; full = ground (arith, full) })
  ]

  -- If no insertion panics, then in every state that the streaming agent reaches, whatever the order
  -- in which Go lists a map, `aggregator` can make a step, or it stands before its own full error
  -- channel: its receives from the buffer never wait.
  pub Reach-CanMove :
      ((m : HostFlows) → Perm (iterate m) (values m))
      → ((b : List HostFlow) (db : D) → (insert b db).0 ≢ panics)
      → (db0 : D) {s : System D} → Reach insert iterate (start db0) s
      → IsStuck s ⊎ CanMove s
  Reach-CanMove lists safe db0 {s} r = go s.aggregator refl
    where
      go : (g : Aggregator) → s.aggregator ≡ g → IsStuck s ⊎ CanMove s
      go selecting at = inr (selecting-CanMove s s.buffer.items refl at)
      go (collecting n m) at =
          inr (collecting-CanMove s n m (Reach-IsCounted insert iterate lists db0 r) at)
      go (inserting b) at =
          inr (inserting-CanMove s b (insert b s.db).0 (insert b s.db).1 refl (safe b s.db) at)
      go (reporting e) at = reporting-CanMove s e at
