-- ===== src/Agent/Streaming/Aggregator/Blocks.antt =====
-- When `aggregator` of streaming.go blocks itself.
use shawk.Prelude.{
  ◌≡◌, ◌⊎◌, ◌∷◌, if◌then◌else◌, Bool-cases, Error, Outcome, ok, err, ℕ, refl, inl, inr, Bool, true,
  false, List, [],
}
use shawk.Probe.{HostFlow, HostFlows}
use shawk.Agent.Channel.{make_channel, done, blocked, send, ErrChan}
use shawk.Agent.Streaming.{aggregate}
use shawk.Agent.Streaming.Aggregator.{
  Round, error_ready, tick, report, aggregator_round, aggregator,
}

-- The channel of `aggregator` holds one error, or none.
abbrev holding : Bool → Error → ErrChan
holding waiting e = record (make_channel 1) { items = if waiting then e ∷ [] else [] }

List-cases : {A : Type 0} (xs : List A) → (xs ≡ []) ⊎ ((x : A) × (ys : List A) × (xs ≡ x ∷ ys))
List-cases [] = inl refl
List-cases (x ∷ xs) = inr (x, xs, refl)

module _ (iterate : HostFlows → List HostFlow) where
  -- The flows that a tick aggregates.
  abbrev batch : List HostFlow → List HostFlow → List HostFlow
  batch buffer arrivals = (aggregate iterate buffer arrivals).0

  -- A tick with flows is due while the error of an earlier tick is still in the channel.
  abbrev pub overlooks : Bool → List Round → Bool
  overlooks waiting [] = false
  overlooks waiting (error_ready ∷ rounds) = overlooks false rounds
  overlooks waiting (tick buffer arrivals ∷ rounds) = elim (batch buffer arrivals) [
    | [] ↦ overlooks waiting rounds
    | f ∷ fs ↦ if waiting then true else overlooks true rounds
  ]

  -- The database accepts the empty batch, without a statement, and refuses all others.
  module _ {D : Type 0} (insert : List HostFlow → D → Outcome ℕ × D) (e : Error)
      (idle : (db : D) → (insert [] db).0 ≡ ok 0)
      (down : (f : HostFlow) (fs : List HostFlow) (db : D) → (insert (f ∷ fs) db).0 ≡ err e) where
    -- A round leaves a database, and whether an error waits; or it blocks.
    abbrev Runs : List Round → Bool → D → Type 0
    Runs rounds waiting db =
        ((overlooks waiting rounds ≡ true)
          → aggregator insert iterate rounds db (holding waiting e) ≡ blocked)
        × ((overlooks waiting rounds ≡ false)
            → (db' : D) × (last : Bool) × (aggregator insert iterate rounds db (holding waiting e)
                ≡ done (db', holding last e)))

    tick_with_flows :
        (f : HostFlow) (fs : List HostFlow) (waiting : Bool) (db : D)
        → report insert iterate (insert (f ∷ fs) db) (holding waiting e)
          ≡ (if waiting then blocked else done ((insert (f ∷ fs) db).1, holding true e))
    unfolding report send
    tick_with_flows f fs true db = rw (down f fs db, report) refl
    tick_with_flows f fs false db = rw (down f fs db, report) refl

    tick_without_flows :
        (waiting : Bool) (db : D)
        → report insert iterate (insert [] db) (holding waiting e)
          ≡ done ((insert [] db).1, holding waiting e)
    unfolding report
    tick_without_flows waiting db = rw (idle db, report) refl

    aggregator-Runs : (rounds : List Round) (waiting : Bool) (db : D) → Runs rounds waiting db
    unfolding aggregator aggregator_round
    aggregator-Runs [] waiting db = (λ h. cc, λ h. (db, waiting, refl))
    aggregator-Runs (error_ready ∷ rounds) true db = aggregator-Runs rounds false db
    aggregator-Runs (error_ready ∷ rounds) false db = aggregator-Runs rounds false db
    aggregator-Runs (tick buffer arrivals ∷ rounds) waiting db =
        elim (List-cases (batch buffer arrivals)) [
          | inl none_left ↦
              rw (none_left, aggregator_round, overlooks)
                (rw (tick_without_flows waiting db)
                  (aggregator-Runs rounds waiting (insert [] db).1))
          | inr (f, fs, some_left) ↦ elim (Bool-cases waiting) [
            | inl full ↦
                rw (some_left, aggregator_round, overlooks)
                  (rw (tick_with_flows f fs waiting db) (rw full (λ h. refl, λ h. cc)))
            | inr free ↦
                rw (some_left, aggregator_round, overlooks)
                  (rw (tick_with_flows f fs waiting db)
                    (rw free (aggregator-Runs rounds true (insert (f ∷ fs) db).1)))
          ]
        ]

    -- While the database refuses every batch but the empty one, `aggregator` blocks for good exactly
    -- if the `select` takes two ticks that aggregate some flow with no receive of an error between
    -- them; otherwise it goes on.
    pub aggregator-blocks :
        (rounds : List Round) (db : D)
        → ((overlooks false rounds ≡ true)
            → aggregator insert iterate rounds db (make_channel 1) ≡ blocked)
          × ((overlooks false rounds ≡ false)
              → (db' : D) × (errs : ErrChan) × (aggregator insert iterate rounds db (make_channel 1)
                  ≡ done (db', errs)))
    aggregator-blocks rounds db =
        let (p, q) = aggregator-Runs rounds false db in
        (p, λ h. let (db', last, go) = q h in (db', holding last e, go))
