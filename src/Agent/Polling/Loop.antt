-- ===== src/Agent/Polling/Loop.antt =====
-- `flush` of polling.go empties the buffer in order.

use shawk.Prelude.{◌≡◌, ◌∷◌, length, Outcome, ok, ℕ, List, [], arith}
use shawk.Probe.{HostFlow}
use shawk.Agent.Polling.{FlowBuffer, flush_loop, flush}
use shawk.Agent.Channel.{ErrChan, done}

module _ {D : Type 0} (insert : List HostFlow → D → Outcome ℕ × D) where
  -- Each batch is inserted in turn, and none returns an error.
  abbrev pub Accepts : D → List (List HostFlow) → D → Type 0
  Accepts db [] db' = db ≡ db'
  Accepts db (b ∷ bs) db' = (n : ℕ) × (mid : D) × (insert b db ≡ (ok n, mid)) × Accepts mid bs db'

  flush_loop-drains :
      (bs : List (List HostFlow)) (limit : ℕ) (db db' : D) (errs : ErrChan)
      → Accepts db bs db'
      → flush_loop insert (length bs) db (record { capacity = limit; items = bs }) errs
        ≡ done (db', record { capacity = limit; items = [] }, errs)
  unfolding flush_loop
  flush_loop-drains [] limit db db' errs h = ground arith
  flush_loop-drains (b ∷ bs) limit db db' errs (n, mid, e, h) =
      ground (arith, flush_loop-drains bs limit mid db' errs h)

  -- If the database accepts the batches of the buffer one after another, in the order in which they
  -- were sent, then `flush` inserts them all in that order, leaves the buffer empty, and reports no
  -- error.
  pub flush-drains :
      (buffer : FlowBuffer) (db db' : D) (errs : ErrChan)
      → Accepts db buffer.items db'
      → flush insert db buffer errs ≡ done (db', record buffer { items = [] }, errs)
  unfolding flush
  flush-drains buffer db db' errs h = flush_loop-drains buffer.items buffer.capacity db db' errs h
