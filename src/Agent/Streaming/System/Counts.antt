-- ===== src/Agent/Streaming/System/Counts.antt =====
-- What holds in every state that the streaming agent reaches.
use mathlib.Core.List.{Perm}
use shawk.Prelude.{
  ◌+◌, ◌^◌, ◌≤◌, ◌<◌, ◌≡◌, ◌∙◌, ◌∷◌, ◌++◌, length, length-append, Outcome, ℕ, refl, ap, List, [],
  arith,
}
use shawk.Probe.{HostFlow, HostFlows, values}
use shawk.Probe.Flows.{total}
use shawk.Agent.Channel.{ErrChan}
use shawk.Agent.Channel.Moves.{send_lem, receive_lem}
use shawk.Agent.Streaming.Aggregate.{sum_connections, sum-iterate}
use shawk.Agent.Streaming.System.{
  selecting, collecting, inserting, reporting, System, flow_buffer_size, start, Step, traces, sends,
  logs, ticks_empty, ticks, collects, returns, stores, fails, reports, Reach, here, next,
}
use shawk.Agent.Streaming.System.Keeps.{
  sum_batches, in_hand, rounds_left, sum_batches-last, flow_of_event-IsFresh, IsCounted,
  start-IsCounted, sends-IsCounted, moves-IsCounted, collects-IsCounted,
}

module _ {D : Type 0} (insert : List HostFlow → D → Outcome ℕ × D)
    (iterate : HostFlows → List HostFlow) (lists : (m : HostFlows) → Perm (iterate m) (values m))
    (db0 : D) where
  Step-IsCounted : {s t : System D} → Step insert iterate s t → IsCounted s → IsCounted t
  unfolding in_hand rounds_left sum_connections total
  Step-IsCounted (traces getpgid ev f at made) k = record {
    capacity = k.capacity;
    room = k.room;
    errs_capacity = k.errs_capacity;
    fifo = k.fifo;
    fresh = k.fresh;
    pending = flow_of_event-IsFresh getpgid ev f made;
    ready = k.ready;
    counted = k.counted;
  }
  Step-IsCounted {s} (sends f c at go) k = sends-IsCounted s f c at go k
  Step-IsCounted {s} (logs e c at go) k =
      moves-IsCounted s s.aggregator c s.db s.called
        ((receive_lem s.errs c e go).1 ∙ k.errs_capacity) k.ready refl k
  Step-IsCounted {s} (ticks_empty at empty) k =
      moves-IsCounted s (inserting []) s.errs s.db s.called k.errs_capacity (omega arith)
        (omega (arith, ap in_hand at)) k
  Step-IsCounted {s} (ticks f fs at some_flows) k =
      moves-IsCounted s (collecting (length s.buffer.items) []) s.errs s.db s.called k.errs_capacity
        (omega arith) (omega (arith, ap in_hand at)) k
  Step-IsCounted {s} (collects n m f c at go) k = collects-IsCounted s n m f c at go k
  Step-IsCounted {s} (returns m at) k =
      moves-IsCounted s (inserting (iterate m)) s.errs s.db s.called k.errs_capacity (omega arith)
        (omega (arith, ap in_hand at, sum-iterate iterate lists m)) k
  Step-IsCounted {s} (stores b n db' at go) k =
      moves-IsCounted s selecting s.errs db' (s.called ++ b ∷ []) k.errs_capacity (omega arith)
        (omega (arith, ap in_hand at, sum_batches-last s.called b)) k
  Step-IsCounted {s} (fails b e db' at go) k =
      moves-IsCounted s (reporting e) s.errs db' (s.called ++ b ∷ []) k.errs_capacity (omega arith)
        (omega (arith, ap in_hand at, sum_batches-last s.called b)) k
  Step-IsCounted {s} (reports e c at go) k =
      moves-IsCounted s selecting c s.db s.called
        (ap (λ (d : ErrChan). d.capacity) (send_lem s.errs c e go).1 ∙ k.errs_capacity)
        (omega arith) (omega (arith, ap in_hand at)) k

  pub Reach-IsCounted : {s : System D} → Reach insert iterate (start db0) s → IsCounted s
  Reach-IsCounted here = start-IsCounted db0
  Reach-IsCounted (next r st) = Step-IsCounted st (Reach-IsCounted r)

  -- Whatever the order in which Go lists a map and however the goroutines of the streaming agent
  -- interleave, while fewer than 2^64 flows were sent: every flow that the tracer has sent is
  -- counted once, in the connections of a batch with which the database was called, in what
  -- `aggregator` has in hand, or in the buffer, which never holds more than its capacity.
  pub Reach-counts :
      {s : System D}
      → Reach insert iterate (start db0) s
      → length s.sent < 2 ^ 64
      → (length s.sent ≡ sum_batches s.called + in_hand s.aggregator + length s.buffer.items)
        × (length s.buffer.items ≤ flow_buffer_size)
  Reach-counts {s} r small =
      let k = Reach-IsCounted r in
      (
        omega (
          arith,
          k.counted small,
          ap (λ (l : List HostFlow). length l) k.fifo,
          length-append {0} s.received s.buffer.items,
        ),
        k.room,
      )
