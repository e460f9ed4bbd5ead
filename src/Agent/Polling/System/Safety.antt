-- ===== src/Agent/Polling/System/Safety.antt =====
-- What holds in every state that the polling agent reaches.
use shawk.Prelude.{◌+◌, ◌≡◌, ◌∙◌, ◌++◌, length, count, count-append, ℕ, refl, ap, Bool, List, arith}
use shawk.Probe.{HostFlow, HostFlows}
use shawk.Agent.Channel.{ErrChan}
use shawk.Agent.Channel.Moves.{send_lem, receive_lem}
use shawk.Agent.Polling.System.{
  Batch, starting, receiving, calling, failing, System, start, Step, watch_tick, scan_reports,
  scan_sends, watch_logs, flusher_tick, flush_sizes, flush_receives, flush_calls, flush_stores,
  flush_fails, flush_reports, flush_ends, flusher_logs, Reach, here, next,
}
use shawk.Agent.Polling.System.Keeps.{
  in_hand, IsKept, start-IsKept, sends-IsKept, receives-IsKept, calls-IsKept, goes_on-IsKept,
  ends-IsKept,
}

module _ (iterate : HostFlows → List HostFlow) (size : ℕ) where
  Step-IsKept : {s t : System} → Step iterate s t → IsKept size s → IsKept size t
  unfolding in_hand
  Step-IsKept (watch_tick answer g e) k = record {
    capacity = k.capacity;
    room = k.room;
    errs_capacity = k.errs_capacity;
    fifo = k.fifo;
    taken = k.taken;
  }
  Step-IsKept {s} (scan_reports before after e b c at go) k = record {
    capacity = k.capacity;
    room = k.room;
    errs_capacity = (
      ap (λ (d : ErrChan). d.capacity) (send_lem s.scan_errs c e go).1 ∙ k.errs_capacity.0,
      k.errs_capacity.1,
    );
    fifo = k.fifo;
    taken = k.taken;
  }
  Step-IsKept {s} (scan_sends before after b c at go) k =
      sends-IsKept size iterate s b c (before ++ after) go k
  Step-IsKept {s} (watch_logs e c go) k = record {
    capacity = k.capacity;
    room = k.room;
    errs_capacity = ((receive_lem s.scan_errs c e go).1 ∙ k.errs_capacity.0, k.errs_capacity.1);
    fifo = k.fifo;
    taken = k.taken;
  }
  Step-IsKept flusher_tick k = record {
    capacity = k.capacity;
    room = k.room;
    errs_capacity = k.errs_capacity;
    fifo = k.fifo;
    taken = k.taken;
  }
  Step-IsKept {s} (flush_sizes before after at) k =
      goes_on-IsKept size iterate s before after starting (receiving (length s.buffer.items)) at
        (λ p. (refl, refl)) k
  Step-IsKept {s} (flush_receives before after n b c at go) k =
      receives-IsKept size iterate s before after n b c at go k
  Step-IsKept {s} (flush_calls before after n b at) k =
      calls-IsKept size iterate s before after n b at k
  Step-IsKept {s} (flush_stores before after n at) k =
      goes_on-IsKept size iterate s before after (calling n) (receiving n) at (λ p. (refl, refl)) k
  Step-IsKept {s} (flush_fails before after n e at) k =
      goes_on-IsKept size iterate s before after (calling n) (failing e) at (λ p. (refl, refl)) k
  Step-IsKept {s} (flush_reports before after e c at go) k =
      ends-IsKept size iterate s before after (failing e) c at (λ p. refl)
        (ap (λ (d : ErrChan). d.capacity) (send_lem s.flush_errs c e go).1 ∙ k.errs_capacity.1) k
  Step-IsKept {s} (flush_ends before after at) k =
      ends-IsKept size iterate s before after (receiving 0) s.flush_errs at (λ p. refl)
        k.errs_capacity.1 k
  Step-IsKept {s} (flusher_logs e c go) k = record {
    capacity = k.capacity;
    room = k.room;
    errs_capacity = (k.errs_capacity.0, (receive_lem s.flush_errs c e go).1 ∙ k.errs_capacity.1);
    fifo = k.fifo;
    taken = k.taken;
  }

  pub Reach-IsKept : {s : System} → Reach iterate (start size) s → IsKept size s
  Reach-IsKept here = start-IsKept size
  Reach-IsKept (next r st) = Step-IsKept st (Reach-IsKept r)

  -- However the goroutines of the polling agent interleave, no batch is lost or given to the database
  -- twice: of the batches that scans have sent, of whatever kind, each has been passed to exactly one
  -- call of `InsertOrUpdateHostFlows`, is in the hand of one flushing goroutine, or waits in the
  -- buffer.
  pub Reach-exactly_once :
      {s : System}
      → Reach iterate (start size) s
      → (p : Batch → Bool)
      → count p s.sent ≡ count p s.called + in_hand p s.flushes + count p s.buffer.items
  Reach-exactly_once {s} r p =
      let k = Reach-IsKept r in
      omega (arith, k.taken p, ap (count p) k.fifo, count-append p s.received s.buffer.items)
