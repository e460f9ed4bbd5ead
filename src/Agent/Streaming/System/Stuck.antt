-- ===== src/Agent/Streaming/System/Stuck.antt =====
-- When the streaming agent is stuck.
use mathlib.Core.List.{Perm}
use shawk.Prelude.{
  ◌+◌, ◌≤◌, ◌≡◌, ◌∙◌, ◌++◌, length, length-append, Error, Outcome, ℕ, suc, refl, sym, ap, List,
  arith,
}
use shawk.Probe.{HostFlow, HostFlows, values}
use shawk.Agent.Channel.Moves.{send_lem}
use shawk.Agent.Streaming.System.{
  Aggregator, selecting, collecting, inserting, reporting, System, flow_buffer_size, start, Step,
  traces, sends, logs, ticks_empty, ticks, collects, returns, stores, fails, reports, Reach, here,
  next,
}
use shawk.Agent.Streaming.System.Counts.{Reach-IsCounted}

-- `aggregator` stands before `errChan <- err`, and the channel, which only it receives from, is
-- full.
pub record IsStuck {D : Type 0} (s : System D) : Type 0 where
  pub error : Error
  pub at : s.aggregator ≡ reporting error
  pub full : s.errs.capacity ≤ length s.errs.items

-- Nothing has moved but the tracer.
pub record IsIdle {D : Type 0} (s t : System D) : Type 0 where
  pub aggregator : t.aggregator ≡ s.aggregator
  pub errs : t.errs ≡ s.errs
  pub db : t.db ≡ s.db
  pub received : t.received ≡ s.received
  pub called : t.called ≡ s.called

IsIdle-refl : {D : Type 0} (s : System D) → IsIdle s s
IsIdle-refl s = record { aggregator = refl; errs = refl; db = refl; received = refl; called = refl }

reporting-ne :
    {D : Type 0} (s : System D) (k : IsStuck s) (g : Aggregator)
    → s.aggregator ≡ g
    → reporting k.error ≡ g
reporting-ne s k g e = sym k.at ∙ e

module _ {D : Type 0} (insert : List HostFlow → D → Outcome ℕ × D)
    (iterate : HostFlows → List HostFlow) where
  Step-IsIdle : {s t : System D} → IsStuck s → Step insert iterate s t → IsIdle s t
  Step-IsIdle {s} k (traces getpgid ev f at made) = record {
    aggregator = refl;
    errs = refl;
    db = refl;
    received = refl;
    called = refl;
  }
  Step-IsIdle {s} k (sends f c at go) = record {
    aggregator = refl;
    errs = refl;
    db = refl;
    received = refl;
    called = refl;
  }
  Step-IsIdle {s} k (logs e c at go) =
      let no : reporting k.error ≡ selecting = reporting-ne s k selecting at in absurd (cc)
  Step-IsIdle {s} k (ticks_empty at empty) =
      let no : reporting k.error ≡ selecting = reporting-ne s k selecting at in absurd (cc)
  Step-IsIdle {s} k (ticks f fs at some_flows) =
      let no : reporting k.error ≡ selecting = reporting-ne s k selecting at in absurd (cc)
  Step-IsIdle {s} k (collects n m f c at go) =
      let no : reporting k.error ≡ collecting (suc n) m =
        reporting-ne s k (collecting (suc n) m) at in
      absurd (cc)
  Step-IsIdle {s} k (returns m at) =
      let no : reporting k.error ≡ collecting 0 m = reporting-ne s k (collecting 0 m) at in
      absurd (cc)
  Step-IsIdle {s} k (stores b n db' at go) =
      let no : reporting k.error ≡ inserting b = reporting-ne s k (inserting b) at in absurd (cc)
  Step-IsIdle {s} k (fails b e db' at go) =
      let no : reporting k.error ≡ inserting b = reporting-ne s k (inserting b) at in absurd (cc)
  Step-IsIdle {s} k (reports e c at go) = absurd (omega (arith, k.full, (send_lem s.errs c e go).0))

  IsStuck-idle : {s t : System D} → IsStuck s → IsIdle s t → IsStuck t
  IsStuck-idle k i = record { error = k.error; at = i.aggregator ∙ k.at; full = rw i.errs k.full }

  Reach-IsIdle : {s t : System D} → IsStuck s → Reach insert iterate s t → IsIdle s t
  Reach-IsIdle {s} k here = IsIdle-refl s
  Reach-IsIdle {s} k (next r st) =
      let i = Reach-IsIdle k r in
      let j = Step-IsIdle (IsStuck-idle k i) st in
      record {
        aggregator = j.aggregator ∙ i.aggregator;
        errs = j.errs ∙ i.errs;
        db = j.db ∙ i.db;
        received = j.received ∙ i.received;
        called = j.called ∙ i.called;
      }

  Reach-trans :
      {s t u : System D}
      → Reach insert iterate s t
      → Reach insert iterate t u
      → Reach insert iterate s u
  Reach-trans r here = r
  Reach-trans r (next q st) = next (Reach-trans r q) st

  -- Once `aggregator` of the streaming agent stands before a full error channel, it stands there for
  -- good: whatever the goroutines do, the database is not called again and no flow is received from
  -- the buffer, so that only as many flows as the buffer holds can be sent beyond those received.
  pub Reach-IsStuck :
      ((m : HostFlows) → Perm (iterate m) (values m))
      → (db0 : D) {s t : System D} → Reach insert iterate (start db0) s
      → IsStuck s
      → Reach insert iterate s t
      → IsStuck t
        × (t.db ≡ s.db)
        × (t.called ≡ s.called)
        × (t.received ≡ s.received)
        × (length t.sent ≤ length s.received + flow_buffer_size)
  Reach-IsStuck lists db0 {s} {t} r k q =
      let i = Reach-IsIdle k q in
      let c = Reach-IsCounted insert iterate lists db0 (Reach-trans r q) in
      (
        IsStuck-idle k i,
        i.db,
        i.called,
        i.received,
        omega (
          arith,
          c.room,
          ap (λ (l : List HostFlow). length l) (c.fifo ∙ ap (λ l. l ++ t.buffer.items) i.received),
          length-append {0} s.received t.buffer.items,
        ),
      )
