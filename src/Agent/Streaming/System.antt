-- ===== src/Agent/Streaming/System.antt =====
-- streaming.go and ebpf.go as a whole: the goroutine that runs the loop of `StartTracer` and
-- `aggregator` share the buffer, in any interleaving.
pub mod Keeps
pub mod Counts
pub mod Stuck
pub mod Moves
mod Tests
use shawk.Prelude.{◌≡◌, ◌∷◌, ◌++◌, length, Error, Outcome, ok, err, ℕ, suc, Option, some, List, []}
use shawk.Probe.{HostFlow, HostFlows}
use shawk.Agent.Channel.{Channel, done, make_channel, send, receive, ErrChan}
use shawk.Agent.Streaming.{Event, flow_of_event, aggregate_step}

-- Where the loop of `StartTracer` stands: before it receives an event, or in the callback before
-- `aggBuffer <- v`.
pub data Tracer : Type 0 where
  ranging : Tracer
  sending : HostFlow → Tracer

-- Where `aggregator` stands: at the `select`, in the loop of `aggregate` with the rounds that are
-- left and the map, before `InsertOrUpdateHostFlows`, or before `errChan <- err`.
pub data Aggregator : Type 0 where
  selecting : Aggregator
  collecting : ℕ → HostFlows → Aggregator
  inserting : List HostFlow → Aggregator
  reporting : Error → Aggregator

-- The shared state. The last three lists only record what has happened, in order: the flows that
-- were sent to the buffer, those that were received from it, and the batches with which the
-- database was called.
pub record System (D : Type 0) : Type 0 where
  pub tracer : Tracer
  pub aggregator : Aggregator
  pub buffer : Channel HostFlow
  pub errs : ErrChan
  pub db : D
  pub sent : List HostFlow
  pub received : List HostFlow
  pub called : List (List HostFlow)

-- `flowBufferSize`
abbrev pub flow_buffer_size : ℕ
flow_buffer_size = 65535

-- `Run` after the start of the tracer.
abbrev pub start : {D : Type 0} → D → System D
start db = record {
  tracer = ranging;
  aggregator = selecting;
  buffer = make_channel flow_buffer_size;
  errs = make_channel 1;
  db = db;
  sent = [];
  received = [];
  called = [];
}

module _ {D : Type 0} (insert : List HostFlow → D → Outcome ℕ × D)
    (iterate : HostFlows → List HostFlow) where
  -- One step of one goroutine.
  pub data Step (s : System D) : System D → Type 0 where
    -- `for ev := range t.evChan`, with the answers of `Getpgid`; other events change nothing
    traces :
        (getpgid : ℕ → Option ℕ) (ev : Event) (f : HostFlow)
        → s.tracer ≡ ranging
        → flow_of_event getpgid ev ≡ some f
        → Step s (record s { tracer = sending f })
    -- `aggBuffer <- v`
    sends :
        (f : HostFlow) (c : Channel HostFlow)
        → s.tracer ≡ sending f
        → send s.buffer f ≡ done c
        → Step s (record s { tracer = ranging; buffer = c; sent = s.sent ++ f ∷ [] })
    -- `case err := <-errChan`
    logs :
        (e : Error) (c : ErrChan)
        → s.aggregator ≡ selecting
        → receive s.errs ≡ done (e, c)
        → Step s (record s { errs = c })
    -- `case <-ticker.C`, and `aggregate` on an empty buffer
    ticks_empty :
        s.aggregator ≡ selecting
        → s.buffer.items ≡ []
        → Step s (record s { aggregator = inserting [] })
    -- `case <-ticker.C`, and `size := len(buffer)` on another one
    ticks :
        (f : HostFlow) (fs : List HostFlow)
        → s.aggregator ≡ selecting
        → s.buffer.items ≡ f ∷ fs
        → Step s (record s { aggregator = collecting (length s.buffer.items) [] })
    -- a round of the loop of `aggregate`, from `flow := <-buffer` on
    collects :
        (n : ℕ) (m : HostFlows) (f : HostFlow) (c : Channel HostFlow)
        → s.aggregator ≡ collecting (suc n) m
        → receive s.buffer ≡ done (f, c)
        → Step s (record s {
          aggregator = collecting n (aggregate_step m f);
          buffer = c;
          received = s.received ++ f ∷ [];
        })
    -- the end of `aggregate`
    returns :
        (m : HostFlows)
        → s.aggregator ≡ collecting 0 m
        → Step s (record s { aggregator = inserting (iterate m) })
    -- `InsertOrUpdateHostFlows` without an error
    stores :
        (b : List HostFlow) (n : ℕ) (db' : D)
        → s.aggregator ≡ inserting b
        → insert b s.db ≡ (ok n, db')
        → Step s (record s { aggregator = selecting; db = db'; called = s.called ++ b ∷ [] })
    -- `InsertOrUpdateHostFlows` with an error
    fails :
        (b : List HostFlow) (e : Error) (db' : D)
        → s.aggregator ≡ inserting b
        → insert b s.db ≡ (err e, db')
        → Step s (record s { aggregator = reporting e; db = db'; called = s.called ++ b ∷ [] })
    -- `errChan <- err`
    reports :
        (e : Error) (c : ErrChan)
        → s.aggregator ≡ reporting e
        → send s.errs e ≡ done c
        → Step s (record s { aggregator = selecting; errs = c })

  pub data Reach (s : System D) : System D → Type 0 where
    here : Reach s s
    next : {t u : System D} → Reach s t → Step t u → Reach s u
