-- ===== src/Agent/Polling/System.antt =====
-- polling.go as a whole: `watch` and `flusher` start a goroutine at each tick, and all of them share
-- the buffer and their error channels, in any interleaving. They share the connection to the
-- database too, without a lock, so a call of `InsertOrUpdateHostFlows` has a begin and an end, others
-- may begin in between, and what they make of the database is left open.
pub mod Keeps
pub mod Safety
pub mod Reports
mod Tests
use shawk.Prelude.{
  ◌≡◌, ◌∷◌, ◌++◌, length, Error, Outcome, ok, err, panics, ℕ, suc, Option, none, some, List, [],
}
use shawk.Probe.{HostFlow, HostFlows}
use shawk.Agent.Channel.{Progress, done, make_channel, send, receive, ErrChan}
use shawk.Agent.Polling.{FlowBuffer, scanned_flows}

abbrev pub Batch : Type 0
Batch = List HostFlow

-- Where a goroutine that runs `scanFlows` stands after its scan: before `errChan <- err`, or before
-- `buffer <- flows`.
pub data Scan : Type 0 where
  reporting : Error → Batch → Scan
  sending : Batch → Scan

-- Where a goroutine that runs `flush` stands: before it reads the length of the buffer, at the head
-- of the loop with the rounds that are left, with a batch in hand, in `InsertOrUpdateHostFlows`, or
-- before `errChan <- err`.
pub data Flush : Type 0 where
  starting : Flush
  receiving : ℕ → Flush
  inserting : ℕ → Batch → Flush
  calling : ℕ → Flush
  failing : Error → Flush

-- What a scan leaves its goroutine to do; after a panic there is none.
abbrev pub after_scan : (HostFlows → List HostFlow) → Outcome HostFlows → Option Scan
after_scan iterate (ok flows) = some (sending (iterate flows))
after_scan iterate (err e) = some (reporting e (scanned_flows iterate (err e)))
after_scan iterate panics = none

-- The shared state. The last three lists only record what has happened, in order: the batches that
-- were sent to the buffer, those that were received from it, and those with which the database
-- was called.
pub record System : Type 0 where
  pub scans : List Scan
  pub flushes : List Flush
  pub buffer : FlowBuffer
  pub scan_errs : ErrChan
  pub flush_errs : ErrChan
  pub sent : List Batch
  pub received : List Batch
  pub called : List Batch

-- `Run` with a buffer of the given capacity.
abbrev pub start : ℕ → System
start size = record {
  scans = [];
  flushes = [];
  buffer = make_channel size;
  scan_errs = make_channel 1;
  flush_errs = make_channel 1;
  sent = [];
  received = [];
  called = [];
}

module _ (iterate : HostFlows → List HostFlow) where
  -- One step of one goroutine. A goroutine is picked by its place in the list.
  pub data Step (s : System) : System → Type 0 where
    -- `go scanFlows(...)`, whose scan gives the answer
    watch_tick :
        (answer : Outcome HostFlows) (g : Scan)
        → after_scan iterate answer ≡ some g
        → Step s (record s { scans = g ∷ s.scans })
    -- `errChan <- err` of `scanFlows`
    scan_reports :
        (before after : List Scan) (e : Error) (b : Batch) (c : ErrChan)
        → s.scans ≡ before ++ reporting e b ∷ after
        → send s.scan_errs e ≡ done c
        → Step s (record s { scans = before ++ sending b ∷ after; scan_errs = c })
    -- `buffer <- flows`
    scan_sends :
        (before after : List Scan) (b : Batch) (c : FlowBuffer)
        → s.scans ≡ before ++ sending b ∷ after
        → send s.buffer b ≡ done c
        → Step s (record s { scans = before ++ after; buffer = c; sent = s.sent ++ b ∷ [] })
    -- `case err := <-errChan` of `watch`
    watch_logs :
        (e : Error) (c : ErrChan)
        → receive s.scan_errs ≡ done (e, c)
        → Step s (record s { scan_errs = c })
    -- `go flush(...)`
    flusher_tick : Step s (record s { flushes = starting ∷ s.flushes })
    -- `size := len(buffer)`
    flush_sizes :
        (before after : List Flush)
        → s.flushes ≡ before ++ starting ∷ after
        → Step s (record s { flushes = before ++ receiving (length s.buffer.items) ∷ after })
    -- `flows := <-buffer`
    flush_receives :
        (before after : List Flush) (n : ℕ) (b : Batch) (c : FlowBuffer)
        → s.flushes ≡ before ++ receiving (suc n) ∷ after
        → receive s.buffer ≡ done (b, c)
        → Step s (record s {
          flushes = before ++ inserting n b ∷ after;
          buffer = c;
          received = s.received ++ b ∷ [];
        })
    -- a call of `InsertOrUpdateHostFlows` begins
    flush_calls :
        (before after : List Flush) (n : ℕ) (b : Batch)
        → s.flushes ≡ before ++ inserting n b ∷ after
        → Step s (record s { flushes = before ++ calling n ∷ after; called = s.called ++ b ∷ [] })
    -- it returns without an error
    flush_stores :
        (before after : List Flush) (n : ℕ)
        → s.flushes ≡ before ++ calling n ∷ after
        → Step s (record s { flushes = before ++ receiving n ∷ after })
    -- it returns with an error
    flush_fails :
        (before after : List Flush) (n : ℕ) (e : Error)
        → s.flushes ≡ before ++ calling n ∷ after
        → Step s (record s { flushes = before ++ failing e ∷ after })
    -- `errChan <- err` and `break` of `flush`
    flush_reports :
        (before after : List Flush) (e : Error) (c : ErrChan)
        → s.flushes ≡ before ++ failing e ∷ after
        → send s.flush_errs e ≡ done c
        → Step s (record s { flushes = before ++ after; flush_errs = c })
    -- the end of the loop of `flush`
    flush_ends :
        (before after : List Flush)
        → s.flushes ≡ before ++ receiving 0 ∷ after
        → Step s (record s { flushes = before ++ after })
    -- `case err := <-errChan` of `flusher`
    flusher_logs :
        (e : Error) (c : ErrChan)
        → receive s.flush_errs ≡ done (e, c)
        → Step s (record s { flush_errs = c })

  pub data Reach (s : System) : System → Type 0 where
    here : Reach s s
    next : {t u : System} → Reach s t → Step t u → Reach s u
