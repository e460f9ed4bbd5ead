-- ===== src/Agent/Streaming/Aggregator.antt =====
-- The goroutine `aggregator` of streaming.go, which sends to the error channel that it receives from.
pub mod Blocks
mod Tests
use shawk.Prelude.{◌∷◌, Error, Outcome, ok, err, panics, ℕ, List, []}
use shawk.Probe.{HostFlow, HostFlows}
use shawk.Agent.Channel.{Progress, done, blocked, crashed, ◌>>=◌, send, receive, ErrChan}
use shawk.Agent.Streaming.{aggregate}

-- Which case the `select` takes next: the error channel, or the ticker, with the flows that are in
-- the buffer when `aggregate` reads its length and those that are sent while it runs.
pub data Round : Type 0 where
  error_ready : Round
  tick : List HostFlow → List HostFlow → Round

-- `case err := <-errChan`: the error is logged. The case is not taken while the channel is empty.
take_error : ErrChan → Progress (Error × ErrChan) → ErrChan
take_error errs (done (e, rest)) = rest
take_error errs blocked = errs
take_error errs crashed = errs

module _ {D : Type 0} (insert : List HostFlow → D → Outcome ℕ × D)
    (iterate : HostFlows → List HostFlow) where
  -- `if err := db.InsertOrUpdateHostFlows(flows); err != nil { errChan <- err }`
  unfoldable pub report : Outcome ℕ × D → ErrChan → Progress (D × ErrChan)
  unfolding send
  report (ok n, db) errs = done (db, errs)
  report (err e, db) errs = do errs' ← send errs e; done (db, errs')
  report (panics, db) errs = crashed

  -- One round of the loop.
  unfoldable pub aggregator_round : Round → D → ErrChan → Progress (D × ErrChan)
  unfolding take_error receive report aggregate
  aggregator_round error_ready db errs = done (db, take_error errs (receive errs))
  aggregator_round (tick buffer arrivals) db errs =
      report (insert (aggregate iterate buffer arrivals).0 db) errs

  -- The loop of `aggregator`, over the rounds of a schedule.
  unfoldable pub aggregator : List Round → D → ErrChan → Progress (D × ErrChan)
  unfolding aggregator_round
  aggregator [] db errs = done (db, errs)
  aggregator (r ∷ rounds) db errs = do
    (db', errs') ← aggregator_round r db errs
    aggregator rounds db' errs'
