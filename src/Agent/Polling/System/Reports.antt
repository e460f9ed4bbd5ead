-- ===== src/Agent/Polling/System/Reports.antt =====
-- A goroutine of the polling agent that reports an error is never stuck.
use shawk.Prelude.{◌≡◌, Error, List}
use shawk.Probe.{HostFlow, HostFlows}
use shawk.Agent.Channel.{done, receive, ErrChan}
use shawk.Agent.Polling.System.{System}

module _ (iterate : HostFlows → List HostFlow) where
  -- Steps of `watch` only, each of which takes and logs an error.
  pub data Watching : System → System → Type 0 where
    watched : {s : System} → Watching s s
    watch_takes :
        {s t : System} (e : Error) (c : ErrChan)
        → receive s.scan_errs ≡ done (e, c)
        → Watching (record s { scan_errs = c }) t
        → Watching s t

  -- Steps of `flusher` only, each of which takes and logs an error.
  pub data Flushing : System → System → Type 0 where
    flushed : {s : System} → Flushing s s
    flusher_takes :
        {s t : System} (e : Error) (c : ErrChan)
        → receive s.flush_errs ≡ done (e, c)
        → Flushing (record s { flush_errs = c }) t
        → Flushing s t
