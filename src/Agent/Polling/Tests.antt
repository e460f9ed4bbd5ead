-- ===== src/Agent/Polling/Tests.antt =====
-- The theorems on polling.go at concrete inputs.
use shawk.Prelude.{
  ◌+◌, ◌-◌, ◌^◌, ◌≤◌, ◌≡◌, ◌∷◌, if◌then◌else◌, ltb, system_error, Outcome, ok, err, panics, ℕ, refl,
  List, [], arith,
}
use shawk.Probe.{HostFlow}
use shawk.Agent.Polling.{
  FlowBuffer, flush, buffer_capacity, less, quotient, magnitude, is_negative, fits_channel,
}
use shawk.Agent.Channel.{done, ErrChan}
use shawk.Agent.Polling.Loop
use shawk.Agent.Polling.Capacity

-- A database that counts the batches, and refuses a third.
abbrev counting : List HostFlow → ℕ → Outcome ℕ × ℕ
counting flows n = if ltb n 2 then (ok 0, n + 1) else (err (system_error 3), n)

abbrev buffer : FlowBuffer
buffer = record { capacity = 31; items = [] ∷ [] ∷ [] }

abbrev errs : ErrChan
errs = record { capacity = 1; items = [] }

flush-drains_example : flush counting 0 buffer errs ≡ done (2, record buffer { items = [] }, errs)
flush-drains_example = Loop.flush-drains counting buffer 0 2 errs (0, 1, refl, (0, 2, refl, refl))

buffer_capacity-suffices_example :
    Capacity.ticks 1000000000 (500000000 + 30000000000) ≤ Capacity.ticks 1000000000 500000000 + 31
unfolding buffer_capacity less quotient magnitude is_negative fits_channel
buffer_capacity-suffices_example =
    Capacity.buffer_capacity-suffices 1000000000 30000000000 500000000 31 (omega arith)
      (omega arith) refl

-- A flush each second and a scan each -2 seconds: the buffer has one place. A scan each nanosecond
-- for a flush in ten days does not fit.
negative_interval :
    (buffer_capacity (2 ^ 64 - 2000000000) 1000000000 ≡ ok 1)
    × (buffer_capacity 1 864000000000000 ≡ panics)
unfolding buffer_capacity less quotient magnitude is_negative fits_channel
negative_interval = (refl, refl)
