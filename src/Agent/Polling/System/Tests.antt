-- ===== src/Agent/Polling/System/Tests.antt =====
-- A run of the polling agent, and the theorems at its states.
use shawk.Prelude.{◌+◌, ◌≡◌, ◌∷◌, count, netlink_error, system_error, ok, err, refl, true, []}
use shawk.Probe.{values}
use shawk.Agent.Channel.{send, receive}
use shawk.Agent.Polling.{FlowBuffer, scanned_flows}
use shawk.Agent.Polling.System.{
  reporting, sending, inserting, failing, System, start, watch_tick, scan_sends, flusher_tick,
  flush_sizes, flush_receives, Reach, here, next,
}
use shawk.Agent.Polling.System.Keeps.{in_hand}
use shawk.Agent.Polling.System.Safety
use shawk.Agent.Polling.System.Reports

abbrev begun : System
begun = start 31

abbrev filled : FlowBuffer
filled = record { capacity = 31; items = [] ∷ [] }

-- One scan sends its batch, and a flush takes it; another scan fails.
abbrev busy : System
busy = record begun {
  scans = reporting netlink_error [] ∷ [];
  flushes = inserting 0 [] ∷ [];
  sent = [] ∷ [];
  received = [] ∷ [];
}

busy-reached : Reach values begun busy
unfolding send receive values scanned_flows
busy-reached =
    next
      (next
        (next
          (next
            (next (next here (watch_tick (ok []) (sending []) refl))
              (scan_sends [] [] [] filled refl refl))
            flusher_tick)
          (flush_sizes [] [] refl))
        (flush_receives [] [] 0 [] (record filled { items = [] }) refl refl))
      (watch_tick (err netlink_error) (reporting netlink_error []) refl)

-- The database refuses the batch.
abbrev failed : System
failed = record busy { flushes = failing (system_error 3) ∷ []; called = [] ∷ [] }

Reach-exactly_once_example :
    count (λ b. true) busy.sent
    ≡ count (λ b. true) busy.called
      + in_hand (λ b. true) busy.flushes
      + count (λ b. true) busy.buffer.items
Reach-exactly_once_example = Safety.Reach-exactly_once values 31 {s = busy} busy-reached (λ b. true)
