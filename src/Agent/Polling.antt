-- ===== src/Agent/Polling.antt =====
-- agent/polling/polling.go: a ticker scans into a buffered channel, and another ticker flushes the
-- channel into the database.
pub mod Once
pub mod Loop
pub mod Capacity
pub mod System
mod Tests
use shawk.Prelude.{
  ◌+◌, ◌-◌, ◌*◌, ◌/◌, ◌%◌, ◌^◌, ◌==◌, if◌then◌else◌, ltb, leb, length, Error, format_error, Outcome,
  ok, err, panics, ℕ, zero, suc, Bool, List, [], nat_eq, text_equality,
}
use shawk.Probe.{HostFlow, HostFlows}
use shawk.Agent.Channel.{
  Channel, make_channel, Progress, done, blocked, crashed, ◌>>=◌, send, receive, ErrChan,
}

-- `flowBuffer`
abbrev pub FlowBuffer : Type 0
FlowBuffer = Channel (List HostFlow)

send_error : ErrChan → Outcome HostFlows → Progress ErrChan
unfolding send
send_error errs (ok flows) = done errs
send_error errs (err e) = send errs e
send_error errs panics = crashed

unfoldable pub scanned_flows : (HostFlows → List HostFlow) → Outcome HostFlows → List HostFlow
scanned_flows iterate (ok flows) = iterate flows
scanned_flows iterate _ = iterate []

-- `scanFlows` from the answer of `GetHostFlows`, where `iterate` is the order in which the map is
-- listed. After an error the code goes on with the nil map.
unfoldable pub scan_flows :
    (HostFlows → List HostFlow)
    → Outcome HostFlows
    → FlowBuffer
    → ErrChan
    → Progress (FlowBuffer × ErrChan)
unfolding send_error scanned_flows send
scan_flows iterate answer buffer errs = do
  errs' ← send_error errs answer
  buffer' ← send buffer (scanned_flows iterate answer)
  done (buffer', errs')

-- `RunOnce` after its scan returned: the error that it receives and returns.
unfoldable pub run_once : (HostFlows → List HostFlow) → Outcome HostFlows → Progress Error
unfolding scan_flows receive
run_once iterate answer = do
  (buffer, errs) ← scan_flows iterate answer (make_channel 1) (make_channel 1)
  (e, errs') ← receive errs
  done e

-- The 64-bit pattern of a negative number.
unfoldable pub is_negative : ℕ → Bool
is_negative n = leb (2 ^ 63) n

-- `<` on the patterns of signed numbers.
unfoldable pub less : ℕ → ℕ → Bool
less a b = ltb ((a + 2 ^ 63) % 2 ^ 64) ((b + 2 ^ 63) % 2 ^ 64)

unfoldable pub magnitude : ℕ → ℕ
unfolding is_negative
magnitude n = if is_negative n then 2 ^ 64 - n else n

-- `/` on the patterns of signed numbers, which cuts off towards 0.
unfoldable pub quotient : ℕ → ℕ → ℕ
unfolding magnitude is_negative
quotient a b =
    let q = magnitude a / magnitude b in
    let opposite = (2 ^ 64 - q) % 2 ^ 64 in
    if is_negative a
    then (if is_negative b then q else opposite)
    else (if is_negative b then opposite else q)

-- `make` of a channel of slices, of 24 bytes each, panics on a negative capacity and on one that
-- does not fit the address space of 2^48 bytes behind the 96 bytes of its head.
unfoldable pub fits_channel : ℕ → Bool
fits_channel size = leb (size * 24 + 96) (2 ^ 48)

-- What `Run` does with its intervals, which are nanoseconds: the capacity of the buffer. A zero
-- interval divides by zero.
unfoldable pub buffer_capacity : ℕ → ℕ → Outcome ℕ
unfolding less quotient fits_channel
buffer_capacity interval flush_interval =
    if less flush_interval interval
    then err format_error
    else if interval == 0
    then panics
    else let size = (quotient flush_interval interval + 1) % 2 ^ 64 in
      if fits_channel size then ok size else panics

-- The loop of `flush`, over `n` receives: `insert` is `InsertOrUpdateHostFlows` on a database of
-- type `D`. It ends with the database, the buffer, and the error channel.
module _ {D : Type 0} (insert : List HostFlow → D → Outcome ℕ × D) where
  unfoldable pub flush_loop : ℕ → D → FlowBuffer → ErrChan → Progress (D × FlowBuffer × ErrChan)
  unfolding receive send
  flush_loop zero db buffer errs = done (db, buffer, errs)
  flush_loop (suc n) db buffer errs = elim (receive buffer) [
    | blocked ↦ blocked
    | crashed ↦ crashed
    | done (flows, buffer') ↦
        let (r, db') = insert flows db in
        elim r [
          | ok m ↦ flush_loop n db' buffer' errs
          | err e ↦ (do errs' ← send errs e; done (db', buffer', errs'))
          | panics ↦ crashed
        ]
  ]

  -- `flush`
  unfoldable pub flush : D → FlowBuffer → ErrChan → Progress (D × FlowBuffer × ErrChan)
  unfolding flush_loop
  flush db buffer errs = flush_loop (length buffer.items) db buffer errs
