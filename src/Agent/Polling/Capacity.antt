-- ===== src/Agent/Polling/Capacity.antt =====
-- The buffer of polling.go holds every scan between two flushes.
use native.Mathlib.Decide.{dec_le}
use native.Mathlib.Nat.{div-add-mod, mod-lt, mul-le-mul_left}
use shawk.Prelude.{◌+◌, ◌*◌, ◌/◌, ◌%◌, ◌^◌, ◌≤◌, ◌<◌, ◌≡◌, ok, ℕ, suc, arith}
use shawk.Agent.Polling.{buffer_capacity, less, quotient, magnitude, is_negative, fits_channel}

-- How many ticks of a ticker started at 0 have come by a time.
abbrev pub ticks : ℕ → ℕ → ℕ
ticks interval time = time / interval

-- `n / d` is the greatest q with d * q ≤ n.
div-le_of_lt : (n d q : ℕ) → n < d * suc q → n / d ≤ q
div-le_of_lt n d q h = elim (dec_le (n / d) q) [
  | yes p ↦ p
  | no p ↦
      let more : suc q ≤ n / d = omega arith in
      let times : d * suc q ≤ d * (n / d) = mul-le-mul_left d more in
      absurd (omega (arith, div-add-mod n d))
]

div_add : (a b d : ℕ) → 0 < d → (a + b) / d ≤ a / d + (b / d + 1)
div_add a b d h =
    div-le_of_lt (a + b) d (a / d + (b / d + 1))
      (grind (arith, div-add-mod a d, div-add-mod b d, mod-lt))

buffer_capacity-lem :
    (interval flush_interval size : ℕ)
    → interval < 2 ^ 63
    → flush_interval < 2 ^ 63
    → buffer_capacity interval flush_interval ≡ ok size
    → (0 < interval) × (size ≡ (flush_interval / interval + 1) % 2 ^ 64)
unfolding buffer_capacity less quotient magnitude is_negative fits_channel
buffer_capacity-lem interval flush_interval size i f h = ground arith

-- Whatever the two intervals, neither of which is negative, if `Run` sets up a buffer then its
-- capacity is at least the number of scans that tick in any stretch of one flush interval.
pub buffer_capacity-suffices :
    (interval flush_interval start size : ℕ)
    → interval < 2 ^ 63
    → flush_interval < 2 ^ 63
    → buffer_capacity interval flush_interval ≡ ok size
    → ticks interval (start + flush_interval) ≤ ticks interval start + size
buffer_capacity-suffices interval flush_interval start size i f h =
    let (positive, is) = buffer_capacity-lem interval flush_interval size i f h in
    let below : flush_interval / interval ≤ flush_interval =
      grind (arith, div-add-mod flush_interval interval) in
    omega (arith, div_add start flush_interval interval positive, below, f, is)
