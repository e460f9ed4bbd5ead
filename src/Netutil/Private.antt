-- ===== src/Netutil/Private.antt =====
-- `IsPrivateIP` of netutil.go, on IPv4 addresses.
use Prim.Native.Nat.{bit_and}
use shawk.Prelude.{
  ◌*◌, ◌/◌, ◌<◌, ◌≡◌, ◌&&◌, ◌||◌, ◌∷◌, ◌==◌, leb, any, nat_eq, ℕ, zero, suc, refl, Bool, true, [],
  arith, text_equality,
}
use shawk.Net.{is_loopback, contains_ip}
use shawk.Netutil.{is_private_ip}

-- The ranges in words: loopback, 10/8, 172.16/12 and 192.168/16.
abbrev pub in_private_range : ℕ → ℕ → Bool
in_private_range a b =
    a == 127 || a == 10 || (a == 172 && leb 16 b && leb b 31) || (a == 192 && b == 168)

-- A test holds of every number from 0 up to a bound.
holds_below : (ℕ → Bool) → ℕ → Bool
holds_below test zero = true
holds_below test (suc bound) = holds_below test bound && test bound

holds_below_sound :
    (test : ℕ → Bool) (bound n : ℕ) → n < bound → holds_below test bound ≡ true → test n ≡ true
unfolding holds_below
holds_below_sound test zero n below all = elim below [ ]
holds_below_sound test (suc bound) n below all = ground (arith, holds_below_sound test bound n)

byte : (test : ℕ → Bool) → holds_below test 256 ≡ true → (n : ℕ) → n < 256 → test n ≡ true
byte test all n below = holds_below_sound test 256 n below all

mask_255 : (x : ℕ) → x < 256 → bit_and x 255 ≡ x
mask_255 x h =
    (nat_eq.beq_iff _ x).0 (byte (λ y. bit_and y 255 == y) (unfold holds_below in refl) x h)

mask_240 : (x : ℕ) → x < 256 → bit_and x 240 ≡ x / 16 * 16
mask_240 x h =
    (nat_eq.beq_iff _ (x / 16 * 16)).0
      (byte (λ y. bit_and y 240 == y / 16 * 16) (unfold holds_below in refl) x h)

mask_0 : (x : ℕ) → x < 256 → bit_and x 0 ≡ 0
mask_0 x h = (nat_eq.beq_iff _ 0).0 (byte (λ y. bit_and y 0 == 0) (unfold holds_below in refl) x h)

-- An IPv4 address is private for the code exactly if it is a loopback address or lies in one of
-- the three private ranges.
pub is_private_ip-of_ipv4 :
    (a b c d : ℕ)
    → a < 256
    → b < 256
    → c < 256
    → d < 256
    → is_private_ip (a ∷ b ∷ c ∷ d ∷ []) ≡ in_private_range a b
unfolding is_private_ip is_loopback contains_ip any
is_private_ip-of_ipv4 a b c d ha hb hc hd =
    ground
      (arith, mask_255 a ha, mask_255 b hb, mask_240 b hb, mask_0 b hb, mask_0 c hc, mask_0 d hd)
