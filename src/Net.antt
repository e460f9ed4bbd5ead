-- ===== src/Net.antt =====
-- What the code uses of Go's `net` package on addresses: `IP` as bytes, its text, and blocks.
pub mod Chars
mod Tests
use Prim.Native.Nat.{bit_and}
use shawk.Prelude.{
  ◌+◌, ◌-◌, ◌*◌, ◌/◌, ◌%◌, ◌&&◌, ◌∷◌, ◌++◌, ◌==◌, if◌then◌else◌, ltb, length, Text, codes, text_eq,
  ℕ, zero, suc, Bool, true, false, Option, none, some, List, [], nat_eq, text_equality,
}
use shawk.Strconv.{format_uint}

-- `net.IP`, a slice of bytes; nil is the empty slice.
abbrev pub Ip : Type 0
Ip = List ℕ

all_zero : List ℕ → Bool
all_zero [] = true
all_zero (x ∷ xs) = x == 0 && all_zero xs

-- The last four bytes of a 16-byte form of an IPv4 address.
to4_of_16 : List ℕ → Option Ip
unfolding all_zero
to4_of_16 (a ∷ b ∷ c ∷ d ∷ e ∷ f ∷ g ∷ h ∷ i ∷ j ∷ k ∷ l ∷ rest) =
    if all_zero (a ∷ b ∷ c ∷ d ∷ e ∷ f ∷ g ∷ h ∷ i ∷ j ∷ []) && k == 255 && l == 255
    then some rest
    else none
to4_of_16 _ = none

-- `IP.To4`; `none` is nil.
unfoldable pub to4 : Ip → Option Ip
unfolding to4_of_16
to4 ip = if length ip == 4 then some ip else if length ip == 16 then to4_of_16 ip else none

hex_char : ℕ → ℕ
hex_char d = if ltb d 10 then 48 + d else b'a' + (d - 10)

hex_byte : ℕ → Text
unfolding hex_char
hex_byte b = hex_char (b / 16) ∷ hex_char (b % 16) ∷ []

hex_bytes : List ℕ → Text
unfolding hex_byte
hex_bytes [] = []
hex_bytes (b ∷ bs) = hex_byte b ++ hex_bytes bs

-- A 16-bit group in hexadecimal without leading zeros.
hex_group : ℕ → Text
unfolding hex_char
hex_group g =
    let d0 = hex_char (g % 16) ∷ [] in
    let d1 = hex_char (g / 16 % 16) ∷ d0 in
    let d2 = hex_char (g / 256 % 16) ∷ d1 in
    let d3 = hex_char (g / 4096) ∷ d2 in
    if ltb g 16 then d0 else if ltb g 256 then d1 else if ltb g 4096 then d2 else d3

groups : List ℕ → List ℕ
groups (a ∷ b ∷ bs) = (a * 256 + b) ∷ groups bs
groups _ = []

zero_run : List ℕ → ℕ
zero_run [] = 0
zero_run (g ∷ gs) = if g == 0 then suc (zero_run gs) else 0

-- The start and the length of the first longest run of zero groups from index `i` on.
longest_run : ℕ → List ℕ → ℕ × ℕ
unfolding zero_run
longest_run i [] = (0, 0)
longest_run i (g ∷ gs) =
    let here = zero_run (g ∷ gs) in
    let later = longest_run (i + 1) gs in if ltb here later.1 then later else (i, here)

join_groups : ℕ → List ℕ → Text
unfolding hex_group
join_groups i [] = []
join_groups i (g ∷ gs) = (if i == 0 then [] else codes ":") ++ hex_group g ++ join_groups (i + 1) gs

take_groups : ℕ → List ℕ → List ℕ
take_groups zero gs = []
take_groups (suc n) [] = []
take_groups (suc n) (g ∷ gs) = g ∷ take_groups n gs

drop_groups : ℕ → List ℕ → List ℕ
drop_groups zero gs = gs
drop_groups (suc n) [] = []
drop_groups (suc n) (g ∷ gs) = drop_groups n gs

ip6_string : List ℕ → Text
unfolding longest_run join_groups take_groups drop_groups
ip6_string gs =
    let (start, run) = longest_run 0 gs in
    if ltb run 2
    then join_groups 0 gs
    else join_groups 0 (take_groups start gs)
      ++ codes "::"
      ++ join_groups 0 (drop_groups (start + run) gs)

dotted : List ℕ → Text
dotted [] = []
dotted (b ∷ []) = format_uint b
dotted (b ∷ c ∷ bs) = format_uint b ++ (b'.' ∷ dotted (c ∷ bs))

-- `IP.String`
unfoldable pub ip_string : Ip → Text
unfolding dotted ip6_string groups hex_bytes to4
ip_string ip = if length ip == 0 then codes "<nil>" else elim (to4 ip) [
  | some ip4 ↦ dotted ip4
  | none ↦ if length ip == 16 then ip6_string (groups ip) else b'?' ∷ hex_bytes ip
]

-- `net.IPNet`: a network number and a mask of the same length.
pub record IpNet : Type 0 where
  pub number : Ip
  pub mask : List ℕ

masked_equal : Ip → List ℕ → Ip → Bool
masked_equal (n ∷ ns) (m ∷ ms) (x ∷ xs) = bit_and n m == bit_and x m && masked_equal ns ms xs
masked_equal _ _ _ = true

-- `IPNet.Contains`
unfoldable pub contains_ip : IpNet → Ip → Bool
unfolding masked_equal to4
contains_ip n ip =
    let x : Ip = elim (to4 ip) [ some ip4 ↦ ip4 | none ↦ ip ] in
    length x == length n.number && masked_equal n.number n.mask x

first_is_127 : Ip → Bool
first_is_127 [] = false
first_is_127 (b ∷ bs) = b == 127

-- `IP.IsLoopback`
unfoldable pub is_loopback : Ip → Bool
unfolding first_is_127 to4 text_eq
is_loopback ip = elim (to4 ip) [
  | some ip4 ↦ first_is_127 ip4
  | none ↦ ip == 0 ∷ 0 ∷ 0 ∷ 0 ∷ 0 ∷ 0 ∷ 0 ∷ 0 ∷ 0 ∷ 0 ∷ 0 ∷ 0 ∷ 0 ∷ 0 ∷ 0 ∷ 1 ∷ []
]
