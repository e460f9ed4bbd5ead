-- ===== src/Net/Chars.antt =====
-- The characters of the text of an IP address.
use shawk.Prelude.{
  ◌+◌, ◌/◌, ◌%◌, ◌<◌, ◌≡◌, ◌≢◌, ◌⊎◌, ◌∷◌, ◌++◌, ◌==◌, if◌then◌else◌, ltb, Bool-cases, Option-cases,
  length, All, Text, codes, ℕ, zero, suc, refl, inl, inr, Bool, true, false, none, List, [], arith,
  nat_eq, text_equality,
}
use shawk.Strconv.{format_uint, is_digit}
use shawk.Strconv.Decimal.{format_uint-IsDecimal}
use shawk.Probe.Keys.{is_addr_char, All-append, All-map}
use shawk.Net.{
  Ip, to4, hex_char, hex_group, groups, longest_run, join_groups, take_groups, drop_groups,
  ip6_string, dotted, ip_string,
}

abbrev pub IsAddrText : Text → Type 0
IsAddrText = All (λ c. is_addr_char c ≡ true)

-- The four or sixteen bytes of an address.
pub record IsIp (ip : Ip) : Type 0 where
  pub size : (length ip ≡ 4) ⊎ (length ip ≡ 16)
  pub bytes : All (λ b. b < 256) ip

abbrev IsGroups : List ℕ → Type 0
IsGroups = All (λ g. g < 65536)

All-if : (b : Bool) (s t : Text) → IsAddrText s → IsAddrText t → IsAddrText (if b then s else t)
All-if true s t p q = p
All-if false s t p q = q

hex_char-is_addr_char : (d : ℕ) → d < 16 → is_addr_char (hex_char d) ≡ true
unfolding hex_char is_addr_char is_digit
hex_char-is_addr_char d h = ground arith

hex_group-IsAddrText : (g : ℕ) → g < 65536 → IsAddrText (hex_group g)
unfolding hex_group
hex_group-IsAddrText g h =
    let c0 = hex_char-is_addr_char (g % 16) (omega arith) in
    let c1 = hex_char-is_addr_char (g / 16 % 16) (omega arith) in
    let c2 = hex_char-is_addr_char (g / 256 % 16) (omega arith) in
    let c3 = hex_char-is_addr_char (g / 4096) (omega arith) in
    All-if (ltb g 16) _ _ (c0, tt)
      (All-if (ltb g 256) _ _ (c1, (c0, tt))
        (All-if (ltb g 4096) _ _ (c2, (c1, (c0, tt))) (c3, (c2, (c1, (c0, tt))))))

colon-IsAddrText : IsAddrText (codes ":")
unfolding is_addr_char is_digit
colon-IsAddrText = (refl, tt)

join_groups-IsAddrText : (i : ℕ) (gs : List ℕ) → IsGroups gs → IsAddrText (join_groups i gs)
unfolding join_groups
join_groups-IsAddrText i [] h = tt
join_groups-IsAddrText i (g ∷ gs) (h, rest) =
    All-append _ ((if i == 0 then [] else codes ":") ++ hex_group g) (join_groups (i + 1) gs)
      (All-append _ (if i == 0 then [] else codes ":") (hex_group g)
        (All-if (i == 0) [] (codes ":") tt colon-IsAddrText) (hex_group-IsAddrText g h))
      (join_groups-IsAddrText (i + 1) gs rest)

take_groups-IsGroups : (n : ℕ) (gs : List ℕ) → IsGroups gs → IsGroups (take_groups n gs)
unfolding take_groups
take_groups-IsGroups zero gs h = tt
take_groups-IsGroups (suc n) [] h = tt
take_groups-IsGroups (suc n) (g ∷ gs) h = (h.0, take_groups-IsGroups n gs h.1)

drop_groups-IsGroups : (n : ℕ) (gs : List ℕ) → IsGroups gs → IsGroups (drop_groups n gs)
unfolding drop_groups
drop_groups-IsGroups zero gs h = h
drop_groups-IsGroups (suc n) [] h = tt
drop_groups-IsGroups (suc n) (g ∷ gs) h = drop_groups-IsGroups n gs h.1

groups-IsGroups : (bs : List ℕ) → All (λ b. b < 256) bs → IsGroups (groups bs)
unfolding groups
groups-IsGroups [] h = tt
groups-IsGroups (a ∷ []) h = tt
groups-IsGroups (a ∷ b ∷ bs) (p, (q, h)) = (omega arith, groups-IsGroups bs h)

ip6_string-IsAddrText : (gs : List ℕ) → IsGroups gs → IsAddrText (ip6_string gs)
unfolding ip6_string is_addr_char is_digit
ip6_string-IsAddrText gs h =
    let run = longest_run 0 gs in
    let front = join_groups 0 (take_groups run.0 gs) in
    let back = join_groups 0 (drop_groups (run.0 + run.1) gs) in
    All-if (ltb run.1 2) (join_groups 0 gs) (front ++ codes "::" ++ back)
      (join_groups-IsAddrText 0 gs h)
      (All-append _ (front ++ codes "::") back
        (All-append _ front (codes "::")
          (join_groups-IsAddrText 0 (take_groups run.0 gs) (take_groups-IsGroups run.0 gs h))
          (refl, (refl, tt)))
        (join_groups-IsAddrText 0 (drop_groups (run.0 + run.1) gs)
          (drop_groups-IsGroups (run.0 + run.1) gs h)))

format_uint-IsAddrText : (n : ℕ) → IsAddrText (format_uint n)
unfolding is_addr_char
format_uint-IsAddrText n =
    All-map _ _ (format_uint n) (λ c d. ground arith) (format_uint-IsDecimal n)

dotted-IsAddrText : (bs : List ℕ) → IsAddrText (dotted bs)
unfolding dotted is_addr_char is_digit
dotted-IsAddrText [] = tt
dotted-IsAddrText (b ∷ []) = format_uint-IsAddrText b
dotted-IsAddrText (b ∷ c ∷ bs) =
    All-append _ (format_uint b) (b'.' ∷ dotted (c ∷ bs)) (format_uint-IsAddrText b)
      (refl, dotted-IsAddrText (c ∷ bs))

to4-of_four : (ip : Ip) → to4 ip ≡ none → length ip ≢ 4
unfolding to4
to4-of_four ip e four = ground arith

-- The text of an address has only digits, the letters a to f, dots and colons.
pub ip_string-IsAddrText : (ip : Ip) → IsIp ip → IsAddrText (ip_string ip)
unfolding ip_string
ip_string-IsAddrText ip h = elim (Bool-cases (length ip == 0)) [
  | inl empty ↦ absurd (ground (arith, h.size))
  | inr some_bytes ↦ elim (Option-cases (to4 ip)) [
    | inr (ip4, is4) ↦ rw (some_bytes, is4, ip_string) (dotted-IsAddrText ip4)
    | inl not4 ↦ elim (Bool-cases (length ip == 16)) [
      | inl sixteen ↦
          rw (some_bytes, not4, sixteen, ip_string)
            (ip6_string-IsAddrText (groups ip) (groups-IsGroups ip h.bytes))
      | inr other ↦ absurd (ground (arith, h.size, other, to4-of_four ip not4))
    ]
  ]
]
