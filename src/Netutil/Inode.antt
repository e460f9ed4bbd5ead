-- ===== src/Netutil/Inode.antt =====
-- `parseSocketInode` of netutil_linux.go on the links that the kernel writes, and on others.
use shawk.Prelude.{
  ◌+◌, ◌^◌, ◌≤◌, ◌<◌, ◌≡◌, ◌∙◌, ◌≢◌, ◌↔◌, ◌∷◌, ◌++◌, Option-cases, length, All, ok, panics, Text, ℕ,
  refl, sym, ap, inl, inr, true, none, some, [], arith,
}
use shawk.Strconv.{format_uint, is_digit}
use shawk.Strconv.Find.{has_prefix, index_of, index, pos, negsuc, ◌+ℤ◌}
use shawk.Strconv.Decimal.{IsDecimal, format_uint-IsDecimal, parse_uint-format_uint}
use shawk.Netutil.{drop, take, inode_number, slice, socket_prefix, parse_socket_inode}

-- The text has no closing bracket.
abbrev pub IsUnclosed : Text → Type 0
IsUnclosed = All (λ c. c ≢ b']')

has_prefix-nil : (s : Text) → has_prefix s [] ≡ true
unfolding has_prefix
has_prefix-nil [] = refl
has_prefix-nil (c ∷ s) = refl

index_of-unclosed : (s : Text) → IsUnclosed s → index_of s (b']' ∷ []) ≡ none
unfolding index_of has_prefix
index_of-unclosed [] h = refl
index_of-unclosed (c ∷ s) h = ground (arith, index_of-unclosed s)

index_of-closed :
    (s t : Text) → IsUnclosed s → index_of (s ++ (b']' ∷ t)) (b']' ∷ []) ≡ some (length s)
unfolding index_of has_prefix
index_of-closed [] t h = ground (arith, has_prefix-nil t)
index_of-closed (c ∷ s) t h = ground (arith, index_of-closed s t)

index_of-socket_prefix : (s : Text) → index_of (socket_prefix ++ s) socket_prefix ≡ some 0
unfolding index_of has_prefix
index_of-socket_prefix s = ground (arith, has_prefix-nil s)

take-length : (s t : Text) → take (length s) (s ++ t) ≡ s
unfolding take
take-length [] t = refl
take-length (c ∷ s) t = ap (λ r. c ∷ r) (take-length s t)

IsDecimal-IsUnclosed : (s : Text) → IsDecimal s → IsUnclosed s
unfolding is_digit
IsDecimal-IsUnclosed [] h = tt
IsDecimal-IsUnclosed (c ∷ s) h = ((λ e. ground arith), IsDecimal-IsUnclosed s h.1)

index_of-bound : (s p : Text) (n : ℕ) → index_of s p ≡ some n → n ≤ length s
unfolding index_of
index_of-bound [] p n h = ground arith
index_of-bound (c ∷ s) p n h = elim (Option-cases (index_of s p)) [
  | inl nothing ↦ ground arith
  | inr (m, found) ↦ ground (arith, index_of-bound s p m found)
]

index_of-IsUnclosed : (s : Text) → index_of s (b']' ∷ []) ≡ none → IsUnclosed s
unfolding index_of has_prefix
index_of-IsUnclosed [] h = tt
index_of-IsUnclosed (c ∷ s) h = elim (Option-cases (index_of s (b']' ∷ []))) [
  | inl nothing ↦ ((λ e. ground (arith, has_prefix-nil s)), index_of-IsUnclosed s nothing)
  | inr (m, found) ↦ ground arith
]

slice_lem :
    (s : Text) (n : ℕ) → n ≤ length s → slice (socket_prefix ++ s) 8 (pos (8 + n)) ≡ ok (take n s)
unfolding slice drop
slice_lem s n h = ground arith

index-some : (s p : Text) (n : ℕ) → index_of s p ≡ some n → index s p ≡ pos n
unfolding index
index-some s p n h = rw (h, index) refl

index-none : (s p : Text) → index_of s p ≡ none → index s p ≡ negsuc 0
unfolding index
index-none s p h = rw (h, index) refl

index-socket_prefix : (s : Text) → index (socket_prefix ++ s) socket_prefix ≡ pos 0
index-socket_prefix s = index-some (socket_prefix ++ s) socket_prefix 0 (index_of-socket_prefix s)

parse_socket_inode-at :
    (s : Text) (n : ℕ)
    → index_of s (b']' ∷ []) ≡ some n
    → parse_socket_inode (socket_prefix ++ s) ≡ inode_number (take n s)
unfolding parse_socket_inode drop ◌+ℤ◌
parse_socket_inode-at s n h =
    rw (index-socket_prefix s, parse_socket_inode)
      (rw (index-some s (b']' ∷ []) n h, parse_socket_inode)
        (rw (slice_lem s n (index_of-bound s (b']' ∷ []) n h)) refl))

-- The link "socket:[n]" of an inode below 2^32 is read as n, whatever follows the bracket.
pub parse_socket_inode-format_uint :
    (n : ℕ) (rest : Text)
    → n < 2 ^ 32
    → parse_socket_inode (socket_prefix ++ (format_uint n ++ (b']' ∷ rest))) ≡ ok n
parse_socket_inode-format_uint n rest small =
    let closed =
      index_of-closed (format_uint n) rest
        (IsDecimal-IsUnclosed (format_uint n) (format_uint-IsDecimal n)) in
    rw (parse_socket_inode-at (format_uint n ++ (b']' ∷ rest)) (length (format_uint n)) closed) (
      rw (take-length (format_uint n) (b']' ∷ rest))
        (unfold inode_number in rw (parse_uint-format_uint 32 n small, inode_number)))

inode_number-returns : (s : Text) → inode_number s ≢ panics
unfolding inode_number
inode_number-returns s h = ground arith

-- On a link that begins "socket:[" the code panics exactly if no closing bracket follows: it slices
-- up to an index below the start, and its test for a missing bracket is never met.
pub parse_socket_inode-IsUnclosed :
    (s : Text) → (parse_socket_inode (socket_prefix ++ s) ≡ panics) ↔ IsUnclosed s
unfolding parse_socket_inode drop ◌+ℤ◌ slice
parse_socket_inode-IsUnclosed s = (
  λ h. elim (Option-cases (index_of s (b']' ∷ []))) [
    | inl nothing ↦ index_of-IsUnclosed s nothing
    | inr (n, found) ↦
        absurd (inode_number-returns (take n s) (sym (parse_socket_inode-at s n found) ∙ h))
  ],
  λ h.
      rw (index-socket_prefix s, parse_socket_inode)
        (rw (index-none s (b']' ∷ []) (index_of-unclosed s h), parse_socket_inode)),
)
