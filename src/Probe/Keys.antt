-- ===== src/Probe/Keys.antt =====
-- Unique keys of probe/probe.go tell flows apart.
use shawk.Prelude.{
  ◌≡◌, ◌∙◌, ◌≢◌, ◌⊎◌, ◌&&◌, ◌||◌, ◌∷◌, ◌++◌, ◌==◌, leb, Bool-cases, any, All, Text, text_eq, ℕ,
  refl, sym, inl, inr, Bool, true, false, List, [], arith, nat_eq, text_equality,
}
use shawk.Strconv.{join_host_port, is_digit}
use shawk.Probe.{
  FlowDirection, AddrPort, HostFlow, flow_active, flow_passive, direction_string, addr_port_string,
  uniq_key,
}

-- The characters of an IP address in text.
unfoldable pub is_addr_char : ℕ → Bool
unfolding is_digit
is_addr_char c = is_digit c || (leb b'a' c && leb c b'f') || c == b'.' || c == b':'

-- The characters of a decimal port and of "many".
unfoldable pub is_port_char : ℕ → Bool
unfolding is_digit
is_port_char c = is_digit c || (leb b'a' c && leb c b'z')

abbrev pub IsFree : ℕ → Text → Type 0
IsFree d = All (λ c. c ≢ d)

-- A text is cut in one way at the first place of a character.
pub cut_unique :
    (d : ℕ) (s t s' t' : Text)
    → IsFree d s
    → IsFree d s'
    → s ++ d ∷ t ≡ s' ++ d ∷ t'
    → (s ≡ s') × (t ≡ t')
cut_unique d [] t [] t' h h' p = ground arith
cut_unique d [] t (c ∷ s') t' h h' p = ground arith
cut_unique d (c ∷ s) t [] t' h h' p = ground arith
cut_unique d (c ∷ s) t (c' ∷ s') t' h h' p = ground (arith, cut_unique d s t s' t')

-- An end of a flow as a probe builds it: no name yet, an IP address, and a port.
pub record IsEnd (a : AddrPort) : Type 0 where
  pub unnamed : a.name ≡ []
  pub addr_chars : All (λ c. is_addr_char c ≡ true) a.addr
  pub port_chars : All (λ c. is_port_char c ≡ true) a.port

pub record IsProbed (f : HostFlow) : Type 0 where
  pub direction : (f.direction ≡ flow_active) ⊎ (f.direction ≡ flow_passive)
  pub local : IsEnd f.local
  pub peer : IsEnd f.peer

pub All-append {ℓ κ} :
    {A : Type ℓ} (P : A → Type κ) (xs ys : List A) → All P xs → All P ys → All P (xs ++ ys)
All-append P [] ys hx hy = hy
All-append P (x ∷ xs) ys hx hy = (hx.0, All-append P xs ys hx.1 hy)

pub All-map {ℓ κ} :
    {A : Type ℓ} (P Q : A → Type κ) (xs : List A) → ((x : A) → P x → Q x) → All P xs → All Q xs
All-map P Q [] f h = tt
All-map P Q (x ∷ xs) f h = (f x h.0, All-map P Q xs f h.1)

abbrev needs_brackets : ℕ → Bool
needs_brackets c = c == b':' || c == b'%'

colon-IsFree : (a : Text) → any needs_brackets a ≡ false → IsFree b':' a
unfolding any
colon-IsFree [] h = tt
colon-IsFree (c ∷ a) h = ground (arith, colon-IsFree a)

addr_char-ne : (d c : ℕ) → is_addr_char d ≡ false → is_addr_char c ≡ true → c ≢ d
addr_char-ne d c h k = λ p. ground arith

port_char-ne : (d c : ℕ) → is_port_char d ≡ false → is_port_char c ≡ true → c ≢ d
port_char-ne d c h k = λ p. ground arith

pub addr-IsFree :
    (d : ℕ) (a : Text) → is_addr_char d ≡ false → All (λ c. is_addr_char c ≡ true) a → IsFree d a
addr-IsFree d a h = All-map (λ c. is_addr_char c ≡ true) (λ c. c ≢ d) a (λ c. addr_char-ne d c h)

port-IsFree :
    (d : ℕ) (p : Text) → is_port_char d ≡ false → All (λ c. is_port_char c ≡ true) p → IsFree d p
port-IsFree d p h = All-map (λ c. is_port_char c ≡ true) (λ c. c ≢ d) p (λ c. port_char-ne d c h)

-- An address in brackets and one without begin differently.
bracket_first :
    (s : Text) (a p : Text) → All (λ c. is_addr_char c ≡ true) a → b'[' ∷ s ≡ a ++ (b':' ∷ p) → ⊥
unfolding is_addr_char
bracket_first s [] p h e = ground arith
bracket_first s (c ∷ a) p h e = ground arith

module _ (a p a' p' : Text) (addr : All (λ c. is_addr_char c ≡ true) a)
    (addr' : All (λ c. is_addr_char c ≡ true) a') where
  join_host_port-injective : join_host_port a p ≡ join_host_port a' p' → (a ≡ a') × (p ≡ p')
  unfolding join_host_port
  join_host_port-injective e = elim (Bool-cases (any needs_brackets a)) [
    | inl b ↦ elim (Bool-cases (any needs_brackets a')) [
      | inl b' ↦
          let e' = rw (b, b') at e in
          let r =
            cut_unique b']' a (b':' ∷ p) a' (b':' ∷ p')
              (addr-IsFree b']' a (unfold is_addr_char in refl) addr)
              (addr-IsFree b']' a' (unfold is_addr_char in refl) addr') (ground (arith, e')) in
          (r.0, ground (arith, r.1))
      | inr b' ↦ absurd (bracket_first (a ++ (b']' ∷ b':' ∷ p)) a' p' addr' (rw (b, b') at e))
    ]
    | inr b ↦ elim (Bool-cases (any needs_brackets a')) [
      | inl b' ↦ absurd (bracket_first (a' ++ (b']' ∷ b':' ∷ p')) a p addr (sym (rw (b, b') at e)))
      | inr b' ↦ cut_unique b':' a p a' p' (colon-IsFree a b) (colon-IsFree a' b') (rw (b, b') at e)
    ]
  ]

join_host_port-IsFree :
    (d : ℕ) (a p : Text)
    → b'[' ≢ d
    → b']' ≢ d
    → b':' ≢ d
    → IsFree d a
    → IsFree d p
    → IsFree d (join_host_port a p)
unfolding join_host_port
join_host_port-IsFree d a p h1 h2 h3 fa fp = elim (Bool-cases (any needs_brackets a)) [
  | inl b ↦ rw b (h1, All-append (λ c. c ≢ d) a (b']' ∷ b':' ∷ p) fa (h2, (h3, fp)))
  | inr b ↦ rw b (All-append (λ c. c ≢ d) a (b':' ∷ p) fa (h3, fp))
]

end_string : (a : AddrPort) → IsEnd a → addr_port_string a ≡ join_host_port a.addr a.port
unfolding addr_port_string text_eq
end_string a h = rw h.unnamed

end-IsFree : (a : AddrPort) → IsEnd a → IsFree b'-' (addr_port_string a)
end-IsFree a h = rw (end_string a h) (
    join_host_port-IsFree b'-' a.addr a.port (omega arith) (omega arith) (omega arith)
      (addr-IsFree b'-' a.addr (unfold is_addr_char in refl) h.addr_chars)
      (port-IsFree b'-' a.port (unfold is_port_char in refl) h.port_chars))

addr_port_string-injective :
    (a b : AddrPort) → IsEnd a → IsEnd b → addr_port_string a ≡ addr_port_string b → a ≡ b
addr_port_string-injective a b h k e =
    let same =
      join_host_port-injective a.addr a.port b.addr b.port h.addr_chars k.addr_chars
        (sym (end_string a h) ∙ e ∙ end_string b k) in
    ground (arith, same, h.unnamed, k.unnamed)

direction-IsFree :
    (d : FlowDirection) → (d ≡ flow_active) ⊎ (d ≡ flow_passive) → IsFree b'-' (direction_string d)
unfolding direction_string
direction-IsFree d (inl p) = rw p (omega arith)
direction-IsFree d (inr p) = rw p (omega arith)

direction_string-injective :
    (d e : FlowDirection)
    → (d ≡ flow_active) ⊎ (d ≡ flow_passive)
    → (e ≡ flow_active) ⊎ (e ≡ flow_passive)
    → direction_string d ≡ direction_string e
    → d ≡ e
unfolding direction_string
direction_string-injective d e h k p = ground arith

-- Two flows of a probe have the same unique key only if they have the same direction and the same
-- two ends.
pub uniq_key-injective :
    (f g : HostFlow)
    → IsProbed f
    → IsProbed g
    → uniq_key f ≡ uniq_key g
    → (f.direction ≡ g.direction) × (f.local ≡ g.local) × (f.peer ≡ g.peer)
unfolding uniq_key
uniq_key-injective f g h k e =
    let outer =
      cut_unique b'-' (direction_string f.direction)
        (addr_port_string f.local ++ (b'-' ∷ addr_port_string f.peer))
        (direction_string g.direction)
        (addr_port_string g.local ++ (b'-' ∷ addr_port_string g.peer))
        (direction-IsFree f.direction h.direction) (direction-IsFree g.direction k.direction) e in
    let inner =
      cut_unique b'-' (addr_port_string f.local) (addr_port_string f.peer)
        (addr_port_string g.local) (addr_port_string g.peer) (end-IsFree f.local h.local)
        (end-IsFree g.local k.local) outer.1 in
    (
      direction_string-injective f.direction g.direction h.direction k.direction outer.0,
      addr_port_string-injective f.local g.local h.local k.local inner.0,
      addr_port_string-injective f.peer g.peer h.peer k.peer inner.1,
    )
