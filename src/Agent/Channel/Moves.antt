-- ===== src/Agent/Channel/Moves.antt =====
-- What a send and a receive that go on have done.
use shawk.Prelude.{
  ◌<◌, ◌≡◌, ◌∷◌, ◌++◌, ltb, ltb→lt, Bool-cases, length, refl, sym, ap, inl, inr, List, [], arith,
}
use shawk.Agent.Channel.{Channel, done, blocked, send, receive, first_item}

pub send_lem :
    {A : Type 0} (c c' : Channel A) (x : A)
    → send c x ≡ done c'
    → (length c.items < c.capacity) × (c' ≡ record c { items = c.items ++ x ∷ [] })
unfolding send
send_lem c c' x h = elim (Bool-cases (ltb (length c.items) c.capacity)) [
  | inl room ↦
      let e : done (record c { items = c.items ++ x ∷ [] }) ≡ done c' = rw (send, room) at h in
      (ltb→lt _ _ room, cc)
  | inr full ↦ let e : blocked ≡ done c' = rw (send, full) at h in absurd (cc)
]

first_item_lem :
    {A : Type 0} (c c' : Channel A) (x : A) (items : List A)
    → first_item c items ≡ done (x, c')
    → (items ≡ x ∷ c'.items) × (c'.capacity ≡ c.capacity)
unfolding first_item
first_item_lem c c' x [] h = absurd (cc)
first_item_lem c c' x (y ∷ ys) h =
    let same : record c { items = ys } ≡ c' = cc in
    let head : y ≡ x = cc in (rw (sym same) (ap (λ z. z ∷ ys) head), rw (sym same) refl)

pub receive_lem :
    {A : Type 0} (c c' : Channel A) (x : A)
    → receive c ≡ done (x, c')
    → (c.items ≡ x ∷ c'.items) × (c'.capacity ≡ c.capacity)
unfolding receive
receive_lem c c' x h = first_item_lem c c' x c.items h

first_item-some :
    {A : Type 0} (c : Channel A) (items : List A)
    → 0 < length items
    → (x : A) × (c' : Channel A) × (first_item c items ≡ done (x, c'))
unfolding first_item
first_item-some c [] room = absurd (omega (arith, room))
first_item-some c (x ∷ xs) room = (x, record c { items = xs }, refl)

-- A channel that is not empty gives an item.
pub receive-some :
    {A : Type 0} (c : Channel A)
    → 0 < length c.items
    → (x : A) × (c' : Channel A) × (receive c ≡ done (x, c'))
unfolding receive
receive-some c room = first_item-some c c.items room
