-- ===== src/Agent/Channel.antt =====
-- Go's buffered channels, as the agents use them.
pub mod Moves
use shawk.Prelude.{◌∷◌, ◌++◌, if◌then◌else◌, ltb, length, Error, ℕ, List, []}

-- A buffered channel: its capacity and what it holds, first in first out.
pub record Channel (A : Type 0) : Type 0 where
  pub capacity : ℕ
  pub items : List A

abbrev pub make_channel : {A : Type 0} → ℕ → Channel A
make_channel n = record { capacity = n; items = [] }

-- What a goroutine does next: it goes on, blocks on a channel for good, or panics.
pub data Progress (A : Type 0) : Type 0 where
  done : A → Progress A
  blocked : Progress A
  crashed : Progress A

infixl 5 ◌>>=◌
abbrev pub ◌>>=◌ : {A B : Type 0} → Progress A → (A → Progress B) → Progress B
done a >>= f = f a
blocked >>= f = blocked
crashed >>= f = crashed

-- `c <- v`, with nobody to receive meanwhile.
unfoldable pub send : {A : Type 0} → Channel A → A → Progress (Channel A)
send c v =
    if ltb (length c.items) c.capacity
    then done (record c { items = c.items ++ v ∷ [] })
    else blocked

first_item : {A : Type 0} → Channel A → List A → Progress (A × Channel A)
first_item c [] = blocked
first_item c (x ∷ xs) = done (x, record c { items = xs })

-- `<-c`, with nobody to send meanwhile.
unfoldable pub receive : {A : Type 0} → Channel A → Progress (A × Channel A)
unfolding first_item
receive c = first_item c c.items

-- A `chan error`
abbrev pub ErrChan : Type 0
ErrChan = Channel Error
