-- ===== src/Agent/Polling/System/Keeps.antt =====
-- What every step of the polling agent keeps.
use mathlib.Core.List.{append_assoc}
use shawk.Agent.Channel.Moves.{send_lem, receive_lem}
use shawk.Prelude.{
  ◌+◌, ◌≤◌, ◌≡◌, ◌∙◌, ◌∷◌, ◌++◌, length, length-append, count, count-append, ℕ, suc, refl, sym, ap,
  Bool, List, [], arith,
}
use shawk.Agent.Channel.{done, send, receive}
use shawk.Probe.{HostFlow, HostFlows}
use shawk.Agent.Polling.{FlowBuffer}
use shawk.Agent.Channel.{ErrChan}
use shawk.Agent.Polling.System.{
  Scan, Batch, Flush, starting, receiving, inserting, calling, failing, System, start,
}

-- How many of the batches with some property the flushing goroutines have in hand.
unfoldable pub in_hand : (Batch → Bool) → List Flush → ℕ
in_hand p [] = 0
in_hand p (starting ∷ fs) = in_hand p fs
in_hand p (receiving n ∷ fs) = in_hand p fs
in_hand p (inserting n b ∷ fs) = in_hand p fs + count p (b ∷ [])
in_hand p (calling n ∷ fs) = in_hand p fs
in_hand p (failing e ∷ fs) = in_hand p fs

in_hand-append :
    (p : Batch → Bool) (fs gs : List Flush) → in_hand p (fs ++ gs) ≡ in_hand p fs + in_hand p gs
unfolding in_hand
in_hand-append p [] gs = omega arith
in_hand-append p (starting ∷ fs) gs = in_hand-append p fs gs
in_hand-append p (receiving n ∷ fs) gs = in_hand-append p fs gs
in_hand-append p (inserting n b ∷ fs) gs = omega (arith, in_hand-append p fs gs)
in_hand-append p (calling n ∷ fs) gs = in_hand-append p fs gs
in_hand-append p (failing e ∷ fs) gs = in_hand-append p fs gs

-- One goroutine has gone on from `f` to `g`.
pub in_hand-moves :
    (p : Batch → Bool) (all before after : List Flush) (f g : Flush)
    → all ≡ before ++ f ∷ after
    → in_hand p (before ++ g ∷ after) + in_hand p (f ∷ []) ≡ in_hand p all + in_hand p (g ∷ [])
in_hand-moves p all before after f g e = rw e (
    omega (
      arith,
      in_hand-append p before (f ∷ after),
      in_hand-append p before (g ∷ after),
      in_hand-append p (f ∷ []) after,
      in_hand-append p (g ∷ []) after,
    ))

in_hand-ends :
    (p : Batch → Bool) (all before after : List Flush) (f : Flush)
    → all ≡ before ++ f ∷ after
    → in_hand p (before ++ after) + in_hand p (f ∷ []) ≡ in_hand p all
in_hand-ends p all before after f e = rw e (
    omega (
      arith,
      in_hand-append p before (f ∷ after),
      in_hand-append p before after,
      in_hand-append p (f ∷ []) after,
    ))

module _ (size : ℕ) where
  pub record IsKept (s : System) : Type 0 where
    pub capacity : s.buffer.capacity ≡ size
    pub room : length s.buffer.items ≤ size
    pub errs_capacity : (s.scan_errs.capacity ≡ 1) × (s.flush_errs.capacity ≡ 1)
    pub fifo : s.sent ≡ s.received ++ s.buffer.items
    pub taken : (p : Batch → Bool) → count p s.received ≡ count p s.called + in_hand p s.flushes

  pub start-IsKept : IsKept (start size)
  unfolding count in_hand
  start-IsKept = record {
    capacity = refl;
    room = omega arith;
    errs_capacity = (refl, refl);
    fifo = refl;
    taken = λ p. omega arith;
  }

  module _ (iterate : HostFlows → List HostFlow) where
    pub sends-IsKept :
        (s : System) (b : Batch) (c : FlowBuffer) (scans : List Scan)
        → send s.buffer b ≡ done c
        → IsKept s
        → IsKept (record s { scans = scans; buffer = c; sent = s.sent ++ b ∷ [] })
    sends-IsKept s b c scans h k =
        let (room, e) = send_lem s.buffer c b h in
        record {
          capacity = rw e k.capacity;
          room = rw e (omega (arith, room, k.capacity, length-append {0} s.buffer.items (b ∷ [])));
          errs_capacity = k.errs_capacity;
          fifo = rw e (rw k.fifo (append_assoc s.received s.buffer.items (b ∷ [])));
          taken = k.taken;
        }

    pub receives-IsKept :
        (s : System) (before after : List Flush) (n : ℕ) (b : Batch) (c : FlowBuffer)
        → s.flushes ≡ before ++ receiving (suc n) ∷ after
        → receive s.buffer ≡ done (b, c)
        → IsKept s
        → IsKept (record s {
          flushes = before ++ inserting n b ∷ after;
          buffer = c;
          received = s.received ++ b ∷ [];
        })
    unfolding in_hand
    receives-IsKept s before after n b c e h k =
        let (items, cap) = receive_lem s.buffer c b h in
        record {
          capacity = cap ∙ k.capacity;
          room = omega (arith, k.room, ap (λ (l : List Batch). length l) items);
          errs_capacity = k.errs_capacity;
          fifo =
              k.fifo
              ∙ ap (λ l. s.received ++ l) items
              ∙ sym (append_assoc s.received (b ∷ []) c.items);
          taken = λ p. omega (
            arith,
            k.taken p,
            count-append p s.received (b ∷ []),
            in_hand-moves p s.flushes before after (receiving (suc n)) (inserting n b) e,
          );
        }

    pub calls-IsKept :
        (s : System) (before after : List Flush) (n : ℕ) (b : Batch)
        → s.flushes ≡ before ++ inserting n b ∷ after
        → IsKept s
        → IsKept (record s { flushes = before ++ calling n ∷ after; called = s.called ++ b ∷ [] })
    unfolding in_hand
    calls-IsKept s before after n b e k = record {
      capacity = k.capacity;
      room = k.room;
      errs_capacity = k.errs_capacity;
      fifo = k.fifo;
      taken = λ p. omega (
        arith,
        k.taken p,
        count-append p s.called (b ∷ []),
        in_hand-moves p s.flushes before after (inserting n b) (calling n) e,
      );
    }

    -- A flush goes on with nothing in hand before and after.
    pub goes_on-IsKept :
        (s : System) (before after : List Flush) (f g : Flush)
        → s.flushes ≡ before ++ f ∷ after
        → ((p : Batch → Bool) → (in_hand p (f ∷ []) ≡ 0) × (in_hand p (g ∷ []) ≡ 0))
        → IsKept s
        → IsKept (record s { flushes = before ++ g ∷ after })
    goes_on-IsKept s before after f g e empty k = record {
      capacity = k.capacity;
      room = k.room;
      errs_capacity = k.errs_capacity;
      fifo = k.fifo;
      taken = λ p. omega (arith, k.taken p, empty p, in_hand-moves p s.flushes before after f g e);
    }

    pub ends-IsKept :
        (s : System) (before after : List Flush) (f : Flush) (errs : ErrChan)
        → s.flushes ≡ before ++ f ∷ after
        → ((p : Batch → Bool) → in_hand p (f ∷ []) ≡ 0)
        → errs.capacity ≡ 1
        → IsKept s
        → IsKept (record s { flushes = before ++ after; flush_errs = errs })
    ends-IsKept s before after f errs e empty one k = record {
      capacity = k.capacity;
      room = k.room;
      errs_capacity = (k.errs_capacity.0, one);
      fifo = k.fifo;
      taken = λ p. omega (arith, k.taken p, empty p, in_hand-ends p s.flushes before after f e);
    }
