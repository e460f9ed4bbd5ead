-- ===== src/Agent/Streaming/System/Keeps.antt =====
-- What every step of the streaming agent keeps.

use shawk.Prelude.{
  ◌+◌, ◌^◌, ◌≤◌, ◌<◌, ◌≡◌, ◌∙◌, ◌∷◌, ◌++◌, length, length-append, append_assoc, All, Among,
  Among-right, All-at, ℕ, suc, refl, sym, ap, inl, Option, some, List, [], arith,
}
use mathlib.Core.Path.{subst}
use shawk.Probe.{HostFlow, HostFlows}
use shawk.Probe.Flows.{IsFresh, total, total-insert_flow}
use shawk.Agent.Channel.{Channel, done, send, receive, ErrChan}
use shawk.Agent.Channel.Moves.{send_lem, receive_lem}
use shawk.Agent.Streaming.{Event, flow_of_event, flow_of_v4, aggregate_step}
use shawk.Agent.Streaming.Aggregate.{sum_connections, aggregate_step-insert_flow}
use shawk.Agent.Streaming.System.{
  Tracer, ranging, sending, Aggregator, selecting, collecting, inserting, reporting, System,
  flow_buffer_size, start,
}

-- The connections of batches.
unfoldable pub sum_batches : List (List HostFlow) → ℕ
sum_batches [] = 0
sum_batches (b ∷ bs) = sum_connections b + sum_batches bs

-- The connections that `aggregator` has in hand.
unfoldable pub in_hand : Aggregator → ℕ
in_hand selecting = 0
in_hand (collecting n m) = total m
in_hand (inserting b) = sum_connections b
in_hand (reporting e) = 0

-- The rounds that are left of the loop of `aggregate`.
unfoldable pub rounds_left : Aggregator → ℕ
rounds_left (collecting n m) = n
rounds_left _ = 0

abbrev pub IsPending : Tracer → Type 0
IsPending ranging = Unit
IsPending (sending f) = IsFresh f

pub sum_batches-last :
    (bs : List (List HostFlow)) (b : List HostFlow)
    → sum_batches (bs ++ b ∷ []) ≡ sum_batches bs + sum_connections b
unfolding sum_batches
sum_batches-last [] b = omega arith
sum_batches-last (c ∷ bs) b = omega (arith, sum_batches-last bs b)

pub flow_of_event-IsFresh :
    (getpgid : ℕ → Option ℕ) (ev : Event) (f : HostFlow)
    → flow_of_event getpgid ev ≡ some f
    → IsFresh f
unfolding flow_of_event flow_of_v4
flow_of_event-IsFresh getpgid ev f h = ground arith

All-last :
    (P : HostFlow → Type 0) (xs : List HostFlow) (x : HostFlow)
    → All P xs
    → P x
    → All P (xs ++ x ∷ [])
All-last P [] x h p = (p, tt)
All-last P (y ∷ xs) x h p = (h.0, All-last P xs x h.1 p)

module _ {D : Type 0} where
  pub record IsCounted (s : System D) : Type 0 where
    pub capacity : s.buffer.capacity ≡ flow_buffer_size
    pub room : length s.buffer.items ≤ flow_buffer_size
    pub errs_capacity : s.errs.capacity ≡ 1
    pub fifo : s.sent ≡ s.received ++ s.buffer.items
    pub fresh : All IsFresh s.sent
    pub pending : IsPending s.tracer
    pub ready : rounds_left s.aggregator ≤ length s.buffer.items
    pub counted :
        length s.sent < 2 ^ 64 → length s.received ≡ sum_batches s.called + in_hand s.aggregator

  pub start-IsCounted : (db : D) → IsCounted (start db)
  unfolding sum_batches in_hand rounds_left
  start-IsCounted db = record {
    capacity = refl;
    room = omega arith;
    errs_capacity = refl;
    fifo = refl;
    fresh = tt;
    pending = tt;
    ready = omega arith;
    counted = λ small. omega arith;
  }

  pub sends-IsCounted :
      (s : System D) (f : HostFlow) (c : Channel HostFlow)
      → s.tracer ≡ sending f
      → send s.buffer f ≡ done c
      → IsCounted s
      → IsCounted (record s { tracer = ranging; buffer = c; sent = s.sent ++ f ∷ [] })
  sends-IsCounted s f c at go k =
      let (room, e) = send_lem s.buffer c f go in
      let longer = length-append {0} s.buffer.items (f ∷ []) in
      record {
        capacity = rw e k.capacity;
        room = rw e (omega (arith, room, k.capacity, longer));
        errs_capacity = k.errs_capacity;
        fifo = rw e (rw k.fifo (append_assoc s.received s.buffer.items (f ∷ [])));
        fresh = All-last IsFresh s.sent f k.fresh (subst IsPending at k.pending);
        pending = tt;
        ready = rw e (omega (arith, k.ready, longer));
        counted = λ small. k.counted (omega (arith, small, length-append {0} s.sent (f ∷ [])));
      }

  -- A step of `aggregator` that leaves the buffer alone.
  pub moves-IsCounted :
      (s : System D) (g : Aggregator) (errs : ErrChan) (db : D) (called : List (List HostFlow))
      → errs.capacity ≡ 1
      → rounds_left g ≤ length s.buffer.items
      → sum_batches called + in_hand g ≡ sum_batches s.called + in_hand s.aggregator
      → IsCounted s
      → IsCounted (record s { aggregator = g; errs = errs; db = db; called = called })
  moves-IsCounted s g errs db called one ready same k = record {
    capacity = k.capacity;
    room = k.room;
    errs_capacity = one;
    fifo = k.fifo;
    fresh = k.fresh;
    pending = k.pending;
    ready = ready;
    counted = λ small. k.counted small ∙ sym same;
  }

  pub collects-IsCounted :
      (s : System D) (n : ℕ) (m : HostFlows) (f : HostFlow) (c : Channel HostFlow)
      → s.aggregator ≡ collecting (suc n) m
      → receive s.buffer ≡ done (f, c)
      → IsCounted s
      → IsCounted (record s {
        aggregator = collecting n (aggregate_step m f);
        buffer = c;
        received = s.received ++ f ∷ [];
      })
  unfolding in_hand rounds_left
  collects-IsCounted s n m f c at go k =
      let (items, cap) = receive_lem s.buffer c f go in
      let shorter = ap (λ (l : List HostFlow). length l) items in
      let order : s.sent ≡ s.received ++ (f ∷ c.items) = k.fifo ∙ ap (λ l. s.received ++ l) items in
      let among : Among f s.sent =
        subst (Among f) (sym order) (Among-right s.received (f ∷ c.items) f (inl refl)) in
      let fresh = All-at IsFresh s.sent f among k.fresh in
      let held = ap in_hand at in
      let sizes = ap (λ (l : List HostFlow). length l) order in
      record {
        capacity = cap ∙ k.capacity;
        room = omega (arith, k.room, shorter);
        errs_capacity = k.errs_capacity;
        fifo = order ∙ sym (append_assoc s.received (f ∷ []) c.items);
        fresh = k.fresh;
        pending = k.pending;
        ready = omega (arith, k.ready, ap rounds_left at, shorter);
        counted = λ small.
            let before = k.counted small in
            rw (aggregate_step-insert_flow m f) (
              omega (
                arith,
                before,
                held,
                length-append {0} s.received (f ∷ []),
                total-insert_flow m f fresh (
                    omega (
                      arith,
                      before,
                      held,
                      sizes,
                      small,
                      length-append {0} s.received (f ∷ c.items),
                    )),
              ));
      }
