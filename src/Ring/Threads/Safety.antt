-- ===== src/Ring/Threads/Safety.antt =====
-- src/internal/sdlop_ring.h under two threads: order of delivery, and no slot shared.
use sdlop.Base.{ℕ, ◌+◌, ◌^◌, ◌≤◌, ◌≡◌, ◌≢◌, refl, sym, ap, ◌∙◌, List, [], ◌++◌, length, arith}
use sdlop.Base.Circular.{window, length-window, mod-ne}
use sdlop.Ring.{slot_of, init}
use sdlop.Ring.Refine.{IsValid, init-IsValid}
use sdlop.Ring.Threads.Defs.{World, Producer, Consumer, Reach, here, next}
use sdlop.Ring.Threads.Invariant.{IsSound, Step-IsSound, slot_is, head_slot}

module _ {A : Type 0} (d : A) (k : ℕ) where
  -- Both threads before their first call on a ring of `2 ^ k` slots.
  unfoldable pub start : List A → World A
  start storage = record {
    ring = init storage (2 ^ k);
    producer = Producer.resting;
    consumer = Consumer.waiting;
    accepted = [];
    received = [];
  }

  start-IsSound : (storage : List A) → k ≤ 31 → length storage ≡ 2 ^ k → IsSound d k (start storage)
  unfolding start init
  start-IsSound storage h e =
      let v : IsValid k (init storage (2 ^ k)) = init-IsValid d k storage h e in
      record {
        consumed = 0;
        pending = 0;
        small = h;
        mask_is = v.mask_is;
        storage = e;
        tail_is = refl;
        head_is = refl;
        fits = omega arith;
        order = refl;
        claim_ok = λ x g p. cc;
        written_ok = λ x g p. cc;
        look_ok = λ t p. cc;
        held_ok = λ x t p. cc;
      }

  Reach-IsSound : {s w : World A} → IsSound d k s → Reach d s w → IsSound d k w
  Reach-IsSound v here = v
  Reach-IsSound v (next r st) = Step-IsSound d k st (Reach-IsSound v r)

  module _ (storage : List A) (small : k ≤ 31) (room : length storage ≡ 2 ^ k) {w : World A}
      (r : Reach d (start storage) w) where
    -- However the two threads interleave, what the consumer has received is, in order, the first part
    -- of what the producer's successful pushes have put in, and at most one ring of it is missing.
    pub in_order : (rest : List A) × (w.accepted ≡ w.received ++ rest) × (length rest ≤ 2 ^ k)
    in_order =
        let v : IsSound d k w = Reach-IsSound (start-IsSound storage small room) r in
        (
          window (2 ^ k) d w.ring.slots v.consumed v.pending,
          v.order,
          omega (arith, length-window (2 ^ k) d w.ring.slots v.consumed v.pending, v.fits),
        )

    -- When the producer is about to copy into a slot and the consumer about to copy out of one, the
    -- two slots differ.
    pub no_race :
        (x : A) (head tail : ℕ)
        → w.producer ≡ Producer.claimed x head
        → w.consumer ≡ Consumer.claimed tail
        → slot_of w.ring.mask head ≢ slot_of w.ring.mask tail
    no_race x head tail p c same =
        let v : IsSound d k w = Reach-IsSound (start-IsSound storage small room) r in
        let (at_head, below) = v.claim_ok x head p in
        let (at_tail, some_left) = v.look_ok tail c in
        mod-ne (2 ^ k) v.consumed (v.consumed + v.pending) (omega arith) (omega arith) (
          sym (head_slot d k v head at_head)
          ∙ same
          ∙ ap (λ (n : ℕ). slot_of w.ring.mask n) (at_tail ∙ v.tail_is)
          ∙ slot_is d k w.ring.mask v.consumed v.small v.mask_is)
