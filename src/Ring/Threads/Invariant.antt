-- ===== src/Ring/Threads/Invariant.antt =====
-- src/internal/sdlop_ring.h under two threads: what holds between any two steps.
use sdlop.Base.{
  ℕ, zero, suc, ◌+◌, ◌-◌, ◌%◌, ◌^◌, ◌≤◌, ◌<◌, ◌≡◌, sym, ap, ap₂, ◌∙◌, List, [], ◌∷◌, ◌++◌, length,
  length-set, get_or, set, arith, get_or-set_self, get_or-set_ne,
}
use sdlop.Base.Circular.{window, window-set_ahead, window-snoc, mod-ne}
use mathlib.Core.List.{append_assoc}
use native.Mathlib.Nat.{mod-lt}
use sdlop.Ring.{next64, slot_of}
use sdlop.Ring.Refine.{slot_lem, wrap_slot, cap_bound}
use sdlop.Ring.Threads.Defs.{World, Producer, Consumer, Step}

-- `consumed` elements have left the ring and `pending` are in it, counted without wrapping.
pub record IsSound {A : Type 0} (d : A) (k : ℕ) (w : World A) : Type 0 where
  pub consumed : ℕ
  pub pending : ℕ
  pub small : k ≤ 31
  pub mask_is : w.ring.mask ≡ 2 ^ k - 1
  pub storage : length w.ring.slots ≡ 2 ^ k
  pub tail_is : w.ring.tail ≡ consumed % 2 ^ 64
  pub head_is : w.ring.head ≡ (consumed + pending) % 2 ^ 64
  pub fits : pending ≤ 2 ^ k
  pub order : w.accepted ≡ w.received ++ window (2 ^ k) d w.ring.slots consumed pending
  pub claim_ok :
      (x : A) (h : ℕ) → w.producer ≡ Producer.claimed x h → (h ≡ w.ring.head) × (pending < 2 ^ k)
  pub written_ok :
      (x : A) (h : ℕ)
      → w.producer ≡ Producer.written x h
      → (h ≡ w.ring.head)
        × (pending < 2 ^ k)
        × (get_or w.ring.slots ((consumed + pending) % 2 ^ k) d ≡ x)
  pub look_ok : (t : ℕ) → w.consumer ≡ Consumer.claimed t → (t ≡ w.ring.tail) × (0 < pending)
  pub held_ok :
      (x : A) (t : ℕ)
      → w.consumer ≡ Consumer.held x t
      → (t ≡ w.ring.tail) × (0 < pending) × (x ≡ get_or w.ring.slots (consumed % 2 ^ k) d)

module _ {A : Type 0} (d : A) (k : ℕ) where
  pub slot_is : (mask n : ℕ) → k ≤ 31 → mask ≡ 2 ^ k - 1 → slot_of mask (n % 2 ^ 64) ≡ n % 2 ^ k
  slot_is mask n h e =
      ap (λ (m : ℕ). slot_of m (n % 2 ^ 64)) e ∙ slot_lem k (n % 2 ^ 64) h ∙ wrap_slot k n h

  next_mod : (n : ℕ) → next64 (n % 2 ^ 64) ≡ (n + 1) % 2 ^ 64
  next_mod n = omega arith

  pub head_slot :
      {w : World A} (v : IsSound d k w) (h : ℕ)
      → h ≡ w.ring.head
      → slot_of w.ring.mask h ≡ (v.consumed + v.pending) % 2 ^ k
  head_slot {w} v h e =
      ap (λ (n : ℕ). slot_of w.ring.mask n) (e ∙ v.head_is)
      ∙ slot_is w.ring.mask (v.consumed + v.pending) v.small v.mask_is

  write-IsSound :
      (w : World A) (x : A) (h : ℕ)
      → w.producer ≡ Producer.claimed x h
      → (v : IsSound d k w)
      → IsSound d k (record w {
        ring = record w.ring { slots = set w.ring.slots ((v.consumed + v.pending) % 2 ^ k) x };
        producer = Producer.written x h;
      })
  write-IsSound w x h p v = record {
    consumed = v.consumed;
    pending = v.pending;
    small = v.small;
    mask_is = v.mask_is;
    tail_is = v.tail_is;
    head_is = v.head_is;
    fits = v.fits;
    look_ok = v.look_ok;
    storage = length-set w.ring.slots slot x ∙ v.storage;
    order =
        v.order
        ∙ ap (λ l. w.received ++ l)
            (sym (
              window-set_ahead (2 ^ k) d w.ring.slots (v.consumed + v.pending) v.consumed v.pending
                x (omega arith) (omega (arith, claim))));
    claim_ok = λ y g e. cc;
    written_ok = λ y g e.
        ground (
          arith,
          claim,
          get_or-set_self w.ring.slots slot x d (omega (arith, v.storage, in_range)),
        );
    held_ok = λ y t e.
        let (a, b, c) = v.held_ok y t e in
        (
          a,
          b,
          c
              ∙ sym (
                  get_or-set_ne w.ring.slots slot (v.consumed % 2 ^ k) x d (
                    mod-ne (2 ^ k) v.consumed (v.consumed + v.pending) (omega arith)
                      (omega (arith, claim)))),
        );
  }
    where
      claim : (h ≡ w.ring.head) × (v.pending < 2 ^ k)
      claim = v.claim_ok x h p

      slot : ℕ
      slot = (v.consumed + v.pending) % 2 ^ k

      in_range : slot < 2 ^ k
      in_range = mod-lt (v.consumed + v.pending) (cap_bound k v.small).0

  publish-IsSound :
      (w : World A) (x : A) (h : ℕ)
      → w.producer ≡ Producer.written x h
      → IsSound d k w
      → IsSound d k (record w {
        ring = record w.ring { head = next64 h };
        producer = Producer.resting;
        accepted = w.accepted ++ (x ∷ []);
      })
  publish-IsSound w x h p v = record {
    consumed = v.consumed;
    pending = suc v.pending;
    small = v.small;
    mask_is = v.mask_is;
    storage = v.storage;
    tail_is = v.tail_is;
    head_is =
        ap (λ (n : ℕ). next64 n) (wrote.0 ∙ v.head_is)
        ∙ next_mod (v.consumed + v.pending)
        ∙ ap (λ (n : ℕ). n % 2 ^ 64) {x = v.consumed + v.pending + 1}
            {y = v.consumed + suc v.pending} (omega arith);
    fits = wrote.1;
    order =
        ap₂ (λ l y. l ++ (y ∷ [])) v.order (sym wrote.2)
        ∙ append_assoc w.received (window (2 ^ k) d w.ring.slots v.consumed v.pending) _
        ∙ ap (λ l. w.received ++ l) (sym (window-snoc (2 ^ k) d w.ring.slots v.consumed v.pending));
    claim_ok = λ y g e. cc;
    written_ok = λ y g e. cc;
    look_ok = λ t e. ((v.look_ok t e).0, omega arith);
    held_ok = λ y t e. let (a, b, c) = v.held_ok y t e in (a, omega arith, c);
  }
    where
      wrote :
          (h ≡ w.ring.head)
          × (v.pending < 2 ^ k)
          × (get_or w.ring.slots ((v.consumed + v.pending) % 2 ^ k) d ≡ x)
      wrote = v.written_ok x h p

  -- The oldest pending element leaves the window.
  window-release :
      (slots : List A) (c n : ℕ)
      → 0 < n
      → window (2 ^ k) d slots c n
        ≡ get_or slots (c % 2 ^ k) d ∷ window (2 ^ k) d slots (c + 1) (n - 1)
  window-release slots c zero h = absurd (omega arith)
  window-release slots c (suc n) h =
      ap (λ (m : ℕ). get_or slots (c % 2 ^ k) d ∷ window (2 ^ k) d slots (c + 1) m) {x = n}
        {y = suc n - 1} (omega arith)

  release-IsSound :
      (w : World A) (x : A) (t : ℕ)
      → w.consumer ≡ Consumer.held x t
      → IsSound d k w
      → IsSound d k (record w {
        ring = record w.ring { tail = next64 t };
        consumer = Consumer.waiting;
        received = w.received ++ (x ∷ []);
      })
  release-IsSound w x t p v = record {
    consumed = v.consumed + 1;
    pending = v.pending - 1;
    small = v.small;
    mask_is = v.mask_is;
    storage = v.storage;
    tail_is = ap (λ (n : ℕ). next64 n) (had.0 ∙ v.tail_is) ∙ next_mod v.consumed;
    head_is = v.head_is ∙ ap (λ (n : ℕ). n % 2 ^ 64) same_sum;
    fits = omega (arith, v.fits);
    order =
        v.order
        ∙ ap (λ l. w.received ++ l) (window-release w.ring.slots v.consumed v.pending had.1)
        ∙ ap
            (λ y.
              w.received ++ (y ∷ window (2 ^ k) d w.ring.slots (v.consumed + 1) (v.pending - 1)))
            (sym had.2)
        ∙ sym (append_assoc w.received (x ∷ []) _);
    claim_ok = λ y g e. let (a, b) = v.claim_ok y g e in (a, omega arith);
    written_ok = λ y g e.
        let (a, b, c) = v.written_ok y g e in
        (a, omega arith, ap (λ (n : ℕ). get_or w.ring.slots (n % 2 ^ k) d) (sym same_sum) ∙ c);
    look_ok = λ u e. cc;
    held_ok = λ y u e. cc;
  }
    where
      had : (t ≡ w.ring.tail) × (0 < v.pending) × (x ≡ get_or w.ring.slots (v.consumed % 2 ^ k) d)
      had = v.held_ok x t p

      same_sum : v.consumed + v.pending ≡ v.consumed + 1 + (v.pending - 1)
      same_sum = omega (arith, had.1)

  pub Step-IsSound : {w u : World A} → Step d w u → IsSound d k w → IsSound d k u
  Step-IsSound (Step.refuse w p full) v = record {
    consumed = v.consumed;
    pending = v.pending;
    small = v.small;
    mask_is = v.mask_is;
    storage = v.storage;
    tail_is = v.tail_is;
    head_is = v.head_is;
    fits = v.fits;
    order = v.order;
    claim_ok = v.claim_ok;
    written_ok = v.written_ok;
    look_ok = v.look_ok;
    held_ok = v.held_ok;
  }
  Step-IsSound (Step.claim w x p room) v = record {
    consumed = v.consumed;
    pending = v.pending;
    small = v.small;
    mask_is = v.mask_is;
    storage = v.storage;
    tail_is = v.tail_is;
    head_is = v.head_is;
    fits = v.fits;
    order = v.order;
    look_ok = v.look_ok;
    held_ok = v.held_ok;
    claim_ok = λ y h e. ground (arith, v.tail_is, v.head_is, cap_bound k v.small);
    written_ok = λ y h e. cc;
  }
  Step-IsSound (Step.write w x h p) v =
      rw (head_slot v h (v.claim_ok x h p).0) (write-IsSound w x h p v)
  Step-IsSound (Step.publish w x h p) v = publish-IsSound w x h p v
  Step-IsSound (Step.look w p ne) v = record {
    consumed = v.consumed;
    pending = v.pending;
    small = v.small;
    mask_is = v.mask_is;
    storage = v.storage;
    tail_is = v.tail_is;
    head_is = v.head_is;
    fits = v.fits;
    order = v.order;
    claim_ok = v.claim_ok;
    written_ok = v.written_ok;
    look_ok = λ t e. ground (arith, v.tail_is, v.head_is);
    held_ok = λ y t e. cc;
  }
  Step-IsSound (Step.read w t p) v = record {
    consumed = v.consumed;
    pending = v.pending;
    small = v.small;
    mask_is = v.mask_is;
    storage = v.storage;
    tail_is = v.tail_is;
    head_is = v.head_is;
    fits = v.fits;
    order = v.order;
    claim_ok = v.claim_ok;
    written_ok = v.written_ok;
    look_ok = λ u e. cc;
    held_ok = λ y u e.
        ground (arith, v.tail_is, v.look_ok t p, slot_is w.ring.mask v.consumed v.small v.mask_is);
  }
  Step-IsSound (Step.release w x t p) v = release-IsSound w x t p v
