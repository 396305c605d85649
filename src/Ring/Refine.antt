-- ===== src/Ring/Refine.antt =====
-- A valid ring behaves as the bounded queue of what it holds, also when the counters wrap.
use sdlop.Base.{
  ℕ, suc, ◌+◌, ◌-◌, ◌%◌, ◌^◌, ◌≤◌, ◌<◌, true, List, [], ◌∷◌, ◌++◌, length, get_or, set, length-set,
  arith, none, some, ◌≡◌, refl, sym, ap, ap₂, ◌∙◌, ◌≢◌, ◌↔◌,
}
use sdlop.Base.Bits.{bit_and_low, pow-dvd}
use sdlop.Base.Circular.{window, length-window, window_mod, window-set_next}
use native.Mathlib.Nat.{mod-eq_of_lt, mod-mod_of_dvd, mod-lt, pow-le-pow_right, one-le-pow}
use sdlop.Ring.{Ring, sub64, next64, slot_of, init, push, pop, is_empty, count}
use sdlop.Ring.Fifo
use sdlop.Ring.Fifo.{Fifo, Op, put, get, Reply, taken, got}

-- The representation invariant, for a capacity of `2 ^ k` slots.
pub record IsValid {A : Type 0} (k : ℕ) (r : Ring A) : Type 0 where
  pub small : k ≤ 31
  pub mask_is : r.mask ≡ 2 ^ k - 1
  pub storage : length r.slots ≡ 2 ^ k
  pub head_in : r.head < 2 ^ 64
  pub tail_in : r.tail < 2 ^ 64
  pub fits : sub64 r.head r.tail ≤ 2 ^ k

-- `n & mask` of a counter, as an index of the storage.
pub slot_lem : (k n : ℕ) → k ≤ 31 → slot_of (2 ^ k - 1) n ≡ n % 2 ^ k
slot_lem k n h =
    ap (λ (t : ℕ). t % 2 ^ 32) (bit_and_low n k)
    ∙ mod-eq_of_lt (
        omega (
          arith,
          mod-lt n {m = 2 ^ k} (omega (arith, one-le-pow k 2 (omega arith))),
          pow-le-pow_right {n = 2} (omega arith) {i = k} {j = 31} h,
        ))

-- A counter that wrapped at 2^64 stands for the same slot.
pub wrap_slot : (k n : ℕ) → k ≤ 31 → n % 2 ^ 64 % 2 ^ k ≡ n % 2 ^ k
wrap_slot k n h = mod-mod_of_dvd (2 ^ k) n (pow-dvd k 64 (omega arith))

pub cap_bound : (k : ℕ) → k ≤ 31 → (1 ≤ 2 ^ k) × (2 ^ k ≤ 2 ^ 31)
cap_bound k h =
    (one-le-pow k 2 (omega arith), pow-le-pow_right {n = 2} (omega arith) {i = k} {j = 31} h)

-- The slot that `push` writes is the one just past the contents.
head_slot :
    {A : Type 0} {k : ℕ} {r : Ring A}
    → IsValid k r
    → slot_of r.mask r.head ≡ (r.tail + sub64 r.head r.tail) % 2 ^ k
head_slot {k = k} {r = r} v =
    ap (λ (m : ℕ). slot_of m r.head) v.mask_is
    ∙ slot_lem k r.head v.small
    ∙ ap (λ (t : ℕ). t % 2 ^ k) (sum_mod r.head r.tail v.head_in v.tail_in)
    ∙ wrap_slot k (r.tail + sub64 r.head r.tail) v.small
  where
    sum_mod : (h t : ℕ) → h < 2 ^ 64 → t < 2 ^ 64 → h ≡ (t + sub64 h t) % 2 ^ 64
    sum_mod h t p q = omega arith

tail_slot : {A : Type 0} {k : ℕ} {r : Ring A} → IsValid k r → slot_of r.mask r.tail ≡ r.tail % 2 ^ k
tail_slot {k = k} {r = r} v = ap (λ (m : ℕ). slot_of m r.tail) v.mask_is ∙ slot_lem k r.tail v.small

-- What moving a counter does to the distance.
sub64-next_head :
    (h t c : ℕ)
    → h < 2 ^ 64
    → t < 2 ^ 64
    → sub64 h t < c
    → c ≤ 2 ^ 31
    → sub64 (next64 h) t ≡ suc (sub64 h t)
sub64-next_head h t c p q l b = omega arith

sub64-next_tail : (h t : ℕ) → h < 2 ^ 64 → t < 2 ^ 64 → t ≢ h → sub64 h t ≡ suc (sub64 h (next64 t))
sub64-next_tail h t p q ne = omega arith

module _ {A : Type 0} (d : A) (k : ℕ) where
  -- The elements between the two counters, oldest first.
  abbrev pub contents : Ring A → List A
  contents r = window (2 ^ k) d r.slots r.tail (sub64 r.head r.tail)

  abbrev pub view : Ring A → Fifo A
  view r = record { items = contents r; lost = r.dropped }

  pub length-contents : (r : Ring A) → length (contents r) ≡ sub64 r.head r.tail
  length-contents r = length-window (2 ^ k) d r.slots r.tail (sub64 r.head r.tail)

  contents-push :
      {r : Ring A} (x : A)
      → IsValid k r
      → sub64 r.head r.tail < 2 ^ k
      → window
          (2 ^ k)
          d
          (set r.slots (slot_of r.mask r.head) x)
          r.tail
          (sub64 (next64 r.head) r.tail)
        ≡ contents r ++ (x ∷ [])
  contents-push {r} x v h =
      ap₂ (λ (i n : ℕ). window (2 ^ k) d (set r.slots i x) r.tail n) (head_slot v)
        (sub64-next_head r.head r.tail (2 ^ k) v.head_in v.tail_in h (cap_bound k v.small).1)
      ∙ window-set_next (2 ^ k) d r.slots r.tail (sub64 r.head r.tail) x h
          (omega (arith, v.storage))

  contents-pop :
      {r : Ring A}
      → IsValid k r
      → r.tail ≢ r.head
      → contents r
        ≡ get_or r.slots (slot_of r.mask r.tail) d
          ∷ window (2 ^ k) d r.slots (next64 r.tail) (sub64 r.head (next64 r.tail))
  contents-pop {r} v ne =
      ap (λ (n : ℕ). window (2 ^ k) d r.slots r.tail n)
        (sub64-next_tail r.head r.tail v.head_in v.tail_in ne)
      ∙ ap₂ (λ (i : ℕ) (l : List A). get_or r.slots i d ∷ l) (sym (tail_slot v))
          (window_mod (2 ^ k) d r.slots (r.tail + 1) (next64 r.tail) (sub64 r.head (next64 r.tail))
            (sym (wrap_slot k (r.tail + 1) v.small)))

  pub push-IsValid : {r : Ring A} (x : A) → IsValid k r → IsValid k (push r x).0
  unfolding push
  push-IsValid {r} x v = ground (
    arith,
    length-set r.slots (slot_of r.mask r.head) x,
    cap_bound k v.small,
    sub64-next_head r.head r.tail (2 ^ k),
  )

  pub pop-IsValid : {r : Ring A} → IsValid k r → IsValid k (pop d r).0
  unfolding pop
  pop-IsValid {r} v = ground (arith, sub64-next_tail r.head r.tail)

  -- A valid ring takes an element exactly as the bounded queue does, and drops and counts one that
  -- does not fit.
  pub push_refines :
      {r : Ring A} (x : A)
      → IsValid k r
      → let (r', done) = push r x in (view r', done) ≡ Fifo.push (2 ^ k) (view r) x
  unfolding push Fifo.push
  push_refines {r} x v = ground (arith, length-contents r, cap_bound k v.small, contents-push x v)

  -- A valid ring gives the oldest element exactly as the bounded queue does, and nothing when empty.
  pub pop_refines :
      {r : Ring A} → IsValid k r → let (r', out) = pop d r in (view r', out) ≡ Fifo.pop (view r)
  unfolding pop Fifo.pop
  pop_refines {r} v = ground (arith, contents-pop v)

  -- A pop from an empty ring and from one with elements.
  pub pop_nothing :
      {r : Ring A}
      → IsValid k r
      → contents r ≡ []
      → ((pop d r).1 ≡ none) × (contents (pop d r).0 ≡ [])
  unfolding Fifo.pop
  pop_nothing {r} v e =
      let same : (view (pop d r).0, (pop d r).1) ≡ Fifo.pop (view r) = pop_refines v in
      let there : Fifo.pop (view r) ≡ Fifo.pop (record { items = []; lost = r.dropped }) =
        ap (λ (l : List A). Fifo.pop (record { items = l; lost = r.dropped })) e in
      (ap (λ p. p.1) (same ∙ there), ap (λ p. p.0.items) (same ∙ there))

  pub pop_oldest :
      {r : Ring A} {x : A} {xs : List A}
      → IsValid k r
      → contents r ≡ x ∷ xs
      → ((pop d r).1 ≡ some x) × (contents (pop d r).0 ≡ xs)
  unfolding Fifo.pop
  pop_oldest {r} {x} {xs} v e =
      let same : (view (pop d r).0, (pop d r).1) ≡ Fifo.pop (view r) = pop_refines v in
      let there : Fifo.pop (view r) ≡ Fifo.pop (record { items = x ∷ xs; lost = r.dropped }) =
        ap (λ (l : List A). Fifo.pop (record { items = l; lost = r.dropped })) e in
      (ap (λ p. p.1) (same ∙ there), ap (λ p. p.0.items) (same ∙ there))

  unfoldable pub run : Ring A → List (Op A) → List (Reply A)
  run r [] = []
  run r (put x ∷ ops) = let (r', done) = push r x in taken done ∷ run r' ops
  run r (get ∷ ops) = let (r', out) = pop d r in got out ∷ run r' ops

  -- No sequence of calls tells a valid ring from the bounded queue of its contents.
  pub run_refines :
      (ops : List (Op A)) {r : Ring A} → IsValid k r → run r ops ≡ Fifo.run (2 ^ k) (view r) ops
  unfolding run Fifo.run
  run_refines [] v = refl
  run_refines (put x ∷ ops) {r} v = rw (run_refines ops (push-IsValid x v), ← push_refines x v)
  run_refines (get ∷ ops) {r} v = rw (run_refines ops (pop-IsValid v), ← pop_refines v)

  pub init-IsValid :
      (storage : List A) → k ≤ 31 → length storage ≡ 2 ^ k → IsValid k (init storage (2 ^ k))
  unfolding init
  init-IsValid storage h e = ground (arith, cap_bound k h)

  -- `SDLOP_RingEmpty` and `SDLOP_RingCount` answer for the contents.
  pub is_empty-count :
      {r : Ring A}
      → IsValid k r
      → (count r ≡ length (contents r)) × ((is_empty r ≡ true) ↔ (contents r ≡ []))
  unfolding is_empty count
  is_empty-count {r} v = (
    sym (length-contents r),
    (
      (λ e. ground (arith, length-contents r)),
      (λ e. ground (arith, ap length e, length-contents r)),
    ),
  )
