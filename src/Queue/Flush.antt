-- ===== src/Queue/Flush.antt =====
-- `SDL_HasEvents` and `SDL_FlushEvents` of src/SDL_events.c: the two loops over the ring.
use sdlop.Base.{
  ℕ, zero, suc, ◌+◌, ◌%◌, ◌^◌, ◌≤◌, ◌<◌, ◌≡◌, ◌≢◌, refl, sym, ap, ap₂, ◌∙◌, List, [], ◌∷◌, ◌++◌,
  length, length-set, get_or, set, true, false, Bool, any, reject, arith, Bool-cases, inl, inr,
  ◌==◌, ==_iff,
}
use mathlib.Core.List.{append-nil, append_assoc}
use native.Mathlib.Nat.{add_assoc}
use sdlop.Base.Circular.{window-snoc, window-set_next, window-set_behind}
use sdlop.Queue.{
  Queue, Slot, blank, queue_size, sub32, next32, slot_at, in_range, has_from, has_events,
  flush_from, flush_events,
}
use sdlop.Queue.Contents.{IsValid, slot_lem, view, contents, length-contents}

-- How the wrapped indices of the loops read.
slot_here : (t m : ℕ) → slot_at ((t + m) % 2 ^ 32) ≡ (t + m) % 128
slot_here t m = omega (arith, slot_lem ((t + m) % 2 ^ 32))

next_here : (t m : ℕ) → next32 ((t + m) % 2 ^ 32) ≡ (t + (m + 1)) % 2 ^ 32
next_here t m = omega arith

before_head :
    (t h m n : ℕ)
    → m + suc n ≤ 128
    → h ≡ (t + (m + suc n)) % 2 ^ 32
    → ((t + m) % 2 ^ 32 == h) ≡ false
before_head t h m n b e = ground (arith, apart)
  where
    apart : (t + m) % 2 ^ 32 ≢ h
    apart = omega arith

shift : (m n : ℕ) → m + suc n ≡ m + 1 + n
shift m n = omega arith

module _ {F : Type 0} (lo hi : ℕ) where
  abbrev pub matches : Slot F → Bool
  matches s = in_range lo hi s.event.type

  -- One round of the loop of `SDL_HasEvents`.
  has_from-any :
      (n m : ℕ) (q : Queue F)
      → m + n ≤ 128
      → q.head ≡ (q.tail + (m + n)) % 2 ^ 32
      → has_from n q ((q.tail + m) % 2 ^ 32) lo hi ≡ any matches (view q.slots (q.tail + m) n)
  unfolding has_from
  has_from-any zero m q b e = refl
  has_from-any (suc n) m q b e = ground (
    arith,
    slot_here q.tail m,
    next_here q.tail m,
    before_head q.tail q.head m n b e,
    has_from-any n (m + 1) q (omega arith) (e ∙ ap (λ (k : ℕ). (q.tail + k) % 2 ^ 32) (shift m n)),
    ap (λ (k : ℕ). view q.slots k n) (add_assoc q.tail m 1),
  )

  -- What a kept slot `x` adds to the kept ones `l`.
  regroup :
      (l v w r : List (Slot F)) (x : Slot F)
      → v ≡ l ++ (x ∷ [])
      → w ≡ r
      → v ++ reject matches w ≡ l ++ (x ∷ reject matches r)
  regroup l v w r x p q =
      ap₂ (λ a b. a ++ reject matches b) p q ∙ append_assoc l (x ∷ []) (reject matches r)

  kept_in_place :
      (slots : List (Slot F)) (t j m n : ℕ)
      → j ≡ m
      → view slots t (j + 1) ++ reject matches (view slots (t + (m + 1)) n)
        ≡ view slots t j
          ++ (get_or slots ((t + m) % 128) blank ∷ reject matches (view slots (t + m + 1) n))
  kept_in_place slots t j m n e =
      regroup (view slots t j) (view slots t (j + 1)) (view slots (t + (m + 1)) n)
        (view slots (t + m + 1) n) (get_or slots ((t + m) % 128) blank)
        (ap (λ (k : ℕ). view slots t k) {x = j + 1} {y = suc j} (omega arith)
          ∙ window-snoc queue_size blank slots t j
          ∙ ap (λ (k : ℕ). view slots t j ++ (get_or slots ((t + k) % 128) blank ∷ [])) e)
        (ap (λ (k : ℕ). view slots k n) (sym (add_assoc t m 1)))

  kept_moved :
      (slots : List (Slot F)) (t j m n : ℕ) (x : Slot F)
      → j < m
      → m + suc n ≤ 128
      → length slots ≡ queue_size
      → let slots' = set slots ((t + j) % 128) x in
        view slots' t (j + 1) ++ reject matches (view slots' (t + (m + 1)) n)
        ≡ view slots t j ++ (x ∷ reject matches (view slots (t + m + 1) n))
  kept_moved slots t j m n x h b l =
      let slots' = set slots ((t + j) % 128) x in
      regroup (view slots t j) (view slots' t (j + 1)) (view slots' (t + (m + 1)) n)
        (view slots (t + m + 1) n) x
        (ap (λ (k : ℕ). view slots' t k) {x = j + 1} {y = suc j} (omega arith)
          ∙ window-set_next queue_size blank slots t j x (omega arith) (omega arith))
        (window-set_behind queue_size blank slots (t + j) (t + (m + 1)) n x (omega arith)
            (omega arith)
          ∙ ap (λ (k : ℕ). view slots k n) (sym (add_assoc t m 1)))

  -- The loop of `SDL_FlushEvents` after `m` slots, `j` of which are kept.
  flush_from-contents :
      (n j m : ℕ) (q : Queue F)
      → j ≤ m
      → m + n ≤ 128
      → length q.slots ≡ queue_size
      → q.head ≡ (q.tail + (m + n)) % 2 ^ 32
      → q.tail < 2 ^ 32
      → contents (flush_from n ((q.tail + j) % 2 ^ 32) ((q.tail + m) % 2 ^ 32) q lo hi)
        ≡ view q.slots q.tail j ++ reject matches (view q.slots (q.tail + m) n)
  unfolding flush_from
  flush_from-contents zero j m q a b l e t =
      ap (λ (k : ℕ). view q.slots q.tail k) {x = sub32 ((q.tail + j) % 2 ^ 32) q.tail} {y = j}
        (omega arith)
      ∙ sym (append-nil (view q.slots q.tail j))
  flush_from-contents (suc n) j m q a b l e t = elim (Bool-cases (matches x)) [
    | inl drops ↦
        rw (before_head q.tail q.head m n b e, slot_here q.tail m, next_here q.tail m, drops)
          (flush_from-contents n j (m + 1) q (omega arith) (omega arith) l further t
            ∙ ap (λ (k : ℕ). view q.slots q.tail j ++ reject matches (view q.slots k n)) re)
    | inr keeps ↦ elim (Bool-cases ((q.tail + j) % 2 ^ 32 == (q.tail + m) % 2 ^ 32)) [
      | inl same ↦
          rw
            (
              before_head q.tail q.head m n b e,
              slot_here q.tail m,
              next_here q.tail m,
              keeps,
              same,
              next_here q.tail j,
            )
            (flush_from-contents n (j + 1) (m + 1) q (omega arith) (omega arith) l further t
              ∙ kept_in_place q.slots q.tail j m n (together same))
      | inr apart ↦
          rw
            (
              before_head q.tail q.head m n b e,
              slot_here q.tail m,
              next_here q.tail m,
              keeps,
              apart,
              next_here q.tail j,
              slot_here q.tail j,
            )
            (flush_from-contents n (j + 1) (m + 1)
                (record q { slots = set q.slots ((q.tail + j) % 128) x }) (omega arith)
                (omega arith) (length-set q.slots ((q.tail + j) % 128) x ∙ l) further t
              ∙ kept_moved q.slots q.tail j m n x (strictly apart) b l)
    ]
  ]
    where
      x : Slot F
      x = get_or q.slots ((q.tail + m) % 128) blank

      further : q.head ≡ (q.tail + (m + 1 + n)) % 2 ^ 32
      further = e ∙ ap (λ (k : ℕ). (q.tail + k) % 2 ^ 32) (shift m n)

      re : q.tail + (m + 1) ≡ q.tail + m + 1
      re = omega arith

      together : ((q.tail + j) % 2 ^ 32 == (q.tail + m) % 2 ^ 32) ≡ true → j ≡ m
      together same = omega (arith, (==_iff ((q.tail + j) % 2 ^ 32) ((q.tail + m) % 2 ^ 32)).0 same)

      strictly : ((q.tail + j) % 2 ^ 32 == (q.tail + m) % 2 ^ 32) ≡ false → j < m
      strictly apart = ground arith

  -- What the loop of `SDL_FlushEvents` leaves alone, and where the new end can be.
  flush_from_frame :
      (n keep i : ℕ) (q : Queue F)
      → keep < 2 ^ 32
      → let r = flush_from n keep i q lo hi in
        (r.tail ≡ q.tail) × (length r.slots ≡ length q.slots) × (r.head < 2 ^ 32)
  unfolding flush_from
  flush_from_frame zero keep i q h = (refl, refl, h)
  flush_from_frame (suc n) keep i q h =
      let x = get_or q.slots (slot_at i) blank in
      let q' = record q { slots = set q.slots (slot_at keep) x } in
      ground (
        arith,
        flush_from_frame n keep (next32 i) q h,
        flush_from_frame n (next32 keep) (next32 i) q (omega arith),
        flush_from_frame n (next32 keep) (next32 i) q' (omega arith),
        length-set q.slots (slot_at keep) x,
      )

  length-reject : (l : List (Slot F)) → length (reject matches l) ≤ length l
  length-reject [] = omega arith
  length-reject (x ∷ l) = ground (arith, length-reject l)

  -- `SDL_HasEvents` answers whether some pending event has a type in the range.
  pub has_events_lem : {q : Queue F} → IsValid q → has_events q lo hi ≡ any matches (contents q)
  unfolding has_events
  has_events_lem {q} v =
      ap (λ (i : ℕ). has_from (sub32 q.head q.tail) q i lo hi) {x = q.tail}
        {y = (q.tail + 0) % 2 ^ 32} (omega (arith, v.tail_in))
      ∙ has_from-any (sub32 q.head q.tail) 0 q (omega (arith, v.fits))
          (omega (arith, v.head_in, v.tail_in))
      ∙ ap (λ (k : ℕ). any matches (view q.slots k (sub32 q.head q.tail))) {x = q.tail + 0}
          {y = q.tail} (omega arith)

  -- `SDL_FlushEvents` drops exactly the pending events with a type in the range and keeps the others
  -- in their order.
  pub contents-flush_events :
      {q : Queue F} → IsValid q → contents (flush_events q lo hi) ≡ reject matches (contents q)
  unfolding flush_events
  contents-flush_events {q} v =
      ap₂ (λ (j i : ℕ). contents (flush_from (sub32 q.head q.tail) j i q lo hi)) start start
      ∙ flush_from-contents (sub32 q.head q.tail) 0 0 q (omega arith) (omega (arith, v.fits))
          v.storage (omega (arith, v.head_in, v.tail_in)) v.tail_in
      ∙ ap (λ (k : ℕ). reject matches (view q.slots k (sub32 q.head q.tail))) {x = q.tail + 0}
          {y = q.tail} (omega arith)
    where
      start : q.tail ≡ (q.tail + 0) % 2 ^ 32
      start = omega (arith, v.tail_in)

  -- `SDL_FlushEvents` keeps a valid queue valid: the storage, the range of the indices and the bound of
  -- 128 pending events.
  pub flush_events-IsValid : {q : Queue F} → IsValid q → IsValid (flush_events q lo hi)
  flush_events-IsValid {q} v =
      let r = flush_events q lo hi in
      let frame : (r.tail ≡ q.tail) × (length r.slots ≡ length q.slots) × (r.head < 2 ^ 32) =
        flush_events_frame q v.tail_in in
      record {
        storage = frame.1 ∙ v.storage;
        head_in = frame.2;
        tail_in = omega (arith, frame.0, v.tail_in);
        fits = omega (
          arith,
          length-contents r,
          length-contents q,
          ap length (contents-flush_events v),
          length-reject (contents q),
          v.fits,
        );
      }
    where
      flush_events_frame :
          (q : Queue F)
          → q.tail < 2 ^ 32
          → let r = flush_events q lo hi in
            (r.tail ≡ q.tail) × (length r.slots ≡ length q.slots) × (r.head < 2 ^ 32)
      flush_events_frame q h =
          unfold flush_events in flush_from_frame (sub32 q.head q.tail) q.tail q.tail q h
