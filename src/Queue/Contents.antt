-- ===== src/Queue/Contents.antt =====
-- The queue of src/SDL_events.c as a list of slots, oldest first.
use sdlop.Base.{
  ℕ, suc, ◌+◌, ◌%◌, ◌^◌, ◌≤◌, ◌<◌, ◌≡◌, ◌≢◌, sym, ap, ap₂, ◌∙◌, List, [], ◌∷◌, ◌++◌, length,
  length-set, ltb, get_or, set, true, false, Bool, Option, none, some, arith, if◌then◌else◌,
}
use sdlop.Base.Bits.{bit_and_low}
use sdlop.Base.Circular.{window, length-window, window_mod, window-set_next}
use sdlop.Event.{Event}
use sdlop.Queue.{
  Queue, Slot, blank, queue_size, sub32, next32, slot_at, count, push, poll, stored, initial,
}

pub record IsValid {F : Type 0} (q : Queue F) : Type 0 where
  pub storage : length q.slots ≡ queue_size
  pub head_in : q.head < 2 ^ 32
  pub tail_in : q.tail < 2 ^ 32
  pub fits : sub32 q.head q.tail ≤ queue_size

pub slot_lem : (i : ℕ) → slot_at i ≡ i % 128
slot_lem i = bit_and_low i 7

module _ {F : Type 0} where
  -- The `n` slots from index `t` on.
  abbrev pub view : List (Slot F) → ℕ → ℕ → List (Slot F)
  view slots t n = window queue_size blank slots t n

  abbrev pub contents : Queue F → List (Slot F)
  contents q = view q.slots q.tail (sub32 q.head q.tail)

  pub length-contents : (q : Queue F) → length (contents q) ≡ sub32 q.head q.tail
  length-contents q = length-window queue_size blank q.slots q.tail (sub32 q.head q.tail)

  -- Indices count up to whole rounds of the storage, also where they wrap.
  pub view_wrap : (slots : List (Slot F)) (t n : ℕ) → view slots (next32 t) n ≡ view slots (t + 1) n
  view_wrap slots t n = window_mod queue_size blank slots (next32 t) (t + 1) n (omega arith)

  -- A slot written at `head` comes after the others.
  pub contents-set :
      {q : Queue F} (x : Slot F)
      → IsValid q
      → sub32 q.head q.tail < queue_size
      → view (set q.slots (slot_at q.head) x) q.tail (sub32 (next32 q.head) q.tail)
        ≡ contents q ++ (x ∷ [])
  contents-set {q} x v h =
      ap₂ (λ (i n : ℕ). view (set q.slots i x) q.tail n) at
        (more q.head q.tail v.head_in v.tail_in h)
      ∙ window-set_next queue_size blank q.slots q.tail (sub32 q.head q.tail) x h
          (omega (arith, v.storage))
    where
      at : slot_at q.head ≡ (q.tail + sub32 q.head q.tail) % 128
      at = omega (arith, slot_lem q.head, v.head_in, v.tail_in)

      more :
          (h t : ℕ)
          → h < 2 ^ 32
          → t < 2 ^ 32
          → sub32 h t < 128
          → sub32 (next32 h) t ≡ suc (sub32 h t)
      more h t a b c = omega arith

  -- The slot at `tail` is the first one.
  pub contents-poll :
      {q : Queue F}
      → IsValid q
      → q.tail ≢ q.head
      → contents q
        ≡ get_or q.slots (slot_at q.tail) blank
          ∷ view q.slots (next32 q.tail) (sub32 q.head (next32 q.tail))
  contents-poll {q} v ne =
      ap (λ (n : ℕ). view q.slots q.tail n) (fewer q.head q.tail v.head_in v.tail_in ne)
      ∙ ap₂ (λ (i : ℕ) (l : List (Slot F)). get_or q.slots i blank ∷ l) (sym (slot_lem q.tail))
          (sym (view_wrap q.slots q.tail (sub32 q.head (next32 q.tail))))
    where
      fewer : (h t : ℕ) → h < 2 ^ 32 → t < 2 ^ 32 → t ≢ h → sub32 h t ≡ suc (sub32 h (next32 t))
      fewer h t a b c = omega arith

  pub push-IsValid : {q : Queue F} (e : Event F) → IsValid q → IsValid (push q e).0
  unfolding push count
  push-IsValid {q} e v =
      ground (arith, length-set q.slots (slot_at q.head) (stored q.slots (slot_at q.head) e))

  pub poll-IsValid : {q : Queue F} → IsValid q → IsValid (poll q).0
  unfolding poll
  poll-IsValid v = ground arith

  pub initial-IsValid : IsValid (initial {F = F})
  unfolding initial
  initial-IsValid = omega arith

  -- A list of at most 128 slots takes one more at its end.
  unfoldable pub offer : List (Slot F) → Slot F → List (Slot F) × Bool
  offer l x = if ltb (length l) queue_size then (l ++ (x ∷ []), true) else (l, false)

  -- A push succeeds exactly when fewer than 128 events are pending; the event then comes last, and
  -- otherwise the queue is as it was.
  pub offer-push :
      {q : Queue F} (e : Event F)
      → IsValid q
      → let (q', done) = push q e in
        (contents q', done) ≡ offer (contents q) (stored q.slots (slot_at q.head) e)
  unfolding push count offer
  offer-push {q} e v =
      ground (arith, length-contents q, contents-set (stored q.slots (slot_at q.head) e) v)

  unfoldable pub first : List (Slot F) → List (Slot F) × Option (Event F)
  first [] = ([], none)
  first (x ∷ xs) = (xs, some x.event)

  -- A poll takes the oldest event, and reports an empty queue.
  pub first-poll :
      {q : Queue F} → IsValid q → let (q', out) = poll q in (contents q', out) ≡ first (contents q)
  unfolding poll first
  first-poll {q} v = ground (arith, contents-poll v)
