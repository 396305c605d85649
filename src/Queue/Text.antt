-- ===== src/Queue/Text.antt =====
-- The texts of `SDL_EVENT_TEXT_INPUT` events, which lie in the slots of the queue of
-- src/SDL_events.c and are reached by pointers into them.
use sdlop.Base.{
  ℕ, ◌+◌, ◌%◌, ◌<◌, ◌≡◌, ◌≢◌, refl, sym, ap, ◌∙◌, List, length, get_or, set, false, arith, take,
  get_or-set_self, get_or-set_ne, ==_iff, leb, Bool-cases, inl, inr, subst,
}
use sdlop.Base.Circular.{mod-ne}
use sdlop.Event.{Event, Payload, TextRef, null, external, slot_text, text_of, text_input}
use sdlop.Queue.{Queue, Slot, blank, queue_size, sub32, slot_at, count, push, stored, text_bytes}
use sdlop.Queue.Contents.{IsValid, slot_lem}

module _ {F : Type 0} where
  -- The slot of pending event `m`, and the text that its pointer leads to.
  abbrev pub pending : Queue F → ℕ → Slot F
  pending q m = get_or q.slots ((q.tail + m) % queue_size) blank

  abbrev pub pending_text : Queue F → ℕ → List ℕ
  pending_text q m = text_bytes q.slots (text_of (pending q m).event.payload)

  -- A text pointer into the queue leads to the event's own slot.
  pub record OwnsTexts (q : Queue F) : Type 0 where
    pub own :
        (m j : ℕ)
        → m < sub32 q.head q.tail
        → text_of (pending q m).event.payload ≡ slot_text j
        → j ≡ (q.tail + m) % queue_size

  head_slot :
      {q : Queue F} → IsValid q → slot_at q.head ≡ (q.tail + sub32 q.head q.tail) % queue_size
  head_slot {q} v = omega (arith, slot_lem q.head, v.head_in, v.tail_in)

  text_bytes-set :
      (slots : List (Slot F)) (i : ℕ) (x : Slot F) (r : TextRef)
      → ((j : ℕ) → r ≡ slot_text j → i ≢ j)
      → text_bytes (set slots i x) r ≡ text_bytes slots r
  unfolding text_bytes
  text_bytes-set slots i x null h = refl
  text_bytes-set slots i x (external s) h = refl
  text_bytes-set slots i x (slot_text j) h =
      ap (λ (t : Slot F). t.textbuf) (get_or-set_ne slots i j x blank (h j refl))

  -- The slot that a push fills belongs to no pending event.
  apart :
      {q : Queue F}
      → IsValid q
      → sub32 q.head q.tail < queue_size
      → (m : ℕ) → m < sub32 q.head q.tail
      → slot_at q.head ≢ (q.tail + m) % queue_size
  apart {q} v room m h e =
      mod-ne queue_size (q.tail + m) (q.tail + sub32 q.head q.tail) (omega arith) (omega arith)
        (sym (head_slot v) ∙ e)

  -- A push leaves the pending slots alone.
  pub push-pending_slot :
      {q : Queue F} (e : Event F) (m : ℕ)
      → IsValid q
      → m < sub32 q.head q.tail
      → pending (push q e).0 m ≡ pending q m
  unfolding push count
  push-pending_slot {q} e m v h = elim (Bool-cases (leb queue_size (sub32 q.head q.tail))) [
    | inl full ↦ rw full refl
    | inr room ↦ rw room (
        get_or-set_ne q.slots (slot_at q.head) ((q.tail + m) % queue_size)
          (stored q.slots (slot_at q.head) e) blank (apart v (ground arith) m h))
  ]

  -- A push leaves the text behind any pointer alone that does not lead to the slot it fills.
  push-text_bytes :
      {q : Queue F} (e : Event F) (r : TextRef)
      → IsValid q
      → ((j : ℕ) → r ≡ slot_text j → sub32 q.head q.tail < queue_size → slot_at q.head ≢ j)
      → text_bytes (push q e).0.slots r ≡ text_bytes q.slots r
  unfolding push count
  push-text_bytes {q} e r v h = elim (Bool-cases (leb queue_size (sub32 q.head q.tail))) [
    | inl full ↦ rw full refl
    | inr room ↦ rw room (
        text_bytes-set q.slots (slot_at q.head) (stored q.slots (slot_at q.head) e) r
          (λ j p. h j p (ground arith)))
  ]

  -- While each pointer leads to its own slot, a push changes neither a pending event nor the text
  -- that it leads to, whether or not there is room.
  pub push-pending :
      {q : Queue F} (e : Event F) (m : ℕ)
      → IsValid q
      → OwnsTexts q
      → m < sub32 q.head q.tail
      → let q' = (push q e).0 in
        (pending q' m ≡ pending q m) × (pending_text q' m ≡ pending_text q m)
  push-pending {q} e m v o h = (
    push-pending_slot e m v h,
    ap (λ (x : Slot F). text_bytes (push q e).0.slots (text_of x.event.payload))
          (push-pending_slot e m v h)
        ∙ push-text_bytes e (text_of (pending q m).event.payload) v (λ j p room.
          subst (λ (i : ℕ). slot_at q.head ≢ i) (sym (o.own m j h p)) (apart v room m h)),
  )

  stored_external :
      (slots : List (Slot F)) (i : ℕ) (e : Event F) (s : List ℕ)
      → e.type ≡ text_input
      → text_of e.payload ≡ external s
      → stored slots i e
        ≡ record { event = record e { payload = Payload.text (slot_text i) }; textbuf = take 63 s }
  unfolding stored
  stored_external slots i e s t p = rw ((==_iff e.type text_input).1 t, p)

  -- A text input event with a text is stored with a pointer to its own slot, which holds the first 63
  -- bytes of that text.
  pub push_text :
      {q : Queue F} (e : Event F) (s : List ℕ)
      → IsValid q
      → sub32 q.head q.tail < queue_size
      → e.type ≡ text_input
      → text_of e.payload ≡ external s
      → let q' = (push q e).0 in
        let n = sub32 q.head q.tail in
        (text_of (pending q' n).event.payload ≡ slot_text ((q.tail + n) % queue_size))
        × (pending_text q' n ≡ take 63 s)
  unfolding push count text_bytes
  push_text {q} e s v room t p = rw open_queue (
    ap (λ (x : Slot F). text_of x.event.payload) got ∙ ap slot_text (head_slot v),
    ap (λ (x : Slot F). text_bytes slots' (text_of x.event.payload)) got
        ∙ ap (λ (i : ℕ). (get_or slots' i blank).textbuf) (head_slot v)
        ∙ ap (λ (x : Slot F). x.textbuf) got,
  )
    where
      open_queue : leb queue_size (sub32 q.head q.tail) ≡ false
      open_queue = ground arith

      slots' : List (Slot F)
      slots' = set q.slots (slot_at q.head) (stored q.slots (slot_at q.head) e)

      target : Slot F
      target = record {
        event = record e { payload = Payload.text (slot_text (slot_at q.head)) };
        textbuf = take 63 s;
      }

      inside : slot_at q.head < length q.slots
      inside = omega (arith, slot_lem q.head, v.storage)

      got : get_or slots' ((q.tail + sub32 q.head q.tail) % queue_size) blank ≡ target
      got =
          ap (λ (i : ℕ). get_or slots' i blank) (sym (head_slot v))
          ∙ get_or-set_self q.slots (slot_at q.head) (stored q.slots (slot_at q.head) e) blank
              inside
          ∙ stored_external q.slots (slot_at q.head) e s t p
