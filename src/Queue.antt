-- ===== src/Queue.antt =====
-- src/SDL_events.c, the queue storage and the functions on it. Indices run free on uint32_t.
pub mod Contents
pub mod Flush
pub mod Text
pub mod Alias
use sdlop.Base.{
  ℕ, zero, suc, ◌+◌, ◌-◌, ◌%◌, ◌^◌, bit_and, Bool, true, false, ◌&&◌, Option, none, some, List, [],
  get_or, set, take, leb, ◌==◌, if◌then◌else◌, replicate,
}
use sdlop.Event.{Event, Payload, TextRef, null, external, slot_text, text_of, common, text_input}

abbrev pub queue_size : ℕ
queue_size = 128

abbrev pub text_size : ℕ
text_size = 64

-- `SDLOP_EventSlot`. `textbuf` holds the bytes before the terminator.
pub record Slot (F : Type 0) : Type 0 where
  pub event : Event F
  pub textbuf : List ℕ

pub record Queue (F : Type 0) : Type 0 where
  pub slots : List (Slot F)
  pub head : ℕ
  pub tail : ℕ

abbrev pub sub32 : ℕ → ℕ → ℕ
sub32 a b = (a + 2 ^ 32 - b) % 2 ^ 32

abbrev pub next32 : ℕ → ℕ
next32 a = (a + 1) % 2 ^ 32

-- `i & (SDLOP_EVENT_QUEUE_SIZE - 1)`
abbrev pub slot_at : ℕ → ℕ
slot_at i = bit_and i (queue_size - 1)

-- `type >= minType && type <= maxType`
abbrev pub in_range : ℕ → ℕ → ℕ → Bool
in_range min_type max_type t = leb min_type t && leb t max_type

module _ {F : Type 0} where
  -- Zeroed storage.
  abbrev pub blank : Slot F
  blank = record {
    event = record { type = 0; timestamp = 0; window_id = 0; payload = common };
    textbuf = [];
  }

  unfoldable pub initial : Queue F
  initial = record { slots = replicate queue_size blank; head = 0; tail = 0 }

  pub count : Queue F → ℕ
  count q = sub32 q.head q.tail

  -- The bytes that a text pointer leads to now.
  pub text_bytes : List (Slot F) → TextRef → List ℕ
  text_bytes slots null = []
  text_bytes slots (external s) = s
  text_bytes slots (slot_text i) = (get_or slots i blank).textbuf

  -- A text is cut to `text_size - 1` bytes and copied into the slot, which the pointer then names.
  stored_text : List (Slot F) → ℕ → Event F → TextRef → Slot F
  unfolding text_bytes
  stored_text slots i e null = record { event = e; textbuf = (get_or slots i blank).textbuf }
  stored_text slots i e (external s) = record {
    event = record e { payload = Payload.text (slot_text i) };
    textbuf = take (text_size - 1) s;
  }
  stored_text slots i e (slot_text j) = record {
    event = record e { payload = Payload.text (slot_text i) };
    textbuf = take (text_size - 1) (get_or slots j blank).textbuf;
  }

  -- What `SDLOP_PushEventInternal` leaves in slot `i`.
  pub stored : List (Slot F) → ℕ → Event F → Slot F
  unfolding stored_text
  stored slots i e =
      stored_text slots i e (if e.type == text_input then text_of e.payload else null)

  -- `SDLOP_PushEventInternal`; its caller sets the error.
  pub push : Queue F → Event F → Queue F × Bool
  unfolding count
  push q e = if leb queue_size (count q) then (q, false) else (
    record q {
      slots = set q.slots (slot_at q.head) (stored q.slots (slot_at q.head) e);
      head = next32 q.head;
    },
    true,
  )

  -- `SDL_PollEvent`: the option is what is copied out.
  pub poll : Queue F → Queue F × Option (Event F)
  poll q =
      if q.tail == q.head
      then (q, none)
      else (record q { tail = next32 q.tail }, some (get_or q.slots (slot_at q.tail) blank).event)

  -- The loop of `SDL_HasEvents` from index `i`. The fuel is the number of indices left.
  has_from : ℕ → Queue F → ℕ → ℕ → ℕ → Bool
  has_from zero q i lo hi = false
  has_from (suc fuel) q i lo hi =
      let rest = has_from fuel q (next32 i) lo hi in
      if i == q.head
      then false
      else if in_range lo hi (get_or q.slots (slot_at i) blank).event.type
      then true
      else rest

  pub has_events : Queue F → ℕ → ℕ → Bool
  unfolding has_from count
  has_events q lo hi = has_from (count q) q q.tail lo hi

  pub has_event : Queue F → ℕ → Bool
  unfolding has_events
  has_event q t = has_events q t t

  -- The loop of `SDL_FlushEvents`: `keep` is the next index to fill, `i` the next to read.
  flush_from : ℕ → ℕ → ℕ → Queue F → ℕ → ℕ → Queue F
  flush_from zero keep i q lo hi = record q { head = keep }
  flush_from (suc fuel) keep i q lo hi =
      let slot = get_or q.slots (slot_at i) blank in
      let skipped = flush_from fuel keep (next32 i) q lo hi in
      let in_place = flush_from fuel (next32 keep) (next32 i) q lo hi in
      let moved =
        flush_from fuel (next32 keep) (next32 i)
          (record q { slots = set q.slots (slot_at keep) slot }) lo hi in
      if i == q.head
      then record q { head = keep }
      else if in_range lo hi slot.event.type
      then skipped
      else if keep == i
      then in_place
      else moved

  pub flush_events : Queue F → ℕ → ℕ → Queue F
  unfolding flush_from count
  flush_events q lo hi = flush_from (count q) q.tail q.tail q lo hi

  pub flush_event : Queue F → ℕ → Queue F
  unfolding flush_events
  flush_event q t = flush_events q t t
