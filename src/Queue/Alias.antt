-- ===== src/Queue/Alias.antt =====
-- What `SDL_FlushEvents` of src/SDL_events.c does to the texts of the events that it moves.
use sdlop.Base.{
  ℕ, ◌+◌, ◌%◌, ◌≡◌, refl, ap, ◌∙◌, List, true, false, arith, get_or, set, take, get_or-set_self,
  ◌==◌, subst,
}
use sdlop.Event.{Event, external, slot_text, text_of, text_input}
use sdlop.Queue.{
  Queue, Slot, blank, queue_size, sub32, next32, slot_at, count, push, flush_from, flush_events,
}
use sdlop.Queue.Contents.{IsValid, slot_lem}
use sdlop.Queue.Flush.{matches, flush_events-IsValid}
use sdlop.Queue.Text.{pending, pending_text, push_text, push-pending_slot}

module _ {F : Type 0} (lo hi : ℕ) where
  -- The first of two pending events is dropped, and the slot of the second is copied over it.
  flushed :
      {q : Queue F}
      → IsValid q
      → sub32 q.head q.tail ≡ 2
      → matches lo hi (pending q 0) ≡ true
      → matches lo hi (pending q 1) ≡ false
      → flush_events q lo hi
        ≡ record q { slots = set q.slots (slot_at q.tail) (pending q 1); head = next32 q.tail }
  unfolding flush_events flush_from
  flushed {q} v two drops keeps = rw (two, count, at_one, here, drops', there, keeps', differs) refl
    where
      at_zero : (q.tail + 0) % queue_size ≡ slot_at q.tail
      at_zero = omega (arith, slot_lem q.tail)

      at_one : (q.tail + 1) % queue_size ≡ slot_at (next32 q.tail)
      at_one = omega (arith, slot_lem (next32 q.tail))

      drops' : matches lo hi (get_or q.slots (slot_at q.tail) blank) ≡ true
      drops' = rw at_zero at drops

      keeps' : matches lo hi (get_or q.slots (slot_at (next32 q.tail)) blank) ≡ false
      keeps' = rw at_one at keeps

      here : (q.tail == q.head) ≡ false
      here = ground arith

      there : (next32 q.tail == q.head) ≡ false
      there = ground arith

      differs : (q.tail == next32 q.tail) ≡ false
      differs = ground arith

  -- A defect: when the first of two pending events is flushed away and the second is a text input
  -- event, the moved event still points at its old slot, and the next text input event that is pushed
  -- replaces its text.
  pub flush_then_push :
      {q : Queue F} (e : Event F) (s : List ℕ)
      → IsValid q
      → sub32 q.head q.tail ≡ 2
      → matches lo hi (pending q 0) ≡ true
      → matches lo hi (pending q 1) ≡ false
      → text_of (pending q 1).event.payload ≡ slot_text ((q.tail + 1) % queue_size)
      → e.type ≡ text_input
      → text_of e.payload ≡ external s
      → let q' = (push (flush_events q lo hi) e).0 in
        ((pending q' 0).event ≡ (pending q 1).event) × (pending_text q' 0 ≡ take 63 s)
  flush_then_push {q} e s v two drops keeps owns t p =
      rw (flushed v two drops keeps)
        (ap (λ (x : Slot F). x.event) (first ∙ moved), cc (first, moved, owns, stays.0, stays.1))
    where
      r : Queue F
      r = record q { slots = set q.slots (slot_at q.tail) (pending q 1); head = next32 q.tail }

      r-IsValid : IsValid r
      r-IsValid = subst IsValid (flushed v two drops keeps) (flush_events-IsValid lo hi v)

      one : sub32 r.head r.tail ≡ 1
      one = omega (arith, v.tail_in)

      first : pending (push r e).0 0 ≡ pending r 0
      first = push-pending_slot e 0 r-IsValid (omega (arith, one))

      moved : pending r 0 ≡ pending q 1
      moved =
          ap (λ (i : ℕ). get_or r.slots i blank) {x = (q.tail + 0) % queue_size}
            {y = slot_at q.tail} (omega (arith, slot_lem q.tail))
          ∙ get_or-set_self q.slots (slot_at q.tail) (pending q 1) blank
              (omega (arith, slot_lem q.tail, v.storage))

      stays :
          (text_of (pending (push r e).0 1).event.payload ≡ slot_text ((q.tail + 1) % queue_size))
          × (pending_text (push r e).0 1 ≡ take 63 s)
      stays = rw one at (push_text e s r-IsValid (omega (arith, one)) t p)
