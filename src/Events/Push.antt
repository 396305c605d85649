-- ===== src/Events/Push.antt =====
-- `SDL_PushEvent` of src/SDL_events.c: what a caller gets back.
use sdlop.Base.{refl, ◌∙◌, Bool-cases, inl, inr, ◌≡◌, some, ◌==◌, if◌then◌else◌, arith}
use sdlop.Event.{Event}
use sdlop.Queue.{slot_at, stored}
use sdlop.Queue.Contents.{IsValid, contents, offer-push, offer}
use sdlop.State.{Sdl, set_error}
use sdlop.Events.{push_event, push_event_internal, now_ns}

module _ {F : Type 0} where
  -- The event that is pushed: a time stamp of 0 is filled in.
  abbrev pub stamped : Sdl F → Event F → Event F
  stamped s e = if e.timestamp == 0 then record e { timestamp = (now_ns s).1 } else e

  pub sent :
      (s : Sdl F) (e : Event F)
      → IsValid s.queue
      → let (s', done) = push_event_internal s e in
        ((contents s'.queue, done)
          ≡ offer (contents s.queue) (stored s.queue.slots (slot_at s.queue.head) e))
        × (s'.error ≡ (if done then s.error else "Event queue is full (%d events)"))
  unfolding push_event_internal set_error offer
  sent s e v = ground (arith, offer-push e v)

  -- `SDL_PushEvent` of an event appends it to the pending events and returns true exactly when fewer
  -- than 128 are pending; otherwise it returns false, leaves them as they were and sets an error. A
  -- time stamp of 0 is filled in, in the caller's event too; any other one is kept.
  pub push_event_lem :
      (s : Sdl F) (e : Event F)
      → IsValid s.queue
      → let (s', done, out) = push_event s (some e) in
        let e' = stamped s e in
        ((contents s'.queue, done)
          ≡ offer (contents s.queue) (stored s.queue.slots (slot_at s.queue.head) e'))
        × (out ≡ some e')
        × (s'.error ≡ (if done then s.error else "Event queue is full (%d events)"))
  unfolding push_event
  push_event_lem s e v = elim (Bool-cases (e.timestamp == 0)) [
    | inl z ↦
        let e' = record e { timestamp = (now_ns s).1 } in
        rw z (
          (sent (now_ns s).0 e' (unfold now_ns in v)).0 ∙ unfold now_ns in refl,
          refl,
          (sent (now_ns s).0 e' (unfold now_ns in v)).1 ∙ unfold now_ns in refl,
        )
    | inr z ↦ rw z ((sent s e v).0, refl, (sent s e v).1)
  ]
