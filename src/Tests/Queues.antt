-- ===== src/Tests/Queues.antt =====
-- The event queue of src/SDL_events.c on a queue of two events.
use sdlop.Base.{◌≡◌, refl, [], ◌∷◌, reject}
use sdlop.Queue.{push, poll, stored, slot_at, flush_events}
use sdlop.Queue.Contents.{contents, offer, offer-push, first, first-poll}
use sdlop.Queue.Flush.{matches, contents-flush_events}
use sdlop.Queue.Text.{pending, pending_text}
use sdlop.Queue.Alias.{flush_then_push}
use sdlop.Tests.Samples.{two_events, two_events-IsValid, typed}

offer-push_example :
    let (q, done) = push two_events typed in
    (contents q, done) ≡ offer (contents two_events) (stored two_events.slots (slot_at 2) typed)
offer-push_example = offer-push typed two_events-IsValid

first-poll_example :
    let (q, out) = poll two_events in (contents q, out) ≡ first (contents two_events)
first-poll_example = first-poll two_events-IsValid

contents-flush_events_example :
    contents (flush_events two_events 0x100 0x100)
    ≡ reject (matches 0x100 0x100) (contents two_events)
contents-flush_events_example = contents-flush_events 0x100 0x100 two_events-IsValid

flush_then_push_example :
    let q = (push (flush_events two_events 0x100 0x100) typed).0 in
    ((pending q 0).event ≡ (pending two_events 1).event) × (pending_text q 0 ≡ 111 ∷ 107 ∷ [])
flush_then_push_example =
    flush_then_push 0x100 0x100 typed (111 ∷ 107 ∷ []) two_events-IsValid refl refl refl refl refl
      refl
