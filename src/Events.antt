-- ===== src/Events.antt =====
-- src/SDL_events.c above the queue: the events that the library makes itself, the public calls that
-- set an error, user event numbers, and the window of an event.
pub mod Numbers
pub mod Push
pub mod Wait
use sdlop.Base.{
  ℕ, ◌+◌, ◌%◌, ◌^◌, Bool, true, false, ◌||◌, ◌&&◌, Option, none, some, List, [], ◌∷◌, ltb, leb,
  ◌==◌, if◌then◌else◌,
}
use sdlop.Base.Int.{ℤ, pos, pos_part, leb_ℤ}
use sdlop.Clock.{ticks_ns, monotonic_ns}
use sdlop.Event.{
  Event, Payload, common, event_quit, window_shown, window_last, key_down, key_up, text_editing,
  text_input, mouse_motion, mouse_button_down, mouse_button_up, mouse_wheel, event_user, event_last,
}
use sdlop.Queue
use sdlop.State.{Sdl, Window, set_error}

-- The labels of the `switch` of `SDL_GetWindowFromEvent`
has_window : ℕ → Bool
has_window t =
    (leb window_shown t && leb t window_last)
    || t == key_down
    || t == key_up
    || t == text_editing
    || t == text_input
    || t == mouse_motion
    || t == mouse_button_down
    || t == mouse_button_up
    || t == mouse_wheel

-- `SDLOP_MonotonicNS()` where a driver calls it
unfoldable pub mono_ns : {F : Type 0} → Sdl F → Sdl F × ℕ
unfolding monotonic_ns
mono_ns s = let (c, t) = monotonic_ns s.clock in (record s { clock = c }, t)

module _ {F : Type 0} where
  -- `SDLOP_PushEventInternal`
  unfoldable pub push_event_internal : Sdl F → Event F → Sdl F × Bool
  unfolding set_error
  push_event_internal s e =
      let (q, done) = Queue.push s.queue e in
      if done
      then (record s { queue = q }, true)
      else (set_error s "Event queue is full (%d events)", false)

  -- `SDL_GetTicksNS()` where the program calls it
  unfoldable pub now_ns : Sdl F → Sdl F × ℕ
  now_ns s = let (c, t) = ticks_ns s.clock in (record s { clock = c }, t)

  -- `SDLOP_SendWindowEvent`
  unfoldable pub send_window_event : Sdl F → Option (Window F) → ℕ → ℤ → ℤ → Sdl F
  unfolding push_event_internal now_ns
  send_window_event s w type data1 data2 =
      let (s', t) = now_ns s in
      (push_event_internal s' (record {
        type = type;
        timestamp = t;
        window_id = elim w [ none ↦ 0 | some v ↦ v.id ];
        payload = Payload.window data1 data2;
      })).0

  -- `SDLOP_SendQuitEvent`
  pub send_quit_event : Sdl F → Sdl F
  unfolding push_event_internal now_ns
  send_quit_event s =
      let (s', t) = now_ns s in
      (push_event_internal s'
        (record { type = event_quit; timestamp = t; window_id = 0; payload = common })).0

  -- `SDL_PushEvent`. The event is the caller's, and its timestamp is filled in there too: it comes back.
  pub push_event : Sdl F → Option (Event F) → Sdl F × Bool × Option (Event F)
  unfolding push_event_internal now_ns set_error
  push_event s none = (set_error s "SDL_PushEvent() with NULL event", false, none)
  push_event s (some e) =
      if e.timestamp == 0
      then (let (s', t) = now_ns s in
          let e' = record e { timestamp = t } in
          let (s2, done) = push_event_internal s' e' in (s2, done, some e'))
      else (let (s2, done) = push_event_internal s e in (s2, done, some e))

  -- `SDL_RegisterEvents`. `numevents` is an `int`; 0 is returned on failure.
  unfoldable pub register_events : Sdl F → ℤ → Sdl F × ℕ
  unfolding set_error
  register_events s numevents =
      if leb_ℤ numevents (pos 0)
      then (s, 0)
      else (let n = pos_part numevents in
          let base = if s.next_user_event == 0 then event_user else s.next_user_event in
          let s' = record s { next_user_event = base } in
          if ltb event_last ((base + n) % 2 ^ 64)
          then (set_error s' "No user events remaining", 0)
          else (record s' { next_user_event = (base + n) % 2 ^ 32 }, base))

  -- `SDL_GetWindowFromID`
  unfoldable pub window_from_id : List (Window F) → ℕ → Option ℕ
  window_from_id [] id = none
  window_from_id (w ∷ ws) id = if w.id == id then some w.addr else window_from_id ws id

  -- `SDL_GetWindowFromEvent`
  pub window_from_event : Sdl F → Option (Event F) → Option ℕ
  unfolding has_window window_from_id
  window_from_event s none = none
  window_from_event s (some e) =
      if has_window e.type
      then (if e.window_id == 0 then none else window_from_id s.windows e.window_id)
      else none
