-- ===== src/Events/Numbers.antt =====
-- `SDL_RegisterEvents` of src/SDL_events.c: the numbers that it hands out.
use sdlop.Base.{ℕ, ◌+◌, ◌^◌, ◌≤◌, ◌<◌, ◌≡◌, ◌≢◌, ◌⊎◌, ltb, leb, ◌&&◌, ◌==◌, if◌then◌else◌, arith}
use sdlop.Base.Int.{pos}
use sdlop.Event.{event_user, event_last}
use sdlop.State.{Sdl}
use sdlop.Events.{register_events}

-- The counter is still 0, or in the range of the user events.
abbrev pub IsNumbered : {F : Type 0} → Sdl F → Type 0
IsNumbered s =
    (s.next_user_event ≡ 0) ⊎ ((event_user ≤ s.next_user_event) × (s.next_user_event ≤ event_last))

-- The first number that is free.
abbrev pub next_number : {F : Type 0} → Sdl F → ℕ
next_number s = if s.next_user_event == 0 then event_user else s.next_user_event

module _ {F : Type 0} where
  -- `SDL_RegisterEvents` for `n` numbers, `n` below 2^31, hands out the `n` numbers from the first
  -- free one on when `n` is positive and the last of them is below SDL_EVENT_LAST, and they are free
  -- no longer. Any other call returns 0 and hands out nothing. The counter stays in the range of the
  -- user events.
  pub register_events_lem :
      (s : Sdl F) (n : ℕ)
      → n < 2 ^ 31
      → IsNumbered s
      → let (s', base) = register_events s (pos n) in
        let next = next_number s in
        let fits = ltb 0 n && leb (next + n) event_last in
        IsNumbered s'
        × (base ≡ (if fits then next else 0))
        × (next_number s' ≡ (if fits then next + n else next))
  unfolding register_events
  register_events_lem s n small v = ground arith

  -- Two calls that succeed hand out ranges that do not meet, both within the user events.
  pub register_events_twice :
      (s : Sdl F) (n m : ℕ)
      → n < 2 ^ 31
      → m < 2 ^ 31
      → IsNumbered s
      → (register_events s (pos n)).1 ≢ 0
      → (register_events (register_events s (pos n)).0 (pos m)).1 ≢ 0
      → let (s1, b1) = register_events s (pos n) in
        let b2 = (register_events s1 (pos m)).1 in
        (event_user ≤ b1) × (b1 + n ≤ b2) × (b2 + m ≤ event_last)
  unfolding register_events
  register_events_twice s n m small small' v first second = ground arith
