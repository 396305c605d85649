-- ===== src/Wayland/Keyboard/Rate.antt =====
-- src/video/wayland/sdlop_wayland.c: the compositor's rate of key repeat, and the loop of src/SDL_keyboard.c
-- that runs at it.
use sdlop.Base.{ℕ, ◌+◌, ◌^◌, ◌<◌, ◌≡◌, ap, subst, some, arith}
use sdlop.Base.Int.{ℤ, pos_part}
use native.Mathlib.Nat.{div-le_self}
use sdlop.Clock.{monotonic_ns}
use sdlop.State.{Sdl}
use sdlop.Keyboard.{Xkb, process_repeats}
use sdlop.Keyboard.Repeats.{ahead, IsSettled, process_repeats_lem}
use sdlop.Wayland.Keyboard.{keyboard_repeat_info, set_repeat_info}

module _ {F : Type 0} where
  -- Between the presses there is some time, which 32 bits hold.
  abbrev pub HasInterval : Sdl F → Type 0
  HasInterval s = (0 < s.repeat.interval_ms) × (s.repeat.interval_ms < 2 ^ 32)

  interval_kept :
      (s : Sdl F) (rate delay : ℤ) → HasInterval s → HasInterval (keyboard_repeat_info s rate delay)
  unfolding keyboard_repeat_info set_repeat_info
  interval_kept s rate delay h = ground (arith, h, div-le_self 1000 (pos_part rate))

  rest_kept :
      (s : Sdl F) (rate delay : ℤ)
      → let s1 = keyboard_repeat_info s rate delay in
        (s1.repeat.next_ns ≡ s.repeat.next_ns) × (s1.clock ≡ s.clock)
  unfolding keyboard_repeat_info set_repeat_info
  rest_kept s rate delay = ground arith

  settles :
      (xkb : Xkb) (fuel : ℕ) (s s1 : Sdl F)
      → let now = (monotonic_ns s.clock).1 in
        s1.clock ≡ s.clock
        → s1.repeat.next_ns ≡ s.repeat.next_ns
        → HasInterval s1
        → now < 2 ^ 64
        → s.repeat.next_ns < 2 ^ 64
        → 1 < fuel
        → (ahead xkb now s < 2 ^ 63 → ahead xkb now s + 1 < fuel)
        → (s' : Sdl F) × (process_repeats xkb fuel s1 ≡ some s') × IsSettled xkb now s'
  settles xkb fuel s s1 clock next h a b f g =
      subst
        (λ (now : ℕ). (s' : Sdl F) × (process_repeats xkb fuel s1 ≡ some s') × IsSettled xkb now s')
        (ap (λ c. (monotonic_ns c).1) clock)
        (process_repeats_lem xkb fuel s1 h.0 (omega (arith, h)) (rw clock a) (rw next b) f
          (rw (clock, next) g))

  -- Whatever rate and delay the compositor sets, be they 0, negative or above a thousand presses a second,
  -- the loop of the key repeat that comes next ends, with the repeat off or not due.
  pub process_repeats-keyboard_repeat_info :
      (xkb : Xkb) (fuel : ℕ) (s : Sdl F) (rate delay : ℤ)
      → let now = (monotonic_ns s.clock).1 in
        HasInterval s
        → now < 2 ^ 64
        → s.repeat.next_ns < 2 ^ 64
        → 1 < fuel
        → (ahead xkb now s < 2 ^ 63 → ahead xkb now s + 1 < fuel)
        → (s' : Sdl F) × (process_repeats xkb fuel (keyboard_repeat_info s rate delay) ≡ some s')
          × IsSettled xkb now s'
  process_repeats-keyboard_repeat_info xkb fuel s rate delay h a b f g =
      let (next, clock) = rest_kept s rate delay in
      settles xkb fuel s (keyboard_repeat_info s rate delay) clock next
        (interval_kept s rate delay h) a b f g
