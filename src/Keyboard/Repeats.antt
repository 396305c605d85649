-- ===== src/Keyboard/Repeats.antt =====
-- src/SDL_keyboard.c: the loop of the key repeat ends.
use sdlop.Base.{
  pick, ℕ, zero, suc, ◌+◌, ◌-◌, ◌*◌, ◌%◌, ◌^◌, ◌≤◌, ◌<◌, ◌≡◌, ◌⊎◌, inl, inr, refl, ◌∙◌, true, false,
  Bool-cases, leb, ltb, ◌==◌, ◌||◌, ◌&&◌, if◌then◌else◌, arith, some, List,
}
use sdlop.State.{Sdl}
use sdlop.Scancode.{scancode_count, evdev_from_scancode}
use sdlop.Clock.{monotonic_ns}
use sdlop.Keyboard.{
  Xkb, send_keyboard_key, send_key_event, send_pressed_text, translate_key, press, manage_repeat,
  repeat_once, repeats_from, process_repeats,
}
use sdlop.Keyboard.Keys.{kept-send_key_event, kept-send_pressed_text}

-- The times of the next round.
closer :
    (now next step fuel : ℕ)
    → now < 2 ^ 64
    → next < 2 ^ 64
    → 0 < step
    → step < 2 ^ 63
    → (now + 2 ^ 64 - next) % 2 ^ 64 < 2 ^ 63
    → (now + 2 ^ 64 - next) % 2 ^ 64 + 1 < suc fuel
    → let d = (now + 2 ^ 64 - (next + step) % 2 ^ 64) % 2 ^ 64 in d < 2 ^ 63 → d + 1 < fuel
closer now next step fuel a b c d e f g = omega arith

module _ {F : Type 0} (xkb : Xkb) where
  -- A repeated press leaves the key repeat as it is.
  repeat-send_keyboard_key :
      (s : Sdl F) (sc raw t : ℕ) → (send_keyboard_key xkb s true true sc raw t).repeat ≡ s.repeat
  unfolding send_keyboard_key press manage_repeat
  repeat-send_keyboard_key s sc raw t =
      let s1 : Sdl F = press s true sc in
      let code : ℕ = if raw == 0 then evdev_from_scancode sc else raw in
      let out : ℕ × List ℕ = translate_key xkb s1.modstate code true 64 in
      let s3 : Sdl F = send_key_event s1 true true sc out.0 raw t in
      let kept : (send_pressed_text s3 true out.1 t).repeat ≡ s.repeat =
        (kept-send_pressed_text s3 true out.1 t).1
        ∙ (kept-send_key_event s1 true true sc out.0 raw t).1 in
      elim (Bool-cases (sc == 0 || leb scancode_count sc)) [ inl e ↦ rw e refl | inr e ↦ rw e kept ]

  -- A round moves the next press by the interval.
  repeat_once_lem :
      (s : Sdl F)
      → ((repeat_once xkb s).repeat.next_ns
          ≡ (s.repeat.next_ns + s.repeat.interval_ms * 1000000) % 2 ^ 64)
        × ((repeat_once xkb s).repeat.interval_ms ≡ s.repeat.interval_ms)
  unfolding repeat_once
  repeat_once_lem s =
      ground (arith, repeat-send_keyboard_key s s.repeat.scancode s.repeat.rawcode s.repeat.next_ns)

  -- How far a time is ahead of the next repeat, on 64 bits
  abbrev pub ahead : ℕ → Sdl F → ℕ
  ahead now s = (now + 2 ^ 64 - s.repeat.next_ns) % 2 ^ 64

  -- The repeat is off, or its next press is after `now`.
  abbrev pub IsSettled : ℕ → Sdl F → Type 0
  IsSettled now s = (s.repeat.active ≡ false) ⊎ (2 ^ 63 ≤ ahead now s)

  repeats_from_lem :
      (fuel now : ℕ) (s : Sdl F)
      → 0 < s.repeat.interval_ms
      → s.repeat.interval_ms * 1000000 < 2 ^ 63
      → now < 2 ^ 64
      → s.repeat.next_ns < 2 ^ 64
      → 0 < fuel
      → (ahead now s < 2 ^ 63 → ahead now s + 1 < fuel)
      → (s' : Sdl F) × (repeats_from xkb fuel now s ≡ some s') × IsSettled now s'
  unfolding repeats_from
  repeats_from_lem zero now s i i' a b f g = absurd (omega arith)
  repeats_from_lem (suc fuel) now s i i' a b f g =
      elim (Bool-cases (s.repeat.active && ltb (ahead now s) (2 ^ 63))) [
        | inr e ↦ rw e (s, refl, ground arith)
        | inl e ↦ rw e (
            repeats_from_lem fuel now (repeat_once xkb s) (omega (arith, (repeat_once_lem s).1))
              (omega (arith, (repeat_once_lem s).1)) a (omega (arith, (repeat_once_lem s).0))
              (ground arith) (further e))
      ]
    where
      further :
          (s.repeat.active && ltb (ahead now s) (2 ^ 63)) ≡ true
          → ahead now (repeat_once xkb s) < 2 ^ 63
          → ahead now (repeat_once xkb s) + 1 < fuel
      further e = rw (repeat_once_lem s).0 (
          closer now s.repeat.next_ns (s.repeat.interval_ms * 1000000) fuel a b (omega arith) i'
            (ground arith) (g (ground arith)))

  -- `SDLOP_KeyboardProcessRepeats` ends: with an interval of at least a millisecond, and one round for
  -- each nanosecond by which the next press is late and two more, it comes to a state where the
  -- repeat is off or its next press is not due at the time that was read.
  pub process_repeats_lem :
      (fuel : ℕ) (s : Sdl F)
      → let now = (monotonic_ns s.clock).1 in
        0 < s.repeat.interval_ms
        → s.repeat.interval_ms * 1000000 < 2 ^ 63
        → now < 2 ^ 64
        → s.repeat.next_ns < 2 ^ 64
        → 1 < fuel
        → (ahead now s < 2 ^ 63 → ahead now s + 1 < fuel)
        → (s' : Sdl F) × (process_repeats xkb fuel s ≡ some s') × IsSettled now s'
  unfolding process_repeats
  process_repeats_lem fuel s i i' a b f g =
      let now : ℕ = (monotonic_ns s.clock).1 in
      let s1 : Sdl F = record s { clock = (monotonic_ns s.clock).0 } in
      pick s.repeat.active (repeats_from xkb fuel now s1) (some s)
        (λ o. (s' : Sdl F) × (o ≡ some s') × IsSettled now s')
        (λ e. repeats_from_lem fuel now s1 i i' a b (omega arith) g) (λ e. (s, refl, inl e))
