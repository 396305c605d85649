-- ===== src/Tests/Inputs.antt =====
-- The mouse, the keyboard and the raw input on concrete inputs.
use sdlop.Base.{◌<◌, ◌≤◌, ◌≡◌, true, false, some, [], ◌∷◌, set, arith, ◌≢◌}
use sdlop.Base.Int.{ℤ}
use sdlop.State.{Sdl}
use sdlop.Clock.{monotonic_ns}
use sdlop.Scancode.{evdev_to_scancode, evdev_from_scancode}
use sdlop.Scancode.Reverse.{evdev_from_scancode-to}
use sdlop.Keyboard.{Xkb, send_keyboard_key, process_repeats}
use sdlop.Keyboard.Keys.{keystate-send_keyboard_key}
use sdlop.Keyboard.Repeats.{process_repeats_lem, IsSettled}
use sdlop.Tests.Samples.{x11, running}

-- Every key repeats and gives the letter a.
abbrev pub letters : Xkb
letters = record {
  state_ready = true;
  has_keymap = true;
  one_sym = λ k. k;
  repeats = λ k. true;
  utf8 = λ k. 97 ∷ [];
  value = x11;
}

keystate-send_keyboard_key_example :
    (send_keyboard_key letters running true false 5 48 0).keystate ≡ set running.keystate 5 true
keystate-send_keyboard_key_example =
    keystate-send_keyboard_key letters running true false 5 48 0 (omega arith) (omega arith)

process_repeats_example :
    (s : Sdl ℤ) × (process_repeats letters 3 running ≡ some s) × IsSettled letters 5000000000 s
unfolding monotonic_ns
process_repeats_example =
    process_repeats_lem letters 3 running (omega arith) (omega arith) (omega arith) (omega arith)
      (omega arith) (λ late. omega arith)

has_scancode : evdev_to_scancode 28 ≢ 0
unfolding evdev_to_scancode
has_scancode = omega arith

evdev_from_scancode-to_example :
    let low = evdev_from_scancode (evdev_to_scancode 28) in
    (0 < low) × (low ≤ 28) × (evdev_to_scancode low ≡ evdev_to_scancode 28)
evdev_from_scancode-to_example = evdev_from_scancode-to 28 (omega arith) (omega arith) has_scancode
