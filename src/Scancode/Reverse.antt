-- ===== src/Scancode/Reverse.antt =====
-- The two key tables of src/SDL_keyboard.c and src/internal/scancode_evdev.h are inverse where they
-- are defined.
use sdlop.Base.{
  ℕ, zero, suc, ◌<◌, ◌≡◌, ◌≢◌, refl, Bool, true, false, if◌then◌else◌, ◌&&◌, ◌||◌, ◌==◌, arith, ltb,
  leb, ◌≤◌,
}
use sdlop.Scancode.{evdev_to_scancode, evdev_from_scancode, scancode_count, evdev_key_max}

-- The test of every index of a table, from the last one down.
module _ (test : ℕ → Bool) where
  unfoldable pub every : ℕ → Bool
  every zero = true
  every (suc last) = if test last then every last else false

  pub entry : (size i : ℕ) → every size ≡ true → i < size → test i ≡ true
  unfolding every
  entry zero i all inside = absurd (omega arith)
  entry (suc last) i all inside = ground (arith, entry last i)

back : ℕ → Bool
back sc = evdev_from_scancode sc == 0 || evdev_to_scancode (evdev_from_scancode sc) == sc

back_table : every back 512 ≡ true
unfolding every back evdev_from_scancode evdev_to_scancode
back_table = refl

back_sound : (sc : ℕ) → sc < 512 → back sc ≡ true
back_sound sc h = entry back 512 sc back_table h

onward : ℕ → Bool
onward code =
    let sc = evdev_to_scancode code in
    let low = evdev_from_scancode sc in
    code == 0 || sc == 0 || (ltb 0 low && leb low code && evdev_to_scancode low == sc)

onward_table : every onward 768 ≡ true
unfolding every onward evdev_from_scancode evdev_to_scancode
onward_table = refl

onward_sound : (code : ℕ) → code < 768 → onward code ≡ true
onward_sound code h = entry onward 768 code onward_table h

-- A scancode that has a key code is what that key code is translated to.
pub evdev_to_scancode-from :
    (sc : ℕ)
    → sc < scancode_count
    → evdev_from_scancode sc ≢ 0
    → evdev_to_scancode (evdev_from_scancode sc) ≡ sc
unfolding back
evdev_to_scancode-from sc h ne = ground (arith, back_sound sc h)

-- For a key code other than 0 that has a scancode, the reverse table holds a key code that is no higher
-- and has the same scancode.
pub evdev_from_scancode-to :
    (code : ℕ)
    → 0 < code
    → code ≤ evdev_key_max
    → evdev_to_scancode code ≢ 0
    → let low = evdev_from_scancode (evdev_to_scancode code) in
      (0 < low) × (low ≤ code) × (evdev_to_scancode low ≡ evdev_to_scancode code)
unfolding onward
evdev_from_scancode-to code p h ne = ground (arith, onward_sound code (omega arith))
