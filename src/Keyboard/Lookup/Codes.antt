-- ===== src/Keyboard/Lookup/Codes.antt =====
-- src/SDL_keyboard.c: `SDL_GetScancodeFromKey` on the key codes that the program makes.
use sdlop.Base.{
  ℕ, suc, ◌+◌, ◌*◌, ◌%◌, ◌^◌, ◌-◌, ◌≤◌, ◌<◌, ◌≡◌, ◌≢◌, ◌∙◌, ap, refl, bit_and, Bool, true, false,
  List, [], ◌∷◌, some, ◌==◌, ◌||◌, if◌then◌else◌, arith,
}
use sdlop.Base.Bits.{has, clear, has-pow, bit_and_low, bit_and-zero}
use sdlop.Base.Bits.Parts.{bit_or_high, bit_and_high, bit-lt_pow}
use sdlop.Keysym.{KeysymValues, keysym_to_keycode, to_keycode, lower_a, lower_z, no_symbol}
use sdlop.Scancode.{evdev_to_scancode}
use sdlop.Symtab.{Slot, symtab_get, build_symtab}
use sdlop.Symtab.Build.{last_key, gives, last_key-top, build_symtab_lem}
use sdlop.Keyboard.Lookup.{get_scancode_from_key, shifted, shifted_from, shifted_us}

masked : (sc : ℕ) → sc < 2 ^ 30 → to_keycode sc ≡ 1 * 2 ^ 30 + sc
masked sc h = bit_or_high 30 1 sc h

has_mask : (sc : ℕ) → sc < 2 ^ 30 → has (1 * 2 ^ 30 + sc) (2 ^ 30) ≡ true
has_mask sc h =
    let both : bit_and (1 * 2 ^ 30 + sc) (1 * 2 ^ 30 + 0) ≡ bit_and 1 1 * 2 ^ 30 + bit_and sc 0 =
      bit_and_high 30 1 sc 1 0 h (omega arith) in
    ground (arith, both, bit_and-zero sc)

less_mask : (sc : ℕ) → sc < 2 ^ 30 → clear 32 (1 * 2 ^ 30 + sc) (2 ^ 30) ≡ sc
less_mask sc h =
    let low : bit_and (1 * 2 ^ 30 + sc) (2 * 2 ^ 30 + (2 ^ 30 - 1))
        ≡ bit_and 1 2 * 2 ^ 30 + bit_and sc (2 ^ 30 - 1) =
      bit_and_high 30 1 sc 2 (2 ^ 30 - 1) h (omega arith) in
    omega (arith, low, bit_and_low sc 30)

-- A key code made from a scancode gives the scancode back, with no modifiers.
pub get_scancode_from_key-to_keycode :
    (t : List Slot) (sc : ℕ) → sc < 2 ^ 30 → get_scancode_from_key t (to_keycode sc) ≡ some (sc, 0)
unfolding get_scancode_from_key
get_scancode_from_key-to_keycode t sc h =
    rw (masked sc h) (rw (has_mask sc h) (ap (λ (c : ℕ). some (c, 0)) (less_mask sc h)))

no_mask : (key : ℕ) → key < 2 ^ 30 → has key (2 ^ 30) ≡ false
no_mask key h = ground (arith, has-pow key 30, bit-lt_pow 30 key)

-- The key codes that the source names apart
abbrev pub is_named : ℕ → Bool
is_named key = key == 0xd || key == 0x1b || key == 0x8 || key == 0x9 || key == 0x7f

looked_up :
    (t : List Slot) (key sc : ℕ)
    → key < 2 ^ 30
    → is_named key ≡ false
    → symtab_get t key ≡ some sc
    → get_scancode_from_key t key ≡ some (if sc == 0 then shifted key else (sc, 0))
unfolding get_scancode_from_key
looked_up t key sc h named e =
    rw (no_mask key h, split.0, split.1, split.2, split.3, split.4, e) refl
  where
    split :
        ((key == 0xd) ≡ false)
        × ((key == 0x1b) ≡ false)
        × ((key == 0x8) ≡ false)
        × ((key == 0x9) ≡ false)
        × ((key == 0x7f) ≡ false)
    split = ground (arith, named)

module _ (value : KeysymValues) (one_sym : ℕ → ℕ) where
  -- With the table that `build_symtab` makes, `SDL_GetScancodeFromKey` ends for every key code without the
  -- scancode bit that the source does not name: the result is the highest key that gives the symbol of
  -- that number, without modifiers, and where the layout has none, what the shifted table says.
  pub get_scancode_from_key_lem :
      (key : ℕ)
      → key ≢ 0
      → key < 2 ^ 30
      → is_named key ≡ false
      → (t : List Slot) × (build_symtab value one_sym ≡ some t)
        × (get_scancode_from_key t key ≡ (
            let sc = last_key value one_sym 767 key in
            some (if sc == 0 then shifted key else (sc, 0))))
  get_scancode_from_key_lem key ne h named =
      let (t, built, found) = build_symtab_lem value one_sym in
      (t, built, looked_up t key (last_key value one_sym 767 key) h named (found key ne))

  same_letter :
      (key : ℕ)
      → value lower_a ≡ 97
      → value lower_z ≡ 122
      → 97 ≤ key
      → key ≤ 122
      → keysym_to_keycode value key ≡ key
  unfolding keysym_to_keycode
  same_letter key a z from to = ground (arith, a, z)

  -- Back from the key code of a small letter: a key whose symbol is a small letter has this letter as its
  -- key code, and the key code gives its scancode, where no higher key code gives the same symbol.
  pub letter_round_trip :
      (code : ℕ)
      → suc code ≤ 767
      → value lower_a ≡ 97
      → value lower_z ≡ 122
      → value no_symbol ≡ 0
      → 97 ≤ one_sym (suc code + 8)
      → one_sym (suc code + 8) ≤ 122
      → evdev_to_scancode (suc code) ≢ 0
      → ((c : ℕ) → suc code < c → c ≤ 767 → gives value one_sym c (one_sym (suc code + 8)) ≡ false)
      → (t : List Slot) × (build_symtab value one_sym ≡ some t)
        × (get_scancode_from_key t (keysym_to_keycode value (one_sym (suc code + 8)))
            ≡ some (evdev_to_scancode (suc code), 0))
  letter_round_trip code top a z none_zero from to used above =
      let key = one_sym (suc code + 8) in
      let (t, built, found) =
        get_scancode_from_key_lem key (omega arith) (omega arith) (ground arith) in
      let own : gives value one_sym (suc code) key ≡ true = ground (arith, used, none_zero) in
      let last : last_key value one_sym 767 key ≡ evdev_to_scancode (suc code) =
        ap (λ (c : ℕ). last_key value one_sym c key) {x = 767} {y = suc code + (767 - suc code)}
          (omega arith)
        ∙ last_key-top value one_sym code key (767 - suc code) own
            (λ c p q. above c p (omega arith)) in
      (t, built, rw (same_letter key a z from to) (found ∙ ground (arith, last, used)))

cut : (l : List (ℕ × ℕ)) (key : ℕ) → shifted_from l key ≡ shifted_from l (key % 256)
unfolding shifted_from
cut [] key = refl
cut ((ch, sc) ∷ l) key = ground (arith, cut l key)

-- A defect: a key code past Latin-1 that the layout does not have is cut to its low byte for the search of
-- the shifted characters.
pub get_scancode_from_key_cut :
    (t : List Slot) (key : ℕ)
    → 256 ≤ key
    → key < 2 ^ 30
    → symtab_get t key ≡ some 0
    → get_scancode_from_key t key ≡ some (shifted_from shifted_us (key % 256))
unfolding shifted
get_scancode_from_key_cut t key low h e =
    looked_up t key 0 h (ground arith) e ∙ ap some (rw (← cut shifted_us key) (ground arith))
