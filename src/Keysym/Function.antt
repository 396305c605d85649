-- ===== src/Keysym/Function.antt =====
-- `keysym_to_keycode` of src/SDL_keyboard.c on the function keys.
use sdlop.Base.{
  ℕ, zero, suc, length, get_or, ◌+◌, ◌-◌, ◌≤◌, ◌<◌, ◌≡◌, ◌⊎◌, ◌↔◌, refl, List, [], ◌∷◌, none, true,
  false, not, ltb, leb, ◌==◌, ◌&&◌, if◌then◌else◌, arith,
}
use sdlop.Base.Bits.Parts.{bit_or_high}
use sdlop.Keysym.{
  Keysym, KeysymValues, keysym_to_keycode, special, special_from, to_keycode, function_key, f1, f24,
  lower_a, lower_z, no_symbol,
}

-- The scancode of function key `i + 1` in include/SDL3/SDL_scancode.h
pub function_scancode : ℕ → ℕ
function_scancode i = if ltb i 12 then 58 + i else 104 + (i - 12)

-- No name of a list stands for a number in the row of the function keys.
abbrev Apart : KeysymValues → List (Keysym × ℕ) → Type 0
Apart value [] = Unit {0}
Apart value ((k, sc) ∷ rest) = ((value k < value f1) ⊎ (value f24 < value k)) × Apart value rest

Apart-at :
    (value : KeysymValues) (l : List (Keysym × ℕ)) (n : ℕ)
    → Apart value l
    → n < length l
    → let k = (get_or l n (no_symbol, 0)).0 in (value k < value f1) ⊎ (value f24 < value k)
Apart-at value [] n a b = absurd (omega arith)
Apart-at value ((k, sc) ∷ l) zero (a, rest) b = a
Apart-at value ((k, sc) ∷ l) (suc n) (a, rest) b = Apart-at value l n rest (omega arith)

-- What X11 documents of the function keys: 24 numbers in a row, past those of Latin-1, that stand for no
-- other key.
pub record HasFunctionKeys (value : KeysymValues) : Type 0 where
  pub past_letters : value lower_z < value f1
  pub past_latin : 0x100 ≤ value f1
  pub row : value f24 ≡ value f1 + 23
  pub apart : Apart value special

module _ (value : KeysymValues) (h : HasFunctionKeys value) (i : ℕ) (inside : i < 24) where
  not_special : (l : List (Keysym × ℕ)) → Apart value l → special_from value l (value f1 + i) ≡ none
  unfolding special_from
  not_special [] a = refl
  not_special ((k, sc) ∷ l) (a, rest) = ground (arith, a, h.row, not_special l rest)

  another :
      (n : ℕ)
      → n < length special
      → (value f1 + i == value (get_or special n (no_symbol, 0)).0) ≡ false
  another n b = ground (arith, Apart-at value special n h.apart b, h.row)

  -- Function key `i + 1` gets the key code of scancode 58 + `i`.
  in_row : keysym_to_keycode value (value f1 + i) ≡ to_keycode (58 + i)
  unfolding keysym_to_keycode function_key
  in_row =
      let key = value f1 + i in
      let letter : (leb (value lower_a) key && leb key (value lower_z)) ≡ false =
        ground (arith, h.past_letters) in
      let latin : (ltb 0x20 key && ltb key 0x100 && not (key == 0x7f)) ≡ false =
        ground (arith, h.past_latin) in
      let row : (leb (value f1) key && leb key (value f24)) ≡ true = ground (arith, h.row) in
      let i' : key - value f1 ≡ i = omega arith in
      rw
        (
          letter,
          latin,
          another 1 (omega arith),
          another 2 (omega arith),
          another 0 (omega arith),
          another 5 (omega arith),
          another 3 (omega arith),
          another 4 (omega arith),
          another 32 (omega arith),
          another 6 (omega arith),
          not_special special h.apart,
          row,
          i',
        )
        refl

  -- A defect: SDL numbers the function keys from F13 on apart from F1 to F12, and the code takes all 24 for
  -- one row. Exactly F1 to F12 get the key code of their scancode.
  pub function_keys_lem :
      (keysym_to_keycode value (value f1 + i) ≡ to_keycode (function_scancode i)) ↔ (i < 12)
  unfolding function_scancode
  function_keys_lem = (
    λ e. ground (
      arith,
      in_row,
      e,
      bit_or_high 30 1 (58 + i) (omega (arith, inside)),
      bit_or_high 30 1 (104 + (i - 12)) (omega (arith, inside)),
      bit_or_high 30 1 (58 + i) (omega (arith, inside)),
    ),
    λ low. ground (arith, in_row, low),
  )
