-- ===== src/Keysym.antt =====
-- `keysym_to_keycode` of src/SDL_keyboard.c. The symbols of keys are numbers that the headers of
-- xkbcommon name; which number stands for which name is a parameter.
pub mod Function
use sdlop.Base.{
  ℕ, ◌+◌, ◌-◌, ◌^◌, bit_or, List, [], ◌∷◌, Option, none, some, ltb, leb, ◌==◌, ◌&&◌, ◌||◌, not,
  if◌then◌else◌,
}

-- The names `XKB_KEY_...` that the keyboard code uses; `lower_a` to `upper_z` are those of letters.
pub data Keysym : Type 0 where
  escape : Keysym
  return : Keysym
  kp_enter : Keysym
  tab : Keysym
  iso_left_tab : Keysym
  back_space : Keysym
  delete : Keysym
  insert : Keysym
  home : Keysym
  end : Keysym
  page_up : Keysym
  page_down : Keysym
  left : Keysym
  right : Keysym
  up : Keysym
  down : Keysym
  caps_lock : Keysym
  num_lock : Keysym
  scroll_lock : Keysym
  print : Keysym
  pause : Keysym
  menu : Keysym
  space : Keysym
  shift_l : Keysym
  shift_r : Keysym
  control_l : Keysym
  control_r : Keysym
  alt_l : Keysym
  alt_r : Keysym
  super_l : Keysym
  super_r : Keysym
  kp_space : Keysym
  kp_tab : Keysym
  kp_multiply : Keysym
  kp_add : Keysym
  kp_subtract : Keysym
  kp_decimal : Keysym
  kp_divide : Keysym
  kp_equal : Keysym
  kp_separator : Keysym
  kp_0 : Keysym
  kp_1 : Keysym
  kp_2 : Keysym
  kp_3 : Keysym
  kp_4 : Keysym
  kp_5 : Keysym
  kp_6 : Keysym
  kp_7 : Keysym
  kp_8 : Keysym
  kp_9 : Keysym
  lower_a : Keysym
  lower_z : Keysym
  upper_a : Keysym
  upper_z : Keysym
  f1 : Keysym
  f24 : Keysym
  no_symbol : Keysym

-- What the headers say: the number of each name.
abbrev pub KeysymValues : Type 0
KeysymValues = Keysym → ℕ

-- The table `special`
abbrev pub special : List (Keysym × ℕ)
special =
    (escape, 41)
    ∷ (return, 40)
    ∷ (kp_enter, 88)
    ∷ (tab, 43)
    ∷ (iso_left_tab, 43)
    ∷ (back_space, 42)
    ∷ (delete, 76)
    ∷ (insert, 73)
    ∷ (home, 74)
    ∷ (end, 77)
    ∷ (page_up, 75)
    ∷ (page_down, 78)
    ∷ (left, 80)
    ∷ (right, 79)
    ∷ (up, 82)
    ∷ (down, 81)
    ∷ (caps_lock, 57)
    ∷ (num_lock, 83)
    ∷ (scroll_lock, 71)
    ∷ (print, 70)
    ∷ (pause, 72)
    ∷ (menu, 101)
    ∷ (space, 44)
    ∷ (shift_l, 225)
    ∷ (shift_r, 229)
    ∷ (control_l, 224)
    ∷ (control_r, 228)
    ∷ (alt_l, 226)
    ∷ (alt_r, 230)
    ∷ (super_l, 227)
    ∷ (super_r, 231)
    ∷ (kp_space, 44)
    ∷ (kp_tab, 43)
    ∷ (kp_multiply, 85)
    ∷ (kp_add, 87)
    ∷ (kp_subtract, 86)
    ∷ (kp_decimal, 99)
    ∷ (kp_divide, 84)
    ∷ (kp_equal, 103)
    ∷ (kp_separator, 133)
    ∷ (kp_0, 98)
    ∷ (kp_1, 89)
    ∷ (kp_2, 90)
    ∷ (kp_3, 91)
    ∷ (kp_4, 92)
    ∷ (kp_5, 93)
    ∷ (kp_6, 94)
    ∷ (kp_7, 95)
    ∷ (kp_8, 96)
    ∷ (kp_9, 97)
    ∷ []

-- `SDL_SCANCODE_TO_KEYCODE`
abbrev pub to_keycode : ℕ → ℕ
to_keycode sc = bit_or (2 ^ 30) sc

module _ (value : KeysymValues) where
  -- The search of `special` for a symbol
  special_from : List (Keysym × ℕ) → ℕ → Option ℕ
  special_from [] sym = none
  special_from ((k, sc) ∷ rest) sym = if value k == sym then some sc else special_from rest sym

  -- What follows the search: the function keys, of which there are 24 in a row
  function_key : ℕ → ℕ
  function_key sym =
      if leb (value f1) sym && leb sym (value f24)
      then to_keycode (58 + (sym - value f1))
      else to_keycode 0

  -- `keysym_to_keycode`
  unfoldable pub keysym_to_keycode : ℕ → ℕ
  unfolding special_from function_key
  keysym_to_keycode sym =
      if leb (value lower_a) sym && leb sym (value lower_z)
      then sym
      else if ltb 0x20 sym && ltb sym 0x100 && not (sym == 0x7f)
      then sym
      else if sym == value return || sym == value kp_enter
      then 0xd
      else if sym == value escape
      then 0x1b
      else if sym == value back_space
      then 0x8
      else if sym == value tab || sym == value iso_left_tab || sym == value kp_tab
      then 0x9
      else if sym == value delete
      then 0x7f
      else elim (special_from special sym) [ some sc ↦ to_keycode sc | none ↦ function_key sym ]
