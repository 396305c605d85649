-- ===== src/Keyboard/Lookup.antt =====
-- src/SDL_keyboard.c: from scancodes to key codes and back.
pub mod Codes
use sdlop.Base.{
  ℕ, ◌+◌, ◌-◌, ◌%◌, ◌^◌, List, [], ◌∷◌, Option, none, some, leb, ◌==◌, ◌&&◌, if◌then◌else◌,
}
use sdlop.Base.Bits.{has, clear}
use sdlop.Symtab.{Slot, symtab_get}

-- The table `shifted_us`
abbrev pub shifted_us : List (ℕ × ℕ)
shifted_us =
    (b'!', 30)
    ∷ (b'@', 31)
    ∷ (b'#', 32)
    ∷ (b'$', 33)
    ∷ (b'%', 34)
    ∷ (b'^', 35)
    ∷ (b'&', 36)
    ∷ (b'*', 37)
    ∷ (b'(', 38)
    ∷ (b')', 39)
    ∷ (b'_', 45)
    ∷ (b'+', 46)
    ∷ (b'{', 47)
    ∷ (b'}', 48)
    ∷ (b'|', 49)
    ∷ (b':', 51)
    ∷ (b'"', 52)
    ∷ (b'~', 53)
    ∷ (b'<', 54)
    ∷ (b'>', 55)
    ∷ (b'?', 56)
    ∷ []

-- The search of that table for `(char)key`, with the modifiers that it gives
pub shifted_from : List (ℕ × ℕ) → ℕ → ℕ × ℕ
shifted_from [] key = (0, 0)
shifted_from ((ch, sc) ∷ rest) key = if ch == key % 256 then (sc, 0x1) else shifted_from rest key

-- What the layout does not have: capitals and other shifted characters
pub shifted : ℕ → ℕ × ℕ
unfolding shifted_from
shifted key =
    if leb b'A' key && leb key b'Z' then (4 + (key - b'A'), 0x1) else shifted_from shifted_us key

-- `SDL_GetScancodeFromKey`: the scancode and the modifiers for `*modstate`. `none` is a search of the
-- table that does not end.
pub get_scancode_from_key : List Slot → ℕ → Option (ℕ × ℕ)
unfolding shifted
get_scancode_from_key t key =
    if has key (2 ^ 30)
    then some (clear 32 key (2 ^ 30), 0)
    else if key == 0xd
    then some (40, 0)
    else if key == 0x1b
    then some (41, 0)
    else if key == 0x8
    then some (42, 0)
    else if key == 0x9
    then some (43, 0)
    else if key == 0x7f
    then some (76, 0)
    else elim (symtab_get t key) [
      | none ↦ none
      | some sc ↦ some (if sc == 0 then shifted key else (sc, 0))
    ]
