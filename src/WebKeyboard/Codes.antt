-- ===== src/WebKeyboard/Codes.antt =====
-- src/SDL_keyboard_web.c: key codes and back.
use sdlop.Base.{
  ℕ, ◌-◌, ◌<◌, ◌≡◌, ◌∙◌, refl, ap, Bool, true, false, ◌&&◌, ◌||◌, ==_iff, Option, none, some, leb,
  ◌==◌, if◌then◌else◌,
}
use sdlop.Base.Bits.{has}
use sdlop.Scancode.Reverse.{every, entry}
use sdlop.WebKeyboard.{
  KeyEntry, key, key_table, entry_in, character, control_key, get_key_from_scancode,
  get_scancode_from_key, resolve_entry,
}
use sdlop.Keysym.{to_keycode}

-- The key of the main block that gives the same character as a key of the numeric keypad, and the
-- backslash for the second backslash; every other key for itself.
pub main_key : ℕ → ℕ
main_key sc =
    if leb 89 sc && leb sc 98
    then sc - 59
    else if sc == 84
    then 56
    else if sc == 85
    then 37
    else if sc == 86
    then 45
    else if sc == 87 || sc == 103
    then 46
    else if sc == 88
    then 40
    else if sc == 99
    then 55
    else if sc == 100
    then 49
    else sc

-- The key code of an entry, with the two tests of `resolve` given
resolved_entry : Option KeyEntry → Bool → Bool → ℕ → ℕ
resolved_entry none shift caps sc = if sc == 0 then 0 else to_keycode sc
resolved_entry (some (key k base shifted repeats)) shift caps sc =
    let ch = character shift caps base shifted in if ch == 0 then control_key sc else ch

resolved : Bool → Bool → ℕ → ℕ
resolved shift caps sc = resolved_entry (entry_in key_table sc) shift caps sc

resolved_entry_lem :
    (o : Option KeyEntry) (sc mods : ℕ) (key_event : Bool)
    → (resolve_entry o sc mods key_event).0
      ≡ resolved_entry o (key_event && has mods 0x3) (has mods 0x2000) sc
unfolding resolve_entry resolved_entry
resolved_entry_lem none sc mods key_event = refl
resolved_entry_lem (some (key k base shifted repeats)) sc mods key_event = refl

back : Bool → Bool → ℕ → Bool
back shift caps sc = (get_scancode_from_key (resolved shift caps sc)).0 == main_key sc

back_table : (shift caps : Bool) → every (back shift caps) 512 ≡ true
unfolding every back resolved resolved_entry get_scancode_from_key main_key entry_in character
    control_key
back_table true true = refl
back_table true false = refl
back_table false true = refl
back_table false false = refl

-- The key code of a scancode below 512, with whatever modifiers, gives the scancode back, with two
-- exceptions: a key of the numeric keypad gives the key of the main block that types the same character,
-- with shift where that needs it, and the second backslash (100) gives the first one (49).
pub get_scancode_from_key-get_key :
    (sc mods : ℕ) (key_event : Bool)
    → sc < 512
    → (get_scancode_from_key (get_key_from_scancode sc mods key_event)).0 ≡ main_key sc
unfolding back resolved get_key_from_scancode
get_scancode_from_key-get_key sc mods key_event h =
    let shift = key_event && has mods 0x3 in
    let caps = has mods 0x2000 in
    ap (λ (c : ℕ). (get_scancode_from_key c).0)
      (resolved_entry_lem (entry_in key_table sc) sc mods key_event)
    ∙ (==_iff _ (main_key sc)).0 (entry (back shift caps) 512 sc (back_table shift caps) h)
