-- ===== src/WebKeyboard/Numpad.antt =====
-- src/SDL_keyboard_web.c: the text of the numeric keypad.
use sdlop.Base.{
  ℕ, ◌≤◌, ◌<◌, ◌≡◌, ◌↔◌, refl, Bool, true, false, ◌&&◌, ◌||◌, not, Option, none, some, [], leb, ltb,
  ◌==◌, arith,
}
use sdlop.Base.Bits.{has}
use sdlop.Scancode.Reverse.{every, entry}
use sdlop.WebKeyboard.{KeyEntry, key, key_table, entry_in, resolve, resolve_entry}

-- The keys of the numeric keypad that have a character: from division to the period, and the equals sign
unfoldable pub is_numpad : ℕ → Bool
is_numpad sc = leb 84 sc && leb sc 99 && not (sc == 88) || sc == 103

-- An entry with one character, which is no letter
plain : Option KeyEntry → Bool
plain none = false
plain (some (key k base shifted repeats)) = base == shifted && not (base == 0) && ltb base b'a'

listed : ℕ → Bool
listed sc = not (is_numpad sc) || plain (entry_in key_table sc)

listed_table : every listed 512 ≡ true
unfolding every listed is_numpad plain entry_in
listed_table = refl

plain_text :
    (o : Option KeyEntry) (sc mods : ℕ) (key_event : Bool)
    → plain o ≡ true
    → has mods 0x1000 ≡ false
    → has mods 0x4fc0 ≡ false
    → ((resolve_entry o sc mods key_event).1 ≡ []) ↔ ((leb 84 sc && leb sc 97) ≡ true)
unfolding plain resolve_entry
plain_text none sc mods key_event p num other = absurd (ground (arith, p))
plain_text (some (key k base shifted repeats)) sc mods key_event p num other =
    ground (arith, p, num, other)

is_plain : (sc : ℕ) → sc < 512 → is_numpad sc ≡ true → plain (entry_in key_table sc) ≡ true
unfolding listed
is_plain sc h pad =
    first (is_numpad sc) (plain (entry_in key_table sc)) (entry listed 512 sc listed_table h) pad
  where
    first : (a b : Bool) → (not a || b) ≡ true → a ≡ true → b ≡ true
    first a b e f = ground (arith, e, f)

in_range : (sc : ℕ) → is_numpad sc ≡ true → ((leb 84 sc && leb sc 97) ≡ true) ↔ (sc ≤ 97)
unfolding is_numpad
in_range sc pad = ground (arith, pad)

-- A defect: without Num Lock, and with no other modifier that takes the text away, the keypad gives no
-- text exactly on the keys up to scancode 97; the keys 0 and period, which have 98 and 99, and the
-- equals sign give their character still.
pub numpad_text :
    (sc mods : ℕ) (key_event : Bool)
    → sc < 512
    → is_numpad sc ≡ true
    → has mods 0x1000 ≡ false
    → has mods 0x4fc0 ≡ false
    → ((resolve sc mods key_event).1 ≡ []) ↔ (sc ≤ 97)
unfolding resolve
numpad_text sc mods key_event h pad num other =
    let text = plain_text (entry_in key_table sc) sc mods key_event (is_plain sc h pad) num other in
    let range = in_range sc pad in (λ e. range.0 (text.0 e), λ low. text.1 (range.1 low))
