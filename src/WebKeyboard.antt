-- ===== src/WebKeyboard.antt =====
-- src/SDL_keyboard_web.c: the keyboard of the web build, with a fixed layout. What this file repeats from
-- src/SDL_keyboard.c, the state of the keys, the key event and its text, is taken from there.
pub mod Codes
pub mod Numpad
use sdlop.Base.{
  ℕ, zero, suc, ◌+◌, ◌-◌, ◌*◌, ◌%◌, ◌^◌, bit_or, Bool, true, false, not, ◌&&◌, ◌||◌, Option, none,
  some, List, [], ◌∷◌, get_or, ltb, leb, ◌==◌, if◌then◌else◌,
}
use sdlop.Base.Bits.{has, clear}
use sdlop.Clock.{monotonic_ns}
use sdlop.State.{Sdl}
use sdlop.Scancode.{scancode_count}
use sdlop.Keysym.{to_keycode}
use sdlop.Keyboard.{press, send_key_event, send_pressed_text}

-- `struct keyent`: a scancode, the characters without and with shift (0 for none), and whether the key
-- repeats.
pub data KeyEntry : Type 0 where
  key : ℕ → ℕ → ℕ → Bool → KeyEntry

-- `key_table`
abbrev pub key_table : List KeyEntry
key_table =
    key 4 97 65 true
    ∷ key 5 98 66 true
    ∷ key 6 99 67 true
    ∷ key 7 100 68 true
    ∷ key 8 101 69 true
    ∷ key 9 102 70 true
    ∷ key 10 103 71 true
    ∷ key 11 104 72 true
    ∷ key 12 105 73 true
    ∷ key 13 106 74 true
    ∷ key 14 107 75 true
    ∷ key 15 108 76 true
    ∷ key 16 109 77 true
    ∷ key 17 110 78 true
    ∷ key 18 111 79 true
    ∷ key 19 112 80 true
    ∷ key 20 113 81 true
    ∷ key 21 114 82 true
    ∷ key 22 115 83 true
    ∷ key 23 116 84 true
    ∷ key 24 117 85 true
    ∷ key 25 118 86 true
    ∷ key 26 119 87 true
    ∷ key 27 120 88 true
    ∷ key 28 121 89 true
    ∷ key 29 122 90 true
    ∷ key 30 49 33 true
    ∷ key 31 50 64 true
    ∷ key 32 51 35 true
    ∷ key 33 52 36 true
    ∷ key 34 53 37 true
    ∷ key 35 54 94 true
    ∷ key 36 55 38 true
    ∷ key 37 56 42 true
    ∷ key 38 57 40 true
    ∷ key 39 48 41 true
    ∷ key 45 45 95 true
    ∷ key 46 61 43 true
    ∷ key 47 91 123 true
    ∷ key 48 93 125 true
    ∷ key 49 92 124 true
    ∷ key 100 92 124 true
    ∷ key 51 59 58 true
    ∷ key 52 39 34 true
    ∷ key 53 96 126 true
    ∷ key 54 44 60 true
    ∷ key 55 46 62 true
    ∷ key 56 47 63 true
    ∷ key 44 32 32 true
    ∷ key 40 0 0 true
    ∷ key 43 0 0 true
    ∷ key 42 0 0 true
    ∷ key 76 0 0 true
    ∷ key 73 0 0 true
    ∷ key 82 0 0 true
    ∷ key 81 0 0 true
    ∷ key 80 0 0 true
    ∷ key 79 0 0 true
    ∷ key 74 0 0 true
    ∷ key 77 0 0 true
    ∷ key 75 0 0 true
    ∷ key 78 0 0 true
    ∷ key 41 0 0 false
    ∷ key 57 0 0 false
    ∷ key 83 0 0 false
    ∷ key 71 0 0 false
    ∷ key 225 0 0 false
    ∷ key 229 0 0 false
    ∷ key 224 0 0 false
    ∷ key 228 0 0 false
    ∷ key 226 0 0 false
    ∷ key 230 0 0 false
    ∷ key 227 0 0 false
    ∷ key 231 0 0 false
    ∷ key 98 48 48 true
    ∷ key 89 49 49 true
    ∷ key 90 50 50 true
    ∷ key 91 51 51 true
    ∷ key 92 52 52 true
    ∷ key 93 53 53 true
    ∷ key 94 54 54 true
    ∷ key 95 55 55 true
    ∷ key 96 56 56 true
    ∷ key 97 57 57 true
    ∷ key 84 47 47 true
    ∷ key 85 42 42 true
    ∷ key 86 45 45 true
    ∷ key 87 43 43 true
    ∷ key 99 46 46 true
    ∷ key 88 0 0 true
    ∷ key 103 61 61 true
    ∷ []

-- `entry_for`, from an entry on
pub entry_in : List KeyEntry → ℕ → Option KeyEntry
entry_in [] sc = none
entry_in (key k base shifted repeats ∷ rest) sc =
    if k == sc then some (key k base shifted repeats) else entry_in rest sc

-- The character of a key, in `resolve`: shift and Caps Lock undo each other for letters.
pub character : Bool → Bool → ℕ → ℕ → ℕ
character shift caps base shifted =
    let ch = if shift then shifted else base in
    if not (ch == 0) && caps && leb b'a' base && leb base b'z'
    then (if shift then base else base - 32)
    else ch

-- The keys without a character that have an ASCII key code
pub control_key : ℕ → ℕ
control_key sc =
    if sc == 40 || sc == 88
    then 0xd
    else if sc == 41
    then 0x1b
    else if sc == 42
    then 0x8
    else if sc == 43
    then 0x9
    else if sc == 76
    then 0x7f
    else to_keycode sc

-- The text of `resolve`: none with control, alt or super, and on the numeric keypad only with Num Lock.
unfoldable pub text_of_key : ℕ → ℕ → ℕ → List ℕ
text_of_key sc mods ch =
    if ch == 0
    then []
    else if not (leb 84 sc && leb sc 97) || has mods 0x1000
    then (if has mods 0x4fc0 then [] else ch ∷ [])
    else []

-- `resolve` from the search of the table on
unfoldable pub resolve_entry : Option KeyEntry → ℕ → ℕ → Bool → ℕ × List ℕ
unfolding character control_key text_of_key
resolve_entry none sc mods key_event = (if sc == 0 then 0 else to_keycode sc, [])
resolve_entry (some (key k base shifted repeats)) sc mods key_event =
    let ch = character (key_event && has mods 0x3) (has mods 0x2000) base shifted in
    (if ch == 0 then control_key sc else ch, text_of_key sc mods ch)

-- `resolve`, with a buffer for the text: the key code and the text.
unfoldable pub resolve : ℕ → ℕ → Bool → ℕ × List ℕ
unfolding entry_in resolve_entry
resolve sc mods key_event = resolve_entry (entry_in key_table sc) sc mods key_event

-- `SDL_GetKeyFromScancode`
pub get_key_from_scancode : ℕ → ℕ → Bool → ℕ
unfolding resolve
get_key_from_scancode sc mods key_event = (resolve sc mods key_event).0

-- `SDLOP_KeyboardKeyRepeats`
pub key_repeats : ℕ → Bool
unfolding entry_in
key_repeats sc = elim (entry_in key_table sc) [
  | none ↦ false
  | some (key k base shifted repeats) ↦ repeats
]

-- The search of `SDL_GetScancodeFromKey` for a character
pub character_in : List KeyEntry → ℕ → ℕ × ℕ
character_in [] ch = (0, 0)
character_in (key k base shifted repeats ∷ rest) ch =
    if not (base == 0) && (base == ch || shifted == ch)
    then (k, if shifted == ch && not (base == ch) then 0x1 else 0)
    else character_in rest ch

-- `SDL_GetScancodeFromKey`: the scancode and the modifiers for `*modstate`
pub get_scancode_from_key : ℕ → ℕ × ℕ
unfolding character_in
get_scancode_from_key code =
    if has code (2 ^ 30)
    then (clear 32 code (2 ^ 30), 0)
    else if code == 0xd
    then (40, 0)
    else if code == 0x1b
    then (41, 0)
    else if code == 0x8
    then (42, 0)
    else if code == 0x9
    then (43, 0)
    else if code == 0x7f
    then (76, 0)
    else if leb 0x20 code && ltb code 0x7f
    then character_in key_table code
    else (0, 0)

module _ {F : Type 0} where
  -- The end of `SDLOP_SendKeyboardKey`: key repeat
  pub manage_repeat : Sdl F → Bool → Bool → ℕ → ℕ → Sdl F
  unfolding key_repeats monotonic_ns
  manage_repeat s down repeat sc raw =
      if down && not repeat
      then (if key_repeats sc
          then (let (c, t) = monotonic_ns s.clock in
              record s {
                clock = c;
                repeat = record s.repeat {
                  scancode = sc;
                  rawcode = raw;
                  active = true;
                  next_ns = (t + s.repeat.delay_ms * 1000000) % 2 ^ 64;
                };
              })
          else s)
      else if not down && sc == s.repeat.scancode
      then record s { repeat = record s.repeat { active = false } }
      else s

  -- `SDLOP_SendKeyboardKey`
  pub send_keyboard_key : Sdl F → Bool → Bool → ℕ → ℕ → ℕ → Sdl F
  unfolding resolve manage_repeat
  send_keyboard_key s down repeat sc raw timestamp_ns =
      if sc == 0 || leb scancode_count sc
      then s
      else (let s1 = press s down sc in
          let (code, text) = resolve sc s1.modstate true in
          let s3 = send_key_event s1 down repeat sc code raw timestamp_ns in
          let s4 = send_pressed_text s3 down text timestamp_ns in
          manage_repeat s4 down repeat sc raw)

  -- The loop of `SDL_ResetKeyboard` from scancode `i` on, for `n` scancodes
  pub release_from : ℕ → ℕ → Sdl F → Sdl F
  unfolding send_keyboard_key
  release_from zero i s = s
  release_from (suc n) i s =
      release_from n (suc i)
        (if get_or s.keystate i false then send_keyboard_key s false false i 0 0 else s)

  -- `SDL_ResetKeyboard`
  pub reset_keyboard : Sdl F → Sdl F
  unfolding release_from
  reset_keyboard s =
      let s' = release_from scancode_count 0 s in
      record s' { repeat = record s'.repeat { active = false } }

  -- `SDLOP_KeyboardQuit`
  pub keyboard_quit : Sdl F → Sdl F
  unfolding reset_keyboard
  keyboard_quit s = record (reset_keyboard s) { modstate = 0 }
