-- ===== src/Tests/Keymaps.antt =====
-- The symbol table, the keymap and the key codes on concrete layouts.
use sdlop.Base.{
  ℕ, ◌+◌, ◌≡◌, ◌≢◌, ◌≤◌, ◌<◌, ◌⊎◌, refl, true, false, none, some, List, [], ◌==◌, if◌then◌else◌,
  arith,
}
use sdlop.Keysym.{keysym_to_keycode}
use sdlop.Scancode.{evdev_to_scancode}
use sdlop.Base.Int.{ℤ}
use sdlop.Base.Text.{codes, same_name}
use sdlop.Queue.Contents.{contents}
use sdlop.State.{Sdl, set_error}
use sdlop.Symtab.{Slot, build_symtab, symtab_get}
use sdlop.Symtab.Build.{last_key, gives, symtab_get-build_symtab}
use sdlop.Keyboard.Lookup.{get_scancode_from_key}
use sdlop.Keyboard.Lookup.Codes.{letter_round_trip}
use sdlop.Keyboard.Keymap.{XkbLibrary, ModIndices, Layout, set_keymap, update_xkb_modifiers}
use sdlop.Keyboard.Keymap.Replace.{IsInstalled, Follows, pending_after, set_keymap_lem}
use sdlop.WebKeyboard
use sdlop.WebKeyboard.{resolve}
use sdlop.WebKeyboard.Codes.{main_key, get_scancode_from_key-get_key}
use sdlop.Tests.Samples.{running, two_events-IsValid, x11}

-- A layout with one key: evdev's key code 30 gives the letter a.
abbrev one_letter : ℕ → ℕ
one_letter k = if k == 38 then 97 else 0

symtab_get-build_symtab_example :
    (t : List Slot) × (build_symtab x11 one_letter ≡ some t)
    × (symtab_get t 97 ≡ some (last_key x11 one_letter 767 97))
symtab_get-build_symtab_example = symtab_get-build_symtab x11 one_letter 97 (omega arith)

only_key : (c : ℕ) → 30 < c → c ≤ 767 → gives x11 one_letter c 97 ≡ false
only_key c above top = ground (arith, above)

a_key : evdev_to_scancode 30 ≢ 0
unfolding evdev_to_scancode
a_key = ground arith

letter_round_trip_example :
    (t : List Slot) × (build_symtab x11 one_letter ≡ some t)
    × (get_scancode_from_key t (keysym_to_keycode x11 97) ≡ some (evdev_to_scancode 30, 0))
letter_round_trip_example =
    letter_round_trip x11 one_letter 29 (omega arith) refl refl refl (omega arith) (omega arith)
      a_key only_key

abbrev indices : ModIndices
indices = record {
  shift = 0;
  ctrl = 2;
  alt = 3;
  super = 6;
  caps = 1;
  num = 4;
  altgr = 7;
  level5 = 5;
}

-- A library with keymaps and states that are numbers, where every keymap has two states and only Shift is
-- active.
abbrev plain_library : XkbLibrary
plain_library = record {
  Keymap = ℕ;
  State = ℕ;
  value = x11;
  loads = true;
  context = true;
  from_string = λ text. some 1;
  from_names = some 2;
  state_new = λ n k. some (k + n);
  mod_index = λ k name. if same_name (codes name) (codes "Shift") then 0 else 1;
  key_repeats = λ k code. true;
  update_mask = λ s depressed latched locked. s;
  mod_active = λ s i. i == 0;
  one_sym = λ s. one_letter;
  utf8 = λ s k. [];
}

abbrev no_keymap : Layout plain_library
no_keymap = record {
  context = true;
  keymap = none;
  state = none;
  clean = none;
  mods = indices;
  symtab = [];
}

-- A keymap that replaces another
abbrev old_keymap : Layout plain_library
old_keymap = record no_keymap { keymap = some 4; state = some 4; clean = some 5 }

set_keymap_example :
    ((a : ℕ) × (c : ℕ) × (plain_library.state_new 0 5 ≡ some a)
      × (plain_library.state_new 1 5 ≡ some c)
      × (s' : Sdl ℤ) × (l' : Layout plain_library) × (set_keymap plain_library running old_keymap 5
          ≡ some (s', l', true))
      × IsInstalled plain_library l' 5 a c
      × (contents s'.queue ≡ pending_after {K = ℕ} (some 4) running)
      × Follows
          (λ name.
            plain_library.mod_active
              (plain_library.update_mask a 1 0 0)
              (plain_library.mod_index 5 name))
          running.modstate
          (update_xkb_modifiers plain_library s' l' 1 0 0).0.modstate)
    ⊎ (((plain_library.state_new 0 5 ≡ none) ⊎ (plain_library.state_new 1 5 ≡ none))
        × (set_keymap plain_library running old_keymap 5
            ≡ some (set_error running "SDLOP_XKB_xkb_state_new() failed", old_keymap, false)))
set_keymap_example = set_keymap_lem plain_library running old_keymap 5 1 0 0 two_events-IsValid

get_scancode_from_key-get_key_example :
    (WebKeyboard.get_scancode_from_key (WebKeyboard.get_key_from_scancode 30 0x2001 true)).0
    ≡ main_key 30
get_scancode_from_key-get_key_example = get_scancode_from_key-get_key 30 0x2001 true (omega arith)
