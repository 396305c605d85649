-- ===== src/Keyboard/Keymap.antt =====
-- src/SDL_keyboard.c: the keymap, its two xkb states, and what is derived from them. xkbcommon's objects
-- are values here, and their reference counts are left out.
pub mod Replace
pub mod Modifiers
use sdlop.Base.{
  ℕ, zero, suc, ◌+◌, ◌*◌, ◌^◌, bit_or, bit_and, Bool, true, false, ◌&&◌, ◌||◌, not, Option, none,
  some, List, [], ◌∷◌, String, ◌==◌, if◌then◌else◌,
}
use sdlop.Base.Bits.{has, clear}
use sdlop.Event.{common, keymap_changed}
use sdlop.State.{Sdl, set_error}
use sdlop.Events.{now_ns, push_event_internal}
use sdlop.Keysym.{KeysymValues, keysym_to_keycode}
use sdlop.Scancode.{evdev_from_scancode}
use sdlop.Symtab.{Slot, build_symtab}
use sdlop.Keyboard.{Xkb, translate_key}

-- xkbcommon: `context` is whether a context can be made, `state_new n` the n-th of two calls in a row.
pub record XkbLibrary : Type 1 where
  pub Keymap : Type 0
  pub State : Type 0
  pub value : KeysymValues
  pub loads : Bool
  pub context : Bool
  pub from_string : String → Option Keymap
  pub from_names : Option Keymap
  pub state_new : ℕ → Keymap → Option State
  pub mod_index : Keymap → String → ℕ
  pub key_repeats : Keymap → ℕ → Bool
  pub update_mask : State → ℕ → ℕ → ℕ → State
  pub mod_active : State → ℕ → Bool
  pub one_sym : State → ℕ → ℕ
  pub utf8 : State → ℕ → List ℕ

-- The statics `mod_shift` to `mod_level5`
pub record ModIndices : Type 0 where
  pub shift : ℕ
  pub ctrl : ℕ
  pub alt : ℕ
  pub super : ℕ
  pub caps : ℕ
  pub num : ℕ
  pub altgr : ℕ
  pub level5 : ℕ

-- `mod |= flag` where the test holds, and `mod &= ~flags` where it does not
pub set_if : Bool → ℕ → ℕ → ℕ
set_if active flag m = if active then bit_or m flag else m

pub clear_unless : Bool → ℕ → ℕ → ℕ
clear_unless active flags m = if active then m else clear 16 m flags

-- The modifiers that `SDLOP_KeyboardUpdateXkbModifiers` computes: those of the two sides of the
-- keyboard are kept from before, locks and levels come from xkb.
pub synced : (ℕ → Bool) → ModIndices → ℕ → ℕ
unfolding set_if clear_unless
synced active i m = clear_unless (active i.super) 0xc00 (
    clear_unless (active i.ctrl) 0xc0 (
      clear_unless (active i.shift) 0x3 (
        set_if (active i.altgr) 0x4000 (
          set_if (active i.level5) 0x4
            (set_if (active i.num) 0x1000 (set_if (active i.caps) 0x2000 (bit_and m 0xfc3)))))))

-- The mask that `SDL_GetKeyFromScancode` makes of the modifiers that it is given
pub passed_mask : ModIndices → ℕ → ℕ
passed_mask i mods =
    let shift = if has mods 0x3 then bit_or 0 (2 ^ i.shift) else 0 in
    if has mods 0x2000 then bit_or shift (2 ^ i.caps) else shift

abbrev pub is_some : {A : Type 0} → Option A → Bool
is_some none = false
is_some (some a) = true

module _ (lib : XkbLibrary) where
  -- The statics from `xkb_ctx` to `symtab`
  pub record Layout : Type 0 where
    pub context : Bool
    pub keymap : Option lib.Keymap
    pub state : Option lib.State
    pub clean : Option lib.State
    pub mods : ModIndices
    pub symtab : List Slot

  -- `find_mod_indices`
  pub find_mod_indices : lib.Keymap → ModIndices
  find_mod_indices k = record {
    shift = lib.mod_index k "Shift";
    ctrl = lib.mod_index k "Control";
    alt = lib.mod_index k "Mod1";
    super = lib.mod_index k "Mod4";
    caps = lib.mod_index k "Lock";
    num = lib.mod_index k "Mod2";
    altgr = lib.mod_index k "Mod5";
    level5 = lib.mod_index k "Mod3";
  }

  -- What the key events ask of the layout
  pub as_xkb : Layout → Xkb
  as_xkb l = record {
    state_ready = is_some l.state;
    has_keymap = is_some l.keymap;
    value = lib.value;
    one_sym = λ k. elim l.clean [ none ↦ 0 | some c ↦ lib.one_sym c k ];
    repeats = λ k. elim l.keymap [ none ↦ false | some m ↦ lib.key_repeats m k ];
    utf8 = λ k. elim l.state [ none ↦ [] | some s ↦ lib.utf8 s k ];
  }

  module _ {F : Type 0} where
    -- The event of a keymap that replaces another
    pub announce : Bool → Sdl F → Sdl F
    unfolding now_ns push_event_internal
    announce replacing s =
        if replacing
        then (let (s', t) = now_ns s in
            (push_event_internal s'
              (record { type = keymap_changed; timestamp = t; window_id = 0; payload = common })).0)
        else s

    -- `set_keymap` from the two new states on. `none` is a symbol table that is never done.
    pub install :
        Sdl F → Layout → lib.Keymap → lib.State → lib.State → Option (Sdl F × Layout × Bool)
    unfolding find_mod_indices announce build_symtab
    install s l k new_state new_clean = elim (build_symtab lib.value (lib.one_sym new_clean)) [
      | none ↦ none
      | some t ↦ some (
        announce (is_some l.keymap) s,
        record l {
          keymap = some k;
          state = some new_state;
          clean = some new_clean;
          mods = find_mod_indices k;
          symtab = t;
        },
        true,
      )
    ]

    -- `set_keymap`
    pub set_keymap : Sdl F → Layout → lib.Keymap → Option (Sdl F × Layout × Bool)
    unfolding install set_error
    set_keymap s l k = elim (lib.state_new 0 k) [
      | none ↦ some (set_error s "SDLOP_XKB_xkb_state_new() failed", l, false)
      | some a ↦ elim (lib.state_new 1 k) [
        | none ↦ some (set_error s "SDLOP_XKB_xkb_state_new() failed", l, false)
        | some c ↦ install s l k a c
      ]
    ]

    -- `SDLOP_KeyboardSetKeymapString`
    pub set_keymap_string : Sdl F → Layout → String → Option (Sdl F × Layout × Bool)
    unfolding set_keymap set_error
    set_keymap_string s l text =
        if not lib.loads
        then some (s, l, false)
        else if not (l.context || lib.context)
        then some (set_error s "SDLOP_XKB_xkb_context_new() failed", l, false)
        else elim (lib.from_string text) [
          | none ↦
              some (
                set_error s "Could not parse Wayland xkb keymap",
                record l { context = true },
                false,
              )
          | some k ↦ set_keymap s (record l { context = true }) k
        ]

    -- `SDLOP_KeyboardSetDefaultKeymap`
    pub set_default_keymap : Sdl F → Layout → Option (Sdl F × Layout × Bool)
    unfolding set_keymap set_error
    set_default_keymap s l =
        if not lib.loads
        then some (s, l, false)
        else if not (l.context || lib.context)
        then some (set_error s "SDLOP_XKB_xkb_context_new() failed", l, false)
        else if is_some l.keymap
        then some (s, record l { context = true }, true)
        else elim lib.from_names [
          | none ↦ some (
            set_error s "Could not create default xkb keymap",
            record l { context = true },
            false,
          )
          | some k ↦ set_keymap s (record l { context = true }) k
        ]

    -- `SDLOP_KeyboardUpdateXkbModifiers`
    pub update_xkb_modifiers : Sdl F → Layout → ℕ → ℕ → ℕ → Sdl F × Layout
    unfolding synced
    update_xkb_modifiers s l depressed latched locked = elim l.state [
      | none ↦ (s, l)
      | some x ↦
          let x' = lib.update_mask x depressed latched locked in
          (
            record s { modstate = synced (lib.mod_active x') l.mods s.modstate },
            record l { state = some x' },
          )
    ]

    -- `SDL_GetKeyFromScancode`
    pub get_key_from_scancode : Sdl F → Layout → ℕ → ℕ → Bool → Layout × ℕ
    unfolding passed_mask as_xkb
    get_key_from_scancode s l sc mods key_event =
        let raw = evdev_from_scancode sc in
        let plain = (translate_key (as_xkb l) s.modstate raw key_event 0).0 in
        if key_event && is_some l.keymap && has mods 0x2003
        then elim l.clean [
          | none ↦ (l, plain)
          | some c ↦
              let shifted = lib.update_mask c (passed_mask l.mods mods) 0 0 in
              (
                record l { clean = some (lib.update_mask shifted 0 0 0) },
                keysym_to_keycode lib.value (lib.one_sym shifted (raw + 8)),
              )
        ]
        else (l, plain)

    -- `SDLOP_KeyboardQuit`
    pub keyboard_quit : Sdl F → Layout → Sdl F × Layout
    keyboard_quit s l = (
      record s { repeat = record s.repeat { active = false } },
      record l { context = false; keymap = none; state = none; clean = none },
    )
