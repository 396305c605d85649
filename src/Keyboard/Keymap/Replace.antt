-- ===== src/Keyboard/Keymap/Replace.antt =====
-- src/SDL_keyboard.c: a new keymap is installed as a whole or not at all, announced where it replaces
-- another, and the modifiers that are read next are those of the new keymap.
use sdlop.Base.{
  ℕ, ◌≡◌, ◌≢◌, ◌⊎◌, inl, inr, refl, ap, ◌∙◌, Bool, true, false, Option, none, some, List, String,
  Option-cases, Bool-cases, if◌then◌else◌,
}
use sdlop.Base.Bits.{bit}
use sdlop.Event.{Event, common, keymap_changed}
use sdlop.Queue
use sdlop.Queue.{Slot, slot_at, stored}
use sdlop.Queue.Contents.{IsValid, contents, offer}
use sdlop.State.{Sdl, set_error}
use sdlop.Events.{now_ns, push_event_internal}
use sdlop.Events.Push.{sent}
use sdlop.Symtab.{symtab_get}
use sdlop.Symtab.Build.{last_key, build_symtab_lem}
use sdlop.Keyboard.Keymap.{
  XkbLibrary, Layout, set_keymap, install, announce, find_mod_indices, update_xkb_modifiers,
  is_some,
}
use sdlop.Keyboard.Keymap.Modifiers.{synced_lem}

-- The modifier flags `m'` after a change of xkb's modifiers, of which `held` says by name which are active,
-- and `m` before it. The names are those of xkbcommon.h.
pub record Follows (held : String → Bool) (m m' : ℕ) : Type 0 where
  pub caps : bit m' 13 ≡ (if held "Lock" then 1 else 0)
  pub num : bit m' 12 ≡ (if held "Mod2" then 1 else 0)
  pub level5 : bit m' 2 ≡ (if held "Mod3" then 1 else 0)
  pub mode : bit m' 14 ≡ (if held "Mod5" then 1 else 0)
  pub left_shift : bit m' 0 ≡ (if held "Shift" then bit m 0 else 0)
  pub right_shift : bit m' 1 ≡ (if held "Shift" then bit m 1 else 0)
  pub left_ctrl : bit m' 6 ≡ (if held "Control" then bit m 6 else 0)
  pub right_ctrl : bit m' 7 ≡ (if held "Control" then bit m 7 else 0)
  pub left_super : bit m' 10 ≡ (if held "Mod4" then bit m 10 else 0)
  pub right_super : bit m' 11 ≡ (if held "Mod4" then bit m 11 else 0)

module _ {F : Type 0} where
  -- The event for a keymap that replaces another
  abbrev pub change_event : Sdl F → Event F
  change_event s = record {
    type = keymap_changed;
    timestamp = (now_ns s).1;
    window_id = 0;
    payload = common;
  }

  -- The pending events after a keymap is installed where `old` was
  abbrev pub pending_after : {K : Type 0} → Option K → Sdl F → List (Slot F)
  pending_after none s = contents s.queue
  pending_after (some k) s =
      (offer (contents s.queue) (stored s.queue.slots (slot_at s.queue.head) (change_event s))).0

  modstate-push_event_internal :
      (s : Sdl F) (e : Event F) → (push_event_internal s e).0.modstate ≡ s.modstate
  unfolding push_event_internal
  modstate-push_event_internal s e = elim (Bool-cases (Queue.push s.queue e).1) [
    | inl h ↦ rw h refl
    | inr h ↦ rw h refl
  ]

module _ (lib : XkbLibrary) where
  -- A layout that a keymap has been installed in: the keymap, two states of it, and the table of symbols
  -- of the state without modifiers.
  pub record IsInstalled (l : Layout lib) (k : lib.Keymap) (a c : lib.State) : Type 0 where
    pub keymap : l.keymap ≡ some k
    pub state : l.state ≡ some a
    pub clean : l.clean ≡ some c
    pub symbols :
        (key : ℕ)
        → key ≢ 0
        → symtab_get l.symtab key ≡ some (last_key lib.value (lib.one_sym c) 767 key)

  module _ {F : Type 0} (s : Sdl F) (l : Layout lib) (k : lib.Keymap) where
    announce_lem :
        (old : Option lib.Keymap)
        → IsValid s.queue
        → let s' = announce lib (is_some old) s in
          (contents s'.queue ≡ pending_after old s) × (s'.modstate ≡ s.modstate)
    unfolding announce
    announce_lem none v = (refl, refl)
    announce_lem (some old) v = (
      ap (λ (r : List (Slot F) × Bool). r.0)
          ((sent (now_ns s).0 (change_event s) (unfold now_ns in v)).0 ∙ unfold now_ns in refl),
      modstate-push_event_internal (now_ns s).0 (change_event s) ∙ unfold now_ns in refl,
    )

    install_lem :
        (a c : lib.State)
        → (l' : Layout lib) × (install lib s l k a c
            ≡ some (announce lib (is_some l.keymap) s, l', true))
          × (l'.mods ≡ find_mod_indices lib k)
          × IsInstalled l' k a c
    unfolding install
    install_lem a c =
        let (t, built, symbols) = build_symtab_lem lib.value (lib.one_sym c) in
        (
          record l {
            keymap = some k;
            state = some a;
            clean = some c;
            mods = find_mod_indices lib k;
            symtab = t;
          },
          rw (install, built) refl,
          refl,
          record { keymap = refl; state = refl; clean = refl; symbols = symbols },
        )

    -- The flags after the next change of xkb's modifiers
    follows :
        (s' : Sdl F) (l' : Layout lib) (a : lib.State) (depressed latched locked : ℕ)
        → s'.modstate ≡ s.modstate
        → l'.state ≡ some a
        → l'.mods ≡ find_mod_indices lib k
        → Follows
            (λ name.
              lib.mod_active (lib.update_mask a depressed latched locked) (lib.mod_index k name))
            s.modstate
            (update_xkb_modifiers lib s' l' depressed latched locked).0.modstate
    unfolding update_xkb_modifiers find_mod_indices
    follows s' l' a depressed latched locked same state mods =
        let b =
          synced_lem (lib.mod_active (lib.update_mask a depressed latched locked))
            (find_mod_indices lib k) s.modstate in
        rw (update_xkb_modifiers, state, mods, same)
          (record {
            caps = b.0;
            num = b.1;
            level5 = b.2;
            mode = b.3;
            left_shift = b.4;
            right_shift = b.5;
            left_ctrl = b.6;
            right_ctrl = b.7;
            left_super = b.8;
            right_super = b.9;
          })

    -- `set_keymap` ends, on a valid queue of events. Where both states of the keymap can be made it installs
    -- the keymap with them and a table of its symbols; a keymap-changed event comes last in the queue, if
    -- there is room, exactly when another keymap was there. When the compositor then sends xkb's modifiers
    -- (`SDLOP_KeyboardUpdateXkbModifiers`), the flags follow the modifiers of the new keymap by their names:
    -- those of Caps Lock, Num Lock, level 5 and AltGr say what xkb says, and those of shift, control and
    -- super are kept where xkb has the modifier and cleared where it has not. Where one of the states
    -- cannot be made, it sets an error and leaves the layout alone.
    pub set_keymap_lem :
        (depressed latched locked : ℕ)
        → IsValid s.queue
        → ((a : lib.State) × (c : lib.State) × (lib.state_new 0 k ≡ some a)
            × (lib.state_new 1 k ≡ some c)
            × (s' : Sdl F) × (l' : Layout lib) × (set_keymap lib s l k ≡ some (s', l', true))
            × IsInstalled l' k a c
            × (contents s'.queue ≡ pending_after l.keymap s)
            × Follows
                (λ name.
                  lib.mod_active
                    (lib.update_mask a depressed latched locked)
                    (lib.mod_index k name))
                s.modstate
                (update_xkb_modifiers lib s' l' depressed latched locked).0.modstate)
          ⊎ (((lib.state_new 0 k ≡ none) ⊎ (lib.state_new 1 k ≡ none))
              × (set_keymap lib s l k
                  ≡ some (set_error s "SDLOP_XKB_xkb_state_new() failed", l, false)))
    unfolding set_keymap
    set_keymap_lem depressed latched locked v = elim (Option-cases (lib.state_new 0 k)) [
      | inl e ↦ inr (inl e, rw (set_keymap, e) refl)
      | inr (a, e) ↦ elim (Option-cases (lib.state_new 1 k)) [
        | inl f ↦ inr (inr f, rw (set_keymap, e, f) refl)
        | inr (c, f) ↦
            let (l', done, mods, whole) = install_lem a c in
            let s' = announce lib (is_some l.keymap) s in
            let (told, same) = announce_lem l.keymap v in
            inl (
              a,
              c,
              e,
              f,
              s',
              l',
              rw (set_keymap, e, f) done,
              whole,
              told,
              follows s' l' a depressed latched locked same whole.state mods,
            )
      ]
    ]
