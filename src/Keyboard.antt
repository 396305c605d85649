-- ===== src/Keyboard.antt =====
-- src/SDL_keyboard.c and the text gate of src/SDL_keynames.c: key events, modifiers, key repeat.
-- xkbcommon is a parameter.
pub mod Lookup
pub mod Keymap
pub mod Keys
pub mod Repeats
use sdlop.Base.{
  ℕ, zero, suc, ◌+◌, ◌-◌, ◌*◌, ◌%◌, ◌^◌, bit_or, Bool, true, false, not, ◌&&◌, ◌||◌, Option, none,
  some, List, [], ◌∷◌, length, get_or, set, ltb, leb, ◌==◌, if◌then◌else◌,
}
use sdlop.Base.Bits.{has, clear}
use sdlop.Clock.{monotonic_ns}
use sdlop.Event.{Payload, external, key_down, key_up, text_input}
use sdlop.State.{Sdl, Window}
use sdlop.Events.{push_event_internal}
use sdlop.Mouse.{deref, event_time}
use sdlop.Keysym.{KeysymValues, keysym_to_keycode}
use sdlop.Scancode.{evdev_from_scancode, scancode_count}

abbrev pub kmod_ctrl : ℕ
kmod_ctrl = 0xc0

abbrev pub kmod_alt : ℕ
kmod_alt = 0x300

abbrev pub kmod_mode : ℕ
kmod_mode = 0x4000

-- What the keyboard code asks of xkbcommon, for the keymap and the two states at hand: whether they
-- are there, the numbers of the named symbols, the symbol of a key on the base layout, whether it repeats, and the text that it gives
-- with the modifiers that are active.
pub record Xkb : Type 0 where
  pub state_ready : Bool
  pub has_keymap : Bool
  pub one_sym : ℕ → ℕ
  pub repeats : ℕ → Bool
  pub utf8 : ℕ → List ℕ
  pub value : KeysymValues

-- `SDL_SCANCODE_TO_KEYCODE(SDL_SCANCODE_UNKNOWN)`
abbrev pub unknown_key : ℕ
unknown_key = 2 ^ 30

-- `modifier_bit_for`
pub modifier_bit_for : ℕ → ℕ
modifier_bit_for sc =
    if sc == 225
    then 0x1
    else if sc == 229
    then 0x2
    else if sc == 224
    then 0x40
    else if sc == 228
    then 0x80
    else if sc == 226
    then 0x100
    else if sc == 230
    then 0x200
    else if sc == 227
    then 0x400
    else if sc == 231
    then 0x800
    else 0

-- The filters on the text of a key: no text for ctrl or alt combinations, unless AltGr is active, and
-- no control character but the tab.
pub filter_text : ℕ → List ℕ → List ℕ
filter_text modstate [] = []
filter_text modstate (c ∷ cs) =
    let m = if has modstate kmod_mode then clear 16 modstate kmod_alt else modstate in
    if has m (bit_or kmod_ctrl kmod_alt)
    then []
    else if ltb c 0x20 && not (c == 9)
    then []
    else c ∷ cs

-- `SDLOP_KeyboardTranslateKey` with a buffer of `size` bytes: the key code and the text.
pub translate_key : Xkb → ℕ → ℕ → Bool → ℕ → ℕ × List ℕ
unfolding filter_text
translate_key xkb modstate raw key_event size =
    if not xkb.state_ready || raw == 0 then (unknown_key, []) else (
      keysym_to_keycode xkb.value (xkb.one_sym (raw + 8)),
      if key_event && xkb.repeats (raw + 8) && ltb (length (xkb.utf8 (raw + 8))) size
          then filter_text modstate (xkb.utf8 (raw + 8))
          else [],
    )

-- `SDLOP_KeyboardKeyRepeats`
pub key_repeats : Xkb → ℕ → Bool
key_repeats xkb sc =
    xkb.has_keymap && not (evdev_from_scancode sc == 0) && xkb.repeats (evdev_from_scancode sc + 8)

module _ {F : Type 0} where
  abbrev first_window : List (Window F) → ℕ
  first_window [] = 0
  first_window (w ∷ ws) = w.id

  -- `SDLOP_FocusWindowID`
  pub focus_window_id : Sdl F → ℕ
  focus_window_id s = elim (deref s.keyboard_focus s.windows) [
    | some w ↦ w.id
    | none ↦ first_window s.windows
  ]

  text_wanted : Option (Window F) → Bool
  text_wanted none = false
  text_wanted (some w) = w.text_input_active

  -- `SDLOP_SendKeyboardText`
  pub send_keyboard_text : Sdl F → List ℕ → ℕ → Sdl F
  unfolding text_wanted event_time push_event_internal focus_window_id
  send_keyboard_text s [] timestamp_ns = s
  send_keyboard_text s (c ∷ cs) timestamp_ns =
      if text_wanted (deref s.keyboard_focus s.windows)
      then (let (s', t) = event_time s timestamp_ns in
          (push_event_internal s' (record {
            type = text_input;
            timestamp = t;
            window_id = focus_window_id s';
            payload = Payload.text (external (c ∷ cs));
          })).0)
      else s

  -- The key event of `SDLOP_SendKeyboardKey`, and the text that a key press gives
  pub send_key_event : Sdl F → Bool → Bool → ℕ → ℕ → ℕ → ℕ → Sdl F
  unfolding event_time push_event_internal focus_window_id
  send_key_event s down repeat sc key raw timestamp_ns =
      let (s', t) = event_time s timestamp_ns in
      (push_event_internal s' (record {
        type = if down then key_down else key_up;
        timestamp = t;
        window_id = focus_window_id s';
        payload = Payload.key sc key s'.modstate raw down repeat;
      })).0

  pub send_pressed_text : Sdl F → Bool → List ℕ → ℕ → Sdl F
  unfolding send_keyboard_text
  send_pressed_text s down text timestamp_ns =
      if down then send_keyboard_text s text timestamp_ns else s

  -- The key and modifier state that a key event leaves.
  pub press : Sdl F → Bool → ℕ → Sdl F
  unfolding modifier_bit_for
  press s down sc =
      let b = modifier_bit_for sc in
      record s {
        keystate = set s.keystate sc down;
        modstate =
            if b == 0
            then s.modstate
            else if down
            then bit_or s.modstate b
            else clear 16 s.modstate b;
      }

  module _ (xkb : Xkb) where
    -- The end of `SDLOP_SendKeyboardKey`: key repeat
    pub manage_repeat : Sdl F → Bool → Bool → ℕ → ℕ → Sdl F
    unfolding key_repeats monotonic_ns
    manage_repeat s down repeat sc raw =
        if down && not repeat
        then (if key_repeats xkb sc
            then (let (c, t) = monotonic_ns s.clock in
                record s {
                  clock = c;
                  repeat = record s.repeat {
                    scancode = sc;
                    rawcode = raw;
                    active = true;
                    next_ns = (t + s.repeat.delay_ms * 1000000) % 2 ^ 64;
                  };
                })
            else s)
        else if not down && sc == s.repeat.scancode
        then record s { repeat = record s.repeat { active = false } }
        else s

    -- `SDLOP_SendKeyboardKey`
    pub send_keyboard_key : Sdl F → Bool → Bool → ℕ → ℕ → ℕ → Sdl F
    unfolding press translate_key send_key_event send_pressed_text manage_repeat
    send_keyboard_key s down repeat sc raw timestamp_ns =
        if sc == 0 || leb scancode_count sc
        then s
        else (let s1 = press s down sc in
            let code = if raw == 0 then evdev_from_scancode sc else raw in
            let (key, text) = translate_key xkb s1.modstate code true 64 in
            let s3 = send_key_event s1 down repeat sc key raw timestamp_ns in
            let s4 = send_pressed_text s3 down text timestamp_ns in
            manage_repeat s4 down repeat sc raw)

    -- The body of the loop of `SDLOP_KeyboardProcessRepeats`
    pub repeat_once : Sdl F → Sdl F
    unfolding send_keyboard_key
    repeat_once s =
        let sent =
          send_keyboard_key s true true s.repeat.scancode s.repeat.rawcode s.repeat.next_ns in
        record sent {
          repeat = record sent.repeat {
            next_ns = (sent.repeat.next_ns + sent.repeat.interval_ms * 1000000) % 2 ^ 64;
          };
        }

    -- The loop, with `now` read before it. `none` is out of fuel.
    pub repeats_from : ℕ → ℕ → Sdl F → Option (Sdl F)
    unfolding repeat_once
    repeats_from zero now s = none
    repeats_from (suc fuel) now s =
        let rest = repeats_from fuel now (repeat_once s) in
        if s.repeat.active && ltb ((now + 2 ^ 64 - s.repeat.next_ns) % 2 ^ 64) (2 ^ 63)
        then rest
        else some s

    -- `SDLOP_KeyboardProcessRepeats`
    pub process_repeats : ℕ → Sdl F → Option (Sdl F)
    unfolding repeats_from monotonic_ns
    process_repeats fuel s =
        let (c, now) = monotonic_ns s.clock in
        if s.repeat.active then repeats_from fuel now (record s { clock = c }) else some s

    -- The loop of `SDL_ResetKeyboard` from scancode `i` on, for `n` scancodes
    pub release_from : ℕ → ℕ → Sdl F → Sdl F
    unfolding send_keyboard_key
    release_from zero i s = s
    release_from (suc n) i s = release_from n (suc i) (
        if get_or s.keystate i false
        then send_keyboard_key s false false i (evdev_from_scancode i) 0
        else s)

    -- `SDL_ResetKeyboard`
    pub reset_keyboard : Sdl F → Sdl F
    unfolding release_from
    reset_keyboard s =
        let s' = release_from scancode_count 0 s in
        record s' { repeat = record s'.repeat { active = false } }
