-- ===== src/Wayland/Keyboard.antt =====
-- src/video/wayland/sdlop_wayland.c: the keyboard focus, keys, modifiers and the rate of key repeat. The
-- flag `raw` is `SDLOP_RawInputKeyboardActive()`.
pub mod Focus
pub mod Rate
use sdlop.Base.{
  ℕ, ◌/◌, bit_or, Bool, true, false, not, ◌&&◌, ◌||◌, Option, none, some, leb, ◌==◌, if◌then◌else◌,
}
use sdlop.Base.Int.{ℤ, pos, ltb_ℤ, pos_part}
use sdlop.Base.Bits.{clear}
use sdlop.Event.{focus_gained, focus_lost}
use sdlop.State.{Sdl, Window, window_at}
use sdlop.Events.{mono_ns, send_window_event}
use sdlop.Keyboard.{Xkb, send_keyboard_key, reset_keyboard}
use sdlop.Keyboard.Keymap.{XkbLibrary, Layout, update_xkb_modifiers}
use sdlop.Scancode.{evdev_to_scancode, evdev_key_max}
use sdlop.Windows.{store}
use sdlop.Wayland.{World, window_from_surface}

abbrev pub window_input_focus : ℕ
window_input_focus = 0x200

module _ {F : Type 0} where
  -- A window that loses the keyboard. At an address without a window nothing is done.
  pub lose_focus : Sdl F → ℕ → Sdl F
  unfolding send_window_event
  lose_focus s a = elim (window_at a s.windows) [
    | none ↦ s
    | some w ↦
        let v = record w { flags = clear 64 w.flags window_input_focus } in
        send_window_event (store s v) (some v) focus_lost (pos 0) (pos 0)
  ]

  -- The first test of `keyboard_enter`: another window had the focus
  pub leave_other : Sdl F → ℕ → Sdl F
  unfolding lose_focus
  leave_other s a = elim s.keyboard_focus [
    | none ↦ s
    | some b ↦ if b == a then s else lose_focus s b
  ]

  -- `keyboard_enter` for the window that was found
  pub gain_focus : Sdl F → Window F → Sdl F
  unfolding leave_other send_window_event
  gain_focus s w =
      let s1 = record (leave_other s w.addr) { keyboard_focus = some w.addr } in
      let v = record w { flags = bit_or w.flags window_input_focus } in
      send_window_event (store s1 v) (some v) focus_gained (pos 0) (pos 0)

  -- `keyboard_enter`
  pub keyboard_enter : World F → ℕ → Sdl F
  unfolding gain_focus
  keyboard_enter (s, d) surface = elim (window_from_surface d s.windows surface) [
    | none ↦ s
    | some w ↦ gain_focus s w
  ]

  -- `keyboard_leave`
  pub keyboard_leave : Xkb → Sdl F → Sdl F
  unfolding lose_focus
  keyboard_leave xkb s = elim s.keyboard_focus [
    | none ↦ s
    | some a ↦ reset_keyboard xkb (record (lose_focus s a) { keyboard_focus = none })
  ]

  -- `keyboard_key`
  pub keyboard_key : Xkb → Bool → Sdl F → ℕ → Bool → Sdl F
  unfolding mono_ns
  keyboard_key xkb raw s key pressed =
      let sc = if leb key evdev_key_max then evdev_to_scancode key else 0 in
      if raw || sc == 0
      then s
      else (let (s1, t) = mono_ns s in send_keyboard_key xkb s1 pressed false sc key t)

  -- `keyboard_modifiers`
  pub keyboard_modifiers : (lib : XkbLibrary) → Sdl F → Layout lib → ℕ → ℕ → ℕ → Sdl F × Layout lib
  keyboard_modifiers lib s l depressed latched locked =
      update_xkb_modifiers lib s l depressed latched locked

  -- `SDLOP_RawInputSetRepeatInfo` of src/internal/sdlop_evdev.c
  pub set_repeat_info : Sdl F → ℕ → ℕ → Sdl F
  set_repeat_info s delay interval = record s {
    repeat = record s.repeat {
      delay_ms = if delay == 0 then s.repeat.delay_ms else delay;
      interval_ms = if interval == 0 then s.repeat.interval_ms else interval;
    };
  }

  -- `keyboard_repeat_info`
  pub keyboard_repeat_info : Sdl F → ℤ → ℤ → Sdl F
  unfolding set_repeat_info
  keyboard_repeat_info s rate delay =
      if ltb_ℤ (pos 0) rate && ltb_ℤ (pos 0) delay
      then set_repeat_info s (pos_part delay) (1000 / pos_part rate)
      else s
