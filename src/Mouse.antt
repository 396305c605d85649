-- ===== src/Mouse.antt =====
-- src/SDL_mouse.c. A pointer to a window that is not in the list would be dangling; reads through it
-- give "no window" here, and `Windows.Focus` shows that the library keeps no such pointer.
pub mod Bounds
pub mod Buttons
pub mod Corner
use sdlop.Base.{
  ℕ, ◌-◌, ◌%◌, ◌^◌, bit_or, Bool, true, ◌&&◌, ◌||◌, Option, none, some, List, [], ◌∷◌, ltb, ◌==◌,
  if◌then◌else◌,
}
use sdlop.Base.Int.{ℤ, pos, ◌+ℤ◌, ◌-ℤ◌}
use sdlop.Base.Bits.{has, clear}
use sdlop.Event.{Payload, mouse_motion, mouse_button_down, mouse_button_up, mouse_wheel}
use sdlop.State.{Sdl, Window, Mouse, window_at}
use sdlop.Events.{push_event_internal, now_ns}
use sdlop.Float.{Float}

abbrev pub window_mouse_capture : ℕ
window_mouse_capture = 0x4000

abbrev pub window_mouse_relative_mode : ℕ
window_mouse_relative_mode = 0x8000

-- `p ? p->field : 0` on a pointer to a window
abbrev pub deref : {F : Type 0} → Option ℕ → List (Window F) → Option (Window F)
deref none ws = none
deref (some a) ws = window_at a ws

module _ {F : Type 0} where
  first_id : List (Window F) → ℕ
  first_id [] = 0
  first_id (w ∷ ws) = w.id

  id_or : Option (Window F) → ℕ → ℕ
  id_or none d = d
  id_or (some w) d = w.id

  -- `mouse_window_id`
  pub mouse_window_id : Sdl F → ℕ
  unfolding first_id id_or
  mouse_window_id s =
      id_or (deref s.mouse_focus s.windows)
        (id_or (deref s.keyboard_focus s.windows) (first_id s.windows))

  -- `timestamp_ns ? SDLOP_MonoToSDLTicks(timestamp_ns) : SDL_GetTicksNS()`
  unfoldable pub event_time : Sdl F → ℕ → Sdl F × ℕ
  unfolding now_ns
  event_time s timestamp_ns = if timestamp_ns == 0 then now_ns s else (
    s,
    if ltb s.init_monotonic_ns timestamp_ns then timestamp_ns - s.init_monotonic_ns else 0,
  )

  -- `SDL_GetMouseState` with both pointers
  pub get_mouse_state : Sdl F → F × F × ℕ
  get_mouse_state s = (s.mouse.x, s.mouse.y, s.mouse.buttons)

module _ (fl : Float) where
  open fl use {Carrier, of_int, add, sub, lt, le, eq, no_pos}

  abbrev pub zero_f : Carrier
  zero_f = of_int (pos 0)

  -- `SDL_max(a, b)`
  abbrev pub max_f : Carrier → Carrier → Carrier
  max_f a b = if lt b a then a else b

  -- One axis of `constrain_mouse_pos`, for a window of `size` pixels.
  pub constrain_axis : Carrier → ℤ → Carrier → Carrier
  constrain_axis x size last =
      let edge = size -ℤ pos 1 in
      let x' = if le (of_int (edge +ℤ pos 1)) x then max_f (of_int edge) last else x in
      if lt x' zero_f then zero_f else x'

  constrain_in : Option (Window Carrier) → Mouse Carrier → Carrier → Carrier → Carrier × Carrier
  unfolding constrain_axis
  constrain_in none m x y = (x, y)
  constrain_in (some w) m x y =
      if has w.flags window_mouse_capture
      then (x, y)
      else (constrain_axis x w.w m.last_x, constrain_axis y w.h m.last_y)

  -- `constrain_mouse_pos`
  pub constrain_mouse_pos : Sdl Carrier → Carrier → Carrier → Carrier × Carrier
  unfolding constrain_in
  constrain_mouse_pos s x y = constrain_in (deref s.mouse_focus s.windows) s.mouse x y

  -- The four assignments of a new position.
  abbrev pub at_position : Mouse Carrier → Carrier → Carrier → Mouse Carrier
  at_position m x y = record m { x = x; y = y; last_x = x; last_y = y }

  -- `xrel == 0.0f && yrel == 0.0f`
  abbrev pub both_zero : Carrier → Carrier → Bool
  both_zero a b = eq a zero_f && eq b zero_f

  -- The end of `SDLOP_SendMouseMotion`: the accumulators and the event.
  pub report_motion : Sdl Carrier → Carrier → Carrier → ℕ → Sdl Carrier
  unfolding event_time push_event_internal mouse_window_id
  report_motion s xrel yrel timestamp_ns =
      let m = if both_zero xrel yrel then s.mouse else record s.mouse {
        xrel_acc = add s.mouse.xrel_acc xrel;
        yrel_acc = add s.mouse.yrel_acc yrel;
      } in
      let (s', t) = event_time (record s { mouse = m }) timestamp_ns in
      (push_event_internal s' (record {
        type = mouse_motion;
        timestamp = t;
        window_id = mouse_window_id s';
        payload = Payload.motion m.buttons m.x m.y xrel yrel;
      })).0

  -- The branch for motion without a position
  pub relative_motion : Sdl Carrier → Carrier → Carrier → ℕ → Sdl Carrier
  unfolding report_motion constrain_mouse_pos
  relative_motion s xrel yrel timestamp_ns =
      if both_zero xrel yrel
      then s
      else if s.mouse.has_position
      then (let (fx, fy) = constrain_mouse_pos s (add s.mouse.x xrel) (add s.mouse.y yrel) in
          report_motion (record s { mouse = at_position s.mouse fx fy }) xrel yrel timestamp_ns)
      else report_motion s xrel yrel timestamp_ns

  -- The branch for motion to a position: deltas that are not given are taken from the positions.
  pub absolute_motion : Sdl Carrier → Carrier → Carrier → Carrier → Carrier → ℕ → Sdl Carrier
  unfolding report_motion constrain_mouse_pos
  absolute_motion s x y xrel yrel timestamp_ns =
      let (fx, fy) = constrain_mouse_pos s x y in
      let derive = both_zero xrel yrel && s.mouse.has_position in
      let dx = if derive then sub fx s.mouse.last_x else xrel in
      let dy = if derive then sub fy s.mouse.last_y else yrel in
      let m = record (at_position s.mouse fx fy) { has_position = true } in
      if derive && both_zero dx dy
      then s
      else report_motion (record s { mouse = m }) dx dy timestamp_ns

  -- `SDLOP_SendMouseMotion`
  pub send_mouse_motion : Sdl Carrier → Carrier → Carrier → Carrier → Carrier → ℕ → Sdl Carrier
  unfolding relative_motion absolute_motion
  send_mouse_motion s x y xrel yrel timestamp_ns =
      if eq x no_pos
      then relative_motion s xrel yrel timestamp_ns
      else absolute_motion s x y xrel yrel timestamp_ns

  -- `SDL_BUTTON_MASK(button)`
  abbrev pub button_mask : ℕ → ℕ
  button_mask button = 2 ^ (button - 1)

  abbrev pub set_button : Bool → ℕ → ℕ → ℕ
  set_button down button buttons =
      if down then bit_or buttons (button_mask button) else clear 32 buttons (button_mask button)

  -- `SDLOP_SendMouseButton`
  pub send_mouse_button : Sdl Carrier → Bool → ℕ → Carrier → Carrier → ℕ → Sdl Carrier
  unfolding constrain_mouse_pos event_time push_event_internal mouse_window_id
  send_mouse_button s down button x y timestamp_ns =
      if ltb button 1 || ltb 31 button
      then s
      else (let (fx, fy) = constrain_mouse_pos s x y in
          let placed =
            if eq x no_pos
            then s.mouse
            else record (at_position s.mouse fx fy) { has_position = true } in
          let m = record placed { buttons = set_button down button placed.buttons } in
          let (s', t) = event_time (record s { mouse = m }) timestamp_ns in
          (push_event_internal s' (record {
            type = if down then mouse_button_down else mouse_button_up;
            timestamp = t;
            window_id = mouse_window_id s';
            payload = Payload.button button down 1 m.x m.y;
          })).0)

  -- `SDLOP_SendTouch`. The word at the offset of `window.windowID` is the low half of the touch id.
  pub send_touch :
      Sdl Carrier
      → ℕ
      → ℕ
      → ℕ
      → Carrier
      → Carrier
      → Carrier
      → Carrier
      → Carrier
      → ℕ
      → ℕ
      → Sdl Carrier
  unfolding push_event_internal
  send_touch s type touch finger x y dx dy pressure window timestamp_ns =
      (push_event_internal s (record {
        type = type;
        timestamp = timestamp_ns;
        window_id = touch % 2 ^ 32;
        payload = Payload.tfinger touch finger x y dx dy pressure window;
      })).0

  -- `SDLOP_SendMouseWheel`
  pub send_mouse_wheel : Sdl Carrier → Carrier → Carrier → ℕ → Sdl Carrier
  unfolding event_time push_event_internal mouse_window_id
  send_mouse_wheel s x y timestamp_ns =
      if both_zero x y
      then s
      else (let (s', t) = event_time s timestamp_ns in
          (push_event_internal s' (record {
            type = mouse_wheel;
            timestamp = t;
            window_id = mouse_window_id s';
            payload = Payload.wheel x y s.mouse.x s.mouse.y;
          })).0)

  -- `SDL_GetRelativeMouseState`; the flags say which of the two pointers are given.
  pub get_relative_mouse_state :
      Sdl Carrier → Bool → Bool → Sdl Carrier × Option Carrier × Option Carrier × ℕ
  get_relative_mouse_state s want_x want_y =
      let m = s.mouse in
      (
        record s {
          mouse = record m {
            xrel_acc = if want_x then zero_f else m.xrel_acc;
            yrel_acc = if want_y then zero_f else m.yrel_acc;
          };
        },
        if want_x then some m.xrel_acc else none,
        if want_y then some m.yrel_acc else none,
        m.buttons,
      )
