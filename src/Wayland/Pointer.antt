-- ===== src/Wayland/Pointer.antt =====
-- src/video/wayland/sdlop_wayland.c: the pointer, its scroll axes and the pointer lock. The flag `raw` is
-- `SDLOP_RawInputMouseActive()`.
pub mod Wheel
use sdlop.Base.{
  ℕ, bit_or, Bool, true, false, not, ◌&&◌, ◌||◌, Option, none, some, List, ◌==◌, if◌then◌else◌,
}
use sdlop.Base.Int.{ℤ, pos}
use sdlop.Base.Bits.{clear}
use sdlop.Event.{mouse_enter, mouse_leave}
use sdlop.State.{Sdl, Window, window_at, set_error}
use sdlop.Events.{mono_ns, send_window_event}
use sdlop.Float.{Float}
use sdlop.Mouse.{send_mouse_motion, send_mouse_button, send_mouse_wheel, zero_f}
use sdlop.Windows.{forget, store}
use sdlop.Wayland.{Scaling, World, Device, WindowData, window_from_surface}

abbrev pub window_mouse_focus : ℕ
window_mouse_focus = 0x400

-- `wl_button_to_sdl`
pub wl_button_to_sdl : ℕ → ℕ
wl_button_to_sdl button =
    if button == 0x110
    then 1
    else if button == 0x111
    then 3
    else if button == 0x112
    then 2
    else if button == 0x113 || button == 0x116
    then 4
    else if button == 0x114 || button == 0x115
    then 5
    else 0

abbrev pub same : Option ℕ → ℕ → Bool
same none a = false
same (some b) a = b == a

module _ (fl : Float) (scaling : Scaling fl) where
  open fl use {Carrier, add, sub, eq, no_pos}
  open scaling use {of_fixed, tenth, detents}

  -- `wayland_release_pointer_lock`
  unfoldable pub release_pointer_lock : Device Carrier → Device Carrier
  release_pointer_lock d = record d {
    locked_pointer = false;
    relative_pointer = false;
    rel_x_acc = zero_f fl;
    rel_y_acc = zero_f fl;
  }

  -- `wayland_arm_pointer_lock`
  pub arm_pointer_lock : World Carrier → ℕ → World Carrier × Bool
  unfolding release_pointer_lock set_error
  arm_pointer_lock (s, d) a = elim (d.driverdata a) [
    | none ↦ ((set_error s "Invalid window", d), false)
    | some wd ↦
        if not d.pointer
        then ((set_error s "No wl_pointer (compositor seat has no pointer capability)", d), false)
        else if not d.relative_manager || not d.pointer_constraints
        then (
          (set_error s "Wayland compositor lacks pointer-constraints/relative-pointer support", d),
          false,
        )
        else (
          (
            s,
            record (release_pointer_lock d) {
              relative_pointer = true;
              locked_pointer = true;
              relative_lock_window = some a;
            },
          ),
          true,
        )
  ]

  -- `wayland_SetWindowRelativeMouseMode`
  pub set_window_relative_mouse_mode : World Carrier → ℕ → Bool → World Carrier × Bool
  unfolding arm_pointer_lock release_pointer_lock
  set_window_relative_mouse_mode (s, d) a enabled =
      if enabled
      then arm_pointer_lock (s, d) a
      else if same d.relative_lock_window a
      then ((s, record (release_pointer_lock d) { relative_lock_window = none }), true)
      else ((s, d), true)

  -- `locked_pointer_unlocked`
  pub locked_pointer_unlocked : Device Carrier → Device Carrier
  locked_pointer_unlocked d = record d { locked_pointer = false }

  -- `relative_pointer_motion`
  pub relative_pointer_motion : Device Carrier → ℤ → ℤ → Device Carrier
  relative_pointer_motion d dx dy = record d {
    rel_x_acc = add d.rel_x_acc (of_fixed dx);
    rel_y_acc = add d.rel_y_acc (of_fixed dy);
  }

  -- `pointer_enter` for the window that was found
  pub enter_window : World Carrier → Window Carrier → ℤ → ℤ → World Carrier
  unfolding mono_ns send_window_event arm_pointer_lock
  enter_window (s, d) w x y =
      let v = record w { flags = bit_or w.flags window_mouse_focus } in
      let s1 = record (store s v) {
        mouse_focus = some w.addr;
        mouse = record s.mouse { has_position = false };
      } in
      let s2 = send_window_event s1 (some v) mouse_enter (pos 0) (pos 0) in
      let (s3, t) = mono_ns s2 in
      let s4 = send_mouse_motion fl s3 (of_fixed x) (of_fixed y) (zero_f fl) (zero_f fl) t in
      let d1 = record d { pointer_focus = some w.addr } in
      if same s4.relative_mode_window w.addr && not d1.locked_pointer
      then (arm_pointer_lock (s4, d1) w.addr).0
      else (s4, d1)

  -- `pointer_enter`
  pub pointer_enter : World Carrier → ℕ → ℤ → ℤ → World Carrier
  unfolding window_from_surface enter_window
  pointer_enter (s, d) surface x y = elim (window_from_surface d s.windows surface) [
    | none ↦ (s, d)
    | some w ↦ enter_window (s, d) w x y
  ]

  -- The window that loses the pointer. At an address without a window nothing is done.
  pub leave_window : Sdl Carrier → ℕ → Sdl Carrier
  unfolding send_window_event
  leave_window s a = elim (window_at a s.windows) [
    | none ↦ s
    | some w ↦
        let v = record w { flags = clear 64 w.flags window_mouse_focus } in
        send_window_event (store s v) (some v) mouse_leave (pos 0) (pos 0)
  ]

  -- `pointer_leave`
  pub pointer_leave : World Carrier → World Carrier
  unfolding leave_window
  pointer_leave (s, d) = elim d.pointer_focus [
    | none ↦ (record s { mouse = record s.mouse { has_position = false } }, d)
    | some a ↦ (
      leave_window
          (record s {
            mouse = record s.mouse { has_position = false };
            mouse_focus = forget s.mouse_focus a;
          })
          a,
      record d { pointer_focus = none },
    )
  ]

  -- `pointer_motion`
  pub pointer_motion : Bool → World Carrier → ℤ → ℤ → World Carrier
  unfolding mono_ns
  pointer_motion raw (s, d) x y = elim d.pointer_focus [
    | none ↦ (s, d)
    | some a ↦
        if raw && same s.relative_mode_window a
        then (s, d)
        else if raw
        then (record s { mouse = record s.mouse { x = of_fixed x; y = of_fixed y } }, d)
        else (let (s1, t) = mono_ns s in
            (send_mouse_motion fl s1 (of_fixed x) (of_fixed y) (zero_f fl) (zero_f fl) t, d))
  ]

  -- `pointer_button`
  pub pointer_button : Bool → Sdl Carrier → ℕ → Bool → Sdl Carrier
  unfolding wl_button_to_sdl mono_ns
  pointer_button raw s button pressed =
      if raw || wl_button_to_sdl button == 0
      then s
      else (let (s1, t) = mono_ns s in
          send_mouse_button fl s1 pressed (wl_button_to_sdl button) no_pos no_pos t)

  -- `pointer_axis`
  pub pointer_axis : Bool → Device Carrier → Bool → ℤ → Device Carrier
  pointer_axis raw d vertical value =
      if raw
      then d
      else if vertical
      then record d { axis_y_acc = sub d.axis_y_acc (tenth value) }
      else record d { axis_x_acc = add d.axis_x_acc (tenth value) }

  -- `pointer_axis_value120`
  pub pointer_axis_value120 : Bool → Device Carrier → Bool → ℤ → Device Carrier
  pointer_axis_value120 raw d vertical value120 =
      if raw
      then d
      else if vertical
      then record d { axis_y_acc = add d.axis_y_acc (detents value120) }
      else record d { axis_x_acc = add d.axis_x_acc (detents value120) }

  -- `x != 0.0f || y != 0.0f`
  abbrev pub any_motion : Carrier → Carrier → Bool
  any_motion x y = not (eq x (zero_f fl)) || not (eq y (zero_f fl))

  -- The first half of `pointer_frame`: the wheel
  pub frame_wheel : World Carrier → World Carrier
  unfolding mono_ns
  frame_wheel (s, d) =
      if any_motion d.axis_x_acc d.axis_y_acc
      then (let (s1, t) = mono_ns s in
          (
            send_mouse_wheel fl s1 d.axis_x_acc d.axis_y_acc t,
            record d { axis_x_acc = zero_f fl; axis_y_acc = zero_f fl },
          ))
      else (s, d)

  -- The second half: relative motion
  pub frame_motion : Bool → World Carrier → World Carrier
  unfolding mono_ns
  frame_motion raw (s, d) =
      if d.relative_pointer && any_motion d.rel_x_acc d.rel_y_acc
      then (let d1 = record d { rel_x_acc = zero_f fl; rel_y_acc = zero_f fl } in
          if raw
          then (s, d1)
          else (let (s1, t) = mono_ns s in
              (send_mouse_motion fl s1 no_pos no_pos d.rel_x_acc d.rel_y_acc t, d1)))
      else (s, d)

  -- `pointer_frame`
  pub pointer_frame : Bool → World Carrier → World Carrier
  unfolding frame_wheel frame_motion
  pointer_frame raw w = frame_motion raw (frame_wheel w)
