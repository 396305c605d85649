-- ===== src/Tests/Waylands.antt =====
-- The Wayland driver on a device with two fingers, two outputs and one window.
use sdlop.Base.{ℕ, ◌≡◌, refl, Bool, true, false, none, some, [], ◌∷◌, ◌==◌, if◌then◌else◌, arith}
use sdlop.Base.Int.{ℤ, pos, eqb_ℤ, ◌+ℤ◌, ◌-ℤ◌}
use sdlop.Wayland.{Scaling, WindowData, Finger, Device, window_from_surface}
use sdlop.Wayland.Pointer.{pointer_axis, pointer_axis_value120, pointer_frame}
use sdlop.Wayland.Pointer.Wheel.{wheel_lost}
use sdlop.Wayland.Touch.{finger_track, last_position}
use sdlop.Wayland.Touch.Fingers.{Tracks, finger_track-Tracks}
use sdlop.Clock.{monotonic_ns}
use sdlop.Keyboard.{process_repeats}
use sdlop.Keyboard.Repeats.{IsSettled}
use sdlop.Wayland.Keyboard.{keyboard_enter, keyboard_repeat_info}
use sdlop.Wayland.Keyboard.Focus.{agrees, keyboard_enter_lem}
use sdlop.Wayland.Keyboard.Rate.{process_repeats-keyboard_repeat_info}
use sdlop.Tests.Inputs.{letters}
use sdlop.Wayland.Toplevel.{
  hide_window, granted, set_data, maximized, toplevel_configure, xsurface_configure,
}
use sdlop.Wayland.Roles.{Objects, show_window}
use sdlop.Wayland.Roles.Again.{xsurface_configure-show_window}
use sdlop.Wayland.Toplevel.Configure.{xsurface_configure_lem}
use sdlop.State.{Sdl}
use sdlop.Base.Bits.{has}
use sdlop.Wayland.Seat.{Seat, seat_capabilities}
use sdlop.Wayland.Seat.Numbers.{IsNumbered, seat_capabilities_lem}
use sdlop.Tests.Samples.{running, window_of, whole}

-- The numbers of the protocol as they come.
abbrev plain_scaling : Scaling whole
plain_scaling = record { of_fixed = λ x. x; tenth = λ x. x; detents = λ x. x; share = λ x size. x }

abbrev on_output : WindowData
on_output = record {
  surface = 70;
  toplevel = true;
  buffer = true;
  buffer_w = pos 640;
  buffer_h = pos 480;
  configured = true;
  mapped = true;
  output = some 30;
  pending_w = pos 0;
  pending_h = pos 0;
  gl_active = false;
}

abbrev finger : Bool → ℕ → Finger ℤ
finger active id = record { active = active; id = id; nx = pos 3; ny = pos 4 }

abbrev device : Device ℤ
device = record {
  seat = 1;
  pointer = true;
  outputs =
      record { output = 30; name = 5; scale = pos 2 }
      ∷ record { output = 31; name = 6; scale = pos 1 }
      ∷ [];
  fingers = finger true 1 ∷ finger false 0 ∷ [];
  pointer_focus = some 7;
  touch_focus = some 7;
  axis_x_acc = pos 0;
  axis_y_acc = pos 0;
  pointer_constraints = true;
  relative_manager = true;
  locked_pointer = false;
  relative_pointer = false;
  relative_lock_window = none;
  rel_x_acc = pos 0;
  rel_y_acc = pos 0;
  driverdata = λ a. if a == 7 then some on_output else none;
}

wheel_lost_example :
    let d1 = pointer_axis whole plain_scaling false device true (pos 1) in
    let d2 = pointer_axis_value120 whole plain_scaling false d1 true (pos 1) in
    pointer_frame whole plain_scaling false (running, d2) ≡ (running, d2)
unfolding ◌+ℤ◌ ◌-ℤ◌
wheel_lost_example =
    wheel_lost whole plain_scaling running device (pos 1) (pos 1) refl refl refl refl refl refl

finger_track-Tracks_example :
    Tracks whole device.fingers 2
      (pos 5)
      (pos 6)
      true
      (finger_track whole device.fingers 2 (pos 5) (pos 6) true)
unfolding last_position
finger_track-Tracks_example = finger_track-Tracks whole device.fingers 2 (pos 5) (pos 6) true refl

xsurface_configure_example :
    let asked = record on_output { pending_w = pos 800; pending_h = pos 600; mapped = false } in
    let (s, w, wd) = xsurface_configure (λ n. granted) running (window_of 7 0) asked in
    (eqb_ℤ w.w (pos 800) ≡ true)
    × (eqb_ℤ w.h (pos 600) ≡ true)
    × (wd.configured ≡ true)
    × (wd.buffer ≡ true)
    × (wd.mapped ≡ true)
xsurface_configure_example =
    xsurface_configure_lem (λ n. granted) running (window_of 7 0)
      (record on_output { pending_w = pos 800; pending_h = pos 600; mapped = false }) refl refl

-- The first window has the focus and its flag; the second shows the surface 80.
abbrev focused : Sdl ℤ
focused = record running { windows = window_of 7 0x200 ∷ window_of 8 0 ∷ [] }

abbrev two_surfaces : Device ℤ
two_surfaces = record device {
  driverdata = λ a.
      if a == 7
      then some on_output
      else if a == 8
      then some (record on_output { surface = 80 })
      else none;
}

keyboard_enter_example :
    let s = keyboard_enter (focused, two_surfaces) 80 in
    (agrees s.keyboard_focus s.windows ≡ true) × (s.keyboard_focus ≡ some 8)
unfolding window_from_surface
keyboard_enter_example = keyboard_enter_lem focused two_surfaces 80 refl refl

-- A compositor that asks for two thousand presses a second
process_repeats-keyboard_repeat_info_example :
    (s : Sdl ℤ) × (process_repeats letters 3 (keyboard_repeat_info running (pos 2000) (pos 200))
      ≡ some s)
    × IsSettled letters 5000000000 s
unfolding monotonic_ns
process_repeats-keyboard_repeat_info_example =
    process_repeats-keyboard_repeat_info letters 3 running (pos 2000) (pos 200)
      (omega arith, omega arith) (omega arith) (omega arith) (omega arith) (λ late. omega arith)

abbrev all_granted : Objects
all_granted = record { memory = true; surface = some 90; xdg_surface = true; toplevel = true }

xsurface_configure-show_window_example :
    let (s1, wd1) = show_window all_granted running (hide_window on_output) in
    let ((s2, d2), w2) =
      toplevel_configure
        (s1, set_data device 7 (some wd1))
        (window_of 7 0)
        wd1
        (pos 800)
        (pos 600)
        (maximized ∷ []) in
    (wd1.toplevel ≡ true)
    × (wd1.mapped ≡ false)
    × (wd2 : WindowData) × (d2.driverdata 7 ≡ some wd2)
    × (wd2.mapped ≡ false)
    × let (s3, w3, wd3) = xsurface_configure (λ n. granted) s2 w2 wd2 in
      (wd3.mapped ≡ true)
      × (wd3.buffer ≡ true)
      × (eqb_ℤ w3.w (pos 800) ≡ true)
      × (eqb_ℤ w3.h (pos 600) ≡ true)
xsurface_configure-show_window_example =
    xsurface_configure-show_window all_granted (λ n. granted) running device (window_of 7 0)
      on_output (pos 800) (pos 600) (maximized ∷ []) refl refl refl refl

-- A seat with a keyboard, which has the first number
abbrev typing : Seat
typing = record {
  keyboard = true;
  pointer = false;
  touch = false;
  keyboard_id = 1;
  pointer_id = 0;
  next_id = 1;
}

typing-IsNumbered : IsNumbered typing
typing-IsNumbered = record {
  keyboard_has = refl;
  pointer_has = refl;
  apart = refl;
  keyboard_given = omega arith;
  pointer_given = omega arith;
}

seat_capabilities_example :
    let d' = (seat_capabilities (running, typing) 3).1 in
    IsNumbered d' × (d'.keyboard ≡ has 3 0x2) × (d'.pointer ≡ has 3 0x1) × (d'.touch ≡ has 3 0x4)
seat_capabilities_example = seat_capabilities_lem running typing 3 typing-IsNumbered (omega arith)
