-- ===== src/Wayland/Seat.antt =====
-- src/video/wayland/sdlop_wayland.c: the devices of a seat come and go.
pub mod Numbers
use sdlop.Base.{ℕ, ◌+◌, ◌%◌, ◌^◌, Bool, true, false, not, ◌&&◌, if◌then◌else◌}
use sdlop.Base.Bits.{has}
use sdlop.Event.{common}
use sdlop.State.{Sdl}
use sdlop.Events.{push_event_internal, now_ns}

-- The fields of `WaylandDeviceData` for the devices of the seat: whether the objects are there, and the
-- numbers of the devices; `next_id` is the static of `sdlop_device_next_id`.
pub record Seat : Type 0 where
  pub keyboard : Bool
  pub pointer : Bool
  pub touch : Bool
  pub keyboard_id : ℕ
  pub pointer_id : ℕ
  pub next_id : ℕ

abbrev pub keyboard_added : ℕ
keyboard_added = 0x305

abbrev pub keyboard_removed : ℕ
keyboard_removed = 0x306

abbrev pub mouse_added : ℕ
mouse_added = 0x404

abbrev pub mouse_removed : ℕ
mouse_removed = 0x405

-- `++next_id` of `sdlop_device_next_id`
abbrev pub device_next_id : Seat → ℕ
device_next_id d = (d.next_id + 1) % 2 ^ 32

module _ {F : Type 0} where
  -- `send_keyboard_device_event` and `send_mouse_device_event`. The number of the device stands where a
  -- window event has its window.
  pub send_device_event : Sdl F → ℕ → ℕ → Sdl F
  unfolding push_event_internal now_ns
  send_device_event s type which =
      let (s', t) = now_ns s in
      (push_event_internal s'
        (record { type = type; timestamp = t; window_id = which; payload = common })).0

  -- The part of `seat_capabilities` for the keyboard, for the pointer and for touch, each with whether
  -- the seat has one
  pub keyboard_capability : Sdl F × Seat → Bool → Sdl F × Seat
  unfolding send_device_event
  keyboard_capability (s, d) wanted =
      if wanted && not d.keyboard
      then (
        send_device_event s keyboard_added (device_next_id d),
        record d { keyboard = true; keyboard_id = device_next_id d; next_id = device_next_id d },
      )
      else if not wanted && d.keyboard
      then (
        send_device_event s keyboard_removed d.keyboard_id,
        record d { keyboard = false; keyboard_id = 0 },
      )
      else (s, d)

  pub pointer_capability : Sdl F × Seat → Bool → Sdl F × Seat
  unfolding send_device_event
  pointer_capability (s, d) wanted =
      if wanted && not d.pointer
      then (
        send_device_event s mouse_added (device_next_id d),
        record d { pointer = true; pointer_id = device_next_id d; next_id = device_next_id d },
      )
      else if not wanted && d.pointer
      then (
        send_device_event s mouse_removed d.pointer_id,
        record d { pointer = false; pointer_id = 0 },
      )
      else (s, d)

  pub touch_capability : Sdl F × Seat → Bool → Sdl F × Seat
  touch_capability (s, d) wanted =
      if wanted && not d.touch
      then (s, record d { touch = true })
      else if not wanted && d.touch
      then (s, record d { touch = false })
      else (s, d)

  -- `seat_capabilities`
  pub seat_capabilities : Sdl F × Seat → ℕ → Sdl F × Seat
  unfolding keyboard_capability pointer_capability touch_capability
  seat_capabilities world caps =
      touch_capability
        (pointer_capability (keyboard_capability world (has caps 0x2)) (has caps 0x1))
        (has caps 0x4)
