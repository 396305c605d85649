-- ===== src/Wayland/Toplevel.antt =====
-- src/video/wayland/sdlop_wayland.c: what the compositor tells a window of its size and state, and the
-- window calls of the driver. The pixels of the shm buffer and of the window surface are left out; whether
-- the system gives memory for a buffer is an argument.
pub mod States
pub mod Configure
pub mod Focus
use sdlop.Base.{
  ℕ, bit_or, Bool, true, false, not, ◌&&◌, ◌||◌, Option, none, some, List, [], ◌∷◌, any, ◌==◌,
  if◌then◌else◌,
}
use sdlop.Base.Int.{ℤ, pos, ltb_ℤ, eqb_ℤ}
use sdlop.Base.Bits.{has, clear}
use sdlop.Event.{safe_area_changed, close_requested}
use sdlop.State.{Sdl, Window, put_window, set_error}
use sdlop.Events.{send_window_event}
use sdlop.Float.{Float}
use sdlop.Windows.{window_fullscreen, window_hidden_flag, store}
use sdlop.Dummy.{
  window_minimized, window_maximized, window_restored, window_moved, window_resized,
  pixel_size_changed, enter_fullscreen, leave_fullscreen,
}
use sdlop.Wayland.{Scaling, World, Device, WindowData}
use sdlop.Wayland.Pointer.{release_pointer_lock, same}
use sdlop.Windows.{forget}

-- The states of `xdg_toplevel` that the handler tells apart
pub data ToplevelState : Type 0 where
  maximized : ToplevelState
  fullscreen : ToplevelState
  suspended : ToplevelState
  other : ToplevelState

-- What the system answers to the calls for the memory of a buffer
pub data Memory : Type 0 where
  granted : Memory
  no_file : Memory
  no_size : Memory
  no_map : Memory

abbrev pub is_maximized : ToplevelState → Bool
is_maximized maximized = true
is_maximized _ = false

abbrev pub is_fullscreen : ToplevelState → Bool
is_fullscreen fullscreen = true
is_fullscreen _ = false

abbrev pub maximized_flag : ℕ
maximized_flag = 0x80

abbrev pub minimized_flag : ℕ
minimized_flag = 0x40

abbrev pub set_data : {F : Type 0} → Device F → ℕ → Option WindowData → Device F
set_data d a wd = record d { driverdata = λ b. if b == a then wd else d.driverdata b }

-- `window_commit`
unfoldable pub window_commit : WindowData → WindowData
window_commit wd =
    if not wd.configured || not wd.buffer
    then wd
    else if wd.gl_active
    then wd
    else record wd { mapped = true }

-- `wayland_HideWindow`
unfoldable pub hide_window : WindowData → WindowData
hide_window wd = record wd {
  toplevel = false;
  mapped = false;
  configured = false;
  pending_w = pos 0;
  pending_h = pos 0;
}

module _ {F : Type 0} where
  -- One of the two states of `toplevel_configure`: the flag follows what the compositor says, with an
  -- event on a change.
  pub follow : Bool → ℕ → ℕ → ℕ → Sdl F × Window F → Sdl F × Window F
  unfolding send_window_event
  follow wanted flag gained lost (s, w) =
      if wanted && not (has w.flags flag)
      then (let v = record w { flags = bit_or w.flags flag } in
          (send_window_event (store s v) (some v) gained (pos 0) (pos 0), v))
      else if not wanted && has w.flags flag
      then (let v = record w { flags = clear 64 w.flags flag } in
          (send_window_event (store s v) (some v) lost (pos 0) (pos 0), v))
      else (s, w)

  -- `toplevel_configure` on a window with driver data
  pub toplevel_configure :
      World F → Window F → WindowData → ℤ → ℤ → List ToplevelState → World F × Window F
  unfolding follow
  toplevel_configure (s, d) w wd width height states =
      let d1 = set_data d w.addr (some (record wd { pending_w = width; pending_h = height })) in
      let r1 =
        follow (any is_maximized states) maximized_flag window_maximized window_restored (s, w) in
      let r2 =
        follow (any is_fullscreen states) window_fullscreen enter_fullscreen leave_fullscreen r1 in
      ((r2.0, d1), r2.1)

  -- `toplevel_close`
  pub toplevel_close : Sdl F → Window F → Sdl F
  unfolding send_window_event
  toplevel_close s w = send_window_event s (some w) close_requested (pos 0) (pos 0)

  -- `window_destroy_buffer` and `window_create_buffer`: the old buffer goes in any case.
  unfoldable pub create_buffer : Memory → Sdl F → WindowData → ℤ → ℤ → Sdl F × WindowData × Bool
  unfolding set_error
  create_buffer granted s wd w h =
      (s, record wd { buffer = true; buffer_w = w; buffer_h = h }, true)
  create_buffer no_file s wd w h =
      (set_error s "memfd_create failed: %s", record wd { buffer = false }, false)
  create_buffer no_size s wd w h =
      (set_error s "ftruncate failed: %s", record wd { buffer = false }, false)
  create_buffer no_map s wd w h =
      (set_error s "mmap failed: %s", record wd { buffer = false }, false)

  -- The branch of `xsurface_configure` for a size that is new
  pub resize : Memory → Bool → Sdl F → Window F → WindowData → Sdl F × Window F × WindowData
  unfolding create_buffer send_window_event
  resize memory first s w wd =
      let v = record w { w = wd.pending_w; h = wd.pending_h } in
      let (s1, wd1, done) = create_buffer memory (store s v) wd v.w v.h in
      let s2 = send_window_event s1 (some v) window_resized v.w v.h in
      let s3 = send_window_event s2 (some v) pixel_size_changed v.w v.h in
      let s4 =
        if first
        then send_window_event (send_window_event s3 (some v) window_moved (pos 0) (pos 0)) (some v)
            safe_area_changed (pos 0) (pos 0)
        else s3 in
      (s4, v, wd1)

  -- `xsurface_configure` on a window with driver data; `memory` answers the two calls for a buffer.
  unfoldable pub xsurface_configure :
      (ℕ → Memory) → Sdl F → Window F → WindowData → Sdl F × Window F × WindowData
  unfolding resize create_buffer window_commit
  xsurface_configure memory s w wd =
      let wd0 = record wd { configured = true } in
      let sized =
        ltb_ℤ (pos 0) wd.pending_w
        && ltb_ℤ (pos 0) wd.pending_h
        && (not (eqb_ℤ wd.pending_w w.w) || not (eqb_ℤ wd.pending_h w.h)) in
      let (s1, w1, wd1) =
        if sized then resize (memory 0) (not wd.configured) s w wd0 else (s, w, wd0) in
      let (s2, wd2, done) =
        if wd1.buffer then (s1, wd1, true) else create_buffer (memory 1) s1 wd1 w1.w w1.h in
      (s2, w1, if has w1.flags window_hidden_flag then wd2 else window_commit wd2)

  -- `wayland_SetWindowSize`
  pub set_window_size : Memory → Sdl F → Window F → WindowData → Sdl F × WindowData × Bool
  unfolding create_buffer window_commit send_window_event
  set_window_size memory s w wd =
      let (s1, wd1, done) = create_buffer memory s wd w.w w.h in
      let s2 = send_window_event s1 (some w) window_resized w.w w.h in
      (send_window_event s2 (some w) pixel_size_changed w.w w.h, window_commit wd1, true)

  -- `wayland_MinimizeWindow` on a window with driver data
  pub minimize_window : Sdl F → Window F → WindowData → Sdl F
  unfolding send_window_event
  minimize_window s w wd =
      if wd.toplevel
      then (let v = record w { flags = bit_or w.flags minimized_flag } in
          send_window_event (store s v) (some v) window_minimized (pos 0) (pos 0))
      else s

  -- `wayland_SetWindowFullscreen`: it asks the compositor, and changes no state of the library.
  pub set_window_fullscreen : Sdl F → Option WindowData → Sdl F × Bool
  unfolding set_error
  set_window_fullscreen s none = (set_error s "Invalid window", false)
  set_window_fullscreen s (some wd) =
      if wd.toplevel then (s, true) else (set_error s "Invalid window", false)

module _ (fl : Float) (scaling : Scaling fl) where
  open fl use {Carrier}

  -- `wayland_DestroyWindow`, as far as the device goes
  pub destroy_window : Device Carrier → ℕ → Device Carrier
  destroy_window d a = elim (d.driverdata a) [
    | none ↦ d
    | some wd ↦
        let d1 = record d { pointer_focus = forget d.pointer_focus a } in
        let d2 =
          if same d1.relative_lock_window a
          then record (release_pointer_lock fl scaling d1) { relative_lock_window = none }
          else d1 in
        set_data d2 a none
  ]
