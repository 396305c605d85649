-- ===== src/Wayland.antt =====
-- src/video/wayland/sdlop_wayland.c: the state of the Wayland driver. Objects of the compositor are
-- addresses, or flags where only their presence matters; requests to the compositor are left out, but
-- for the state that they change here.
pub mod Keyboard
pub mod Pointer
pub mod Touch
pub mod Outputs
pub mod Toplevel
pub mod Roles
pub mod Egl
pub mod Seat
use sdlop.Base.{ℕ, Bool, false, Option, none, some, List, [], ◌∷◌, ◌==◌, if◌then◌else◌}
use sdlop.Base.Int.{ℤ}
use sdlop.State.{Sdl, Window}
use sdlop.Float.{Float}

-- What the driver computes with C's `double` and `float` beyond `Float`: a coordinate of the protocol as
-- a number, the same divided by 10, `value120 / 120.0f`, and a coordinate divided by a size.
pub record Scaling (fl : Float) : Type 0 where
  pub of_fixed : ℤ → fl.Carrier
  pub tenth : ℤ → fl.Carrier
  pub detents : ℤ → fl.Carrier
  pub share : ℤ → ℤ → fl.Carrier

-- `WaylandWindowData`. `toplevel` says whether the role objects are there, `buffer` whether the shm
-- buffer is.
pub record WindowData : Type 0 where
  pub surface : ℕ
  pub toplevel : Bool
  pub buffer : Bool
  pub buffer_w : ℤ
  pub buffer_h : ℤ
  pub configured : Bool
  pub mapped : Bool
  pub output : Option ℕ
  pub pending_w : ℤ
  pub pending_h : ℤ
  pub gl_active : Bool

-- An entry of `outputs`
pub record Output : Type 0 where
  pub output : ℕ
  pub name : ℕ
  pub scale : ℤ

-- An entry of `fingers`
pub record Finger (F : Type 0) : Type 0 where
  pub active : Bool
  pub id : ℕ
  pub nx : F
  pub ny : F

-- `WaylandDeviceData`. `driverdata` is that of the windows, by address.
pub record Device (F : Type 0) : Type 0 where
  pub seat : ℕ
  pub pointer : Bool
  pub outputs : List Output
  pub fingers : List (Finger F)
  pub pointer_focus : Option ℕ
  pub touch_focus : Option ℕ
  pub axis_x_acc : F
  pub axis_y_acc : F
  pub pointer_constraints : Bool
  pub relative_manager : Bool
  pub locked_pointer : Bool
  pub relative_pointer : Bool
  pub relative_lock_window : Option ℕ
  pub rel_x_acc : F
  pub rel_y_acc : F
  pub driverdata : ℕ → Option WindowData

-- The state of the library with that of its driver
abbrev pub World : Type 0 → Type 0
World F = Sdl F × Device F

-- Whether a window is the one with a surface of the protocol
abbrev pub shows : Option WindowData → ℕ → Bool
shows none surface = false
shows (some w) surface = w.surface == surface

-- `window_from_surface`, over the windows of a list
unfoldable pub window_from_surface :
    {F : Type 0} → Device F → List (Window F) → ℕ → Option (Window F)
window_from_surface d [] surface = none
window_from_surface d (w ∷ ws) surface =
    if shows (d.driverdata w.addr) surface then some w else window_from_surface d ws surface
