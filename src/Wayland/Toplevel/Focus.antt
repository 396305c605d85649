-- ===== src/Wayland/Toplevel/Focus.antt =====
-- src/video/wayland/sdlop_wayland.c: the pointers to a window that the device keeps, when it goes.
use sdlop.Base.{ℕ, ◌≡◌, false, none, some, arith}
use sdlop.Float.{Float}
use sdlop.Wayland.{Scaling, Device, WindowData}
use sdlop.Wayland.Pointer.{same, release_pointer_lock}
use sdlop.Wayland.Toplevel.{destroy_window}

module _ (fl : Float) (scaling : Scaling fl) where
  open fl use {Carrier}

  -- A defect: the driver's end of a window that has driver data makes the pointer focus and the window of
  -- the pointer lock forget the window, and frees its driver data, but the touch focus is kept as it was,
  -- so it may still point at the freed window.
  pub destroy_window_keeps_touch :
      (d : Device Carrier) (a : ℕ) (wd : WindowData)
      → d.driverdata a ≡ some wd
      → let d' = destroy_window fl scaling d a in
        (same d'.pointer_focus a ≡ false)
        × (same d'.relative_lock_window a ≡ false)
        × (d'.driverdata a ≡ none)
        × (d'.touch_focus ≡ d.touch_focus)
  unfolding destroy_window release_pointer_lock
  destroy_window_keeps_touch d a wd h = ground (arith, h)
