-- ===== src/Web/Input/Motion.antt =====
-- src/video/emscripten/sdlop_emscripten.c with src/SDL_mouse.c: motion while the pointer is locked.
use sdlop.Base.{◌≡◌, true, false, some}
use sdlop.Base.Int.{pos, ltb_ℤ}
use sdlop.State.{Sdl, Window}
use sdlop.Events.{mono_ns}
use sdlop.Float.{Float, IsOrdered}
use sdlop.Mouse.{deref, both_zero, zero_f}
use sdlop.Mouse.Corner.{send_mouse_motion_corner}
use sdlop.Web.{Selector, WebData, Page, window_from_selector}
use sdlop.Web.Input.{DomMouse, mouse_move_cb}

module _ (fl : Float) (ord : IsOrdered fl) where
  open fl use {Carrier, of_int, add, eq, no_pos}

  -- A defect: when the pointer is locked to the window of the canvas and moves, the position of the
  -- mouse becomes the corner (0, 0), wherever it was, though the displacement is added as it should be.
  -- The window with the mouse focus has a positive size, 0 is not the mark `SDLOP_NO_POS`, and numbers
  -- compare as `IsOrdered` says.
  pub mouse_move_cb-locked :
      (s : Sdl Carrier) (p : Page) (selector : Selector) (e : DomMouse) {w v : Window Carrier}
      {d : WebData}
      → window_from_selector p s selector ≡ some w
      → p.driverdata w.addr ≡ some d
      → d.pointer_locked ≡ true
      → deref s.mouse_focus s.windows ≡ some v
      → ltb_ℤ (pos 0) v.w ≡ true
      → ltb_ℤ (pos 0) v.h ≡ true
      → eq (zero_f fl) no_pos ≡ false
      → both_zero fl (of_int e.movement_x) (of_int e.movement_y) ≡ false
      → let m = (mouse_move_cb fl s p selector e).0.mouse in
        (m.x ≡ zero_f fl)
        × (m.y ≡ zero_f fl)
        × (m.xrel_acc ≡ add s.mouse.xrel_acc (of_int e.movement_x))
        × (m.yrel_acc ≡ add s.mouse.yrel_acc (of_int e.movement_y))
  unfolding mouse_move_cb mono_ns
  mouse_move_cb-locked s p selector e {v = v} found has_data locked focus wide high apart moved =
      let (s1, now) = mono_ns s in
      rw (mouse_move_cb, found, has_data, locked)
        (send_mouse_motion_corner fl ord s1 v (of_int e.movement_x) (of_int e.movement_y) now focus
          wide high apart moved)
