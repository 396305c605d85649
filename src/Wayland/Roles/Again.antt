-- ===== src/Wayland/Roles/Again.antt =====
-- src/video/wayland/sdlop_wayland.c: a window that is hidden, shown again, and then configured by the
-- compositor, which sends the size and states first (`toplevel_configure`) and then `configure` of the xdg
-- surface.
use sdlop.Base.{
  ℕ, ◌≡◌, ◌∙◌, true, false, not, ◌&&◌, some, List, if◌then◌else◌, refl, ap, subst, Bool,
}
use sdlop.Base.Int.{ℤ, pos, ltb_ℤ, eqb_ℤ}
use sdlop.Base.Bits.{has}
use sdlop.State.{Sdl, Window}
use sdlop.Windows.{window_hidden_flag}
use sdlop.Wayland.{Device, WindowData}
use sdlop.Wayland.Toplevel.{
  Memory, granted, ToplevelState, set_data, hide_window, toplevel_configure, xsurface_configure,
}
use sdlop.Wayland.Toplevel.Configure.{xsurface_configure_lem}
use sdlop.Wayland.Toplevel.States.{toplevel_configure_lem, toplevel_configure-kept}
use sdlop.Wayland.Roles.{Objects, show_window, create_role_objects}

module _ {F : Type 0} where
  -- Showing a window again, where the compositor's library gives the objects
  show_window-hide_window :
      (o : Objects) (s : Sdl F) (wd : WindowData)
      → o.xdg_surface ≡ true
      → o.toplevel ≡ true
      → show_window o s (hide_window wd) ≡ (s, record (hide_window wd) { toplevel = true })
  unfolding show_window create_role_objects hide_window
  show_window-hide_window o s wd a b = rw (a, b) refl

  -- A window that is hidden and shown again has a toplevel and is not mapped, and it is not mapped either
  -- when the compositor has sent the size and the states (`toplevel_configure`). The `xsurface_configure`
  -- that follows maps it, unless it is hidden or shows GL, and gives it a buffer and the size that was
  -- sent, or its old size where one side of that is not above 0. The compositor's library gives the xdg
  -- surface and the toplevel, and the system gives memory for the buffer.
  pub xsurface_configure-show_window :
      (o : Objects) (memory : ℕ → Memory) (s : Sdl F) (d : Device F) (w : Window F)
      (wd : WindowData) (width height : ℤ) (states : List ToplevelState)
      → o.xdg_surface ≡ true
      → o.toplevel ≡ true
      → memory 0 ≡ granted
      → memory 1 ≡ granted
      → let (s1, wd1) = show_window o s (hide_window wd) in
        let ((s2, d2), w2) =
          toplevel_configure (s1, set_data d w.addr (some wd1)) w wd1 width height states in
        let asked = ltb_ℤ (pos 0) width && ltb_ℤ (pos 0) height in
        (wd1.toplevel ≡ true)
        × (wd1.mapped ≡ false)
        × (wd2 : WindowData) × (d2.driverdata w.addr ≡ some wd2)
        × (wd2.mapped ≡ false)
        × let (s3, w3, wd3) = xsurface_configure memory s2 w2 wd2 in
          (wd3.mapped ≡ (not (has w.flags window_hidden_flag) && not wd.gl_active))
          × (wd3.buffer ≡ true)
          × (eqb_ℤ w3.w (if asked then width else w.w) ≡ true)
          × (eqb_ℤ w3.h (if asked then height else w.h) ≡ true)
  unfolding hide_window
  xsurface_configure-show_window o memory s d w wd width height states a b m n =
      rw (show_window-hide_window o s wd a b) (
        let wd1 = record (hide_window wd) { toplevel = true } in
        let d1 = set_data d w.addr (some wd1) in
        let wd2 = record wd1 { pending_w = width; pending_h = height } in
        let r = toplevel_configure (s, d1) w wd1 width height states in
        let noted = (toplevel_configure_lem s d1 w wd1 width height states).2 in
        let kept = toplevel_configure-kept s d1 w wd1 width height states in
        let asked = ltb_ℤ (pos 0) width && ltb_ℤ (pos 0) height in
        let x = xsurface_configure memory r.0.0 r.1 wd2 in
        let c = xsurface_configure_lem memory r.0.0 r.1 wd2 m n in
        (
          refl,
          refl,
          wd2,
          noted,
          refl,
          (
            c.4 ∙ ap (λ (b : Bool). not b && not wd.gl_active) kept.2,
            c.3,
            subst (λ (v : ℤ). eqb_ℤ x.1.w (if asked then width else v) ≡ true) kept.0 c.0,
            subst (λ (v : ℤ). eqb_ℤ x.1.h (if asked then height else v) ≡ true) kept.1 c.1,
          ),
        ))
