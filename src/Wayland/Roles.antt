-- ===== src/Wayland/Roles.antt =====
-- src/video/wayland/sdlop_wayland.c: the role objects of a window, which hiding destroys and showing makes
-- again. What the compositor's library answers is an argument.
pub mod Again
use sdlop.Base.{ℕ, Bool, true, false, not, Option, none, some, if◌then◌else◌}
use sdlop.Base.Int.{pos}
use sdlop.State.{Sdl, set_error}
use sdlop.Wayland.{WindowData}
use sdlop.Wayland.Toplevel.{window_commit}

-- What the calls for the objects of a window answer: whether there are memory, a surface, an xdg surface and
-- a toplevel.
pub record Objects : Type 0 where
  pub memory : Bool
  pub surface : Option ℕ
  pub xdg_surface : Bool
  pub toplevel : Bool

module _ {F : Type 0} where
  -- `wayland_create_role_objects`
  pub create_role_objects : Objects → Sdl F → WindowData → Sdl F × WindowData × Bool
  unfolding set_error
  create_role_objects o s wd =
      if not o.xdg_surface
      then (set_error s "xdg_wm_base_get_xdg_surface failed", wd, false)
      else if not o.toplevel
      then (set_error s "xdg_surface_get_toplevel failed", wd, false)
      else (s, record wd { toplevel = true }, true)

  -- `wayland_ShowWindow` on a window with driver data
  pub show_window : Objects → Sdl F → WindowData → Sdl F × WindowData
  unfolding create_role_objects window_commit
  show_window o s wd =
      if not wd.toplevel
      then (let (s', wd', done) = create_role_objects o s wd in (s', wd'))
      else (s, window_commit wd)

  -- `wayland_CreateWindow`: the driver data of the new window
  pub create_window : Objects → Sdl F → Sdl F × Option WindowData × Bool
  unfolding create_role_objects set_error
  create_window o s =
      if not o.memory then (set_error s "Out of memory", none, false) else elim o.surface [
        | none ↦ (set_error s "wl_compositor_create_surface failed", none, false)
        | some surface ↦
            let wd : WindowData = record {
              surface = surface;
              toplevel = false;
              buffer = false;
              buffer_w = pos 0;
              buffer_h = pos 0;
              configured = false;
              mapped = false;
              output = none;
              pending_w = pos 0;
              pending_h = pos 0;
              gl_active = false;
            } in
            let (s', wd', done) = create_role_objects o s wd in
            if done then (s', some wd', true) else (s', none, false)
      ]
