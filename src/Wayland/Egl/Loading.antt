-- ===== src/Wayland/Egl/Loading.antt =====
-- src/video/wayland/sdlop_wayland_gl.c: loading libwayland-egl.
use sdlop.Base.{◌≡◌, false, ◌&&◌, arith}
use sdlop.State.{Sdl}
use sdlop.Wayland.Egl.{Egl, EglLib, load_wayland_egl}

-- The first call with none of the functions succeeds exactly when the library can be opened and has all
-- three. A defect: a second call succeeds as soon as the library has the first of them.
pub load_wayland_egl_twice :
    {F : Type 0} (lib : EglLib) (s t : Sdl F) (e : Egl)
    → e.window_create ≡ false
    → let (s', e', first) = load_wayland_egl lib s e in
      let (t', e2, second) = load_wayland_egl lib t e' in
      (first ≡ (lib.wayland_egl && (lib.has_create && lib.has_destroy && lib.has_resize)))
      × (second ≡ (lib.wayland_egl && lib.has_create))
unfolding load_wayland_egl
load_wayland_egl_twice lib s t e fresh = ground (arith, fresh)
