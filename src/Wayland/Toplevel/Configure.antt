-- ===== src/Wayland/Toplevel/Configure.antt =====
-- src/video/wayland/sdlop_wayland.c: the size and the buffer of a window after the compositor configures it.
use sdlop.Base.{ℕ, ◌≡◌, true, not, ◌&&◌, ◌||◌, if◌then◌else◌, arith}
use sdlop.Base.Int.{ℤ, pos, ltb_ℤ, eqb_ℤ}
use sdlop.Base.Bits.{has}
use sdlop.State.{Sdl, Window}
use sdlop.Windows.{window_hidden_flag}
use sdlop.Wayland.{WindowData}
use sdlop.Wayland.Toplevel.{
  Memory, granted, create_buffer, resize, window_commit, xsurface_configure,
}

-- The size of a side after a configure: the one that the compositor asked for, where it asked for one
abbrev pub side : WindowData → ℤ → ℤ → ℤ
side wd asked old = if ltb_ℤ (pos 0) wd.pending_w && ltb_ℤ (pos 0) wd.pending_h then asked else old

module _ {F : Type 0} where
  -- Where the system gives memory, a window has after `xsurface_configure` the size that the compositor
  -- asked for, or its old one where it asked for none; it is configured, has a buffer, and is mapped
  -- unless it is hidden or shows GL, where it is mapped if it was.
  pub xsurface_configure_lem :
      (memory : ℕ → Memory) (s : Sdl F) (w : Window F) (wd : WindowData)
      → memory 0 ≡ granted
      → memory 1 ≡ granted
      → let (s', w', wd') = xsurface_configure memory s w wd in
        (eqb_ℤ w'.w (side wd wd.pending_w w.w) ≡ true)
        × (eqb_ℤ w'.h (side wd wd.pending_h w.h) ≡ true)
        × (wd'.configured ≡ true)
        × (wd'.buffer ≡ true)
        × (wd'.mapped ≡ (wd.mapped || (not (has w.flags window_hidden_flag) && not wd.gl_active)))
  unfolding xsurface_configure resize create_buffer window_commit
  xsurface_configure_lem memory s w wd a b = ground (arith, a, b)
