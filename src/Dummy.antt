-- ===== src/Dummy.antt =====
-- src/video/dummy/sdlop_dummy.c: the window calls of the offscreen driver. A resize is that of a window
-- without a surface; the framebuffer is in Windows/Surfaces.
pub mod Fullscreen
use sdlop.Base.{ℕ, bit_or, Bool, true, false, Option, none, some, List, if◌then◌else◌}
use sdlop.Base.Int.{ℤ, pos}
use sdlop.Base.Bits.{has, clear}
use sdlop.State.{Sdl, Window, window_at}
use sdlop.Events.{send_window_event}
use sdlop.Windows.{Driver, store, forget, window_fullscreen}

abbrev pub focus_flags : ℕ
focus_flags = 0x600

abbrev pub window_moved : ℕ
window_moved = 0x205

abbrev pub window_resized : ℕ
window_resized = 0x206

abbrev pub pixel_size_changed : ℕ
pixel_size_changed = 0x207

abbrev pub window_minimized : ℕ
window_minimized = 0x209

abbrev pub window_maximized : ℕ
window_maximized = 0x20a

abbrev pub window_restored : ℕ
window_restored = 0x20b

abbrev pub enter_fullscreen : ℕ
enter_fullscreen = 0x217

abbrev pub leave_fullscreen : ℕ
leave_fullscreen = 0x218

module _ {F : Type 0} where
  -- A call on the window at an address; without one it does nothing.
  abbrev pub on_window : Sdl F → ℕ → (Window F → Sdl F) → Sdl F
  on_window s a k = elim (window_at a s.windows) [ none ↦ s | some w ↦ k w ]

  abbrev pub send : Sdl F → Window F → ℕ → ℤ → ℤ → Sdl F
  send s w type x y = send_window_event s (some w) type x y

  -- `dummy_ShowWindow`, and `dummy_RaiseWindow`, which calls it
  pub show : Sdl F → ℕ → Sdl F
  show s a = on_window s a λ w. record (store s (record w { flags = bit_or w.flags focus_flags })) {
    keyboard_focus = some a;
    mouse_focus = some a;
  }

  -- `dummy_HideWindow`
  pub hide : Sdl F → ℕ → Sdl F
  hide s a = on_window s a λ w.
      record (store s (record w { flags = clear 64 w.flags focus_flags })) {
        keyboard_focus = forget s.keyboard_focus a;
        mouse_focus = forget s.mouse_focus a;
      }

  -- `dummy_SetWindowSize`
  pub set_size : Sdl F → ℕ → Sdl F × Bool
  set_size s a =
      (on_window s a λ w. send (send s w window_resized w.w w.h) w pixel_size_changed w.w w.h, true)

  -- `dummy_SetWindowPosition`
  pub set_position : Sdl F → ℕ → Sdl F × Bool
  set_position s a = (on_window s a λ w. send s w window_moved w.x w.y, true)

  -- `dummy_MinimizeWindow`, `dummy_MaximizeWindow` and `dummy_RestoreWindow`
  pub minimize : Sdl F → ℕ → Sdl F
  minimize s a = on_window s a λ w.
      let w' = record w { flags = bit_or w.flags 0x40 } in
      send (store s w') w' window_minimized (pos 0) (pos 0)

  pub maximize : Sdl F → ℕ → Sdl F
  maximize s a = on_window s a λ w.
      let w' = record w { flags = bit_or w.flags 0x80 } in
      send (store s w') w' window_maximized (pos 0) (pos 0)

  pub restore : Sdl F → ℕ → Sdl F
  restore s a = on_window s a λ w.
      let w' = record w { flags = clear 64 w.flags 0xc0 } in
      send (store s w') w' window_restored (pos 0) (pos 0)

  -- `dummy_SetWindowFullscreen`
  pub set_fullscreen : Sdl F → ℕ → Sdl F × Bool
  set_fullscreen s a = (
    on_window s a λ w.
        if has w.flags window_fullscreen
        then (let w' = record w { flags = clear 64 w.flags window_fullscreen } in
            send (store s w') w' leave_fullscreen (pos 0) (pos 0))
        else (let w' = record w { flags = bit_or w.flags window_fullscreen } in
            send (store s w') w' enter_fullscreen (pos 0) (pos 0)),
    true,
  )

  -- The window calls of `SDLop_dummy_device`
  unfoldable pub dummy : Driver F
  unfolding show hide set_size set_position minimize maximize restore set_fullscreen
  dummy = record {
    name = "dummy";
    create_window = λ s w. (s, w, true);
    destroy_window = λ s a. s;
    show_window = some show;
    hide_window = some hide;
    set_window_title = some (λ s a. (s, true));
    set_window_size = some set_size;
    set_window_position = some set_position;
    minimize_window = some minimize;
    maximize_window = some maximize;
    restore_window = some restore;
    set_window_fullscreen = some set_fullscreen;
    raise_window = some show;
    set_window_clear_color = some (λ s a. s);
    set_window_relative_mouse_mode = some (λ s a on. (s, true));
  }
