-- ===== src/Windows/Modes.antt =====
-- src/SDL_video.c and src/SDL_mouse.c: the window calls that a driver may refuse or that place a window.
pub mod Refusal
use sdlop.Base.{
  ℕ, bit_or, bit_and, Bool, true, false, not, ◌||◌, Option, none, some, ◌-◌, ◌%◌, ◌^◌, ◌==◌,
  if◌then◌else◌,
}
use mathlib.Core.Option
use sdlop.Base.Int.{ℤ, pos, negsuc}
use sdlop.Base.Bits.{has, clear}
use sdlop.State.{Sdl, Window, window_at}
use sdlop.Mouse.{window_mouse_relative_mode}
use sdlop.Windows.{Driver, with_window, ask, notify, store, window_fullscreen, forget}

abbrev pub set_flag : Bool → ℕ → ℕ → ℕ
set_flag on flag flags = if on then bit_or flags flag else clear 64 flags flag

-- `==` on bool
abbrev pub same : Bool → Bool → Bool
same true b = b
same false b = not b

-- An `int` as the unsigned value that `x & 0xFFFF0000` sees
abbrev pub to_u32 : ℤ → ℕ
to_u32 (pos n) = n % 2 ^ 32
to_u32 (negsuc n) = (2 ^ 32 - 1 - n % 2 ^ 32)

-- `SDL_WINDOWPOS_ISUNDEFINED(x) || SDL_WINDOWPOS_ISCENTERED(x)`
pub is_special : ℤ → Bool
is_special x = let high = bit_and (to_u32 x) 0xffff0000 in high == 0x1fff0000 || high == 0x2fff0000

module _ {F : Type 0} where
  pub put_flag : Sdl F → Option (Window F) → Bool → ℕ → Sdl F
  put_flag s none on flag = s
  put_flag s (some v) on flag = store s (record v { flags = set_flag on flag v.flags })

  pub restore : Sdl F → Option (Window F) → ℕ → Sdl F
  restore s none flags = s
  restore s (some v) flags = store s (record v { flags = flags })

module _ {F : Type 0} (d : Driver F) where
  pub drive : Bool → Option (Sdl F → ℕ → Sdl F × Bool)
  drive enabled = Option.map (λ f s a. f s a enabled) d.set_window_relative_mouse_mode

  -- `SDL_SetWindowFullscreen`: the flag goes back if the driver refuses.
  unfoldable pub set_window_fullscreen : Sdl F → Option ℕ → Bool → Sdl F × Bool
  unfolding put_flag
  set_window_fullscreen s p fullscreen = with_window s p λ w.
      if same fullscreen (has w.flags window_fullscreen)
      then (s, true)
      else (let w' = record w { flags = set_flag fullscreen window_fullscreen w.flags } in
          let (s', done) = ask d.set_window_fullscreen (store s w') w.addr in
          if done then (s', true) else (
            put_flag s' (window_at w.addr s'.windows) (not fullscreen) window_fullscreen,
            false,
          ))

  -- `SDLop_SetWindowClearColor`
  pub set_window_clear_color : Sdl F → Option ℕ → ℕ → ℕ → ℕ → Sdl F
  set_window_clear_color s none r g b = s
  set_window_clear_color s (some a) r g b = elim (window_at a s.windows) [
    | none ↦ s
    | some w ↦
        notify d.set_window_clear_color
          (store s (record w { clear_r = r; clear_g = g; clear_b = b })) a
  ]

  -- `SDL_SetWindowPosition`: the compositor places a window at a special position.
  pub set_window_position : Sdl F → Option ℕ → ℤ → ℤ → Sdl F × Bool
  unfolding is_special
  set_window_position s p x y = with_window s p λ w.
      if is_special x || is_special y
      then (s, true)
      else ask d.set_window_position (store s (record w { x = x; y = y })) w.addr

  -- `SDL_SetWindowRelativeMouseMode`: a driver that refuses leaves the mode and the flags as before.
  pub set_window_relative_mouse_mode : Sdl F → Option ℕ → Bool → Sdl F × Bool
  unfolding restore drive
  set_window_relative_mouse_mode s p enabled = with_window s p λ w.
      let flags = set_flag enabled window_mouse_relative_mode w.flags in
      let mode = if enabled then some w.addr else forget s.relative_mode_window w.addr in
      let s1 = record (store s (record w { flags = flags })) { relative_mode_window = mode } in
      let (s2, done) = ask (drive enabled) s1 w.addr in
      if done then (s2, true) else (
        record (restore s2 (window_at w.addr s2.windows) w.flags) {
          relative_mode_window = s.relative_mode_window;
        },
        false,
      )
