-- ===== src/Windows.antt =====
-- src/SDL_video.c, the window list and the window calls, and the window call of src/SDL_mouse.c. The
-- driver is a parameter. A window argument is an address or NULL; at an address that no live window
-- has, C's behaviour is undefined, and here the call does nothing and returns false.
pub mod Calls
pub mod Modes
pub mod Focus
pub mod Drivers
pub mod Surfaces
use sdlop.Base.{
  ℕ, zero, suc, ◌+◌, ◌-◌, ◌%◌, ◌^◌, bit_or, bit_and, Bool, true, false, not, ◌&&◌, ◌||◌, Option,
  none, some, List, [], ◌∷◌, String, length, ltb, ◌==◌, if◌then◌else◌,
}
use sdlop.Base.Int.{ℤ, pos, negsuc, leb_ℤ, eqb_ℤ}
use sdlop.Base.Bits.{has, clear}
use sdlop.Event.{window_shown, window_hidden, window_destroyed}
use sdlop.State.{Sdl, Window, Mouse, window_at, put_window, set_error}
use sdlop.Events.{send_window_event, window_from_id}
use sdlop.Mouse.{window_mouse_relative_mode}

abbrev pub window_fullscreen : ℕ
window_fullscreen = 0x1

abbrev pub window_hidden_flag : ℕ
window_hidden_flag = 0x8

-- `SDLop_VideoDevice`, the window calls. Each may change the whole state, for it may send events. An
-- operation that a driver leaves out is `none`.
pub record Driver (F : Type 0) : Type 0 where
  pub name : String
  pub create_window : Sdl F → Window F → Sdl F × Window F × Bool
  pub destroy_window : Sdl F → ℕ → Sdl F
  pub show_window : Option (Sdl F → ℕ → Sdl F)
  pub hide_window : Option (Sdl F → ℕ → Sdl F)
  pub set_window_title : Option (Sdl F → ℕ → Sdl F × Bool)
  pub set_window_size : Option (Sdl F → ℕ → Sdl F × Bool)
  pub set_window_position : Option (Sdl F → ℕ → Sdl F × Bool)
  pub minimize_window : Option (Sdl F → ℕ → Sdl F)
  pub maximize_window : Option (Sdl F → ℕ → Sdl F)
  pub restore_window : Option (Sdl F → ℕ → Sdl F)
  pub set_window_fullscreen : Option (Sdl F → ℕ → Sdl F × Bool)
  pub raise_window : Option (Sdl F → ℕ → Sdl F)
  pub set_window_clear_color : Option (Sdl F → ℕ → Sdl F)
  pub set_window_relative_mouse_mode : Option (Sdl F → ℕ → Bool → Sdl F × Bool)

-- `if (p == window) p = NULL`
abbrev pub forget : Option ℕ → ℕ → Option ℕ
forget none a = none
forget (some b) a = if b == a then none else some b

abbrev pub is_at : Option ℕ → ℕ → Bool
is_at none a = false
is_at (some b) a = b == a

module _ {F : Type 0} where
  -- `SDLOP_AddWindow`
  pub add_window : Sdl F → Window F → Sdl F
  add_window s w = record s { windows = w ∷ s.windows; num_windows = s.num_windows + 1 }

  unfoldable pub unlink : ℕ → List (Window F) → List (Window F)
  unlink a [] = []
  unlink a (w ∷ ws) = if w.addr == a then ws else w ∷ unlink a ws

  linked : ℕ → List (Window F) → Bool
  linked a [] = false
  linked a (w ∷ ws) = if w.addr == a then true else linked a ws

  -- `SDLOP_RemoveWindow`
  pub remove_window : Sdl F → ℕ → Sdl F
  unfolding unlink linked
  remove_window s a = record s {
    windows = unlink a s.windows;
    num_windows = if linked a s.windows then s.num_windows - 1 else s.num_windows;
    keyboard_focus = forget s.keyboard_focus a;
    mouse_focus = forget s.mouse_focus a;
    mouse = if is_at s.mouse_focus a then record s.mouse { has_position = false } else s.mouse;
    relative_mode_window = forget s.relative_mode_window a;
  }

  -- A call on a window: the guards of the public functions.
  abbrev pub with_window : Sdl F → Option ℕ → (Window F → Sdl F × Bool) → Sdl F × Bool
  with_window s none k = (set_error s "Invalid window", false)
  with_window s (some a) k = elim (window_at a s.windows) [ none ↦ (s, false) | some w ↦ k w ]

  -- `if (sdlop.video && sdlop.video->Op) sdlop.video->Op(sdlop.video, window)`
  abbrev pub notify : Option (Sdl F → ℕ → Sdl F) → Sdl F → ℕ → Sdl F
  notify op s a = if s.video then elim op [ none ↦ s | some f ↦ f s a ] else s

  -- The same where the result is returned on, true if there is nothing to call.
  abbrev pub ask : Option (Sdl F → ℕ → Sdl F × Bool) → Sdl F → ℕ → Sdl F × Bool
  ask op s a = if s.video then elim op [ none ↦ (s, true) | some f ↦ f s a ] else (s, true)

  abbrev pub store : Sdl F → Window F → Sdl F
  store s w = record s { windows = put_window w s.windows }

  -- `SDL_GetWindowID`, `SDL_GetWindowFlags` and `SDL_GetWindowTitle`
  pub window_id : Sdl F → Option ℕ → ℕ
  window_id s none = 0
  window_id s (some a) = elim (window_at a s.windows) [ none ↦ 0 | some w ↦ w.id ]

  unfoldable pub window_flags : Sdl F → Option ℕ → ℕ
  window_flags s none = 0
  window_flags s (some a) = elim (window_at a s.windows) [ none ↦ 0 | some w ↦ w.flags ]

  pub window_title : Sdl F → Option ℕ → String
  window_title s none = ""
  window_title s (some a) = elim (window_at a s.windows) [ none ↦ "" | some w ↦ w.title ]
