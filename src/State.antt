-- ===== src/State.antt =====
-- src/internal/sdlop_internal.h: the windows and the global state `sdlop`, with the statics that the
-- functions on it share (the event queue, the timer and the error text). `F` is the type of C's
-- `float`; a `SDL_Window *` is the address of a window, and NULL is `none`.
pub mod Lists
use sdlop.Base.{ℕ, Bool, Option, none, some, List, [], ◌∷◌, String, ◌==◌}
use sdlop.Base.{if◌then◌else◌}
use sdlop.Base.Int.{ℤ}
use sdlop.Clock.{Clock}
use sdlop.Queue.{Queue}

-- `struct SDL_Window`. `surface` is the address of the window surface. `driverdata` belongs to the
-- driver and is left out; `next` is the order of the list of windows.
pub record Window (F : Type 0) : Type 0 where
  pub addr : ℕ
  pub id : ℕ
  pub title : String
  pub x : ℤ
  pub y : ℤ
  pub w : ℤ
  pub h : ℤ
  pub flags : ℕ
  pub text_input_active : Bool
  pub clear_r : ℕ
  pub clear_g : ℕ
  pub clear_b : ℕ
  pub display_scale : F
  pub surface : Option ℕ

-- `SDLop_Globals` from `mouse_x` on, as far as the mouse goes.
pub record Mouse (F : Type 0) : Type 0 where
  pub x : F
  pub y : F
  pub last_x : F
  pub last_y : F
  pub has_position : Bool
  pub xrel_acc : F
  pub yrel_acc : F
  pub buttons : ℕ

-- The key repeat emulation of `SDLop_Globals`.
pub record Repeat : Type 0 where
  pub scancode : ℕ
  pub rawcode : ℕ
  pub active : Bool
  pub next_ns : ℕ
  pub delay_ms : ℕ
  pub interval_ms : ℕ

-- `SDLop_Globals`. `video` says whether a driver is set, the xkb pointers are with the keyboard.
-- `error` is the text of the last `SDL_SetError` before its `%` directives are filled in.
pub record Sdl (F : Type 0) : Type 0 where
  pub queue : Queue F
  pub clock : Clock
  pub error : String
  pub init_done : Bool
  pub init_flags : ℕ
  pub init_monotonic_ns : ℕ
  pub video : Bool
  pub windows : List (Window F)
  pub num_windows : ℕ
  pub next_window_id : ℕ
  pub keystate : List Bool
  pub modstate : ℕ
  pub keyboard_focus : Option ℕ
  pub mouse_focus : Option ℕ
  pub relative_mode_window : Option ℕ
  pub mouse : Mouse F
  pub repeat : Repeat
  pub next_user_event : ℕ

-- The window at an address.
abbrev pub window_at : {F : Type 0} → ℕ → List (Window F) → Option (Window F)
window_at a [] = none
window_at a (w ∷ ws) = if w.addr == a then some w else window_at a ws

-- The list with the window at an address replaced.
abbrev pub put_window : {F : Type 0} → Window F → List (Window F) → List (Window F)
put_window v [] = []
put_window v (w ∷ ws) = if w.addr == v.addr then v ∷ ws else w ∷ put_window v ws

-- `src/SDL_error.c`: `SDL_SetError` returns false, and the program returns that on.
unfoldable pub set_error : {F : Type 0} → Sdl F → String → Sdl F
set_error s text = record s { error = text }

unfoldable pub clear_error : {F : Type 0} → Sdl F → Sdl F
clear_error s = record s { error = "" }
