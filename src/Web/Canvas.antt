-- ===== src/Web/Canvas.antt =====
-- src/video/emscripten/sdlop_emscripten.c: the canvases of the windows. Windows and their surfaces are
-- those of src/SDL_video.c and src/SDL_surface.c, which call these operations.
pub mod Selection
pub mod Reached
use sdlop.Base.{
  ◌*◌, ℕ, ◌+◌, bit_or, Bool, true, false, not, ◌&&◌, ◌||◌, Option, none, some, List, [], ◌∷◌,
  length, ltb, ◌++◌, ◌==◌, if◌then◌else◌,
}
use sdlop.Base.Int.{ℤ, pos, pos_part}
use sdlop.Base.Bits.{clear, has}
use sdlop.Dummy.{window_resized, pixel_size_changed}
use sdlop.Surface.{Surface, Memory}
use sdlop.State.{Sdl, Window, set_error, put_window}
use sdlop.Events.{send_window_event}
use sdlop.Web.{Selector, WebData, Page, canvas, extra}

-- `SDLOP_MAX_WINDOWS`
abbrev pub max_windows : ℕ
max_windows = 32

-- `EMSCRIPTEN_RESULT` as far as the driver tells its values apart; a failure holds its number.
pub data Result : Type 0 where
  success : Result
  deferred : Result
  failed : ℤ → Result

-- A request that the browser grants, at once or later
abbrev pub granted : Result → Bool
granted success = true
granted deferred = true
granted (failed n) = false

-- The entry of the array `selectors` at `[0]`
abbrev pub slot_zero : List Selector → Selector → Selector
slot_zero [] selector = selector
slot_zero (s ∷ rest) selector = s

-- `register_input_callbacks`: the canvas whose mouse callbacks it sets is given back, with the
-- selector that they are handed.
pub register_input_callbacks : Page → Selector → Page × Selector
register_input_callbacks p selector =
    let q = record p { input_callbacks_registered = true } in
    if ltb (length q.selectors) max_windows
    then (record q { selectors = q.selectors ++ (selector ∷ []) }, selector)
    else (q, slot_zero q.selectors selector)

-- The loop of `emscripten_CreateWindow`: whether no window but the one at `a` is on the list
pub is_first : {F : Type 0} → ℕ → List (Window F) → Bool
is_first a [] = true
is_first a (w ∷ ws) = w.addr == a && is_first a ws

-- The data at an address replaced
abbrev pub set_data : Page → ℕ → Option WebData → Page
set_data p a d = record p { driverdata = λ b. if b == a then d else p.driverdata b }

-- What `calloc` gives, with the two fields that `emscripten_CreateWindow` sets
abbrev pub fresh : Selector → Bool → WebData
fresh selector owned = record {
  selector = selector;
  owns_canvas = owned;
  webgl_context = pos 0;
  sw_context = pos 0;
  sw_gl_ready = false;
  pointer_locked = false;
}

-- The pointer cleared if it stands for the window at `a`
abbrev pub unless_at : ℕ → Option ℕ → Option ℕ
unless_at a none = none
unless_at a (some b) = if b == a then none else some b

-- The surface of a window after its new size, on the pixels that it got
abbrev pub resized : {F : Type 0} → Window F → Memory → Option Surface → Option Surface
resized w m none = none
resized w m (some v) =
    some
      (record v { pixels = some m; w = pos_part w.w; h = pos_part w.h; pitch = pos_part w.w * 4 })

module _ {F : Type 0} where
  -- `emscripten_Init`; `found` is whether the page has an element "#canvas".
  pub web_init : Sdl F → Bool → Sdl F × Bool
  unfolding set_error
  web_init s found =
      if found then (s, true) else (set_error s "Emscripten: no #canvas element", false)

  -- `emscripten_CreateWindow` when `calloc` succeeds: the page, and the canvas that gets callbacks
  pub create_window : Sdl F → Page → Window F → Page × Selector
  unfolding is_first register_input_callbacks
  create_window s p w =
      if is_first w.addr s.windows
      then register_input_callbacks (set_data p w.addr (some (fresh canvas false))) canvas
      else (let selector = extra p.next_canvas_id in
          let q = record p { next_canvas_id = p.next_canvas_id + 1 } in
          register_input_callbacks (set_data q w.addr (some (fresh selector true))) selector)

  -- `emscripten_DestroyWindow`; what the browser frees is left out.
  pub destroy_window : Page → Window F → Page
  destroy_window p w = elim (p.driverdata w.addr) [ none ↦ p | some d ↦ set_data p w.addr none ]

  -- `emscripten_ShowWindow`
  pub show_window : Sdl F → Window F → Sdl F
  show_window s w = record s {
    keyboard_focus = some w.addr;
    mouse_focus = some w.addr;
    windows = put_window (record w { flags = bit_or w.flags 0x600 }) s.windows;
  }

  -- `emscripten_HideWindow`
  pub hide_window : Sdl F → Window F → Sdl F
  hide_window s w = record s {
    keyboard_focus = unless_at w.addr s.keyboard_focus;
    mouse_focus = unless_at w.addr s.mouse_focus;
    windows = put_window (record w { flags = clear 32 w.flags 0x600 }) s.windows;
  }

  -- `emscripten_SetWindowFullscreen`; `r` is the browser's answer to a request.
  pub set_window_fullscreen : Sdl F → Page → Window F → Result → Sdl F × Bool
  unfolding set_error
  set_window_fullscreen s p w r = elim (p.driverdata w.addr) [
    | none ↦ (set_error s "No window data", false)
    | some d ↦
        if not (has w.flags 0x1)
        then (s, true)
        else if granted r
        then (s, true)
        else (set_error s "Fullscreen request failed (%d) - needs a user gesture", false)
  ]

  -- `emscripten_SetWindowRelativeMouseMode`; a deferred end of the lock counts as a failure.
  pub set_window_relative_mouse_mode : Sdl F → Page → Window F → Bool → Result → Sdl F × Bool
  unfolding set_error
  set_window_relative_mouse_mode s p w enabled r = elim (p.driverdata w.addr) [
    | none ↦ (set_error s "No window data", false)
    | some d ↦
        if enabled
        then (if granted r
            then (s, true)
            else (set_error s "Pointer lock refused (%d) - needs a user gesture", false))
        else (elim r [
          | success ↦ (s, true)
          | deferred ↦ (set_error s "Pointer unlock failed (%d)", false)
          | failed n ↦ (set_error s "Pointer unlock failed (%d)", false)
        ])
  ]

  -- `emscripten_SetWindowSize`; the surfaces are a store by address, and `memory` is what `realloc`
  -- gives for the pixels of the surface of the window.
  pub set_window_size :
      Sdl F → (ℕ → Option Surface) → Window F → Option Memory → Sdl F × (ℕ → Option Surface) × Bool
  unfolding set_error send_window_event
  set_window_size s surfaces w memory =
      let sent =
        send_window_event (send_window_event s (some w) window_resized w.w w.h) (some w)
          pixel_size_changed w.w w.h in
      elim w.surface [
        | none ↦ (sent, surfaces, true)
        | some a ↦ elim memory [
          | none ↦ (set_error s "Out of memory", surfaces, false)
          | some m ↦ (sent, λ b. if b == a then resized w m (surfaces a) else surfaces b, true)
        ]
      ]
