-- ===== src/Web.antt =====
-- src/video/emscripten/sdlop_emscripten.c: the keys of the browser, and the state of the web driver. What
-- the browser answers is an argument; what the driver draws is left out.
pub mod Input
pub mod Canvas
pub mod Gl
pub mod Colors
use sdlop.Base.{
  ℕ, ◌+◌, ◌%◌, Bool, true, false, Option, none, some, List, [], ◌∷◌, String, ◌==◌, if◌then◌else◌,
}
use sdlop.Base.Int.{ℤ}
use sdlop.Base.Text.{codes, same_name}
use sdlop.State.{Sdl, Window}

-- The text of a selector: "#canvas", or "#sdlop-canvas-n" for a number n.
pub data Selector : Type 0 where
  canvas : Selector
  extra : ℕ → Selector

-- `strcmp` of two selectors
abbrev pub same_selector : Selector → Selector → Bool
same_selector canvas canvas = true
same_selector (extra a) (extra b) = a == b
same_selector _ _ = false

-- `EmscriptenWindowData`. The shader and the texture are left out.
pub record WebData : Type 0 where
  pub selector : Selector
  pub owns_canvas : Bool
  pub webgl_context : ℤ
  pub sw_context : ℤ
  pub sw_gl_ready : Bool
  pub pointer_locked : Bool

-- The statics of the driver, with the driver data of the windows by address; `selectors` are the entries
-- in use of the array of `register_input_callbacks`.
pub record Page : Type 0 where
  pub driverdata : ℕ → Option WebData
  pub input_callbacks_registered : Bool
  pub selectors : List Selector
  pub swap_interval : ℤ
  pub next_canvas_id : ℕ

-- `code_table`
abbrev pub code_table : List (String × ℕ)
code_table =
    ("KeyA", 4)
    ∷ ("KeyB", 5)
    ∷ ("KeyC", 6)
    ∷ ("KeyD", 7)
    ∷ ("KeyE", 8)
    ∷ ("KeyF", 9)
    ∷ ("KeyG", 10)
    ∷ ("KeyH", 11)
    ∷ ("KeyI", 12)
    ∷ ("KeyJ", 13)
    ∷ ("KeyK", 14)
    ∷ ("KeyL", 15)
    ∷ ("KeyM", 16)
    ∷ ("KeyN", 17)
    ∷ ("KeyO", 18)
    ∷ ("KeyP", 19)
    ∷ ("KeyQ", 20)
    ∷ ("KeyR", 21)
    ∷ ("KeyS", 22)
    ∷ ("KeyT", 23)
    ∷ ("KeyU", 24)
    ∷ ("KeyV", 25)
    ∷ ("KeyW", 26)
    ∷ ("KeyX", 27)
    ∷ ("KeyY", 28)
    ∷ ("KeyZ", 29)
    ∷ ("Digit0", 39)
    ∷ ("Digit1", 30)
    ∷ ("Digit2", 31)
    ∷ ("Digit3", 32)
    ∷ ("Digit4", 33)
    ∷ ("Digit5", 34)
    ∷ ("Digit6", 35)
    ∷ ("Digit7", 36)
    ∷ ("Digit8", 37)
    ∷ ("Digit9", 38)
    ∷ ("F1", 58)
    ∷ ("F2", 59)
    ∷ ("F3", 60)
    ∷ ("F4", 61)
    ∷ ("F5", 62)
    ∷ ("F6", 63)
    ∷ ("F7", 64)
    ∷ ("F8", 65)
    ∷ ("F9", 66)
    ∷ ("F10", 67)
    ∷ ("F11", 68)
    ∷ ("F12", 69)
    ∷ ("Numpad0", 98)
    ∷ ("Numpad1", 89)
    ∷ ("Numpad2", 90)
    ∷ ("Numpad3", 91)
    ∷ ("Numpad4", 92)
    ∷ ("Numpad5", 93)
    ∷ ("Numpad6", 94)
    ∷ ("Numpad7", 95)
    ∷ ("Numpad8", 96)
    ∷ ("Numpad9", 97)
    ∷ ("NumpadAdd", 87)
    ∷ ("NumpadSubtract", 86)
    ∷ ("NumpadMultiply", 85)
    ∷ ("NumpadDivide", 84)
    ∷ ("NumpadDecimal", 99)
    ∷ ("NumpadEnter", 88)
    ∷ ("NumpadEqual", 103)
    ∷ ("Enter", 40)
    ∷ ("Space", 44)
    ∷ ("Tab", 43)
    ∷ ("Backspace", 42)
    ∷ ("Escape", 41)
    ∷ ("CapsLock", 57)
    ∷ ("NumLock", 83)
    ∷ ("ScrollLock", 71)
    ∷ ("ShiftLeft", 225)
    ∷ ("ShiftRight", 229)
    ∷ ("ControlLeft", 224)
    ∷ ("ControlRight", 228)
    ∷ ("AltLeft", 226)
    ∷ ("AltRight", 230)
    ∷ ("MetaLeft", 227)
    ∷ ("MetaRight", 231)
    ∷ ("ArrowUp", 82)
    ∷ ("ArrowDown", 81)
    ∷ ("ArrowLeft", 80)
    ∷ ("ArrowRight", 79)
    ∷ ("Home", 74)
    ∷ ("End", 77)
    ∷ ("PageUp", 75)
    ∷ ("PageDown", 78)
    ∷ ("Insert", 73)
    ∷ ("Delete", 76)
    ∷ ("Minus", 45)
    ∷ ("Equal", 46)
    ∷ ("BracketLeft", 47)
    ∷ ("BracketRight", 48)
    ∷ ("Backslash", 49)
    ∷ ("Semicolon", 51)
    ∷ ("Quote", 52)
    ∷ ("Backquote", 53)
    ∷ ("Comma", 54)
    ∷ ("Period", 55)
    ∷ ("Slash", 56)
    ∷ ("PrintScreen", 70)
    ∷ ("Pause", 72)
    ∷ ("ContextMenu", 101)
    ∷ ("IntlBackslash", 100)
    ∷ []

-- The search of `scancode_from_code`
pub find_code : List (String × ℕ) → List ℕ → ℕ
find_code [] code = 0
find_code ((text, sc) ∷ rest) code = if same_name (codes text) code then sc else find_code rest code

-- `scancode_from_code`
unfoldable pub scancode_from_code : List ℕ → ℕ
unfolding find_code
scancode_from_code code = find_code code_table code

-- `sdl_button_from_dom`
pub sdl_button_from_dom : ℕ → ℕ
sdl_button_from_dom button =
    if button == 0
    then 1
    else if button == 1
    then 2
    else if button == 2
    then 3
    else if button == 3
    then 4
    else if button == 4
    then 5
    else (button + 1) % 256

abbrev pub selects : Option WebData → Selector → Bool
selects none selector = false
selects (some d) selector = same_selector d.selector selector

-- The loop of `window_from_selector`
unfoldable pub find_window : {F : Type 0} → Page → List (Window F) → Selector → Option (Window F)
find_window p [] selector = none
find_window p (w ∷ ws) selector =
    if selects (p.driverdata w.addr) selector then some w else find_window p ws selector

abbrev pub first_window : {F : Type 0} → List (Window F) → Option (Window F)
first_window [] = none
first_window (w ∷ ws) = some w

-- `window_from_selector`, which falls back on the first window
unfoldable pub window_from_selector : {F : Type 0} → Page → Sdl F → Selector → Option (Window F)
unfolding find_window
window_from_selector p s selector = elim (find_window p s.windows selector) [
  | some w ↦ some w
  | none ↦ first_window s.windows
]
