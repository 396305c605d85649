-- ===== src/Event.antt =====
-- include/SDL3/SDL_events.h: `SDL_Event` and the event types that the code names.
use sdlop.Base.{ℕ, Bool, List}
use sdlop.Base.Int.{ℤ}

-- What `event.text.text` points at: nothing, memory outside the queue that holds these bytes, or the
-- `textbuf` of a queue slot.
pub data TextRef : Type 0 where
  null : TextRef
  external : List ℕ → TextRef
  slot_text : ℕ → TextRef

-- The members of the union beyond the common fields; `F` is the type of C's `float`. `which` is
-- always 0 and is left out.
pub data Payload (F : Type 0) : Type 0 where
  -- quit, keymap and other events with the common fields only
  common : Payload F
  -- data1, data2
  window : ℤ → ℤ → Payload F
  -- scancode, key, mod, raw, down, repeat
  key : ℕ → ℕ → ℕ → ℕ → Bool → Bool → Payload F
  text : TextRef → Payload F
  -- code, data1, data2
  user : ℤ → ℕ → ℕ → Payload F
  -- state, x, y, xrel, yrel
  motion : ℕ → F → F → F → F → Payload F
  -- button, down, clicks, x, y
  button : ℕ → Bool → ℕ → F → F → Payload F
  -- x, y, mouse_x, mouse_y
  wheel : F → F → F → F → Payload F
  -- touchID, fingerID, x, y, dx, dy, pressure, windowID
  tfinger : ℕ → ℕ → F → F → F → F → F → ℕ → Payload F

-- `window_id` is the word at the offset that `event->window.windowID` reads, which
-- `SDL_GetWindowFromEvent` relies on.
pub record Event (F : Type 0) : Type 0 where
  pub type : ℕ
  pub timestamp : ℕ
  pub window_id : ℕ
  pub payload : Payload F

-- `event->text.text`
abbrev pub text_of : {F : Type 0} → Payload F → TextRef
text_of (Payload.text r) = r
text_of _ = null

abbrev pub event_quit : ℕ
event_quit = 0x100

abbrev pub window_shown : ℕ
window_shown = 0x202

abbrev pub window_hidden : ℕ
window_hidden = 0x203

abbrev pub window_exposed : ℕ
window_exposed = 0x204

abbrev pub window_destroyed : ℕ
window_destroyed = 0x219

abbrev pub window_last : ℕ
window_last = 0x21a

abbrev pub key_down : ℕ
key_down = 0x300

abbrev pub key_up : ℕ
key_up = 0x301

abbrev pub text_editing : ℕ
text_editing = 0x302

abbrev pub text_input : ℕ
text_input = 0x303

abbrev pub keymap_changed : ℕ
keymap_changed = 0x304

abbrev pub mouse_motion : ℕ
mouse_motion = 0x400

abbrev pub mouse_button_down : ℕ
mouse_button_down = 0x401

abbrev pub mouse_button_up : ℕ
mouse_button_up = 0x402

abbrev pub mouse_wheel : ℕ
mouse_wheel = 0x403

abbrev pub event_user : ℕ
event_user = 0x8000

abbrev pub event_last : ℕ
event_last = 0xffff

abbrev pub mouse_enter : ℕ
mouse_enter = 0x20c

abbrev pub mouse_leave : ℕ
mouse_leave = 0x20d

abbrev pub focus_gained : ℕ
focus_gained = 0x20e

abbrev pub focus_lost : ℕ
focus_lost = 0x20f

abbrev pub close_requested : ℕ
close_requested = 0x210

abbrev pub display_scale_changed : ℕ
display_scale_changed = 0x214

abbrev pub safe_area_changed : ℕ
safe_area_changed = 0x215

abbrev pub finger_down : ℕ
finger_down = 0x700

abbrev pub finger_up : ℕ
finger_up = 0x701

abbrev pub finger_motion : ℕ
finger_motion = 0x702

abbrev pub finger_canceled : ℕ
finger_canceled = 0x703
