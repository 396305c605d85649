-- ===== src/Web/Input.antt =====
-- src/video/emscripten/sdlop_emscripten.c: the input callbacks.
pub mod Modifiers
pub mod Locks
pub mod Motion
use sdlop.Base.{
  ℕ, ◌+◌, bit_or, Bool, true, false, not, ◌&&◌, ◌||◌, Option, none, some, List, [], ◌∷◌, ltb,
  length, ◌++◌, ◌==◌, if◌then◌else◌,
}
use sdlop.Base.Int.{ℤ, pos}
use sdlop.Base.Bits.{clear}
use sdlop.Event.{mouse_enter, mouse_leave, focus_gained, focus_lost}
use sdlop.State.{Sdl, Window, window_at}
use sdlop.Events.{mono_ns, send_window_event}
use sdlop.Float.{Float}
use sdlop.Mouse.{send_mouse_motion, send_mouse_button, send_mouse_wheel, zero_f, deref}
use sdlop.WebKeyboard.{send_keyboard_key}
use sdlop.Web.{
  Selector, WebData, Page, same_selector, canvas, extra, scancode_from_code, sdl_button_from_dom,
  window_from_selector, first_window,
}

-- `EmscriptenKeyboardEvent`; `right` is `location == DOM_KEY_LOCATION_RIGHT`.
pub record DomKey : Type 0 where
  pub code : List ℕ
  pub key_code : ℕ
  pub shift : Bool
  pub ctrl : Bool
  pub alt : Bool
  pub meta : Bool
  pub right : Bool
  pub repeat : Bool

-- `if (flag) mod |= bit;`
abbrev pub add_if : Bool → ℕ → ℕ → ℕ
add_if b bit m = if b then bit_or m bit else m

-- The modifiers that `key_cb` makes of an event
unfoldable pub dom_modifiers : DomKey → ℕ
dom_modifiers e =
    let left =
      add_if e.meta 0x400 (add_if e.alt 0x100 (add_if e.ctrl 0x40 (add_if e.shift 0x1 0))) in
    if e.right
    then add_if e.meta 0x800
        (add_if e.alt 0x200 (add_if e.ctrl 0x80 (add_if e.shift 0x2 (clear 16 left 0x541))))
    else left

-- `EmscriptenMouseEvent`
pub record DomMouse : Type 0 where
  pub target_x : ℤ
  pub target_y : ℤ
  pub movement_x : ℤ
  pub movement_y : ℤ
  pub button : ℕ

-- `deltaMode` of `EmscriptenWheelEvent`
pub data DeltaMode : Type 0 where
  pixels : DeltaMode
  lines : DeltaMode
  pages : DeltaMode

-- The id of a `EmscriptenPointerlockChangeEvent`: empty, or that of a canvas, or of something else.
pub data LockId : Type 0 where
  no_id : LockId
  of_canvas : Selector → LockId
  foreign : LockId

-- Whether the id stands for a selector
abbrev pub names_selector : LockId → Selector → Bool
names_selector no_id selector = true
names_selector (of_canvas s) selector = same_selector s selector
names_selector foreign selector = false

module _ {F : Type 0} where
  -- `key_cb`: the state, and whether the event is taken
  pub key_cb : Sdl F → Bool → DomKey → Sdl F × Bool
  unfolding scancode_from_code dom_modifiers mono_ns
  key_cb s down e =
      let sc = scancode_from_code e.code in
      if sc == 0 && e.key_code == 229
      then (s, false)
      else (let (s1, t) = mono_ns (record s { modstate = dom_modifiers e }) in
          (send_keyboard_key s1 down e.repeat sc 0 t, true))

  -- A window of the loop of `pointerlock_cb`
  pub lock_window : Bool → LockId → Sdl F × Page → Window F → Sdl F × Page
  unfolding send_window_event
  lock_window is_active id (s, p) w = elim (p.driverdata w.addr) [
    | none ↦ (s, p)
    | some d ↦
        let active = is_active && names_selector id d.selector in
        if (if active then d.pointer_locked else not d.pointer_locked) then (s, p) else (
          send_window_event s (some w) (if active then mouse_enter else mouse_leave) (pos 0)
              (pos 0),
          record p {
            driverdata = λ a.
                if a == w.addr then some (record d { pointer_locked = active }) else p.driverdata a;
          },
        )
  ]

  pub lock_from : Bool → LockId → List (Window F) → Sdl F × Page → Sdl F × Page
  unfolding lock_window
  lock_from is_active id [] world = world
  lock_from is_active id (w ∷ ws) world =
      lock_from is_active id ws (lock_window is_active id world w)

  -- `pointerlock_cb`
  pub pointerlock_cb : Sdl F × Page → Bool → LockId → Sdl F × Page
  unfolding lock_from
  pointerlock_cb (s, p) is_active id = lock_from is_active id s.windows (s, p)

  -- `focus_cb`
  pub focus_cb : Sdl F → Bool → Sdl F
  unfolding send_window_event
  focus_cb s focused =
      let w : Option (Window F) = elim s.keyboard_focus [
        | none ↦ first_window s.windows
        | some a ↦ window_at a s.windows
      ] in
      elim w [
        | none ↦ s
        | some v ↦
            send_window_event s (some v) (if focused then focus_gained else focus_lost) (pos 0)
              (pos 0)
      ]

module _ (fl : Float) where
  open fl use {Carrier, of_int}

  -- `mouse_move_cb`, with the selector that is its user data
  pub mouse_move_cb : Sdl Carrier → Page → Selector → DomMouse → Sdl Carrier × Bool
  unfolding mono_ns window_from_selector
  mouse_move_cb s p selector e = elim (window_from_selector p s selector) [
    | none ↦ (s, false)
    | some w ↦
        let (s1, now) = mono_ns s in
        let locked : Bool = elim (p.driverdata w.addr) [
          | none ↦ false
          | some d ↦ d.pointer_locked
        ] in
        if locked
        then (
          send_mouse_motion fl s1 (zero_f fl) (zero_f fl) (of_int e.movement_x)
              (of_int e.movement_y) now,
          true,
        )
        else (
          send_mouse_motion fl s1 (of_int e.target_x) (of_int e.target_y) (zero_f fl) (zero_f fl)
              now,
          true,
        )
  ]

  -- `mouse_button_cb`
  pub mouse_button_cb : Sdl Carrier → Page → Selector → Bool → DomMouse → Sdl Carrier
  unfolding sdl_button_from_dom mono_ns window_from_selector
  mouse_button_cb s p selector down e =
      let s1 : Sdl Carrier = elim (window_from_selector p s selector) [
        | none ↦ s
        | some w ↦ record s {
          mouse = record s.mouse { x = of_int e.target_x; y = of_int e.target_y };
        }
      ] in
      let (s2, t) = mono_ns s1 in
      send_mouse_button fl s2 down (sdl_button_from_dom e.button) (of_int e.target_x)
        (of_int e.target_y) t

  -- `wheel_cb`. The deltas are numbers in C's `double`: `by_line` and `by_page` multiply one, `minus`
  -- makes C's `float` of its opposite.
  module _ {D : Type 0} (by_line by_page : D → D) (minus : D → Carrier) where
    pub wheel_cb : Sdl Carrier → DeltaMode → D → D → Sdl Carrier
    unfolding mono_ns
    wheel_cb s mode dx dy =
        let scaled : D → D =
          λ d. elim mode [ pixels ↦ d | lines ↦ by_line d | pages ↦ by_page d ] in
        let (s1, t) = mono_ns s in send_mouse_wheel fl s1 (minus (scaled dx)) (minus (scaled dy)) t
