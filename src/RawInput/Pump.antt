-- ===== src/RawInput/Pump.antt =====
-- src/internal/sdlop_evdev.c: raw events become SDL events on the main thread.
pub mod Drain
use sdlop.Base.{ℕ, zero, suc, Bool, not, ◌&&◌, ◌||◌, Option, none, some, leb, ◌==◌, if◌then◌else◌}
use sdlop.Base.Int.{pos, ◌-ℤ◌, eqb_ℤ}
use sdlop.State.{Sdl, Window}
use sdlop.Float.{Float}
use sdlop.Mouse.{deref, send_mouse_button, send_mouse_motion, send_mouse_wheel, zero_f}
use sdlop.Scancode.{evdev_to_scancode, evdev_key_max}
use sdlop.Keyboard.{Xkb, send_keyboard_key, process_repeats}
use sdlop.Ring
use sdlop.RawInput.{RawEvent, Raw, no_event, sdl_ring_size}

-- The statics of `pump_event` beside the state.
pub record Wheel (F : Type 0) : Type 0 where
  pub hi_res_x_acc : F
  pub hi_res_y_acc : F

-- `mouse_button_from_btn`: BTN_LEFT is 0x110, and the others follow.
pub mouse_button_from_btn : ℕ → ℕ
mouse_button_from_btn code =
    if code == 0x110
    then 1
    else if code == 0x111
    then 3
    else if code == 0x112
    then 2
    else if code == 0x113
    then 4
    else if code == 0x114
    then 5
    else 0

module _ (fl : Float) (xkb : Xkb) where
  open fl use {Carrier, of_int, add, lt, eq, no_pos, div_120}

  abbrev pub Main : Type 0
  Main = Sdl Carrier × Wheel Carrier

  -- `SDL_clamp(x, a, b)`
  abbrev pub clamp : Carrier → Carrier → Carrier → Carrier
  clamp x a b = if lt x a then a else if lt b x then b else x

  -- `ev->value != 0`
  abbrev pub is_down : RawEvent → Bool
  is_down e = not (eqb_ℤ e.value (pos 0))

  -- The case `SDLop_EV_KEY`
  pub pump_key : Sdl Carrier → RawEvent → Sdl Carrier
  unfolding mouse_button_from_btn
  pump_key s e =
      if leb 0x110 e.code && leb e.code 0x114
      then send_mouse_button fl s (is_down e) (mouse_button_from_btn e.code) no_pos no_pos
          e.timestamp_ns
      else if leb e.code evdev_key_max && not (evdev_to_scancode e.code == 0)
      then send_keyboard_key xkb s (is_down e) (eqb_ℤ e.value (pos 2)) (evdev_to_scancode e.code)
          e.code e.timestamp_ns
      else s

  -- `sdlop.mouse_focus ? sdlop.mouse_focus : sdlop.keyboard_focus`
  pub pointed : Sdl Carrier → Option (Window Carrier)
  pointed s = elim s.mouse_focus [
    | none ↦ deref s.keyboard_focus s.windows
    | some a ↦ deref (some a) s.windows
  ]

  -- The target of a relative motion: no window, a window in relative mode, or inside the window.
  target : Sdl Carrier → Option (Window Carrier) → Option ℕ → Carrier → Carrier → Carrier × Carrier
  target s none mode dx dy = (no_pos, no_pos)
  target s (some w) none dx dy = (
    clamp (add s.mouse.x dx) (zero_f fl) (of_int (w.w -ℤ pos 1)),
    clamp (add s.mouse.y dy) (zero_f fl) (of_int (w.h -ℤ pos 1)),
  )
  target s (some w) (some a) dx dy = (add s.mouse.x dx, add s.mouse.y dy)

  -- The cases `SDLop_REL_X` and `SDLop_REL_Y`
  pub pump_motion : Sdl Carrier → RawEvent → Sdl Carrier
  unfolding target pointed
  pump_motion s e =
      let dx = if e.code == 0 then of_int e.value else zero_f fl in
      let dy = if e.code == 1 then of_int e.value else zero_f fl in
      let (x, y) = target s (pointed s) s.relative_mode_window dx dy in
      send_mouse_motion fl s x y dx dy e.timestamp_ns

  -- The case `SDLop_EV_REL`: REL_X is 0, REL_Y 1, REL_HWHEEL 6, REL_WHEEL 8, REL_WHEEL_HI_RES 11 and
  -- REL_HWHEEL_HI_RES 12.
  pub pump_rel : Main → RawEvent → Main
  unfolding pump_motion
  pump_rel (s, wheel) e =
      if e.code == 0 || e.code == 1
      then (pump_motion s e, wheel)
      else if e.code == 8
      then (send_mouse_wheel fl s (zero_f fl) (of_int e.value) e.timestamp_ns, wheel)
      else if e.code == 6
      then (send_mouse_wheel fl s (of_int e.value) (zero_f fl) e.timestamp_ns, wheel)
      else if e.code == 11
      then (s, record wheel { hi_res_y_acc = add wheel.hi_res_y_acc (div_120 (of_int e.value)) })
      else if e.code == 12
      then (s, record wheel { hi_res_x_acc = add wheel.hi_res_x_acc (div_120 (of_int e.value)) })
      else (s, wheel)

  -- The case `SDLop_EV_SYN`: SYN_REPORT is 0.
  pub pump_syn : Main → RawEvent → Main
  pump_syn (s, wheel) e =
      if e.code == 0 && not (eq wheel.hi_res_x_acc (zero_f fl) && eq wheel.hi_res_y_acc (zero_f fl))
      then (
        send_mouse_wheel fl s wheel.hi_res_x_acc wheel.hi_res_y_acc e.timestamp_ns,
        record { hi_res_x_acc = zero_f fl; hi_res_y_acc = zero_f fl },
      )
      else (s, wheel)

  -- `pump_event`
  pub pump_event : Main → RawEvent → Main
  unfolding pump_key pump_rel pump_syn
  pump_event (s, wheel) e =
      if e.type == 1
      then (pump_key s e, wheel)
      else if e.type == 2
      then pump_rel (s, wheel) e
      else if e.type == 0
      then pump_syn (s, wheel) e
      else (s, wheel)

  -- The loop of `SDLOP_RawInputPump`, at most `n` events more; the count is of the events pumped.
  pub pump_from : ℕ → Raw → Main → Raw × Main × ℕ
  unfolding pump_event
  pump_from zero r m = (r, m, 0)
  pump_from (suc n) r m =
      let (ring, out) = Ring.pop no_event r.sdl_ring in
      elim out [
        | none ↦ (record r { sdl_ring = ring }, m, 0)
        | some e ↦
            let (r', m', k) = pump_from n (record r { sdl_ring = ring }) (pump_event m e) in
            (r', m', suc k)
      ]

  -- `SDLOP_RawInputPump`, with fuel for the key repeats
  pub pump : ℕ → Raw → Main → Option (Raw × Main)
  unfolding pump_from
  pump fuel r m =
      if not r.running
      then some (r, m)
      else (let (r', m', n) = pump_from sdl_ring_size r m in
          if n == 0
          then some (r', m')
          else elim (process_repeats xkb fuel m'.0) [ none ↦ none | some s ↦ some (r', (s, m'.1)) ])
