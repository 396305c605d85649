-- ===== src/Mouse/Buttons.antt =====
-- `SDLOP_SendMouseButton` of src/SDL_mouse.c: the state of the buttons.
use sdlop.Base.{
  leb, ◌&&◌, ◌==◌, Bool-cases, inl, inr, ℕ, ◌-◌, ◌^◌, ◌≤◌, ◌<◌, ◌≡◌, ◌≢◌, Bool, true, false,
  if◌then◌else◌, arith,
}
use native.Mathlib.Nat.{pow-le-pow_right}
use sdlop.Base.Bits.{bit, bit-le-one, bit-bit_or, bit-clear, bit-pow_self, bit-pow_ne}
use sdlop.State.{Sdl}
use sdlop.Events.{push_event_internal}
use sdlop.Float.{Float}
use sdlop.Mouse.{send_mouse_button, set_button, button_mask, event_time}

set_button_self :
    (fl : Float) (down : Bool) (button buttons : ℕ)
    → button_mask fl button < 2 ^ 32
    → button - 1 < 32
    → bit (set_button fl down button buttons) (button - 1) ≡ (if down then 1 else 0)
set_button_self fl true button buttons m h =
    rw (bit-bit_or, bit-pow_self (button - 1)) (omega (arith, bit-le-one buttons (button - 1)))
set_button_self fl false button buttons m h =
    rw (bit-clear 32 buttons (button_mask fl button) (button - 1) m h, bit-pow_self (button - 1))
      (omega arith)

set_button_other :
    (fl : Float) (down : Bool) (button buttons i : ℕ)
    → button_mask fl button < 2 ^ 32
    → i < 32
    → i ≢ button - 1
    → bit (set_button fl down button buttons) i ≡ bit buttons i
set_button_other fl true button buttons i m h d =
    rw (bit-bit_or, bit-pow_ne (button - 1) i d) (omega arith)
set_button_other fl false button buttons i m h d =
    rw (bit-clear 32 buttons (button_mask fl button) i m h, bit-pow_ne (button - 1) i d)
      (omega (arith, bit-le-one buttons i))

module _ (fl : Float) where
  open fl use {Carrier}

  buttons_after :
      (s : Sdl Carrier) (down : Bool) (button : ℕ) (x y : Carrier) (t : ℕ)
      → 1 ≤ button
      → button ≤ 31
      → (send_mouse_button fl s down button x y t).mouse.buttons
        ≡ set_button fl down button s.mouse.buttons
  unfolding send_mouse_button event_time push_event_internal
  buttons_after s down button x y t a b = ground arith

  -- `SDLOP_SendMouseButton` for a button from 1 to 31 leaves the digit of the button set exactly when
  -- it goes down, and the digits of the other buttons as they were. Any other number changes none.
  pub send_mouse_button_lem :
      (s : Sdl Carrier) (down : Bool) (button i : ℕ) (x y : Carrier) (t : ℕ)
      → i < 32
      → let s' = send_mouse_button fl s down button x y t in
        bit s'.mouse.buttons i ≡ (
          if leb 1 button && leb button 31 && i == button - 1
          then (if down then 1 else 0)
          else bit s.mouse.buttons i)
  send_mouse_button_lem s down button i x y t h =
      elim (Bool-cases (leb 1 button && leb button 31)) [
        | inl e ↦
            let small = mask_small button (ground arith) in
            ground (
              arith,
              e,
              buttons_after s down button x y t,
              set_button_self fl down button s.mouse.buttons small,
              set_button_other fl down button s.mouse.buttons i small h,
            )
        | inr e ↦ unfold send_mouse_button in ground (arith, e)
      ]
    where
      mask_small : (button : ℕ) → button ≤ 31 → button_mask fl button < 2 ^ 32
      mask_small button b =
          omega
            (arith, pow-le-pow_right {n = 2} (omega arith) {i = button - 1} {j = 30} (omega arith))
