-- ===== src/Mouse/Bounds.antt =====
-- `constrain_mouse_pos` of src/SDL_mouse.c: the position stays inside the window.
use sdlop.Base.{◌^◌, true, false, ◌≡◌, arith}
use sdlop.Base.Int.{ℤ, pos, negsuc, ltb_ℤ, ◌+ℤ◌, ◌-ℤ◌, ◌≤ℤ◌}
use sdlop.Float.{Float, IsOrdered}
use sdlop.Mouse.{constrain_axis, zero_f}

-- The edge pixel of a window.
pub edge_next : (size : ℤ) → size -ℤ pos 1 +ℤ pos 1 ≡ size
unfolding ◌+ℤ◌ ◌-ℤ◌
edge_next (pos n) = ground arith
edge_next (negsuc n) = ground arith

edge_below : (size : ℤ) → ltb_ℤ (size -ℤ pos 1) size ≡ true
unfolding ◌-ℤ◌
edge_below (pos n) = ground arith
edge_below (negsuc n) = ground arith

edge_pos : (size : ℤ) → ltb_ℤ (pos 0) size ≡ true → pos 0 ≤ℤ (size -ℤ pos 1)
unfolding ◌-ℤ◌
edge_pos (pos n) h = ground (arith, h)
edge_pos (negsuc n) h = ground (arith, h)

module _ (fl : Float) (ord : IsOrdered fl) where
  open fl use {Carrier, of_int, lt, le}

  -- For a window of positive size up to 2^24, and a last position left of its right edge, the position that
  -- `constrain_mouse_pos` gives on an axis is at least 0 and below the size, whatever the motion was.
  pub constrain_axis_inside :
      (x : Carrier) (size : ℤ) (last : Carrier)
      → ltb_ℤ (pos 0) size ≡ true
      → size ≤ℤ pos (2 ^ 24)
      → le (of_int size) last ≡ false
      → let r = constrain_axis fl x size last in
        (lt r (zero_f fl) ≡ false) × (le (of_int size) r ≡ false)
  unfolding constrain_axis
  constrain_axis_inside x size last h small l = rw (edge_next size) (
      ground (
        arith,
        ord.lt_not-le (zero_f fl) (of_int size) (ord.positive size h),
        ord.lt_not-le (of_int (size -ℤ pos 1)) (of_int size)
            (ord.mono (size -ℤ pos 1) size (edge_pos size h) small (edge_below size)),
        ord.irrefl (zero_f fl),
      ))
