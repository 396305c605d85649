-- ===== src/Surface/Clip.antt =====
-- The clipping of `SDL_FillSurfaceRect` in src/SDL_surface.c.
use sdlop.Base.{
  ℕ, ◌+◌, ◌^◌, ◌<◌, ◌≤◌, ◌≡◌, ◌∙◌, ap, refl, Bool-cases, inl, inr, arith, if◌then◌else◌,
}
use sdlop.Base.Int.{ℤ, pos, negsuc, ◌+ℤ◌, ◌-ℤ◌, ltb_ℤ, int_laws, IsInt, wrap_int, wrap_int-IsInt}
use sdlop.Surface.{clip_axis}

zero_sum : (v : ℤ) → pos 0 +ℤ v ≡ v
unfolding ◌+ℤ◌
zero_sum (pos n) = ground arith
zero_sum (negsuc n) = ground arith

sum_comm : (v w : ℤ) → v +ℤ w ≡ w +ℤ v
unfolding ◌+ℤ◌
sum_comm v w = ground arith

sum_diff : (v w : ℤ) → v +ℤ (w -ℤ v) ≡ w
sum_diff v w = grind int_laws

-- On each axis the clipped rectangle begins where the rectangle begins, but not before the surface, and
-- ends where the rectangle ends, but not after the surface, where an `int` holds the sum that gives the
-- end of the rectangle.
pub clip_axis_lem :
    (x w : ℤ) (size : ℕ)
    → IsInt (x +ℤ w)
    → let (x', w') = clip_axis x w size in
      (x' ≡ (if ltb_ℤ x (pos 0) then pos 0 else x))
      × (x' +ℤ w' ≡ (if ltb_ℤ (pos size) (x +ℤ w) then pos size else x +ℤ w))
unfolding clip_axis
clip_axis_lem x w size i = elim (Bool-cases (ltb_ℤ x (pos 0))) [
  | inl e ↦
      let first : wrap_int (w +ℤ x) ≡ x +ℤ w =
        ap wrap_int (sum_comm w x) ∙ wrap_int-IsInt (x +ℤ w) i in
      let same : pos 0 +ℤ (x +ℤ w) ≡ x +ℤ w = zero_sum (x +ℤ w) in
      let second : wrap_int (x +ℤ w) ≡ x +ℤ w = wrap_int-IsInt (x +ℤ w) i in
      elim (Bool-cases (ltb_ℤ (pos size) (x +ℤ w))) [
        | inl f ↦ rw (clip_axis, e, first, same, second, f) (refl, sum_diff (pos 0) (pos size))
        | inr f ↦ rw (clip_axis, e, first, same, second, f) (refl, same)
      ]
  | inr e ↦
      let second : wrap_int (x +ℤ w) ≡ x +ℤ w = wrap_int-IsInt (x +ℤ w) i in
      elim (Bool-cases (ltb_ℤ (pos size) (x +ℤ w))) [
        | inl f ↦ rw (clip_axis, e, second, f) (refl, sum_diff x (pos size))
        | inr f ↦ rw (clip_axis, e, second, f) (refl, refl)
      ]
]

-- A defect: where the end of a rectangle is past what an `int` holds, the sum wraps around to a negative
-- number, and the rectangle is not clipped, so that it ends past any surface.
pub clip_axis-overflow :
    (x w size : ℕ)
    → x < 2 ^ 31
    → w < 2 ^ 31
    → 2 ^ 31 ≤ x + w
    → clip_axis (pos x) (pos w) size ≡ (pos x, pos w)
unfolding clip_axis wrap_int ◌+ℤ◌ ◌-ℤ◌
clip_axis-overflow x w size a b c = ground (arith, a, b, c)
