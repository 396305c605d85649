-- ===== src/Surface/Bounds.antt =====
-- src/SDL_surface.c: `SDL_FillSurfaceRect` stays inside the memory of the surface.
use sdlop.Base.{
  ℕ, suc, ◌+◌, ◌*◌, ◌/◌, ◌≤◌, ◌<◌, ◌≡◌, ◌∙◌, ap, inl, inr, true, false, Bool-cases, Option-cases,
  Option, none, some, sym, ◌⊎◌, Bool, ◌%◌, ◌^◌, [], ◌∷◌, ==_iff, pick, ◌==◌, ◌||◌, if◌then◌else◌,
  arith,
}
use sdlop.Base.Int.{ℤ, pos, pos_part, leb_ℤ, ◌+ℤ◌, +ℤ_parts, IsInt}
use native.Mathlib.Nat.{suc-mul, add-mul, mul_assoc, mul-le-mul_left, mul-le-mul_right}
use sdlop.Surface.{
  Surface, Rect, Memory, bytes_per_pixel, clip_axis, fill32, fill24, fill16, fill_pixels,
  fill_surface_rect, area, bytes32, is_bgr, is_bgr24, swap_red_blue,
}
use sdlop.Surface.Clip.{clip_axis_lem}
use sdlop.Surface.Fill.{rows_outside}

-- A clipped axis that is not empty ends on the surface.
pub clip_axis-fits :
    (x w : ℤ) (size : ℕ)
    → IsInt (x +ℤ w)
    → let (x', w') = clip_axis x w size in
      leb_ℤ w' (pos 0) ≡ false → pos_part x' + pos_part w' ≤ size
clip_axis-fits x w size i h =
    let c = clip_axis x w size in ground (arith, h, clip_axis_lem x w size i, +ℤ_parts c.0 c.1)

-- The end of a row of `w` pixels of `c` bytes.
row_end :
    (c k p r x w height : ℕ)
    → k * c ≤ p
    → (x + w) * c ≤ p
    → r < height
    → (r * k + x) * c + w * c ≤ height * p
row_end c k p r x w height a b h = omega (
  arith,
  add-mul (r * k) x c,
  add-mul x w c,
  mul_assoc r k c,
  mul-le-mul_left {m = k * c} {n = p} r a,
  suc-mul r p,
  mul-le-mul_right {m = suc r} {n = height} p h,
)

-- The byte at an offset, 0 without memory.
abbrev pub byte_at : Option Memory → ℕ → ℕ
byte_at none i = 0
byte_at (some m) i = m i

module _ (s : Surface) (x y w h i : ℕ) (m : Memory) (below : y + h ≤ s.h)
    (past : s.h * s.pitch ≤ i) where
  outside32 : (color : ℕ) → (x + w) * 4 ≤ s.pitch → fill32 s x y w h color m i ≡ m i
  unfolding fill32
  outside32 color a =
      rows_outside (bytes32 color) (λ j. (j * (s.pitch / 4) + x) * 4) w h y i m
        λ r b c. inr (
          omega (
            arith,
            past,
            row_end 4 (s.pitch / 4) s.pitch r x w s.h (omega arith) a (omega (arith, below)),
          ))

  end24 : (r : ℕ) → (x + w) * 3 ≤ s.pitch → r < y + h → r * s.pitch + x * 3 + w * 3 ≤ i
  end24 r a b = omega (
    arith,
    past,
    suc-mul r s.pitch,
    mul-le-mul_right {m = suc r} {n = s.h} s.pitch (omega (arith, below)),
  )

  outside24 :
      (color : ℕ) (bgr : Bool) → (x + w) * 3 ≤ s.pitch → fill24 s x y w h color bgr m i ≡ m i
  unfolding fill24
  outside24 color true a =
      rows_outside (color % 256 ∷ color / 2 ^ 8 % 256 ∷ color / 2 ^ 16 % 256 ∷ [])
        (λ j. j * s.pitch + x * 3) w h y i m λ r b c. inr (end24 r a c)
  outside24 color false a =
      rows_outside (color / 2 ^ 16 % 256 ∷ color / 2 ^ 8 % 256 ∷ color % 256 ∷ [])
        (λ j. j * s.pitch + x * 3) w h y i m λ r b c. inr (end24 r a c)

  outside16 : (color : ℕ) → (x + w) * 2 ≤ s.pitch → fill16 s x y w h color m i ≡ m i
  unfolding fill16
  outside16 color a =
      rows_outside (color % 256 ∷ color / 2 ^ 8 % 256 ∷ []) (λ j. (j * (s.pitch / 2) + x) * 2) w h y
        i m
        λ r b c. inr (
          omega (
            arith,
            past,
            row_end 2 (s.pitch / 2) s.pitch r x w s.h (omega arith) a (omega (arith, below)),
          ))

  -- A row of the rectangle fits into the pitch.
  fits_pitch :
      (n : ℕ)
      → x + w ≤ s.w
      → s.w * bytes_per_pixel s.format ≤ s.pitch
      → (bytes_per_pixel s.format == n) ≡ true
      → (x + w) * n ≤ s.pitch
  fits_pitch n a fits e =
      let same : bytes_per_pixel s.format ≡ n = (==_iff (bytes_per_pixel s.format) n).0 e in
      omega (arith, ap (λ (k : ℕ). s.w * k) same, fits, mul-le-mul_right {m = x + w} {n = s.w} n a)

  fill_pixels-outside :
      (color : ℕ)
      → x + w ≤ s.w
      → s.w * bytes_per_pixel s.format ≤ s.pitch
      → (o : Option Memory) → fill_pixels s x y w h color m ≡ o
      → (byte_at o i ≡ m i) ⊎ (o ≡ none)
  unfolding fill_pixels
  fill_pixels-outside color a fits o e =
      let n : ℕ = bytes_per_pixel s.format in
      let goal : Option Memory → Type 0 = λ t. t ≡ o → (byte_at o i ≡ m i) ⊎ (o ≡ none) in
      let done : (t : Memory) → t i ≡ m i → some t ≡ o → (byte_at o i ≡ m i) ⊎ (o ≡ none) =
        λ t same p. inl (ap (λ (k : Option Memory). byte_at k i) (sym p) ∙ same) in
      let color' : ℕ = if is_bgr s.format then swap_red_blue color else color in
      let m32 : Memory = fill32 s x y w h color' m in
      let m24 : Memory = fill24 s x y w h color (is_bgr24 s.format) m in
      let m16 : Memory = fill16 s x y w h color m in
      pick (n == 4) (some m32) (if n == 3 then some m24 else if n == 2 then some m16 else none) goal
        (λ b. done m32 (outside32 color' (fits_pitch 4 a fits b)))
        (λ b.
          pick (n == 3) (some m24) (if n == 2 then some m16 else none) goal
            (λ c. done m24 (outside24 color (is_bgr24 s.format) (fits_pitch 3 a fits c)))
            (λ c.
              pick (n == 2) (some m16) none goal
                (λ d. done m16 (outside16 color (fits_pitch 2 a fits d))) (λ d p. inr (sym p))))
        e

-- `SDL_FillSurfaceRect` changes no byte past the `h` rows of `pitch` bytes of the surface, where a row of
-- pixels fits into the pitch and an `int` holds the sums that give the ends of the rectangle.
pub fill_surface_rect-bounds :
    (s : Surface) (rect : Option Rect) (color i : ℕ)
    → s.w * bytes_per_pixel s.format ≤ s.pitch
    → s.h * s.pitch ≤ i
    → IsInt ((area s rect).x +ℤ (area s rect).w)
    → IsInt ((area s rect).y +ℤ (area s rect).h)
    → byte_at (fill_surface_rect s rect color).0.pixels i ≡ byte_at s.pixels i
unfolding fill_surface_rect
fill_surface_rect-bounds s rect color i fits past int_x int_y = elim (Option-cases s.pixels) [
  | inl e ↦ rw (fill_surface_rect, e) (ap (λ (o : Option Memory). byte_at o i) e)
  | inr (m, e) ↦
      let r = area s rect in
      let cx = clip_axis r.x r.w s.w in
      let cy = clip_axis r.y r.h s.h in
      let drawn =
        fill_pixels s (pos_part cx.0) (pos_part cy.0) (pos_part cx.1) (pos_part cy.1) color m in
      elim (Bool-cases (leb_ℤ cx.1 (pos 0) || leb_ℤ cy.1 (pos 0))) [
        | inl b ↦ rw (fill_surface_rect, e, b) (ap (λ (o : Option Memory). byte_at o i) e)
        | inr b ↦
            let wide = clip_axis-fits r.x r.w s.w int_x (ground (arith, b)) in
            let high = clip_axis-fits r.y r.h s.h int_y (ground (arith, b)) in
            let out =
              fill_pixels-outside s (pos_part cx.0) (pos_part cy.0) (pos_part cx.1) (pos_part cy.1)
                i m high past color wide fits in
            elim (Option-cases drawn) [
              | inl n ↦ rw (fill_surface_rect, e, b, n) (ap (λ (o : Option Memory). byte_at o i) e)
              | inr (m', n) ↦
                  rw (fill_surface_rect, e, b, n)
                    (elim (out (some m') n) [
                      | inl same ↦ same
                      | inr empty ↦ absurd (ground (arith, empty))
                    ])
            ]
      ]
]
