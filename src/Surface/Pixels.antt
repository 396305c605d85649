-- ===== src/Surface/Pixels.antt =====
-- src/SDL_surface.c: pixels that are filled with a mapped color and read back.
use sdlop.Base.{
  ℕ, suc, ◌+◌, ◌-◌, ◌*◌, ◌/◌, ◌%◌, ◌^◌, ◌≤◌, ◌<◌, ◌≡◌, ◌∙◌, refl, ap, ap₂, true, false, some,
  get_or, leb, Bool, ◌||◌, if◌then◌else◌, arith,
}
use sdlop.Base.Int.{ℤ, pos, pos_part, leb_ℤ, ltb_ℤ, ◌+ℤ◌, +ℤ_parts, IsInt}
use native.Mathlib.Nat.{suc-mul, mul_assoc, mul-le-mul_right}
use sdlop.Surface.{
  Surface, Rect, Memory, PixelFormat, bytes_per_pixel, clip_axis, fill32, fill_pixels,
  fill_surface_rect, bytes32, is_bgr, swap_red_blue, map_rgba, unpack, word32, read_surface_pixel,
}
use sdlop.Surface.Clip.{clip_axis_lem}
use sdlop.Surface.Fill.{rows_inside}
use sdlop.Surface.Bounds.{clip_axis-fits}
use sdlop.Surface.Colors.{packed, or_packed, swap_packed, unpack-packed}

module _ (s : Surface) (x y w h : ℕ) (m : Memory) (fits : (x + w) * 4 ≤ s.pitch) where
  apart : (a b : ℕ) → a < b → (a * (s.pitch / 4) + x) * 4 + w * 4 ≤ (b * (s.pitch / 4) + x) * 4
  apart a b l =
      omega
        (arith, fits, suc-mul a (s.pitch / 4), mul-le-mul_right {m = suc a} {n = b} (s.pitch / 4) l)

  -- The word of a pixel of the rectangle is the color.
  word-fill32 :
      (color r q a : ℕ)
      → color < 2 ^ 32
      → y ≤ r
      → r < y + h
      → q < w
      → a ≡ (r * (s.pitch / 4) + x) * 4 + q * 4
      → word32 (fill32 s x y w h color m) a ≡ color
  unfolding fill32
  word-fill32 color r q a small from to col at =
      let byte : (j : ℕ) → j < 4 → fill32 s x y w h color m (a + j) ≡ get_or (bytes32 color) j 0 =
        λ j l.
          ap (λ (t : ℕ). fill32 s x y w h color m (t + j)) at
          ∙ rows_inside (bytes32 color) (λ t. (t * (s.pitch / 4) + x) * 4) w h y r q j m apart from
              to col l in
      let zeroth : fill32 s x y w h color m a ≡ color % 256 =
        ap (fill32 s x y w h color m) {x = a} {y = a + 0} (omega arith) ∙ byte 0 (omega arith) in
      rw (zeroth, byte 1 (omega arith), byte 2 (omega arith), byte 3 (omega arith)) (omega arith)

-- The offset of a pixel, counted in words and in bytes.
place :
    (p px py x : ℕ) → p % 4 ≡ 0 → x ≤ px → py * p + px * 4 ≡ (py * (p / 4) + x) * 4 + (px - x) * 4
place p px py x e h = omega (
  arith,
  mul_assoc py (p / 4) 4,
  ap (λ (t : ℕ). py * t) {x = p} {y = p / 4 * 4} (omega (arith, e)),
)

-- A coordinate of the rectangle and of the surface is one of the clipped rectangle.
clip_axis-inside :
    (x w : ℤ) (size p : ℕ)
    → p < size
    → leb_ℤ x (pos p) ≡ true
    → ltb_ℤ (pos p) (x +ℤ w) ≡ true
    → IsInt (x +ℤ w)
    → let (x', w') = clip_axis x w size in
      (pos_part x' ≤ p) × (p < pos_part x' + pos_part w') × (leb_ℤ w' (pos 0) ≡ false)
clip_axis-inside x w size p h a b i =
    let c = clip_axis x w size in
    ground (arith, h, a, b, clip_axis_lem x w size i, +ℤ_parts c.0 c.1)

module _ (s : Surface) (m : Memory) (rect : Rect) (px py : ℕ) (there : s.pixels ≡ some m)
    (aligned : s.pitch % 4 ≡ 0) (fits : s.w * 4 ≤ s.pitch) (left : px < s.w) (up : py < s.h)
    (from_x : leb_ℤ rect.x (pos px) ≡ true) (to_x : ltb_ℤ (pos px) (rect.x +ℤ rect.w) ≡ true)
    (from_y : leb_ℤ rect.y (pos py) ≡ true) (to_y : ltb_ℤ (pos py) (rect.y +ℤ rect.h) ≡ true)
    (int_x : IsInt (rect.x +ℤ rect.w)) (int_y : IsInt (rect.y +ℤ rect.h)) where
  -- A pixel of the rectangle reads as the color that the fill wrote.
  read_surface_pixel-filled :
      (color : ℕ)
      → let color' = if is_bgr s.format then swap_red_blue color else color in
        color' < 2 ^ 32
        → bytes_per_pixel s.format ≡ 4
        → read_surface_pixel (fill_surface_rect s (some rect) color).0 px py
          ≡ unpack s.format color'
  unfolding read_surface_pixel fill_surface_rect fill_pixels
  read_surface_pixel-filled color small four =
      let color' : ℕ = if is_bgr s.format then swap_red_blue color else color in
      let cx : ℤ × ℤ = clip_axis rect.x rect.w s.w in
      let cy : ℤ × ℤ = clip_axis rect.y rect.h s.h in
      let in_x = clip_axis-inside rect.x rect.w s.w px left from_x to_x int_x in
      let in_y = clip_axis-inside rect.y rect.h s.h py up from_y to_y int_y in
      let wide = clip_axis-fits rect.x rect.w s.w int_x in_x.2 in
      let some_left : (leb_ℤ cx.1 (pos 0) || leb_ℤ cy.1 (pos 0)) ≡ false =
        ground (arith, in_x.2, in_y.2) in
      let inside : (leb s.w px || leb s.h py) ≡ false = ground (arith, left, up) in
      let drawn : Memory =
        fill32 s (pos_part cx.0) (pos_part cy.0) (pos_part cx.1) (pos_part cy.1) color' m in
      let value : word32 drawn (py * s.pitch + px * 4) ≡ color' =
        word-fill32 s (pos_part cx.0) (pos_part cy.0) (pos_part cx.1) (pos_part cy.1) m
          (omega (arith, wide, fits)) color' py (px - pos_part cx.0) (py * s.pitch + px * 4) small
          in_y.0 in_y.1 (omega (arith, in_x))
          (place s.pitch px py (pos_part cx.0) aligned in_x.0) in
      rw (fill_surface_rect, there, some_left, fill_pixels, four, inside, four, value) refl

  -- A color that is mapped for a surface with alpha, filled into a rectangle and read back at a pixel
  -- of the rectangle: the color itself on an ARGB surface, and on an ABGR surface, a defect, the color
  -- with red and blue exchanged. The rows of the surface are aligned to words, and
  -- an `int` holds the sums that give the ends of the rectangle.
  pub read_surface_pixel-fill_surface_rect :
      (bgr : Bool) (r g b a : ℕ)
      → s.format ≡ (if bgr then PixelFormat.abgr8888 else PixelFormat.argb8888)
      → r < 256
      → g < 256
      → b < 256
      → a < 256
      → let color = map_rgba s.format r g b a in
        read_surface_pixel (fill_surface_rect s (some rect) color).0 px py
        ≡ some (if bgr then (b, g, r, a) else (r, g, b, a))
  unfolding map_rgba bytes_per_pixel
  read_surface_pixel-fill_surface_rect true r g b a f hr hg hb ha =
      let color : map_rgba s.format r g b a ≡ packed a b g r =
        ap (λ (t : PixelFormat). map_rgba t r g b a) f ∙ or_packed a b g r hb hg hr in
      let swapped : (if is_bgr s.format then swap_red_blue (packed a b g r) else packed a b g r)
          ≡ packed a r g b =
        ap
          (λ (t : PixelFormat). if is_bgr t then swap_red_blue (packed a b g r) else packed a b g r)
          f
        ∙ swap_packed a b g r ha hb hg hr in
      rw color (
        read_surface_pixel-filled (packed a b g r) (omega (arith, swapped)) (ap bytes_per_pixel f)
        ∙ ap₂ unpack f swapped
        ∙ (unpack-packed a r g b ha hr hg hb).1)
  read_surface_pixel-fill_surface_rect false r g b a f hr hg hb ha =
      let color : map_rgba s.format r g b a ≡ packed a r g b =
        ap (λ (t : PixelFormat). map_rgba t r g b a) f ∙ or_packed a r g b hr hg hb in
      let same : (if is_bgr s.format then swap_red_blue (packed a r g b) else packed a r g b)
          ≡ packed a r g b =
        ap
          (λ (t : PixelFormat). if is_bgr t then swap_red_blue (packed a r g b) else packed a r g b)
          f in
      rw color (
        read_surface_pixel-filled (packed a r g b) (omega (arith, same)) (ap bytes_per_pixel f)
        ∙ ap₂ unpack f same
        ∙ (unpack-packed a r g b ha hr hg hb).0)
