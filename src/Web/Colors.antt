-- ===== src/Web/Colors.antt =====
-- src/video/emscripten/sdlop_emscripten.c against src/SDL_surface.c: the colors of a window surface on
-- its canvas.
use native.Mathlib.Nat.{mul_assoc}
use sdlop.Base.{
  ℕ, ◌+◌, ◌*◌, ◌%◌, ◌/◌, ◌^◌, ◌<◌, ◌≡◌, ◌∙◌, sym, ap, false, ◌||◌, Option, none, some, leb, arith,
}
use sdlop.Surface.{
  PixelFormat, Surface, Memory, word32, bytes_per_pixel, unpack, read_surface_pixel,
}
use sdlop.Web.Gl.{texel}

-- The color with red and blue exchanged
abbrev pub exchanged : Option (ℕ × ℕ × ℕ × ℕ) → Option (ℕ × ℕ × ℕ × ℕ)
exchanged none = none
exchanged (some (r, g, b, a)) = some (b, g, r, a)

-- The bytes of a word
bytes_of :
    (m : Memory) (a : ℕ)
    → ((i : ℕ) → m i < 256)
    → unpack PixelFormat.argb8888 (word32 m a) ≡ some (m (a + 2), m (a + 1), m a, m (a + 3))
unfolding unpack
bytes_of m a byte =
    let b0 = byte a in
    let b1 = byte (a + 1) in
    let b2 = byte (a + 2) in
    let b3 = byte (a + 3) in
    let r : word32 m a / 2 ^ 16 % 256 ≡ m (a + 2) = omega (arith, b0, b1, b2, b3) in
    let g : word32 m a / 2 ^ 8 % 256 ≡ m (a + 1) = omega (arith, b0, b1, b2, b3) in
    let b : word32 m a % 256 ≡ m a = omega (arith, b0, b1, b2, b3) in
    let t : word32 m a / 2 ^ 24 % 256 ≡ m (a + 3) = omega (arith, b0, b1, b2, b3) in cc

-- A defect: where every byte of memory is below 256, each pixel of an ARGB surface with tight rows, as
-- the driver makes them, is shown on the canvas with its red and its blue exchanged.
pub texel-read_surface_pixel :
    (s : Surface) (m : Memory) (x y : ℕ)
    → s.pixels ≡ some m
    → s.format ≡ PixelFormat.argb8888
    → s.pitch ≡ s.w * 4
    → ((i : ℕ) → m i < 256)
    → x < s.w
    → y < s.h
    → texel s x y ≡ exchanged (read_surface_pixel s x y)
unfolding texel read_surface_pixel bytes_per_pixel
texel-read_surface_pixel s m x y there argb tight byte left up =
    let inside : (leb s.w x || leb s.h y) ≡ false = ground (arith, left, up) in
    let place : y * s.pitch + x * 4 ≡ (y * s.w + x) * 4 =
      ap (λ (t : ℕ). y * t + x * 4) tight ∙ omega (arith, mul_assoc y s.w 4) in
    let four : bytes_per_pixel s.format ≡ 4 = ap bytes_per_pixel argb in
    rw (texel, read_surface_pixel, there, inside, four, argb, place)
      (sym (ap exchanged (bytes_of m ((y * s.w + x) * 4) byte)))
