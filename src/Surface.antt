-- ===== src/Surface.antt =====
-- src/SDL_surface.c: surfaces and the pixels in their memory. The memory is a function from the offset
-- of a byte to the byte, little-endian as on the machines that the library runs on. Sizes and pitch of
-- a surface are not negative, which its creation tests. Sums of `int` wrap around.
pub mod Clip
pub mod Fill
pub mod Bounds
pub mod Creation
mod Colors
pub mod Pixels
use sdlop.Base.{
  ℕ, zero, suc, ◌+◌, ◌-◌, ◌*◌, ◌/◌, ◌%◌, ◌^◌, bit_and, bit_or, Bool, true, false, ◌&&◌, ◌||◌,
  Option, none, some, List, [], ◌∷◌, String, length, ltb, leb, ◌==◌, if◌then◌else◌, ◌⊎◌, inl, inr,
}
use sdlop.Base.Int.{ℤ, pos, pos_part, ◌+ℤ◌, ◌-ℤ◌, ltb_ℤ, leb_ℤ, wrap_int}

-- `SDL_PixelFormat`
pub data PixelFormat : Type 0 where
  index8 : PixelFormat
  rgb565 : PixelFormat
  rgb24 : PixelFormat
  bgr24 : PixelFormat
  xrgb8888 : PixelFormat
  rgbx8888 : PixelFormat
  argb8888 : PixelFormat
  rgba8888 : PixelFormat
  xbgr8888 : PixelFormat
  bgrx8888 : PixelFormat
  abgr8888 : PixelFormat
  bgra8888 : PixelFormat
  unknown : ℕ → PixelFormat

-- `SDLOP_BytesPerPixel`
unfoldable pub bytes_per_pixel : PixelFormat → ℕ
bytes_per_pixel PixelFormat.index8 = 1
bytes_per_pixel PixelFormat.rgb565 = 2
bytes_per_pixel PixelFormat.rgb24 = 3
bytes_per_pixel PixelFormat.bgr24 = 3
bytes_per_pixel PixelFormat.xrgb8888 = 4
bytes_per_pixel PixelFormat.rgbx8888 = 4
bytes_per_pixel PixelFormat.argb8888 = 4
bytes_per_pixel PixelFormat.rgba8888 = 4
bytes_per_pixel PixelFormat.xbgr8888 = 4
bytes_per_pixel PixelFormat.bgrx8888 = 4
bytes_per_pixel PixelFormat.abgr8888 = 4
bytes_per_pixel PixelFormat.bgra8888 = 4
bytes_per_pixel (PixelFormat.unknown n) = 0

abbrev pub Memory : Type 0
Memory = ℕ → ℕ

-- `SDL_Surface` without its flags and its count of references. NULL pixels are `none`.
pub record Surface : Type 0 where
  pub format : PixelFormat
  pub w : ℕ
  pub h : ℕ
  pub pitch : ℕ
  pub pixels : Option Memory

-- `SDL_Rect`
pub record Rect : Type 0 where
  pub x : ℤ
  pub y : ℤ
  pub w : ℤ
  pub h : ℤ

-- `SDL_CreateSurface`: the error that it sets, or the surface. `memory` is what the two calls of
-- `calloc` give.
unfoldable pub create_surface : Bool → ℤ → ℤ → PixelFormat → String ⊎ Surface
unfolding bytes_per_pixel
create_surface memory width height format =
    let pitch = pos_part width * bytes_per_pixel format in
    if leb_ℤ width (pos 0) || leb_ℤ height (pos 0)
    then inl "Invalid surface dimensions"
    else if bytes_per_pixel format == 0
    then inl "Unsupported pixel format: 0x%08x"
    else if ltb (2 ^ 31 - 1) pitch || ltb (2 ^ 64 - 1) (pitch * pos_part height % 2 ^ 64)
    then inl "Surface is too large"
    else if memory
    then inr (record {
      format = format;
      w = pos_part width;
      h = pos_part height;
      pitch = pitch;
      pixels = some (λ i. 0);
    })
    else inl "Out of memory"

-- `SDL_CreateSurfaceFrom`
unfoldable pub create_surface_from :
    Bool → ℤ → ℤ → PixelFormat → Option Memory → ℤ → String ⊎ Surface
unfolding bytes_per_pixel
create_surface_from memory width height format pixels pitch =
    if leb_ℤ width (pos 0) || leb_ℤ height (pos 0)
    then inl "Invalid surface dimensions"
    else if bytes_per_pixel format == 0
    then inl "Unsupported pixel format: 0x%08x"
    else if ltb_ℤ pitch (pos 0) || ltb_ℤ pitch (pos (pos_part width * bytes_per_pixel format))
    then inl "Pitch %d is too small for %dx%d format 0x%08x"
    else if memory
    then inr (record {
      format = format;
      w = pos_part width;
      h = pos_part height;
      pitch = pos_part pitch;
      pixels = pixels;
    })
    else inl "Out of memory"

-- One axis of the clipping in `SDL_FillSurfaceRect`: the start and the length.
pub clip_axis : ℤ → ℤ → ℕ → ℤ × ℤ
clip_axis x w size =
    let (x', w') = if ltb_ℤ x (pos 0) then (pos 0, wrap_int (w +ℤ x)) else (x, w) in
    if ltb_ℤ (pos size) (wrap_int (x' +ℤ w')) then (x', pos size -ℤ x') else (x', w')

-- The bytes of a pixel, written from an offset on.
pub put : List ℕ → ℕ → Memory → Memory
put [] a m = m
put (b ∷ bs) a m = put bs (suc a) (λ i. if i == a then b else m i)

-- A row of `n` pixels, and the rows from `y` on, `n` of them; `row` is the offset where a row begins.
pub fill_row : List ℕ → ℕ → ℕ → Memory → Memory
unfolding put
fill_row px zero a m = m
fill_row px (suc n) a m = fill_row px n (a + length px) (put px a m)

pub fill_rows : List ℕ → (ℕ → ℕ) → ℕ → ℕ → ℕ → Memory → Memory
unfolding fill_row
fill_rows px row cols zero y m = m
fill_rows px row cols (suc n) y m = fill_rows px row cols n (suc y) (fill_row px cols (row y) m)

abbrev pub bytes32 : ℕ → List ℕ
bytes32 c = c % 256 ∷ c / 2 ^ 8 % 256 ∷ c / 2 ^ 16 % 256 ∷ c / 2 ^ 24 % 256 ∷ []

-- `fill32`, `fill24` and `fill16` on a rectangle that is clipped
pub fill32 : Surface → ℕ → ℕ → ℕ → ℕ → ℕ → Memory → Memory
unfolding fill_rows
fill32 s x y w h color m = fill_rows (bytes32 color) (λ j. (j * (s.pitch / 4) + x) * 4) w h y m

pub fill24 : Surface → ℕ → ℕ → ℕ → ℕ → ℕ → Bool → Memory → Memory
unfolding fill_rows
fill24 s x y w h color bgr m =
    let px =
      if bgr
      then color % 256 ∷ color / 2 ^ 8 % 256 ∷ color / 2 ^ 16 % 256 ∷ []
      else color / 2 ^ 16 % 256 ∷ color / 2 ^ 8 % 256 ∷ color % 256 ∷ [] in
    fill_rows px (λ j. j * s.pitch + x * 3) w h y m

pub fill16 : Surface → ℕ → ℕ → ℕ → ℕ → ℕ → Memory → Memory
unfolding fill_rows
fill16 s x y w h color m =
    fill_rows (color % 256 ∷ color / 2 ^ 8 % 256 ∷ []) (λ j. (j * (s.pitch / 2) + x) * 2) w h y m

-- The exchange of red and blue for BGR layouts
abbrev pub is_bgr : PixelFormat → Bool
is_bgr PixelFormat.xbgr8888 = true
is_bgr PixelFormat.abgr8888 = true
is_bgr PixelFormat.bgra8888 = true
is_bgr PixelFormat.bgrx8888 = true
is_bgr _ = false

abbrev pub swap_red_blue : ℕ → ℕ
swap_red_blue c =
    bit_or (bit_or (bit_and c 0xff00ff00) (bit_and c 0x00ff0000 / 2 ^ 16))
      (bit_and c 0x000000ff * 2 ^ 16)

abbrev pub is_bgr24 : PixelFormat → Bool
is_bgr24 PixelFormat.bgr24 = true
is_bgr24 _ = false

-- The `switch` of `SDL_FillSurfaceRect`; `none` is its default branch.
pub fill_pixels : Surface → ℕ → ℕ → ℕ → ℕ → ℕ → Memory → Option Memory
unfolding fill32 fill24 fill16
fill_pixels s x y w h color m =
    let n = bytes_per_pixel s.format in
    if n == 4
    then some (fill32 s x y w h (if is_bgr s.format then swap_red_blue color else color) m)
    else if n == 3
    then some (fill24 s x y w h color (is_bgr24 s.format) m)
    else if n == 2
    then some (fill16 s x y w h color m)
    else none

-- The rectangle to fill: all of the surface where none is given.
abbrev pub area : Surface → Option Rect → Rect
area s none = record { x = pos 0; y = pos 0; w = pos s.w; h = pos s.h }
area s (some q) = q

-- `SDL_FillSurfaceRect`; NULL for the surface and for the rectangle is `none`. On false an error is set.
pub fill_surface_rect : Surface → Option Rect → ℕ → Surface × Bool
unfolding fill_pixels clip_axis
fill_surface_rect s rect color = elim s.pixels [
  | none ↦ (s, false)
  | some m ↦
      let r = area s rect in
      let (x, w) = clip_axis r.x r.w s.w in
      let (y, h) = clip_axis r.y r.h s.h in
      if leb_ℤ w (pos 0) || leb_ℤ h (pos 0)
      then (s, true)
      else elim (fill_pixels s (pos_part x) (pos_part y) (pos_part w) (pos_part h) color m) [
        | none ↦ (s, false)
        | some m' ↦ (record s { pixels = some m' }, true)
      ]
]

-- `SDL_MapSurfaceRGBA`, with each part a byte
pub map_rgba : PixelFormat → ℕ → ℕ → ℕ → ℕ → ℕ
map_rgba PixelFormat.argb8888 r g b a =
    bit_or (bit_or (bit_or (a * 2 ^ 24) (r * 2 ^ 16)) (g * 2 ^ 8)) b
map_rgba PixelFormat.xrgb8888 r g b a = bit_or (bit_or (r * 2 ^ 16) (g * 2 ^ 8)) b
map_rgba PixelFormat.abgr8888 r g b a =
    bit_or (bit_or (bit_or (a * 2 ^ 24) (b * 2 ^ 16)) (g * 2 ^ 8)) r
map_rgba PixelFormat.xbgr8888 r g b a = bit_or (bit_or (b * 2 ^ 16) (g * 2 ^ 8)) r
map_rgba PixelFormat.rgba8888 r g b a =
    bit_or (bit_or (bit_or (r * 2 ^ 24) (g * 2 ^ 16)) (b * 2 ^ 8)) a
map_rgba PixelFormat.bgra8888 r g b a =
    bit_or (bit_or (bit_or (b * 2 ^ 24) (g * 2 ^ 16)) (r * 2 ^ 8)) a
map_rgba PixelFormat.rgb565 r g b a =
    bit_or (bit_or (r / 2 ^ 3 * 2 ^ 11) (g / 2 ^ 2 * 2 ^ 5)) (b / 2 ^ 3)
map_rgba _ r g b a = bit_or (bit_or (r * 2 ^ 16) (g * 2 ^ 8)) b

-- The `Uint32` at an offset
abbrev pub word32 : Memory → ℕ → ℕ
word32 m a = m a + m (a + 1) * 2 ^ 8 + m (a + 2) * 2 ^ 16 + m (a + 3) * 2 ^ 24

-- The `switch` of `SDL_ReadSurfacePixel`: red, green, blue and alpha of a pixel value
unfoldable pub unpack : PixelFormat → ℕ → Option (ℕ × ℕ × ℕ × ℕ)
unpack PixelFormat.argb8888 p = some (p / 2 ^ 16 % 256, p / 2 ^ 8 % 256, p % 256, p / 2 ^ 24 % 256)
unpack PixelFormat.xrgb8888 p = some (p / 2 ^ 16 % 256, p / 2 ^ 8 % 256, p % 256, p / 2 ^ 24 % 256)
unpack PixelFormat.abgr8888 p = some (p % 256, p / 2 ^ 8 % 256, p / 2 ^ 16 % 256, p / 2 ^ 24 % 256)
unpack PixelFormat.xbgr8888 p = some (p % 256, p / 2 ^ 8 % 256, p / 2 ^ 16 % 256, p / 2 ^ 24 % 256)
unpack _ p = none

-- `SDL_ReadSurfacePixel` at coordinates from 0 on, with the four pointers; `none` is false.
unfoldable pub read_surface_pixel : Surface → ℕ → ℕ → Option (ℕ × ℕ × ℕ × ℕ)
unfolding unpack
read_surface_pixel s x y = elim s.pixels [
  | none ↦ none
  | some m ↦
      if leb s.w x || leb s.h y
      then none
      else if bytes_per_pixel s.format == 4
      then unpack s.format (word32 m (y * s.pitch + x * 4))
      else none
]
