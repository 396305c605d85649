-- ===== src/Tests/Surfaces.antt =====
-- Surfaces of two rows of four pixels.
use sdlop.Base.{◌*◌, ◌≤◌, ◌≡◌, true, some, refl, arith}
use sdlop.Base.Int.{pos, negsuc, ◌+ℤ◌}
use sdlop.Surface.{
  Surface, Rect, PixelFormat, bytes_per_pixel, map_rgba, fill_surface_rect, read_surface_pixel,
}
use sdlop.Surface.Bounds.{byte_at, fill_surface_rect-bounds}
use sdlop.Surface.Pixels.{read_surface_pixel-fill_surface_rect}

abbrev small : PixelFormat → Surface
small format = record { format = format; w = 4; h = 2; pitch = 16; pixels = some (λ i. 0) }

-- A rectangle that begins left of the surface and above it
abbrev corner : Rect
corner = record { x = negsuc 0; y = negsuc 1; w = pos 3; h = pos 3 }

row_fits : 4 * bytes_per_pixel PixelFormat.rgb24 ≤ 16
unfolding bytes_per_pixel
row_fits = omega arith

fill_surface_rect-bounds_example :
    byte_at (fill_surface_rect (small PixelFormat.rgb24) (some corner) 0xabcdef).0.pixels 40 ≡ 0
unfolding ◌+ℤ◌
fill_surface_rect-bounds_example =
    fill_surface_rect-bounds (small PixelFormat.rgb24) (some corner) 0xabcdef 40 row_fits
      (omega arith) (omega arith, omega arith) (omega arith, omega arith)

read_surface_pixel_example :
    let s = small PixelFormat.abgr8888 in
    read_surface_pixel
      (fill_surface_rect s (some corner) (map_rgba PixelFormat.abgr8888 10 20 30 255)).0
      1
      0
    ≡ some (30, 20, 10, 255)
unfolding ◌+ℤ◌
read_surface_pixel_example =
    read_surface_pixel-fill_surface_rect (small PixelFormat.abgr8888) (λ i. 0) corner 1 0 refl refl
      (omega arith) (omega arith) (omega arith) refl refl refl refl (omega arith, omega arith)
      (omega arith, omega arith) true 10 20 30 255 refl (omega arith) (omega arith) (omega arith)
      (omega arith)
