-- ===== src/Surface/Creation.antt =====
-- src/SDL_surface.c: what the two functions that make a surface promise of it.
use sdlop.Base.{◌*◌, ◌^◌, ◌≤◌, ◌<◌, ◌≡◌, Bool, Option, inr, arith}
use sdlop.Base.Int.{ℤ}
use sdlop.Surface.{
  Surface, Memory, PixelFormat, bytes_per_pixel, create_surface, create_surface_from,
}

-- A surface has pixels, and a row of them fits into its pitch.
abbrev pub HasRows : Surface → Type 0
HasRows s = (0 < s.w) × (0 < s.h) × (s.w * bytes_per_pixel s.format ≤ s.pitch)

-- `SDL_CreateSurfaceFrom` makes only surfaces whose rows fit into the pitch that it was given.
pub create_surface_from-HasRows :
    (memory : Bool) (width height : ℤ) (format : PixelFormat) (pixels : Option Memory) (pitch : ℤ)
    (s : Surface)
    → create_surface_from memory width height format pixels pitch ≡ inr s
    → HasRows s
unfolding create_surface_from
create_surface_from-HasRows memory width height format pixels pitch s e = ground arith

-- `SDL_CreateSurface` makes only surfaces whose rows fit into the pitch, with a pitch that fits into an
-- `int`.
pub create_surface-HasRows :
    (memory : Bool) (width height : ℤ) (format : PixelFormat) (s : Surface)
    → create_surface memory width height format ≡ inr s
    → HasRows s × (s.pitch < 2 ^ 31)
unfolding create_surface
create_surface-HasRows memory width height format s e = ground arith
