-- ===== src/Windows/Surfaces.antt =====
-- src/SDL_surface.c, the surface of a window, with the framebuffers of
-- src/video/dummy/sdlop_dummy.c and src/video/emscripten/sdlop_emscripten.c.
pub mod Leak
use sdlop.Base.{
  ℕ, suc, Bool, true, false, Option, none, some, String, inl, inr, ◌==◌, if◌then◌else◌,
}
use sdlop.Base.Int.{pos}
use sdlop.Event.{window_exposed}
use sdlop.State.{Sdl, Window, window_at, put_window, set_error}
use sdlop.Events.{send_window_event}
use sdlop.Surface.{Surface, PixelFormat, create_surface}

-- The surfaces that are allocated, by address; `next` is the address that the next one gets, and
-- `memory` is whether the allocation succeeds.
pub record Heap : Type 0 where
  pub surfaces : ℕ → Option Surface
  pub next : ℕ
  pub memory : Bool

abbrev pub World : Type 0 → Type 0
World F = Sdl F × Heap

-- The framebuffer calls of `SDLop_VideoDevice`, for the window at an address
pub record Framebuffers (F : Type 0) : Type 0 where
  pub create : Option (World F → ℕ → World F × Bool × Option ℕ)
  pub update : Option (World F → ℕ → World F × Bool)
  pub destroy : Option (World F → ℕ → World F)

-- The heap with the surface at an address put in or taken out
abbrev pub with_surface : Heap → ℕ → Option Surface → Heap
with_surface h a v = record h { surfaces = λ b. if b == a then v else h.surfaces b }

-- `window->surface = surface`
pub set_surface : {F : Type 0} → Sdl F → ℕ → Option ℕ → Sdl F
set_surface s a surface = elim (window_at a s.windows) [
  | none ↦ s
  | some w ↦ record s { windows = put_window (record w { surface = surface }) s.windows }
]

-- The surface of the window at an address
pub surface_of : {F : Type 0} → Sdl F → Option ℕ → Option ℕ
surface_of s none = none
surface_of s (some a) = elim (window_at a s.windows) [ none ↦ none | some w ↦ w.surface ]

-- `!sdlop.video || !sdlop.video->Op`
pub offered {ℓ} : {F : Type 0} {A : Type ℓ} → Sdl F → Option A → Option A
offered s none = none
offered s (some f) = if s.video then some f else none

module _ {F : Type 0} where
  -- `SDL_WindowHasSurface`
  pub window_has_surface : Sdl F → Option ℕ → Bool
  unfolding surface_of
  window_has_surface s window = elim (surface_of s window) [ none ↦ false | some c ↦ true ]

  -- The end of `SDL_GetWindowSurface`, on the driver's answer
  pub adopt : ℕ → World F × Bool × Option ℕ → World F × Option ℕ
  unfolding set_surface
  adopt a (world, done, none) = (world, none)
  adopt a ((s, h), true, some c) = ((set_surface s a (some c), h), some c)
  adopt a (world, false, some c) = (world, none)

  module _ (fb : Framebuffers F) where
    -- `SDL_GetWindowSurface`
    pub get_window_surface : World F → Option ℕ → World F × Option ℕ
    unfolding surface_of adopt set_error offered
    get_window_surface (s, h) none = ((set_error s "Invalid window", h), none)
    get_window_surface (s, h) (some a) = elim (surface_of s (some a)) [
      | some c ↦ ((s, h), some c)
      | none ↦ elim (offered s fb.create) [
        | none ↦ ((set_error s "Video driver does not support window surfaces", h), none)
        | some create ↦ adopt a (create (s, h) a)
      ]
    ]

    -- `SDL_UpdateWindowSurfaceRects`; the rectangles are for the driver to read.
    pub update_window_surface_rects : World F → Option ℕ → World F × Bool
    unfolding surface_of set_error send_window_event offered
    update_window_surface_rects (s, h) none =
        ((set_error s "No window surface to update", h), false)
    update_window_surface_rects (s, h) (some a) = elim (surface_of s (some a)) [
      | none ↦ ((set_error s "No window surface to update", h), false)
      | some c ↦ elim (offered s fb.update) [
        | none ↦ ((set_error s "Video driver does not support window surfaces", h), false)
        | some update ↦
            let ((s', h'), done) = update (s, h) a in
            if done
            then (
              (send_window_event s' (window_at a s'.windows) window_exposed (pos 0) (pos 0), h'),
              true,
            )
            else ((s', h'), false)
      ]
    ]

    -- `SDL_DestroyWindowSurface`
    pub destroy_window_surface : World F → Option ℕ → World F × Bool
    unfolding surface_of set_surface set_error offered
    destroy_window_surface (s, h) none = ((set_error s "Invalid window", h), false)
    destroy_window_surface (s, h) (some a) = elim (surface_of s (some a)) [
      | none ↦ ((s, h), true)
      | some c ↦ elim (offered s fb.destroy) [
        | none ↦ ((set_surface s a none, h), true)
        | some destroy ↦ let (s', h') = destroy (s, h) a in ((set_surface s' a none, h'), true)
      ]
    ]

  -- `SDL_CreateSurface` on the heap, for the size of a window
  pub allocate : World F → Window F → PixelFormat → World F × Option ℕ
  unfolding set_error
  allocate (s, h) w format = elim (create_surface h.memory w.w w.h format) [
    | inl text ↦ ((set_error s text, h), none)
    | inr v ↦ ((s, record (with_surface h h.next (some v)) { next = suc h.next }), some h.next)
  ]

  -- The ends of `dummy_CreateWindowFramebuffer` and `emscripten_CreateWindowFramebuffer`, on the answer
  -- of `SDL_CreateSurface`
  pub dummy_made : World F × Option ℕ → World F × Bool × Option ℕ
  dummy_made (world, none) = (world, false, none)
  dummy_made (world, some c) = (world, true, some c)

  pub web_made : ℕ → World F × Option ℕ → World F × Bool × Option ℕ
  unfolding set_surface
  web_made a (world, none) = (world, false, none)
  web_made a ((s, h), some c) = ((set_surface s a (some c), h), true, some c)

  -- `dummy_CreateWindowFramebuffer`
  pub dummy_create : World F → ℕ → World F × Bool × Option ℕ
  unfolding allocate dummy_made
  dummy_create (s, h) a = elim (window_at a s.windows) [
    | none ↦ ((s, h), false, none)
    | some w ↦ dummy_made (allocate (s, h) w PixelFormat.xrgb8888)
  ]

  -- `dummy_DestroyWindowFramebuffer`
  pub dummy_destroy : World F → ℕ → World F
  unfolding surface_of set_surface
  dummy_destroy (s, h) a = elim (surface_of s (some a)) [
    | none ↦ (s, h)
    | some c ↦ (set_surface s a none, with_surface h c none)
  ]

  -- The framebuffer calls of the offscreen driver; `dummy_UpdateWindowFramebuffer` only succeeds.
  pub dummy_framebuffers : Framebuffers F
  unfolding dummy_create dummy_destroy
  dummy_framebuffers = record {
    create = some dummy_create;
    update = some (λ world a. (world, true));
    destroy = some dummy_destroy;
  }

  -- `emscripten_CreateWindowFramebuffer`
  pub web_create : World F → ℕ → World F × Bool × Option ℕ
  unfolding allocate web_made
  web_create (s, h) a = elim (window_at a s.windows) [
    | none ↦ ((s, h), false, none)
    | some w ↦ web_made a (allocate (s, h) w PixelFormat.argb8888)
  ]

  -- `emscripten_DestroyWindowFramebuffer`, as far as surfaces go: it frees what WebGL has of the window,
  -- which is left out here, and no surface.
  pub web_destroy : World F → ℕ → World F
  web_destroy world a = world

  -- The framebuffer calls of the browser driver; `update` is its drawing.
  pub web_framebuffers : (World F → ℕ → World F × Bool) → Framebuffers F
  unfolding web_create web_destroy
  web_framebuffers update = record {
    create = some web_create;
    update = some update;
    destroy = some web_destroy;
  }
