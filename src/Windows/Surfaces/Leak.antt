-- ===== src/Windows/Surfaces/Leak.antt =====
-- The life of a window surface, from `SDL_GetWindowSurface` to `SDL_DestroyWindowSurface`.
use sdlop.Base.{ℕ, suc, ◌≡◌, refl, ==_iff, ◌∙◌, ap, Bool, true, false, Option, none, some, inr}
use sdlop.State.{Sdl, Window, window_at}
use sdlop.State.Lists.{window_at-put, window_at-addr}
use sdlop.Surface.{Surface, PixelFormat, create_surface}
use sdlop.Windows.Surfaces.{
  dummy_made, web_made, adopt, Heap, World, offered, surface_of, set_surface, allocate,
  with_surface, dummy_create, dummy_destroy, dummy_framebuffers, web_create, web_destroy,
  web_framebuffers, get_window_surface, destroy_window_surface, window_has_surface,
}

-- The heap with a new surface
grown : Heap → Surface → Heap
grown h v = record (with_surface h h.next (some v)) { next = suc h.next }

module _ {F : Type 0} where
  window_at-set_surface :
      (s : Sdl F) (a : ℕ) (w : Window F) (c : Option ℕ)
      → window_at a s.windows ≡ some w
      → window_at a (set_surface s a c).windows ≡ some (record w { surface = c })
  unfolding set_surface
  window_at-set_surface s a w c there =
      rw (set_surface, there)
        (window_at-put a (record w { surface = c }) w s.windows there
          (window_at-addr a w s.windows there))

  video-set_surface :
      (s : Sdl F) (a : ℕ) (w : Window F) (c : Option ℕ)
      → window_at a s.windows ≡ some w
      → (set_surface s a c).video ≡ s.video
  unfolding set_surface
  video-set_surface s a w c there = rw (set_surface, there) refl

  surface_of_lem :
      (s : Sdl F) (a : ℕ) (w : Window F)
      → window_at a s.windows ≡ some w
      → surface_of s (some a) ≡ w.surface
  unfolding surface_of
  surface_of_lem s a w there = rw (surface_of, there) refl

  offered_lem {ℓ} : {A : Type ℓ} (s : Sdl F) (f : A) → s.video ≡ true → offered s (some f) ≡ some f
  unfolding offered
  offered_lem s f on = rw on refl

  module _ (s : Sdl F) (h : Heap) (a : ℕ) (w : Window F) (on : s.video ≡ true)
      (there : window_at a s.windows ≡ some w) where
    allocate_lem :
        (format : PixelFormat) (v : Surface)
        → create_surface h.memory w.w w.h format ≡ inr v
        → allocate (s, h) w format ≡ ((s, grown h v), some h.next)
    unfolding allocate grown
    allocate_lem format v made = rw (allocate, made) refl

    dummy_create_lem :
        (v : Surface)
        → create_surface h.memory w.w w.h PixelFormat.xrgb8888 ≡ inr v
        → dummy_create (s, h) a ≡ ((s, grown h v), true, some h.next)
    unfolding dummy_create dummy_made
    dummy_create_lem v made =
        rw (dummy_create, there) (ap dummy_made (allocate_lem PixelFormat.xrgb8888 v made))

    web_create_lem :
        (v : Surface)
        → create_surface h.memory w.w w.h PixelFormat.argb8888 ≡ inr v
        → web_create (s, h) a ≡ ((set_surface s a (some h.next), grown h v), true, some h.next)
    unfolding web_create web_made
    web_create_lem v made =
        rw (web_create, there) (ap (web_made a) (allocate_lem PixelFormat.argb8888 v made))

    dummy_get :
        (v : Surface)
        → w.surface ≡ none
        → create_surface h.memory w.w w.h PixelFormat.xrgb8888 ≡ inr v
        → get_window_surface dummy_framebuffers (s, h) (some a)
          ≡ ((set_surface s a (some h.next), grown h v), some h.next)
    unfolding get_window_surface adopt dummy_framebuffers
    dummy_get v bare made =
        rw (get_window_surface, surface_of_lem s a w there, bare, offered_lem s dummy_create on)
          (ap (adopt a) (dummy_create_lem v made))

    web_get :
        (update : World F → ℕ → World F × Bool) (v : Surface)
        → w.surface ≡ none
        → create_surface h.memory w.w w.h PixelFormat.argb8888 ≡ inr v
        → get_window_surface (web_framebuffers update) (s, h) (some a)
          ≡ ((set_surface (set_surface s a (some h.next)) a (some h.next), grown h v), some h.next)
    unfolding get_window_surface adopt web_framebuffers
    web_get update v bare made =
        rw (get_window_surface, surface_of_lem s a w there, bare, offered_lem s web_create on)
          (ap (adopt a) (web_create_lem v made))

    dummy_end :
        (c : ℕ)
        → w.surface ≡ some c
        → destroy_window_surface dummy_framebuffers (s, h) (some a)
          ≡ ((set_surface (set_surface s a none) a none, with_surface h c none), true)
    unfolding destroy_window_surface dummy_framebuffers dummy_destroy
    dummy_end c has =
        let of_window = surface_of_lem s a w there ∙ has in
        rw
          (
            destroy_window_surface,
            of_window,
            offered_lem s dummy_destroy on,
            dummy_destroy,
            of_window,
          )
          refl

    web_end :
        (update : World F → ℕ → World F × Bool) (c : ℕ)
        → w.surface ≡ some c
        → destroy_window_surface (web_framebuffers update) (s, h) (some a)
          ≡ ((set_surface s a none, h), true)
    unfolding destroy_window_surface web_framebuffers web_destroy
    web_end update c has =
        rw (destroy_window_surface, surface_of_lem s a w there ∙ has, offered_lem s web_destroy on)
          refl

  -- The surface of a window of the offscreen driver lives from `SDL_GetWindowSurface` to
  -- `SDL_DestroyWindowSurface`: the window has a new one after the first call, and after the second
  -- the window has none and the memory is given back. The window is on the list and had no
  -- surface, and the allocation succeeds.
  pub dummy-destroy_window_surface :
      (s : Sdl F) (h : Heap) (a : ℕ) {w : Window F} {v : Surface}
      → s.video ≡ true
      → window_at a s.windows ≡ some w
      → w.surface ≡ none
      → create_surface h.memory w.w w.h PixelFormat.xrgb8888 ≡ inr v
      → let (got, surface) = get_window_surface dummy_framebuffers (s, h) (some a) in
        let (left, done) = destroy_window_surface dummy_framebuffers got (some a) in
        (surface ≡ some h.next)
        × (got.1.surfaces h.next ≡ some v)
        × (window_has_surface left.0 (some a) ≡ false)
        × (left.1.surfaces h.next ≡ none)
  unfolding grown window_has_surface
  dummy-destroy_window_surface s h a {w} {v} on there bare made =
      let c = h.next in
      let s1 = set_surface s a (some c) in
      let w1 = record w { surface = some c } in
      let w2 = record w { surface = none } in
      let at1 = window_at-set_surface s a w (some c) there in
      let on1 = video-set_surface s a w (some c) there ∙ on in
      let at2 = window_at-set_surface s1 a w1 none at1 in
      let bare3 =
        surface_of_lem (set_surface (set_surface s1 a none) a none) a w2
          (window_at-set_surface (set_surface s1 a none) a w2 none at2) in
      rw
        (
          dummy_get s h a w on there v bare made,
          dummy_end s1 (grown h v) a w1 on1 at1 c refl,
          window_has_surface,
          bare3,
        )
        (refl, rw ((==_iff c c).1 refl) refl, refl, rw ((==_iff c c).1 refl) refl)

  -- A defect: on the browser driver the same two calls leave the memory of the surface allocated, and
  -- the window does not have it any more.
  pub web-destroy_window_surface :
      (update : World F → ℕ → World F × Bool) (s : Sdl F) (h : Heap) (a : ℕ) {w : Window F}
      {v : Surface}
      → s.video ≡ true
      → window_at a s.windows ≡ some w
      → w.surface ≡ none
      → create_surface h.memory w.w w.h PixelFormat.argb8888 ≡ inr v
      → let fb = web_framebuffers update in
        let (got, surface) = get_window_surface fb (s, h) (some a) in
        let (left, done) = destroy_window_surface fb got (some a) in
        (surface ≡ some h.next)
        × (window_has_surface left.0 (some a) ≡ false)
        × (left.1.surfaces h.next ≡ some v)
  unfolding grown window_has_surface
  web-destroy_window_surface update s h a {w} {v} on there bare made =
      let c = h.next in
      let s1 = set_surface s a (some c) in
      let s2 = set_surface s1 a (some c) in
      let w1 = record w { surface = some c } in
      let at1 = window_at-set_surface s a w (some c) there in
      let at2 = window_at-set_surface s1 a w1 (some c) at1 in
      let on2 =
        video-set_surface s1 a w1 (some c) at1 ∙ video-set_surface s a w (some c) there ∙ on in
      let bare3 =
        surface_of_lem (set_surface s2 a none) a (record w { surface = none })
          (window_at-set_surface s2 a w1 none at2) in
      rw
        (
          web_get s h a w on there update v bare made,
          web_end s2 (grown h v) a w1 on2 at2 update c refl,
          window_has_surface,
          bare3,
        )
        (refl, refl, rw ((==_iff c c).1 refl) refl)
