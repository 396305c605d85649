-- ===== src/Vulkan/Balance.antt =====
-- src/SDL_vulkan.c: the handle of the loader and its function come and go together.
use sdlop.Base.{
  ℕ, ◌≡◌, Bool, true, false, Option, none, some, Bool-cases, inl, inr, List, [], ◌∷◌, String, ◌==◌,
  arith,
}
use sdlop.State.{Sdl}
use sdlop.Vulkan.{
  Linker, Loader, World, load_library, unload_library, ensure_loaded, create_surface,
  get_presentation_support,
}

balanced : Option ℕ → Option ℕ → ℕ → Bool
balanced none none n = n == 0
balanced (some h) (some f) n = n == 1
balanced _ _ n = false

-- There is a handle exactly when there is the function, and no other handle is open.
unfoldable pub is_balanced : Loader → Bool
unfolding balanced
is_balanced l = balanced l.vulkan_handle l.get_instance_proc_addr l.open_handles

-- The calls of the file that change the loader
pub data Call : Type 0 where
  load : Option String → Call
  unload : Call
  surface : Option ℕ → Bool → Call
  support : Option ℕ → Call

module _ {F : Type 0} (linker : Linker) (driver : Option (World F → ℕ → Sdl F × Option ℕ)) where
  -- The world after a call, and after several
  pub after_call : World F → Call → World F
  after_call w (load path) = (load_library linker w path).0
  after_call (s, l) unload = (s, unload_library l)
  after_call w (surface window out) = (create_surface linker driver w window out).0
  after_call w (support h) = (get_presentation_support linker w h).0

  pub after_calls : World F → List Call → World F
  unfolding after_call
  after_calls w [] = w
  after_calls w (c ∷ cs) = after_calls (after_call w c) cs

  load_lem :
      (w : World F) (path : Option String)
      → is_balanced w.1 ≡ true
      → is_balanced (load_library linker w path).0.1 ≡ true
  unfolding load_library is_balanced balanced
  load_lem (s, l) path h = ground (arith, h)

  unload_lem : (l : Loader) → is_balanced l ≡ true → is_balanced (unload_library l) ≡ true
  unfolding unload_library is_balanced balanced
  unload_lem l h = ground (arith, h)

  -- `create_surface` with the loader there, for a driver that has surfaces or not
  with_driver :
      (d : Option (World F → ℕ → Sdl F × Option ℕ)) (w : World F) (window : ℕ)
      → is_balanced (load_library linker w none).0.1 ≡ true
      → (load_library linker w none).1 ≡ true
      → is_balanced (create_surface linker d w (some window) true).0.1 ≡ true
  unfolding create_surface ensure_loaded
  with_driver none w window kept loaded = rw (create_surface, loaded) kept
  with_driver (some create) w window kept loaded =
      elim (Bool-cases (load_library linker w none).0.0.video) [
        | inl on ↦ rw (create_surface, loaded, on) kept
        | inr off ↦ rw (create_surface, loaded, off) kept
      ]

  surface_lem :
      (w : World F) (window : Option ℕ) (out : Bool)
      → is_balanced w.1 ≡ true
      → is_balanced (create_surface linker driver w window out).0.1 ≡ true
  unfolding create_surface ensure_loaded
  surface_lem w none out h = h
  surface_lem w (some window) false h = h
  surface_lem w (some window) true h =
      let kept = load_lem w none h in
      elim (Bool-cases (load_library linker w none).1) [
        | inl loaded ↦ with_driver driver w window kept loaded
        | inr failed ↦ rw (create_surface, failed) kept
      ]

  support_lem :
      (w : World F) (h : Option ℕ)
      → is_balanced w.1 ≡ true
      → is_balanced (get_presentation_support linker w h).0.1 ≡ true
  unfolding get_presentation_support ensure_loaded
  support_lem w none b = b
  support_lem w (some i) b = elim (Bool-cases (load_library linker w none).1) [
    | inl loaded ↦ rw (get_presentation_support, loaded) (load_lem w none b)
    | inr failed ↦ rw (get_presentation_support, failed) (load_lem w none b)
  ]

  call_lem :
      (w : World F) (c : Call) → is_balanced w.1 ≡ true → is_balanced (after_call w c).1 ≡ true
  unfolding after_call
  call_lem w (load path) h = load_lem w path h
  call_lem (s, l) unload h = unload_lem l h
  call_lem w (surface window out) h = surface_lem w window out h
  call_lem w (support i) h = support_lem w i h

  -- Whatever is called in whatever order, and whatever the dynamic linker answers, the loader of Vulkan
  -- has its function exactly when it has a handle, and no handle but that one is open.
  pub after_calls-is_balanced :
      (w : World F) (cs : List Call)
      → is_balanced w.1 ≡ true
      → is_balanced (after_calls w cs).1 ≡ true
  unfolding after_calls
  after_calls-is_balanced w [] h = h
  after_calls-is_balanced w (c ∷ cs) h =
      after_calls-is_balanced (after_call w c) cs (call_lem w c h)
