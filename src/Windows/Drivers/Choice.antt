-- ===== src/Windows/Drivers/Choice.antt =====
-- src/SDL_video.c: which driver `SDLOP_VideoInit` chooses.
use sdlop.Base.{
  ℕ, ◌≡◌, refl, ◌∙◌, ap, ◌++◌, true, Option, none, some, Bool-cases, inl, inr, List, [], ◌∷◌,
  if◌then◌else◌,
}
use sdlop.Base.Text.{same_nocase}
use sdlop.State.{Sdl}
use sdlop.Windows.Drivers.{VideoDriver, video_drivers, start, init_named, init_in_order, video_init}

module _ {F : Type 0} where
  -- The first driver of a list with a name
  abbrev pub named : List ℕ → List (VideoDriver F) → Option (VideoDriver F)
  named name [] = none
  named name (d ∷ ds) = if same_nocase d.name name then some d else named name ds

  -- The first driver of a list whose `Init` succeeds, each of them after the failures before it.
  abbrev pub willing : Sdl F → List (VideoDriver F) → Option (VideoDriver F)
  willing s [] = none
  willing s (d ∷ ds) = if (d.init s).1 then some d else willing (d.init s).0 ds

  -- What comes of a driver that was looked for by its name: itself, if its `Init` succeeds.
  abbrev pub started : Sdl F → Option (VideoDriver F) → Option (VideoDriver F)
  started s none = none
  started s (some d) = if (d.init s).1 then some d else none

  -- The driver that the environment asks for
  abbrev pub wanted : Sdl F → List (VideoDriver F) → Option (List ℕ) → Option (VideoDriver F)
  wanted s ds none = willing s ds
  wanted s ds (some []) = willing s ds
  wanted s ds (some (c ∷ cs)) = started s (named (c ∷ cs) ds)

  in_order : (s : Sdl F) (ds : List (VideoDriver F)) → (init_in_order s ds).1 ≡ willing s ds
  unfolding init_in_order
  in_order s [] = refl
  in_order s (d ∷ ds) = elim (Bool-cases (d.init s).1) [
    | inl h ↦ rw h refl
    | inr h ↦ rw h (in_order (d.init s).0 ds)
  ]

  by_name :
      (s : Sdl F) (ds : List (VideoDriver F)) (name : List ℕ)
      → (init_named s ds name).1 ≡ started s (named name ds)
  unfolding init_named start
  by_name s [] name = refl
  by_name s (d ∷ ds) name = elim (Bool-cases (same_nocase d.name name)) [
    | inl h ↦ elim (Bool-cases (d.init s).1) [ inl i ↦ rw (h, i) refl | inr i ↦ rw (h, i) refl ]
    | inr h ↦ rw h (by_name s ds name)
  ]

  chosen :
      (s : Sdl F) (ds : List (VideoDriver F)) (hint : Option (List ℕ))
      → (video_init s ds hint).1 ≡ wanted s ds hint
  unfolding video_init
  chosen s ds none = in_order s ds
  chosen s ds (some []) = in_order s ds
  chosen s ds (some (c ∷ cs)) = by_name s ds (c ∷ cs)

  -- A list whose last driver always starts has one that is willing.
  last_willing :
      (ds : List (VideoDriver F)) (dummy : VideoDriver F) (s : Sdl F)
      → ((t : Sdl F) → (dummy.init t).1 ≡ true)
      → (d : VideoDriver F) × (willing s (ds ++ (dummy ∷ [])) ≡ some d)
  last_willing [] dummy s always = (dummy, rw (always s) refl)
  last_willing (d ∷ ds) dummy s always = elim (Bool-cases (d.init s).1) [
    | inl h ↦ (d, rw h refl)
    | inr h ↦ rw h (last_willing ds dummy (d.init s).0 always)
  ]

  ends_with_dummy :
      (emscripten wayland : Option (VideoDriver F)) (dummy : VideoDriver F)
      → (ds : List (VideoDriver F)) × (video_drivers emscripten wayland dummy ≡ ds ++ (dummy ∷ []))
  unfolding video_drivers
  ends_with_dummy none none dummy = ([], refl)
  ends_with_dummy none (some wayland) dummy = (wayland ∷ [], refl)
  ends_with_dummy (some web) none dummy = (web ∷ [], refl)
  ends_with_dummy (some web) (some wayland) dummy = (web ∷ wayland ∷ [], refl)

  -- `SDLOP_VideoInit` chooses the first driver of its list with the name in the environment, in any
  -- case, if its `Init` succeeds, and no other; without a name, or with an empty one, it chooses the
  -- first one whose `Init` succeeds, and there is such a driver, whatever is compiled in, when the
  -- offscreen driver always starts.
  pub video_init_lem :
      (emscripten wayland : Option (VideoDriver F)) (dummy : VideoDriver F) (s : Sdl F)
      (hint : Option (List ℕ))
      → ((t : Sdl F) → (dummy.init t).1 ≡ true)
      → let ds = video_drivers emscripten wayland dummy in
        ((video_init s ds hint).1 ≡ wanted s ds hint)
        × ((d : VideoDriver F) × ((video_init s ds none).1 ≡ some d))
  video_init_lem emscripten wayland dummy s hint always =
      let ds = video_drivers emscripten wayland dummy in
      let (front, e) = ends_with_dummy emscripten wayland dummy in
      let (d, w) = last_willing front dummy s always in
      (chosen s ds hint, (d, chosen s ds none ∙ ap (willing s) e ∙ w))
