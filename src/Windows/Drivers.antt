-- ===== src/Windows/Drivers.antt =====
-- src/SDL_video.c: the choice of the video driver. Names are their bytes, as `strcasecmp` compares them.
pub mod Choice
use sdlop.Base.{ℕ, Bool, true, false, Option, none, some, List, [], ◌∷◌, ◌++◌, if◌then◌else◌}
use sdlop.Base.Text.{same_nocase}
use sdlop.State.{Sdl, set_error}

-- `SDLop_VideoDevice` as far as the choice goes: its name and `Init`.
pub record VideoDriver (F : Type 0) : Type 0 where
  pub name : List ℕ
  pub init : Sdl F → Sdl F × Bool

module _ {F : Type 0} where
  -- `video_drivers`; the first two are compiled in or not, and the offscreen driver always is.
  pub video_drivers :
      (emscripten wayland : Option (VideoDriver F)) → VideoDriver F → List (VideoDriver F)
  video_drivers none none dummy = dummy ∷ []
  video_drivers none (some wayland) dummy = wayland ∷ dummy ∷ []
  video_drivers (some web) none dummy = web ∷ dummy ∷ []
  video_drivers (some web) (some wayland) dummy = web ∷ wayland ∷ dummy ∷ []

  -- `Init` of a driver, and `sdlop.video` when it succeeds
  pub start : Sdl F → VideoDriver F → Sdl F × Option (VideoDriver F)
  start s d =
      let (s', done) = d.init s in if done then (record s' { video = true }, some d) else (s', none)

  -- The loop of `SDLOP_VideoInit` for a name
  pub init_named : Sdl F → List (VideoDriver F) → List ℕ → Sdl F × Option (VideoDriver F)
  unfolding start set_error
  init_named s [] name = (set_error s "%s not available", none)
  init_named s (d ∷ ds) name = if same_nocase d.name name then start s d else init_named s ds name

  -- The loop of `SDLOP_VideoInit` without a name
  pub init_in_order : Sdl F → List (VideoDriver F) → Sdl F × Option (VideoDriver F)
  unfolding set_error
  init_in_order s [] = (set_error s "No available video device", none)
  init_in_order s (d ∷ ds) =
      let (s', done) = d.init s in
      let rest = init_in_order s' ds in if done then (record s' { video = true }, some d) else rest

  -- `SDLOP_VideoInit`, with the value of SDL_VIDEODRIVER in the environment. The driver that is given
  -- back is `sdlop.video`; none is the result false.
  pub video_init : Sdl F → List (VideoDriver F) → Option (List ℕ) → Sdl F × Option (VideoDriver F)
  unfolding init_named init_in_order
  video_init s ds none = init_in_order s ds
  video_init s ds (some []) = init_in_order s ds
  video_init s ds (some (c ∷ cs)) = init_named s ds (c ∷ cs)
