-- ===== src/Gl/Contexts.antt =====
-- src/SDL_gl.c: contexts, which the video driver makes.
pub mod Current
use sdlop.Base.{ℕ, Bool, true, false, ◌&&◌, Option, none, some, String, ◌==◌, if◌then◌else◌}
use sdlop.Base.Int.{ℤ, pos}
use sdlop.Event.{window_exposed}
use sdlop.State.{Sdl, window_at, set_error}
use sdlop.Events.{send_window_event}
use sdlop.Gl.{GlState, init_glattrs}

-- The global state with the statics of src/SDL_gl.c. Windows and contexts are addresses.
pub record World (F : Type 0) : Type 0 where
  pub sdl : Sdl F
  pub gl : GlState
  pub current_context : Option ℕ
  pub current_window : Option ℕ

-- The OpenGL calls of `SDLop_VideoDevice`, as far as a driver has them. A driver can read the statics
-- of src/SDL_gl.c, through `SDLOP_GL_CurrentContext` and `sdlop_glattrs`, and change `sdlop` only.
pub record GlDriver (F : Type 0) : Type 0 where
  pub create_context : Option (World F → ℕ → Sdl F × Option ℕ)
  pub make_current : Option (World F → Option ℕ → Option ℕ → Sdl F × Bool)
  pub swap_buffers : Option (World F → ℕ → Sdl F × Bool)
  pub delete_context : Option (World F → ℕ → Sdl F)
  pub get_proc_address : Option (World F → String → Option ℕ)
  pub set_swap_interval : Option (World F → ℤ → Sdl F × Bool)
  pub get_swap_interval : Option (World F → Sdl F × Option ℤ)

module _ {F : Type 0} where
  abbrev pub fail : World F → String → World F
  fail g text = record g { sdl = set_error g.sdl text }

  -- `!sdlop.video || !sdlop.video->Op`
  abbrev pub offered {ℓ} : {A : Type ℓ} → World F → Option A → Option A
  offered g none = none
  offered g (some f) = if g.sdl.video then some f else none

-- `current_context == context`
abbrev pub is_current : Option ℕ → ℕ → Bool
is_current none c = false
is_current (some b) c = b == c

module _ {F : Type 0} (d : GlDriver F) where
  -- `SDL_GL_GetProcAddress`
  pub get_proc_address : World F → Option String → World F × Option ℕ
  get_proc_address g none = (fail g "NULL proc name", none)
  get_proc_address g (some proc) = elim (offered g d.get_proc_address) [
    | none ↦ (g, none)
    | some f ↦ (g, f g proc)
  ]

  -- `SDL_GL_MakeCurrent`
  pub make_current : World F → Option ℕ → Option ℕ → World F × Bool
  make_current g window context = elim (offered g d.make_current) [
    | none ↦ (fail g "Video driver does not support OpenGL", false)
    | some f ↦
        let (s, done) = f g window context in
        if done
        then (
          record g {
            sdl = s;
            current_context = context;
            current_window = elim context [ none ↦ none | some c ↦ window ];
          },
          true,
        )
        else (record g { sdl = s }, false)
  ]

  delete : World F → ℕ → World F
  delete g c = elim (offered g d.delete_context) [ none ↦ g | some f ↦ record g { sdl = f g c } ]

  -- `SDL_GL_CreateContext`
  pub create_context : World F → Option ℕ → World F × Option ℕ
  unfolding make_current delete
  create_context g none = (fail g "Invalid window", none)
  create_context g (some w) = elim (offered g d.create_context) [
    | none ↦ (fail g "Video driver does not support OpenGL", none)
    | some f ↦
        let g0 = record g { gl = init_glattrs g.gl } in
        let (s, made) = f g0 w in
        let g1 = record g0 { sdl = s } in
        elim made [
          | none ↦ (g1, none)
          | some c ↦
              let (g2, done) = make_current g1 (some w) (some c) in
              if done then (g2, some c) else (delete g2 c, none)
        ]
  ]

  -- `SDL_GL_SetSwapInterval`
  pub set_swap_interval : World F → ℤ → World F × Bool
  set_swap_interval g interval = elim (offered g d.set_swap_interval) [
    | none ↦ (fail g "Video driver does not support OpenGL", false)
    | some f ↦ let (s, done) = f g interval in (record g { sdl = s }, done)
  ]

  -- `SDL_GL_GetSwapInterval`; the flag says whether a pointer is given.
  pub get_swap_interval : World F → Bool → World F × Option ℤ
  get_swap_interval g false = (fail g "NULL interval pointer", none)
  get_swap_interval g true = elim (offered g d.get_swap_interval) [
    | none ↦ (fail g "Video driver does not support OpenGL", none)
    | some f ↦ let (s, out) = f g in (record g { sdl = s }, out)
  ]

  -- `SDL_GL_SwapWindow`: presenting a window announces it with an expose event.
  pub swap_window : World F → Option ℕ → World F × Bool
  swap_window g none = (fail g "Invalid window", false)
  swap_window g (some w) = elim (offered g d.swap_buffers) [
    | none ↦ (fail g "Video driver does not support OpenGL", false)
    | some f ↦
        let (s, done) = f g w in
        if done
        then (
          record g {
            sdl = send_window_event s (window_at w s.windows) window_exposed (pos 0) (pos 0);
          },
          true,
        )
        else (record g { sdl = s }, false)
  ]

  -- `SDL_GL_DestroyContext`
  pub destroy_context : World F → Option ℕ → World F
  unfolding delete
  destroy_context g none = g
  destroy_context g (some c) =
      let g' =
        if is_current g.current_context c
        then record g { current_context = none; current_window = none }
        else g in
      delete g' c
