-- ===== src/Wayland/Egl/Calls.antt =====
-- src/video/wayland/sdlop_wayland_gl.c: contexts and the surfaces that they draw on. The width and the
-- height of the native window are the library's to read.
use sdlop.Base.{ℕ, Bool, true, false, not, Option, none, some, [], ◌∷◌, if◌then◌else◌}
use sdlop.Base.Int.{ℤ, pos, ltb_ℤ, eqb_ℤ}
use sdlop.State.{Sdl, set_error}
use sdlop.Gl.{GlAttributes}
use sdlop.Wayland.Egl.{
  Egl, EglLib, GlContext, Slots, swapped, gone, failed, set_slots, set_gl_active, context_api,
  context_attribs, egl_none, ensure_egl_display, load_wayland_egl, pick_config,
}

abbrev pub World : Type 0 → Type 0
World F = Sdl F × Egl

module _ {F : Type 0} (lib : EglLib) where
  -- `SDLOP_Wayland_GL_CreateContext`; `current` is `SDLOP_GL_CurrentContext()` and `memory` whether
  -- `calloc` succeeds.
  pub create_context : World F → GlAttributes → Option GlContext → Bool → World F × Option GlContext
  unfolding ensure_egl_display pick_config context_api context_attribs set_error
  create_context (s, e) a current memory =
      let (s1, e1, ready) = ensure_egl_display lib s e in
      let api = context_api a in
      let (s2, config) = pick_config lib s1 a api in
      let share : Option ℕ =
        if eqb_ℤ a.share_with_current_context (pos 0)
        then none
        else elim current [ none ↦ none | some c ↦ some c.ctx ] in
      if not ready
      then ((s1, e1), none)
      else if not (lib.bind_api api)
      then ((set_error s1 "eglBindAPI failed: 0x%x", e1), none)
      else elim config [
        | none ↦ ((s2, e1), none)
        | some c ↦ elim (lib.create_context c share (context_attribs a api)) [
          | none ↦ ((set_error s2 "eglCreateContext failed: 0x%x", e1), none)
          | some ctx ↦
              if memory
              then ((s2, e1), some (record { ctx = ctx; api = api }))
              else ((set_error s2 "Out of memory", e1), none)
        ]
      ]

  -- `config_for_context`: the configuration of the context, or else one for the attributes
  pub config_for_context : Sdl F → GlAttributes → GlContext → Sdl F × Option ℕ
  unfolding pick_config
  config_for_context s a c = elim (lib.query_config c.ctx) [
    | none ↦ pick_config lib s a c.api
    | some id ↦ elim (lib.choose_config (pos 0x3028 ∷ id ∷ egl_none ∷ [])) [
      | none ↦ pick_config lib s a c.api
      | some config ↦ (s, some config)
    ]
  ]

  -- The native window of `SDLOP_Wayland_GL_MakeCurrent`, made for the surface of the protocol when the
  -- window has none
  pub native_window : World F → ℕ → Slots → ℕ → World F × Option ℕ
  unfolding set_error
  native_window (s, e) a v surface = elim v.gl_egl_window [
    | some n ↦ ((s, e), some n)
    | none ↦ elim (lib.create_egl_window surface) [
      | none ↦ ((set_error s "wl_egl_window_create failed", e), none)
      | some n ↦ ((s, set_slots e a (record v { gl_egl_window = some n })), some n)
    ]
  ]

  -- The surface that it draws on: the one that the window has, or a new one on a native window
  pub drawing_surface : World F → GlAttributes → GlContext → ℕ → Slots → ℕ → World F × Option ℕ
  unfolding native_window load_wayland_egl config_for_context set_error
  drawing_surface (s, e) a c address v surface = elim v.gl_surface [
    | some g ↦ ((s, e), some g)
    | none ↦
        let (s1, e1, loaded) = load_wayland_egl lib s e in
        if not loaded
        then ((s1, e1), none)
        else (let ((s2, e2), native) = native_window (s1, e1) address v surface in
            let (s3, config) = config_for_context s2 a c in
            elim native [
              | none ↦ ((s2, e2), none)
              | some n ↦ elim config [
                | none ↦ ((set_error s3 "No EGL config for context", e2), none)
                | some k ↦ elim (lib.create_window_surface k n) [
                  | none ↦ ((set_error s3 "eglCreateWindowSurface failed: 0x%x", e2), none)
                  | some g ↦ (
                    (
                      s3,
                      set_slots e2 address
                          (record v { gl_egl_window = some n; gl_surface = some g }),
                    ),
                    some g,
                  )
                ]
              ]
            ])
  ]

  -- The end of `SDLOP_Wayland_GL_MakeCurrent`
  pub bind : World F → Option ℕ → GlContext → World F × Bool
  unfolding set_error
  bind (s, e) surface c =
      if lib.make_current surface c.ctx
      then ((s, e), true)
      else ((set_error s "eglMakeCurrent failed: 0x%x", e), false)

  -- `SDLOP_Wayland_GL_MakeCurrent`
  pub make_current : World F → GlAttributes → Option ℕ → Option GlContext → World F × Bool
  unfolding ensure_egl_display drawing_surface bind set_gl_active set_error
  make_current (s, e) a window context =
      let (s1, e1, ready) = ensure_egl_display lib s e in
      if not ready then ((s1, e1), false) else elim context [
        | none ↦ ((s1, set_gl_active e1 window false), true)
        | some c ↦
            if not (lib.bind_api c.api)
            then ((set_error s1 "eglBindAPI failed: 0x%x", e1), false)
            else elim window [
              | none ↦ bind (s1, e1) none c
              | some address ↦ elim (e1.slots address) [
                | none ↦ ((set_error s1 "Invalid window for GL", e1), false)
                | some v ↦ elim v.surface [
                  | none ↦ ((set_error s1 "Invalid window for GL", e1), false)
                  | some surface ↦
                      let ((s2, e2), g) = drawing_surface (s1, e1) a c address v surface in
                      elim g [
                        | none ↦ ((s2, e2), false)
                        | some drawn ↦
                            bind (s2, set_gl_active e2 (some address) true) (some drawn) c
                      ]
                ]
              ]
            ]
      ]

  -- `SDLOP_Wayland_GL_SwapBuffers`, for a window that has driver data
  pub swap_buffers : World F → ℕ → World F × Bool
  unfolding set_error
  swap_buffers (s, e) address = elim (e.slots address) [
    | none ↦ ((set_error s "Window has no GL surface", e), false)
    | some v ↦ elim v.gl_surface [
      | none ↦ ((set_error s "Window has no GL surface", e), false)
      | some g ↦ elim (lib.swap_buffers g) [
        | swapped ↦ ((s, e), true)
        | gone ↦ (
          (
            set_error s "eglSwapBuffers failed: 0x%x",
            set_slots e address (record v { gl_surface = none }),
          ),
          false,
        )
        | failed ↦ ((set_error s "eglSwapBuffers failed: 0x%x", e), false)
      ]
    ]
  ]

-- `SDLOP_Wayland_GL_WindowDestroyed`
pub window_destroyed : Egl → ℕ → Egl
window_destroyed e address = elim (e.slots address) [
  | none ↦ e
  | some v ↦
      set_slots e address (record v { gl_surface = none; gl_egl_window = none; gl_active = false })
]

-- `SDLOP_Wayland_GL_GetProcAddress`: what EGL knows, or else what the process has
pub get_proc_address : Option ℕ → Option ℕ → Option ℕ
get_proc_address none symbol = symbol
get_proc_address (some f) symbol = some f

-- `SDLOP_Wayland_GL_SetSwapInterval`
pub set_swap_interval : {F : Type 0} → World F → ℤ → World F × Bool
unfolding set_error
set_swap_interval (s, e) interval =
    if ltb_ℤ interval (pos 0)
    then ((set_error s "Adaptive vsync (-1) is not supported", e), false)
    else ((s, record e { swap_interval = interval }), true)

-- `SDLOP_Wayland_GL_GetSwapInterval`
pub get_swap_interval : Egl → ℤ × Bool
get_swap_interval e = (e.swap_interval, true)
