-- ===== src/Wayland/Egl.antt =====
-- src/video/wayland/sdlop_wayland_gl.c. What EGL and libwayland-egl answer is a parameter; displays,
-- configurations, contexts and surfaces are numbers, and their null values are `none`.
pub mod Attribs
pub mod Loading
pub mod Calls
use sdlop.Base.{
  ℕ, ◌+◌, ◌-◌, ◌^◌, Bool, true, false, not, ◌&&◌, ◌||◌, Option, none, some, List, [], ◌∷◌, ◌++◌,
  String, ◌==◌, if◌then◌else◌,
}
use sdlop.Base.Int.{ℤ, pos, negsuc, leb_ℤ, ltb_ℤ, eqb_ℤ}
use sdlop.Base.Bits.{has}
use sdlop.State.{Sdl, set_error}
use sdlop.Gl.{GlAttributes}

-- The bits of an `int`
abbrev pub bits_of : ℤ → ℕ
bits_of (pos n) = n
bits_of (negsuc n) = 2 ^ 32 - 1 - n

-- `EGL_OPENGL_API` and `EGL_OPENGL_ES_API`
abbrev pub opengl_api : ℕ
opengl_api = 0x30a2

abbrev pub opengl_es_api : ℕ
opengl_es_api = 0x30a0

abbrev pub egl_none : ℤ
egl_none = pos 0x3038

-- `EGL_RENDERABLE_TYPE` in `pick_config`
pub renderable : GlAttributes → ℕ → ℤ
renderable a api =
    if api == opengl_api
    then pos 0x8
    else if leb_ℤ (pos 3) a.major_version
    then pos 0x40
    else pos 0x4

-- The attributes of `pick_config`: the type of surface and of rendering, the sizes, and the samples.
pub config_attribs : GlAttributes → ℕ → List ℤ
unfolding renderable
config_attribs a api =
    (pos 0x3033
      ∷ pos 0x4
      ∷ pos 0x3040
      ∷ renderable a api
      ∷ pos 0x3024
      ∷ a.red_size
      ∷ pos 0x3023
      ∷ a.green_size
      ∷ pos 0x3022
      ∷ a.blue_size
      ∷ pos 0x3021
      ∷ a.alpha_size
      ∷ pos 0x3025
      ∷ a.depth_size
      ∷ pos 0x3026
      ∷ a.stencil_size
      ∷ [])
    ++ (if ltb_ℤ (pos 0) a.multisamplesamples
        then pos 0x3032 ∷ pos 1 ∷ pos 0x3031 ∷ a.multisamplesamples ∷ []
        else [])
    ++ (egl_none ∷ [])

-- `want_desktop_gl` of `SDLOP_Wayland_GL_CreateContext`, and the API that follows
pub context_api : GlAttributes → ℕ
context_api a =
    if has (bits_of a.profile_mask) 0x1
      || (not (has (bits_of a.profile_mask) 0x4) && leb_ℤ (pos 3) a.major_version)
    then opengl_api
    else opengl_es_api

-- The two flags that are read from `SDL_GL_CONTEXT_FLAGS`
abbrev pub wants_debug : GlAttributes → Bool
wants_debug a = has (bits_of a.flags) 0x1

abbrev pub wants_forward : GlAttributes → Bool
wants_forward a = has (bits_of a.flags) 0x2

-- `ctx_attribs`: the version, the profile and the flags
pub context_attribs : GlAttributes → ℕ → List ℤ
context_attribs a api =
    if api == opengl_api
    then (pos 0x3098
        ∷ a.major_version
        ∷ pos 0x30fb
        ∷ a.minor_version
        ∷ pos 0x30fd
        ∷ (if has (bits_of a.profile_mask) 0x2 then pos 0x2 else pos 0x1)
        ∷ [])
      ++ (if wants_debug a then pos 0x1 ∷ [] else [])
      ++ (if wants_forward a then pos 0x2 ∷ [] else [])
      ++ (egl_none ∷ [])
    else pos 0x3098 ∷ (if leb_ℤ (pos 3) a.major_version then pos 3 else pos 2) ∷ egl_none ∷ []

-- `WaylandGLContext`
pub record GlContext : Type 0 where
  pub ctx : ℕ
  pub api : ℕ

-- The fields of `WaylandWindowData` that this file uses; `surface` is that of the protocol.
pub record Slots : Type 0 where
  pub surface : Option ℕ
  pub gl_surface : Option ℕ
  pub gl_egl_window : Option ℕ
  pub gl_active : Bool

-- The statics of the file, with the slots of the windows by address. The functions of libwayland-egl
-- are there or not.
pub record Egl : Type 0 where
  pub egl_display : Option ℕ
  pub egl_initialized : Bool
  pub swap_interval : ℤ
  pub window_create : Bool
  pub window_destroy : Bool
  pub window_resize : Bool
  pub slots : ℕ → Option Slots

-- What a call of `eglSwapBuffers` comes to; `gone` is a failure for the surface's sake.
pub data Swap : Type 0 where
  swapped : Swap
  gone : Swap
  failed : Swap

-- The answers of the libraries. `wayland_egl` is whether libwayland-egl can be opened, and the three
-- after it whether it has the functions; `platform_display` is `none` when EGL has no such function.
pub record EglLib : Type 0 where
  pub load_symbols : Bool
  pub wl_display : Bool
  pub platform_display : Option (Option ℕ)
  pub get_display : Option ℕ
  pub initialize : ℕ → Bool
  pub bind_api : ℕ → Bool
  pub choose_config : List ℤ → Option ℕ
  pub create_context : ℕ → Option ℕ → List ℤ → Option ℕ
  pub query_config : ℕ → Option ℤ
  pub wayland_egl : Bool
  pub has_create : Bool
  pub has_destroy : Bool
  pub has_resize : Bool
  pub create_egl_window : ℕ → Option ℕ
  pub create_window_surface : ℕ → ℕ → Option ℕ
  pub make_current : Option ℕ → ℕ → Bool
  pub swap_buffers : ℕ → Swap

-- The slots of a window replaced
abbrev pub set_slots : Egl → ℕ → Slots → Egl
set_slots e a v = record e { slots = λ b. if b == a then some v else e.slots b }

-- `SDLOP_Wayland_SetGLActive`, for a window or NULL
pub set_gl_active : Egl → Option ℕ → Bool → Egl
set_gl_active e none active = e
set_gl_active e (some a) active = elim (e.slots a) [
  | none ↦ e
  | some v ↦ set_slots e a (record v { gl_active = active })
]

-- The display that `ensure_egl_display` finds
abbrev pub found_display : EglLib → Option ℕ → Option ℕ
found_display lib before = elim lib.platform_display [
  | some (some d) ↦ some d
  | some none ↦ lib.get_display
  | none ↦ elim before [ some d ↦ some d | none ↦ lib.get_display ]
]

module _ {F : Type 0} (lib : EglLib) where
  -- `load_wayland_egl`
  pub load_wayland_egl : Sdl F → Egl → Sdl F × Egl × Bool
  unfolding set_error
  load_wayland_egl s e =
      if e.window_create
      then (s, e, true)
      else if not lib.wayland_egl
      then (set_error s "libwayland-egl is required for OpenGL on Wayland", e, false)
      else (let e' = record e {
        window_create = lib.has_create;
        window_destroy = lib.has_destroy;
        window_resize = lib.has_resize;
      } in
          if lib.has_create && lib.has_destroy && lib.has_resize
          then (s, e', true)
          else (set_error s "libwayland-egl is missing wl_egl_window functions", e', false))

  -- `ensure_egl_display`
  pub ensure_egl_display : Sdl F → Egl → Sdl F × Egl × Bool
  unfolding set_error
  ensure_egl_display s e =
      if e.egl_initialized
      then (s, e, true)
      else if not lib.load_symbols
      then (s, e, false)
      else if not lib.wl_display
      then (set_error s "Wayland display not available", e, false)
      else elim (found_display lib e.egl_display) [
        | none ↦ (set_error s "eglGetDisplay failed", record e { egl_display = none }, false)
        | some d ↦
            if lib.initialize d
            then (s, record e { egl_display = some d; egl_initialized = true }, true)
            else (set_error s "eglInitialize failed: 0x%x", record e { egl_display = none }, false)
      ]

  -- `pick_config`
  pub pick_config : Sdl F → GlAttributes → ℕ → Sdl F × Option ℕ
  unfolding config_attribs set_error
  pick_config s a api = elim (lib.choose_config (config_attribs a api)) [
    | none ↦ (set_error s "eglChooseConfig found no matching config", none)
    | some c ↦ (s, some c)
  ]
