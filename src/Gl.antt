-- ===== src/Gl.antt =====
-- src/SDL_gl.c: the OpenGL attributes.
pub mod Attributes
pub mod Contexts
use sdlop.Base.{ℕ, Bool, true, false, Option, none, some, if◌then◌else◌}
use sdlop.Base.Int.{ℤ, pos}

-- `SDL_GLAttr`; `other` is an `int` outside the enumeration.
pub data GlAttr : Type 0 where
  red_size : GlAttr
  green_size : GlAttr
  blue_size : GlAttr
  alpha_size : GlAttr
  buffer_size : GlAttr
  doublebuffer : GlAttr
  depth_size : GlAttr
  stencil_size : GlAttr
  accum_red_size : GlAttr
  accum_green_size : GlAttr
  accum_blue_size : GlAttr
  accum_alpha_size : GlAttr
  stereo : GlAttr
  multisamplebuffers : GlAttr
  multisamplesamples : GlAttr
  accelerated_visual : GlAttr
  retained_backing : GlAttr
  context_major_version : GlAttr
  context_minor_version : GlAttr
  context_flags : GlAttr
  context_profile_mask : GlAttr
  share_with_current_context : GlAttr
  framebuffer_srgb_capable : GlAttr
  context_release_behavior : GlAttr
  context_reset_notification : GlAttr
  context_no_error : GlAttr
  floatbuffers : GlAttr
  egl_platform : GlAttr
  other : ℤ → GlAttr

-- `SDLOP_GLAttributes`
pub record GlAttributes : Type 0 where
  pub red_size : ℤ
  pub green_size : ℤ
  pub blue_size : ℤ
  pub alpha_size : ℤ
  pub buffer_size : ℤ
  pub doublebuffer : ℤ
  pub depth_size : ℤ
  pub stencil_size : ℤ
  pub accum_red : ℤ
  pub accum_green : ℤ
  pub accum_blue : ℤ
  pub accum_alpha : ℤ
  pub stereo : ℤ
  pub multisamplebuffers : ℤ
  pub multisamplesamples : ℤ
  pub major_version : ℤ
  pub minor_version : ℤ
  pub flags : ℤ
  pub profile_mask : ℤ
  pub share_with_current_context : ℤ
  pub framebuffer_srgb_capable : ℤ
  pub floatbuffers : ℤ

-- The defaults that `init_glattrs` assigns; it leaves the accumulation sizes as they are.
pub defaults : GlAttributes → GlAttributes
defaults a = record a {
  red_size = pos 8;
  green_size = pos 8;
  blue_size = pos 8;
  alpha_size = pos 0;
  buffer_size = pos 0;
  doublebuffer = pos 1;
  depth_size = pos 16;
  stencil_size = pos 0;
  stereo = pos 0;
  multisamplebuffers = pos 0;
  multisamplesamples = pos 0;
  major_version = pos 2;
  minor_version = pos 0;
  flags = pos 0;
  profile_mask = pos 0;
  share_with_current_context = pos 0;
  framebuffer_srgb_capable = pos 0;
  floatbuffers = pos 0;
}

-- `sdlop_glattrs` with `glattrs_initialized`
pub record GlState : Type 0 where
  pub attrs : GlAttributes
  pub initialized : Bool

-- `init_glattrs`
pub init_glattrs : GlState → GlState
unfolding defaults
init_glattrs g =
    if g.initialized then g else record { attrs = defaults g.attrs; initialized = true }

-- `SDL_GL_ResetAttributes`
pub reset_attributes : GlState → GlState
unfolding init_glattrs
reset_attributes g = init_glattrs (record g { initialized = false })

-- The `switch` of `SDL_GL_SetAttribute`; `none` is its default branch.
pub set_switch : GlAttributes → GlAttr → ℤ → Option GlAttributes
set_switch a GlAttr.red_size v = some (record a { red_size = v })
set_switch a GlAttr.green_size v = some (record a { green_size = v })
set_switch a GlAttr.blue_size v = some (record a { blue_size = v })
set_switch a GlAttr.alpha_size v = some (record a { alpha_size = v })
set_switch a GlAttr.buffer_size v = some (record a { buffer_size = v })
set_switch a GlAttr.doublebuffer v = some (record a { doublebuffer = v })
set_switch a GlAttr.depth_size v = some (record a { depth_size = v })
set_switch a GlAttr.stencil_size v = some (record a { stencil_size = v })
set_switch a GlAttr.accum_red_size v = some (record a { accum_red = v })
set_switch a GlAttr.accum_green_size v = some (record a { accum_green = v })
set_switch a GlAttr.accum_blue_size v = some (record a { accum_blue = v })
set_switch a GlAttr.accum_alpha_size v = some (record a { accum_alpha = v })
set_switch a GlAttr.stereo v = some (record a { stereo = v })
set_switch a GlAttr.multisamplebuffers v = some (record a { multisamplebuffers = v })
set_switch a GlAttr.multisamplesamples v = some (record a { multisamplesamples = v })
set_switch a GlAttr.accelerated_visual v = some a
set_switch a GlAttr.retained_backing v = some a
set_switch a GlAttr.context_major_version v = some (record a { major_version = v })
set_switch a GlAttr.context_minor_version v = some (record a { minor_version = v })
set_switch a GlAttr.context_flags v = some (record a { flags = v })
set_switch a GlAttr.context_profile_mask v = some (record a { profile_mask = v })
set_switch a GlAttr.share_with_current_context v =
    some (record a { share_with_current_context = v })
set_switch a GlAttr.framebuffer_srgb_capable v = some (record a { framebuffer_srgb_capable = v })
set_switch a GlAttr.context_release_behavior v = some a
set_switch a GlAttr.context_reset_notification v = some a
set_switch a GlAttr.context_no_error v = some a
set_switch a GlAttr.floatbuffers v = some (record a { floatbuffers = v })
set_switch a GlAttr.egl_platform v = some a
set_switch a (GlAttr.other n) v = none

-- `SDL_GL_SetAttribute`; on false the caller sets the error "Unknown OpenGL attribute: %d".
pub set_attribute : GlState → GlAttr → ℤ → GlState × Bool
unfolding set_switch init_glattrs
set_attribute g attr value =
    let g' = init_glattrs g in
    elim (set_switch g'.attrs attr value) [
      | none ↦ (g', false)
      | some a ↦ (record g' { attrs = a }, true)
    ]

-- The `switch` of `SDL_GL_GetAttribute`; `none` is its default branch.
pub get_switch : GlAttributes → GlAttr → Option ℤ
get_switch a GlAttr.red_size = some a.red_size
get_switch a GlAttr.green_size = some a.green_size
get_switch a GlAttr.blue_size = some a.blue_size
get_switch a GlAttr.alpha_size = some a.alpha_size
get_switch a GlAttr.buffer_size = some a.buffer_size
get_switch a GlAttr.doublebuffer = some a.doublebuffer
get_switch a GlAttr.depth_size = some a.depth_size
get_switch a GlAttr.stencil_size = some a.stencil_size
get_switch a GlAttr.accum_red_size = some a.accum_red
get_switch a GlAttr.accum_green_size = some a.accum_green
get_switch a GlAttr.accum_blue_size = some a.accum_blue
get_switch a GlAttr.accum_alpha_size = some a.accum_alpha
get_switch a GlAttr.stereo = some a.stereo
get_switch a GlAttr.multisamplebuffers = some a.multisamplebuffers
get_switch a GlAttr.multisamplesamples = some a.multisamplesamples
get_switch a GlAttr.accelerated_visual = some (pos 0)
get_switch a GlAttr.retained_backing = none
get_switch a GlAttr.context_major_version = some a.major_version
get_switch a GlAttr.context_minor_version = some a.minor_version
get_switch a GlAttr.context_flags = some a.flags
get_switch a GlAttr.context_profile_mask = some a.profile_mask
get_switch a GlAttr.share_with_current_context = none
get_switch a GlAttr.framebuffer_srgb_capable = some a.framebuffer_srgb_capable
get_switch a GlAttr.context_release_behavior = none
get_switch a GlAttr.context_reset_notification = none
get_switch a GlAttr.context_no_error = none
get_switch a GlAttr.floatbuffers = some a.floatbuffers
get_switch a GlAttr.egl_platform = none
get_switch a (GlAttr.other n) = none

-- `SDL_GL_GetAttribute` with a pointer to fill
pub get_attribute : GlState → GlAttr → GlState × Option ℤ
unfolding get_switch init_glattrs
get_attribute g attr = let g' = init_glattrs g in (g', get_switch g'.attrs attr)
