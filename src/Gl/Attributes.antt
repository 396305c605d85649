-- ===== src/Gl/Attributes.antt =====
-- What the attribute calls of src/SDL_gl.c promise to one another.
use sdlop.Base.{
  Option-cases, inl, inr, ℕ, Bool, true, false, some, ◌≡◌, ◌≢◌, refl, arith, if◌then◌else◌,
}
use sdlop.Base.Int.{ℤ}
use sdlop.Gl.{
  init_glattrs, GlAttr, GlAttributes, GlState, set_switch, set_attribute, get_switch, get_attribute,
  reset_attributes,
}

-- The attributes that a caller can both set and read back.
abbrev pub is_stored : GlAttr → Bool
is_stored GlAttr.accelerated_visual = false
is_stored GlAttr.retained_backing = false
is_stored GlAttr.context_release_behavior = false
is_stored GlAttr.context_reset_notification = false
is_stored GlAttr.context_no_error = false
is_stored GlAttr.egl_platform = false
is_stored GlAttr.share_with_current_context = false
is_stored (GlAttr.other n) = false
is_stored _ = true

-- The number of an attribute in `SDL_GLAttr`
abbrev pub number : GlAttr → ℕ
number GlAttr.red_size = 0
number GlAttr.green_size = 1
number GlAttr.blue_size = 2
number GlAttr.alpha_size = 3
number GlAttr.buffer_size = 4
number GlAttr.doublebuffer = 5
number GlAttr.depth_size = 6
number GlAttr.stencil_size = 7
number GlAttr.accum_red_size = 8
number GlAttr.accum_green_size = 9
number GlAttr.accum_blue_size = 10
number GlAttr.accum_alpha_size = 11
number GlAttr.stereo = 12
number GlAttr.multisamplebuffers = 13
number GlAttr.multisamplesamples = 14
number GlAttr.accelerated_visual = 15
number GlAttr.retained_backing = 16
number GlAttr.context_major_version = 17
number GlAttr.context_minor_version = 18
number GlAttr.context_flags = 19
number GlAttr.context_profile_mask = 20
number GlAttr.share_with_current_context = 21
number GlAttr.framebuffer_srgb_capable = 22
number GlAttr.context_release_behavior = 23
number GlAttr.context_reset_notification = 24
number GlAttr.context_no_error = 25
number GlAttr.floatbuffers = 26
number GlAttr.egl_platform = 27
number (GlAttr.other n) = 28

-- Once they are initialized the attributes are not set up again.
settled : (g : GlState) → (init_glattrs g).initialized ≡ true
settled g = unfold init_glattrs in ground arith

again : (g : GlState) → init_glattrs (init_glattrs g) ≡ init_glattrs g
again g = unfold init_glattrs in ground arith

get_switch-set_switch :
    (a : GlAttributes) (attr : GlAttr) (v : ℤ) {b : GlAttributes}
    → is_stored attr ≡ true
    → set_switch a attr v ≡ some b
    → get_switch b attr ≡ some v
unfolding set_switch get_switch
get_switch-set_switch a GlAttr.red_size v s e = ground arith
get_switch-set_switch a _ v s e = ground arith

-- An attribute that can be read back reads as it was last set, whatever was set before.
pub get_attribute-set_attribute :
    (g : GlState) (attr : GlAttr) (v : ℤ)
    → is_stored attr ≡ true
    → let (g', done) = set_attribute g attr v in
      (done ≡ true) × ((get_attribute g' attr).1 ≡ some v)
unfolding set_attribute get_attribute
get_attribute-set_attribute g GlAttr.red_size v s = ground arith
get_attribute-set_attribute g _ v s = ground arith

get_switch-set_other :
    (a : GlAttributes) (x y : GlAttr) (v : ℤ) {b : GlAttributes}
    → number x ≢ number y
    → set_switch a x v ≡ some b
    → get_switch b y ≡ get_switch a y
unfolding set_switch get_switch
get_switch-set_other a GlAttr.red_size GlAttr.red_size v ne e = absurd (ne refl)
get_switch-set_other a _ _ v ne e = ground arith

-- `SDL_GL_SetAttribute` of one attribute leaves what `SDL_GL_GetAttribute` gives for every other one
-- alone, whether it succeeds or not.
pub get_attribute-set_other :
    (g : GlState) (x y : GlAttr) (v : ℤ)
    → number x ≢ number y
    → (get_attribute (set_attribute g x v).0 y).1 ≡ (get_attribute g y).1
unfolding set_attribute get_attribute
get_attribute-set_other g x y v ne = elim (Option-cases (set_switch (init_glattrs g).attrs x v)) [
  | inl e ↦ rw (set_attribute, e, get_attribute, again g) refl
  | inr (b, e) ↦ rw (set_attribute, e, get_attribute) (ground arith)
]

-- The accumulation buffer sizes
abbrev pub is_accum : GlAttr → Bool
is_accum GlAttr.accum_red_size = true
is_accum GlAttr.accum_green_size = true
is_accum GlAttr.accum_blue_size = true
is_accum GlAttr.accum_alpha_size = true
is_accum _ = false

-- After `SDL_GL_ResetAttributes` every attribute but the accumulation sizes reads the same whatever
-- was set before; the accumulation sizes are a defect, for they read what was set before.
pub reset_attributes_lem :
    (g h : GlState) (attr : GlAttr)
    → get_switch (reset_attributes g).attrs attr ≡ (
        if is_accum attr
        then get_switch g.attrs attr
        else get_switch (reset_attributes h).attrs attr)
unfolding reset_attributes get_switch
reset_attributes_lem g h GlAttr.red_size = refl
reset_attributes_lem g h _ = ground arith
