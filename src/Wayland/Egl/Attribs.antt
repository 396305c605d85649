-- ===== src/Wayland/Egl/Attribs.antt =====
-- src/video/wayland/sdlop_wayland_gl.c: the attribute lists as EGL reads them.
use sdlop.Base.{
  ℕ, ◌≤◌, ◌≡◌, refl, Bool, true, false, Bool-cases, inl, inr, Option, none, some, List, [], ◌∷◌,
  ◌++◌, length, ◌==◌, if◌then◌else◌, arith,
}
use sdlop.Base.Int.{ℤ, pos, ltb_ℤ, eqb_ℤ}
use sdlop.Base.Bits.{has}
use sdlop.Gl.{GlAttributes}
use sdlop.Wayland.Egl.{
  bits_of, egl_none, config_attribs, context_attribs, opengl_api, wants_debug, wants_forward,
}

-- How EGL reads a list: names, each with a value after it, up to `EGL_NONE` where a name would stand.
-- The result is the names; `none` is a list that is read past its end.
pub names_of : List ℤ → Option (List ℤ)
names_of [] = none
names_of (k ∷ []) = if eqb_ℤ k egl_none then some [] else none
names_of (k ∷ v ∷ rest) =
    let more = names_of rest in
    if eqb_ℤ k egl_none then some [] else elim more [ none ↦ none | some ks ↦ some (k ∷ ks) ]

-- A defect: EGL reads the list of a desktop context as the two versions and the profile when neither the
-- debug flag nor the forward compatible flag is set. With one of them it reads past the end of the
-- list, and with both it reads an attribute 1, which there is not, for a flag stands where the name of an
-- attribute must.
pub names_of-context_attribs :
    (a : GlAttributes)
    → names_of (context_attribs a opengl_api) ≡ (
        if wants_debug a
        then (if wants_forward a
            then some (pos 0x3098 ∷ pos 0x30fb ∷ pos 0x30fd ∷ pos 1 ∷ [])
            else none)
        else (if wants_forward a then none else some (pos 0x3098 ∷ pos 0x30fb ∷ pos 0x30fd ∷ [])))
unfolding names_of context_attribs
names_of-context_attribs a = elim (Bool-cases (has (bits_of a.flags) 0x1)) [
  | inl d ↦ elim (Bool-cases (has (bits_of a.flags) 0x2)) [
    | inl f ↦ rw (d, f) refl
    | inr f ↦ rw (d, f) refl
  ]
  | inr d ↦ elim (Bool-cases (has (bits_of a.flags) 0x2)) [
    | inl f ↦ rw (d, f) refl
    | inr f ↦ rw (d, f) refl
  ]
]

config_fits : (a : GlAttributes) (api : ℕ) → length (config_attribs a api) ≤ 24
unfolding config_attribs
config_fits a api = elim (Bool-cases (ltb_ℤ (pos 0) a.multisamplesamples)) [
  | inl h ↦ rw (config_attribs, h) (omega arith)
  | inr h ↦ rw (config_attribs, h) (omega arith)
]

desktop_fits :
    (b c : Bool)
    → length
        ((if b then pos 0x1 ∷ [] else []) ++ (if c then pos 0x2 ∷ [] else []) ++ (egl_none ∷ []))
      ≤ 3
desktop_fits true true = omega arith
desktop_fits true false = omega arith
desktop_fits false true = omega arith
desktop_fits false false = omega arith

context_fits : (a : GlAttributes) (api : ℕ) → length (context_attribs a api) ≤ 12
unfolding context_attribs
context_fits a api = elim (Bool-cases (api == opengl_api)) [
  | inl h ↦ rw (context_attribs, h) (omega (arith, desktop_fits (wants_debug a) (wants_forward a)))
  | inr h ↦ rw (context_attribs, h) (omega arith)
]

-- Whatever the attributes are, the list of `pick_config` fits its array of 24, and that of the context
-- its array of 12.
pub attribs_fit :
    (a : GlAttributes) (api : ℕ)
    → (length (config_attribs a api) ≤ 24) × (length (context_attribs a api) ≤ 12)
attribs_fit a api = (config_fits a api, context_fits a api)
