-- ===== src/Web/Gl.antt =====
-- src/video/emscripten/sdlop_emscripten.c: the contexts of WebGL, as numbers that the browser gives.
use sdlop.Base.{
  ◌+◌, ◌*◌, ℕ, Bool, true, false, not, ◌&&◌, ◌||◌, Option, none, some, List, [], ◌∷◌, if◌then◌else◌,
}
use sdlop.Base.Int.{ℤ, pos, ltb_ℤ, leb_ℤ, eqb_ℤ}
use sdlop.State.{Sdl, Window, set_error}
use sdlop.Gl.{GlAttributes}
use sdlop.Web.{Selector, WebData, Page}
use sdlop.Surface.{Surface}
use sdlop.Web.Canvas.{set_data}

-- The fields of `EmscriptenWebGLContextAttributes` that `emscripten_GL_CreateContext` sets from the
-- attributes; it clears two more.
pub record ContextAttributes : Type 0 where
  pub major_version : ℕ
  pub alpha : Bool
  pub depth : Bool
  pub stencil : Bool
  pub antialias : Bool

pub context_attributes : GlAttributes → ContextAttributes
context_attributes a =
    let want_es3 =
      (eqb_ℤ a.profile_mask (pos 4) && leb_ℤ (pos 3) a.major_version)
      || (eqb_ℤ a.profile_mask (pos 0) && leb_ℤ (pos 3) a.major_version) in
    record {
      major_version = if want_es3 then 2 else 1;
      alpha = ltb_ℤ (pos 0) a.alpha_size;
      depth = ltb_ℤ (pos 0) a.depth_size;
      stencil = ltb_ℤ (pos 0) a.stencil_size;
      antialias = ltb_ℤ (pos 0) a.multisamplebuffers;
    }

-- What the browser does: the context that it makes for a canvas, which is not positive when it makes
-- none, the one for the software surface, and whether it makes a context current.
pub record Browser : Type 0 where
  pub create_context : Selector → ContextAttributes → ℤ
  pub create_plain : Selector → ℤ
  pub make_current : ℤ → Bool

-- The contexts that `emscripten_GL_DeleteContext` clears
abbrev pub forget_context : ℤ → Option WebData → Option WebData
forget_context c none = none
forget_context c (some d) =
    if eqb_ℤ d.webgl_context c then some (record d { webgl_context = pos 0 }) else some d

pub forget_from : {F : Type 0} → ℤ → List (Window F) → Page → Page
forget_from c [] p = p
forget_from c (w ∷ ws) p =
    forget_from c ws (set_data p w.addr (forget_context c (p.driverdata w.addr)))

-- The context of `sw_ensure_gl`, made when there is none
abbrev pub plain_context : Browser → WebData → WebData
plain_context browser d =
    if eqb_ℤ d.sw_context (pos 0)
    then record d { sw_context = browser.create_plain d.selector }
    else d

module _ {F : Type 0} (browser : Browser) where
  -- `emscripten_GL_CreateContext`: on NULL an error is set.
  pub gl_create_context : Sdl F → Page → GlAttributes → Window F → Sdl F × Page × Option ℤ
  unfolding context_attributes set_error
  gl_create_context s p attrs w = elim (p.driverdata w.addr) [
    | none ↦ (set_error s "No window data", p, none)
    | some d ↦
        let handle = browser.create_context d.selector (context_attributes attrs) in
        if leb_ℤ handle (pos 0)
        then (set_error s "WebGL context creation failed (%d)", p, none)
        else if browser.make_current handle
        then (s, set_data p w.addr (some (record d { webgl_context = handle })), some handle)
        else (
          set_error s "WebGL make-current failed",
          set_data p w.addr (some (record d { webgl_context = pos 0 })),
          none,
        )
  ]

  -- `emscripten_GL_MakeCurrent`
  pub gl_make_current : Sdl F → ℤ → Sdl F × Bool
  unfolding set_error
  gl_make_current s context =
      if browser.make_current context
      then (s, true)
      else (set_error s "WebGL make-current failed", false)

  -- `emscripten_GL_DeleteContext`
  pub gl_delete_context : Sdl F → Page → ℤ → Page
  unfolding forget_from
  gl_delete_context s p context = forget_from context s.windows p

  -- `sw_ensure_gl`; what it draws with is left out. A context that was not made stays in the data.
  pub sw_ensure_gl : Sdl F → Page → Window F → Sdl F × Page × Bool
  unfolding set_error
  sw_ensure_gl s p w = elim (p.driverdata w.addr) [
    | none ↦ (set_error s "No window data", p, false)
    | some d ↦
        let v = plain_context browser d in
        let q = set_data p w.addr (some v) in
        if eqb_ℤ d.sw_context (pos 0) && leb_ℤ v.sw_context (pos 0)
        then (set_error s "WebGL context creation failed (%d)", q, false)
        else if browser.make_current v.sw_context
        then (s, set_data p w.addr (some (record v { sw_gl_ready = true })), true)
        else (set_error s "WebGL make-current failed", q, false)
  ]

-- `emscripten_DestroyWindowFramebuffer`; the texture and the program are the browser's.
pub destroy_framebuffer : {F : Type 0} → Page → Window F → Page
destroy_framebuffer p w = elim (p.driverdata w.addr) [
  | none ↦ p
  | some d ↦
      if d.sw_gl_ready && not (eqb_ℤ d.sw_context (pos 0))
      then set_data p w.addr (some (record d { sw_gl_ready = false }))
      else p
]

-- `emscripten_GL_SetSwapInterval`, and `emscripten_GL_GetSwapInterval`
pub gl_set_swap_interval : Page → ℤ → Page × Bool
gl_set_swap_interval p interval = (record p { swap_interval = interval }, true)

pub gl_get_swap_interval : Page → ℤ × Bool
gl_get_swap_interval p = (p.swap_interval, true)

-- `emscripten_UpdateWindowFramebuffer`: the texel that `glTexImage2D` makes of a pixel, red first, when
-- it reads tight rows of four bytes as `GL_RGBA`.
unfoldable pub texel : Surface → ℕ → ℕ → Option (ℕ × ℕ × ℕ × ℕ)
texel s x y = elim s.pixels [
  | none ↦ none
  | some m ↦ let a = (y * s.w + x) * 4 in some (m a, m (a + 1), m (a + 2), m (a + 3))
]
