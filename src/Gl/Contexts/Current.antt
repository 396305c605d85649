-- ===== src/Gl/Contexts/Current.antt =====
-- src/SDL_gl.c: what the record of the current context and window says.
use sdlop.Base.{
  ℕ, false, Option, none, some, ◌≡◌, refl, arith, ◌⊎◌, inl, inr, Bool-cases, ==_iff, ap, ◌==◌,
  if◌then◌else◌,
}
use sdlop.Gl.Contexts.{
  World, GlDriver, make_current, create_context, destroy_context, delete, is_current,
}

-- The context and the window that are current.
abbrev pub current : {F : Type 0} → World F → Option ℕ × Option ℕ
current g = (g.current_context, g.current_window)

-- Without a context there is no current window.
abbrev pub IsPaired : {F : Type 0} → World F → Type 0
IsPaired g = g.current_context ≡ none → g.current_window ≡ none

is_current-cases : (o : Option ℕ) (c : ℕ) → (o ≡ some c) ⊎ (is_current o c ≡ false)
is_current-cases none c = inr refl
is_current-cases (some b) c = elim (Bool-cases (b == c)) [
  | inl e ↦ inl (ap some ((==_iff b c).0 e))
  | inr e ↦ inr e
]

module _ {F : Type 0} (d : GlDriver F) where
  pub make_current-IsPaired :
      (g : World F) (w c : Option ℕ) → IsPaired g → IsPaired (make_current d g w c).0
  unfolding make_current
  make_current-IsPaired g w c p = ground arith

  delete_lem :
      (g : World F) (c : ℕ)
      → ((delete d g c).current_context ≡ g.current_context)
        × ((delete d g c).current_window ≡ g.current_window)
  unfolding delete
  delete_lem g c = ground arith

  -- What `SDL_GL_CreateContext` returns is current for its window; when it returns NULL the record is
  -- as before.
  pub create_context_lem :
      (g : World F) (w : ℕ)
      → let (g', out) = create_context d g (some w) in
        current g' ≡ elim out [ none ↦ current g | some c ↦ (some c, some w) ]
  unfolding create_context make_current
  create_context_lem g w = ground arith

  -- After `SDL_GL_DestroyContext` of the current context there is none, and no window for it; with
  -- another context the record is as before.
  pub destroy_context_lem :
      (g : World F) (c : ℕ)
      → let g' = destroy_context d g (some c) in
        current g' ≡ (if is_current g.current_context c then (none, none) else current g)
  unfolding destroy_context
  destroy_context_lem g c = ground (
    arith,
    delete_lem g c,
    delete_lem (record g { current_context = none; current_window = none }) c,
  )
