-- ===== src/State/Lists.antt =====
-- The list of windows of src/internal/sdlop_internal.h: finding and replacing a window.
use sdlop.Base.{
  ℕ, ◌≡◌, refl, Bool, true, false, Option, none, some, List, [], ◌∷◌, length, ◌==◌, if◌then◌else◌,
  arith,
}
use sdlop.State.{Window, window_at, put_window}

module _ {F : Type 0} where
  -- A window that is put in the list is found there.
  pub window_at-put :
      (a : ℕ) (v w : Window F) (ws : List (Window F))
      → window_at a ws ≡ some w
      → v.addr ≡ a
      → window_at a (put_window v ws) ≡ some v
  window_at-put a v w [] h e = absurd (ground (arith, h))
  window_at-put a v w (u ∷ ws) h e = ground (arith, window_at-put a v w ws, h, e)

  pub window_at-addr :
      (a : ℕ) (w : Window F) (ws : List (Window F)) → window_at a ws ≡ some w → w.addr ≡ a
  window_at-addr a w [] h = absurd (ground (arith, h))
  window_at-addr a w (u ∷ ws) h = ground (arith, window_at-addr a w ws, h)

  pub put-put :
      (a : ℕ) (v w : Window F) (ws : List (Window F))
      → window_at a ws ≡ some w
      → v.addr ≡ a
      → put_window w (put_window v ws) ≡ ws
  put-put a v w [] h e = refl
  put-put a v w (u ∷ ws) h e = ground (arith, put-put a v w ws, window_at-addr a w (u ∷ ws) h, h, e)

  -- Whether a window of the list has an address.
  abbrev pub listed : ℕ → List (Window F) → Bool
  listed a [] = false
  listed a (w ∷ ws) = if w.addr == a then true else listed a ws

  -- No two windows have the same address.
  abbrev pub distinct : List (Window F) → Bool
  distinct [] = true
  distinct (w ∷ ws) = if listed w.addr ws then false else distinct ws

  -- NULL, or the address of a window of the list.
  abbrev pub live : Option ℕ → List (Window F) → Bool
  live none ws = true
  live (some a) ws = listed a ws

  pub window_at-listed :
      (a : ℕ) (ws : List (Window F)) → window_at a ws ≡ none → listed a ws ≡ false
  window_at-listed a [] h = refl
  window_at-listed a (w ∷ ws) h = ground (arith, window_at-listed a ws, h)

  pub window_at-found :
      (a : ℕ) (w : Window F) (ws : List (Window F)) → window_at a ws ≡ some w → listed a ws ≡ true
  window_at-found a w [] h = absurd (ground (arith, h))
  window_at-found a w (u ∷ ws) h = ground (arith, window_at-found a w ws, h)

  pub listed-put :
      (b : ℕ) (v : Window F) (ws : List (Window F)) → listed b (put_window v ws) ≡ listed b ws
  listed-put b v [] = refl
  listed-put b v (w ∷ ws) = ground (arith, listed-put b v ws)

  pub distinct-put :
      (v : Window F) (ws : List (Window F)) → distinct (put_window v ws) ≡ distinct ws
  distinct-put v [] = refl
  distinct-put v (w ∷ ws) = ground (arith, distinct-put v ws, listed-put w.addr v ws)

  pub length-put : (v : Window F) (ws : List (Window F)) → length (put_window v ws) ≡ length ws
  length-put v [] = refl
  length-put v (w ∷ ws) = ground (arith, length-put v ws)

  pub live-put :
      (p : Option ℕ) (v : Window F) (ws : List (Window F)) → live p (put_window v ws) ≡ live p ws
  live-put none v ws = refl
  live-put (some a) v ws = listed-put a v ws
