-- ===== src/Web/Canvas/Reached.antt =====
-- src/video/emscripten/sdlop_emscripten.c: the selectors of the windows after any sequence of windows made
-- and destroyed.
use sdlop.Base.{
  ℕ, ◌≡◌, refl, ap, ◌∙◌, sym, ==_iff, true, false, Bool-cases, Option, none, some, Option-cases,
  inl, inr, List, [], ◌∷◌, ◌==◌, arith,
}
use sdlop.State.{Sdl, Window, window_at}
use sdlop.State.Lists.{listed}
use sdlop.Windows.{unlink}
use sdlop.Web.{Selector, WebData, Page, selects, window_from_selector}
use sdlop.Web.Canvas.{create_window, destroy_window}
use sdlop.Web.Canvas.Selection.{
  unselected, well_selected, well_selected_kept, same_self, find_window-own, well_selected-data,
  create_window-well_selected,
}

-- The pages and lists of windows that making and destroying windows leads to. `SDL_CreateWindow` calls the
-- driver with a window at an address of its own before it puts it at the head of the list;
-- `SDL_DestroyWindow` calls it and then takes the window out.
pub data Reached {F : Type 0} : Page → List (Window F) → Type 0 where
  start : (p : Page) → Reached p []
  made :
      {p : Page} (s : Sdl F) (w : Window F)
      → Reached p s.windows
      → listed w.addr s.windows ≡ false
      → Reached (create_window s p w).0 (w ∷ s.windows)
  gone :
      {p : Page} {ws : List (Window F)} (w : Window F)
      → Reached p ws
      → Reached (destroy_window p w) (unlink w.addr ws)

module _ {F : Type 0} (p q : Page) (a : ℕ)
    (data_at : (b : ℕ) → (b == a) ≡ false → q.driverdata b ≡ p.driverdata b)
    (emptied : q.driverdata a ≡ none) where
  -- A window with a selector is not among those that have not.
  unselected-unlisted :
      (d : WebData) (ws : List (Window F))
      → p.driverdata a ≡ some d
      → unselected p d.selector ws ≡ true
      → listed a ws ≡ false
  unselected-unlisted d [] e h = refl
  unselected-unlisted d (w ∷ ws) e h = elim (Bool-cases (w.addr == a)) [
    | inl here ↦
        let chosen : selects (p.driverdata w.addr) d.selector ≡ true =
          ap (λ (o : Option WebData). selects o d.selector)
            (ap p.driverdata ((==_iff w.addr a).0 here) ∙ e)
          ∙ same_self d.selector in
        absurd (ground (arith, h, chosen))
    | inr there ↦ rw there (unselected-unlisted d ws e (ground (arith, h)))
  ]

  -- The data that goes away selects nothing.
  unselected_gone :
      (t : Selector) (ws : List (Window F)) → unselected p t ws ≡ true → unselected q t ws ≡ true
  unselected_gone t [] h = refl
  unselected_gone t (w ∷ ws) h =
      let rest = unselected_gone t ws (ground (arith, h)) in
      elim (Bool-cases (w.addr == a)) [
        | inl here ↦
            let none_at : q.driverdata w.addr ≡ none =
              ap q.driverdata ((==_iff w.addr a).0 here) ∙ emptied in
            rw (none_at, rest) refl
        | inr there ↦ rw (data_at w.addr there, rest) (ground (arith, h))
      ]

  unselected-unlink :
      (t : Selector) (ws : List (Window F))
      → unselected p t ws ≡ true
      → unselected q t (unlink a ws) ≡ true
  unfolding unlink
  unselected-unlink t [] h = refl
  unselected-unlink t (w ∷ ws) h = elim (Bool-cases (w.addr == a)) [
    | inl here ↦ rw here (unselected_gone t ws (ground (arith, h)))
    | inr there ↦
        let rest = unselected-unlink t ws (ground (arith, h)) in
        rw (there, data_at w.addr there, rest) (ground (arith, h))
  ]

  well_selected-unlink :
      (n : ℕ) (ws : List (Window F))
      → well_selected p n ws ≡ true
      → well_selected q n (unlink a ws) ≡ true
  unfolding unlink
  well_selected-unlink n [] h = refl
  well_selected-unlink n (w ∷ ws) h = elim (Option-cases (p.driverdata w.addr)) [
    | inl e ↦ absurd (ground (arith, h, e))
    | inr (d, e) ↦
        let free : unselected p d.selector ws ≡ true = ground (arith, h, e) in
        elim (Bool-cases (w.addr == a)) [
          | inl here ↦
              let own : p.driverdata a ≡ some d =
                ap p.driverdata (sym ((==_iff w.addr a).0 here)) ∙ e in
              rw here (
                well_selected_kept p q a data_at n n ws (λ t k. k)
                  (unselected-unlisted d ws own free) (ground (arith, h)))
          | inr there ↦
              let rest = well_selected-unlink n ws (ground (arith, h)) in
              let apart = unselected-unlink d.selector ws free in
              rw (there, data_at w.addr there, e, rest, apart) (ground (arith, h, e))
        ]
  ]

module _ {F : Type 0} where
  destroyed :
      (p : Page) (w : Window F)
      → let q = destroy_window p w in
        ((b : ℕ) → (b == w.addr) ≡ false → q.driverdata b ≡ p.driverdata b)
        × (q.driverdata w.addr ≡ none)
        × (q.next_canvas_id ≡ p.next_canvas_id)
  unfolding destroy_window
  destroyed p w =
      let itself : (w.addr == w.addr) ≡ true = (==_iff w.addr w.addr).1 refl in
      elim (Option-cases (p.driverdata w.addr)) [
        | inl e ↦ rw (destroy_window, e) (λ b other. refl, e, refl)
        | inr (d, e) ↦ rw (destroy_window, e) (λ b other. rw other refl, rw itself refl, refl)
      ]

  -- Once `emscripten_DestroyWindow` was called for a window and it is taken out of the list, the selectors
  -- of the other windows still differ, and their numbers were handed out before.
  pub destroy_window-well_selected :
      (p : Page) (ws : List (Window F)) (w : Window F)
      → well_selected p p.next_canvas_id ws ≡ true
      → let q = destroy_window p w in well_selected q q.next_canvas_id (unlink w.addr ws) ≡ true
  destroy_window-well_selected p ws w h =
      let (others, emptied, same) = destroyed p w in
      let q = destroy_window p w in
      ap (λ (n : ℕ). well_selected q n (unlink w.addr ws)) same
      ∙ well_selected-unlink p q w.addr others emptied p.next_canvas_id ws h

  Reached-well_selected :
      {p : Page} {ws : List (Window F)} → Reached p ws → well_selected p p.next_canvas_id ws ≡ true
  Reached-well_selected (start p) = refl
  Reached-well_selected (made {p} s w r off) =
      create_window-well_selected s p w (Reached-well_selected r) off
  Reached-well_selected (gone {p} {ws} w r) =
      destroy_window-well_selected p ws w (Reached-well_selected r)

  -- Whatever windows were made with `emscripten_CreateWindow` and destroyed with
  -- `emscripten_DestroyWindow`, in whatever order, each window of the list has driver data, and the
  -- selector of its canvas leads to that window.
  pub window_from_selector-Reached :
      {p : Page} {ws : List (Window F)} (s : Sdl F) (a : ℕ) {v : Window F}
      → Reached p ws
      → window_at a ws ≡ some v
      → (d : WebData) × (p.driverdata a ≡ some d)
        × (window_from_selector p (record s { windows = ws }) d.selector ≡ some v)
  unfolding window_from_selector
  window_from_selector-Reached {p} {ws} s a {v} r found =
      let n = p.next_canvas_id in
      let h = Reached-well_selected r in
      let (d, has_data) = well_selected-data p n ws a v h found in
      (d, has_data, rw (window_from_selector, find_window-own p n ws a v d h found has_data) refl)
