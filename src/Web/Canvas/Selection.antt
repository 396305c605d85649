-- ===== src/Web/Canvas/Selection.antt =====
-- src/video/emscripten/sdlop_emscripten.c: the selectors of the windows tell them apart.
use sdlop.Base.{
  ℕ, ◌+◌, ◌≡◌, refl, ap, ◌∙◌, sym, ==_iff, Bool, true, false, not, ◌&&◌, Bool-cases, Option, none,
  some, Option-cases, inl, inr, List, [], ◌∷◌, length, ltb, ◌==◌, if◌then◌else◌, arith,
}
use sdlop.State.{Sdl, Window, window_at}
use sdlop.State.Lists.{listed}
use sdlop.Web.{Selector, WebData, Page, canvas, extra, selects, find_window, same_selector}
use sdlop.Web.Canvas.{
  create_window, is_first, register_input_callbacks, set_data, max_windows, fresh,
}

-- The number of a selector is used up.
abbrev pub used : ℕ → Selector → Bool
used n canvas = true
used n (extra k) = ltb k n

used_next : (n : ℕ) (t : Selector) → used n t ≡ true → used (n + 1) t ≡ true
used_next n canvas h = refl
used_next n (extra k) h = ground (arith, h)

unused : (n : ℕ) (t : Selector) → used n t ≡ true → same_selector t (extra n) ≡ false
unused n canvas h = refl
unused n (extra k) h = ground (arith, h)

pub same_self : (t : Selector) → same_selector t t ≡ true
same_self canvas = refl
same_self (extra k) = ground arith

same_sym : (t u : Selector) → same_selector t u ≡ same_selector u t
same_sym canvas canvas = refl
same_sym canvas (extra k) = refl
same_sym (extra k) canvas = refl
same_sym (extra k) (extra m) = ground arith

-- No window of a list has the selector.
abbrev pub unselected : {F : Type 0} → Page → Selector → List (Window F) → Bool
unselected p t [] = true
unselected p t (w ∷ ws) = not (selects (p.driverdata w.addr) t) && unselected p t ws

-- The data of a window beside those after it: it is there, the number of its selector is used up, and
-- the others have other selectors.
abbrev pub apart : {F : Type 0} → Page → ℕ → Option WebData → List (Window F) → Bool
apart p n none ws = false
apart p n (some d) ws = used n d.selector && unselected p d.selector ws

-- The windows of a list have data with selectors that differ, and whose numbers are below `n`.
abbrev pub well_selected : {F : Type 0} → Page → ℕ → List (Window F) → Bool
well_selected p n [] = true
well_selected p n (w ∷ ws) = apart p n (p.driverdata w.addr) ws && well_selected p n ws

module _ {F : Type 0} where
  -- A window without the selector is not found by it.
  not_selected :
      (p : Page) (t : Selector) (a : ℕ) (v : Window F) (d : WebData) (ws : List (Window F))
      → window_at a ws ≡ some v
      → p.driverdata a ≡ some d
      → unselected p t ws ≡ true
      → same_selector d.selector t ≡ false
  not_selected p t a v d [] found has_data h = absurd (ground (arith, found))
  not_selected p t a v d (w ∷ ws) found has_data h = elim (Bool-cases (w.addr == a)) [
    | inl here ↦
        let e : w.addr ≡ a = (==_iff w.addr a).0 here in
        let s : selects (p.driverdata w.addr) t ≡ false = ground (arith, h) in
        let q : p.driverdata w.addr ≡ some d = ap p.driverdata e ∙ has_data in
        ap (λ (o : Option WebData). selects o t) (sym q) ∙ s
    | inr there ↦
        not_selected p t a v d ws (ground (arith, found, there)) has_data (ground (arith, h))
  ]

  -- Every window of such a list has data.
  pub well_selected-data :
      (p : Page) (n : ℕ) (ws : List (Window F)) (a : ℕ) (v : Window F)
      → well_selected p n ws ≡ true
      → window_at a ws ≡ some v
      → (d : WebData) × (p.driverdata a ≡ some d)
  well_selected-data p n [] a v h found = absurd (ground (arith, found))
  well_selected-data p n (w ∷ ws) a v h found = elim (Bool-cases (w.addr == a)) [
    | inl here ↦ elim (Option-cases (p.driverdata w.addr)) [
      | inl e ↦ absurd (ground (arith, h, e))
      | inr (d, e) ↦ (d, ap p.driverdata (sym ((==_iff w.addr a).0 here)) ∙ e)
    ]
    | inr there ↦ well_selected-data p n ws a v (ground (arith, h)) (ground (arith, found, there))
  ]

  -- Where the selectors differ, each leads to its window.
  pub find_window-own :
      (p : Page) (n : ℕ) (ws : List (Window F)) (a : ℕ) (v : Window F) (d : WebData)
      → well_selected p n ws ≡ true
      → window_at a ws ≡ some v
      → p.driverdata a ≡ some d
      → find_window p ws d.selector ≡ some v
  unfolding find_window
  find_window-own p n [] a v d h found has_data = absurd (ground (arith, found))
  find_window-own p n (w ∷ ws) a v d h found has_data = elim (Bool-cases (w.addr == a)) [
    | inl here ↦
        let q : p.driverdata w.addr ≡ some d =
          ap p.driverdata ((==_iff w.addr a).0 here) ∙ has_data in
        rw (find_window, q, same_self d.selector) (rw here at found)
    | inr there ↦
        let later : window_at a ws ≡ some v = rw there at found in
        elim (Option-cases (p.driverdata w.addr)) [
          | inl e ↦ absurd (ground (arith, h, e))
          | inr (other, e) ↦
              let free : unselected p other.selector ws ≡ true = ground (arith, h, e) in
              let missed : same_selector other.selector d.selector ≡ false =
                same_sym other.selector d.selector
                ∙ not_selected p other.selector a v d ws later has_data free in
              rw (find_window, e, missed)
                (find_window-own p n ws a v d (ground (arith, h)) later has_data)
        ]
  ]

  -- A selector with a new number is free.
  unselected_extra :
      (p : Page) (n : ℕ) (ws : List (Window F))
      → well_selected p n ws ≡ true
      → unselected p (extra n) ws ≡ true
  unselected_extra p n [] h = refl
  unselected_extra p n (w ∷ ws) h = elim (Option-cases (p.driverdata w.addr)) [
    | inl e ↦ absurd (ground (arith, h, e))
    | inr (d, e) ↦ ground (arith, h, e, unused n d.selector, unselected_extra p n ws)
  ]

  -- The list has no other window.
  is_first-empty :
      (a : ℕ) (ws : List (Window F)) → is_first a ws ≡ true → listed a ws ≡ false → ws ≡ []
  unfolding is_first
  is_first-empty a [] h k = refl
  is_first-empty a (w ∷ ws) h k = absurd (ground (arith, h, k))

  module _ (p q : Page) (a : ℕ)
      (data_at : (b : ℕ) → (b == a) ≡ false → q.driverdata b ≡ p.driverdata b) where
    unselected_kept :
        (t : Selector) (ws : List (Window F))
        → listed a ws ≡ false
        → unselected q t ws ≡ unselected p t ws
    unselected_kept t [] off = refl
    unselected_kept t (w ∷ ws) off =
        let other : (w.addr == a) ≡ false = ground (arith, off) in
        rw (data_at w.addr other) (
          ap (λ (b : Bool). not (selects (p.driverdata w.addr) t) && b)
            (unselected_kept t ws (ground (arith, off))))

    -- The data of a window that is not on the list may change, and more numbers be used up.
    pub well_selected_kept :
        (n m : ℕ) (ws : List (Window F))
        → ((t : Selector) → used n t ≡ true → used m t ≡ true)
        → listed a ws ≡ false
        → well_selected p n ws ≡ true
        → well_selected q m ws ≡ true
    well_selected_kept n m [] more off h = refl
    well_selected_kept n m (w ∷ ws) more off h =
        let other : (w.addr == a) ≡ false = ground (arith, off) in
        let rest = well_selected_kept n m ws more (ground (arith, off)) (ground (arith, h)) in
        elim (Option-cases (p.driverdata w.addr)) [
          | inl e ↦ absurd (ground (arith, h, e))
          | inr (d, e) ↦
              rw
                (data_at w.addr other, e, rest, unselected_kept d.selector ws (ground (arith, off)))
                (ground (arith, h, e, more d.selector))
        ]

registered :
    (p : Page) (selector : Selector)
    → let q = (register_input_callbacks p selector).0 in
      ((b : ℕ) → q.driverdata b ≡ p.driverdata b) × (q.next_canvas_id ≡ p.next_canvas_id)
unfolding register_input_callbacks
registered p selector = elim (Bool-cases (ltb (length p.selectors) max_windows)) [
  | inl h ↦ rw (register_input_callbacks, h) (λ b. refl, refl)
  | inr h ↦ rw (register_input_callbacks, h) (λ b. refl, refl)
]

module _ {F : Type 0} where
  -- The page after `emscripten_CreateWindow`
  created :
      (s : Sdl F) (p : Page) (w : Window F)
      → let q = (create_window s p w).0 in
        let first = is_first w.addr s.windows in
        ((b : ℕ) → (b == w.addr) ≡ false → q.driverdata b ≡ p.driverdata b)
        × (q.driverdata w.addr
            ≡ some (fresh (if first then canvas else extra p.next_canvas_id) (not first)))
        × (q.next_canvas_id ≡ (if first then p.next_canvas_id else p.next_canvas_id + 1))
  unfolding create_window
  created s p w =
      let itself : (w.addr == w.addr) ≡ true = (==_iff w.addr w.addr).1 refl in
      elim (Bool-cases (is_first w.addr s.windows)) [
        | inl only ↦
            let next = set_data p w.addr (some (fresh canvas false)) in
            let (same, id) = registered next canvas in
            rw (create_window, only)
              (λ b other. same b ∙ rw other refl, same w.addr ∙ rw itself refl, id)
        | inr more ↦
            let t = extra p.next_canvas_id in
            let next =
              set_data (record p { next_canvas_id = p.next_canvas_id + 1 }) w.addr
                (some (fresh t true)) in
            let (same, id) = registered next t in
            rw (create_window, more)
              (λ b other. same b ∙ rw other refl, same w.addr ∙ rw itself refl, id)
      ]

  -- The selectors still differ after `emscripten_CreateWindow` of a window that is not on the list yet.
  pub create_window-well_selected :
      (s : Sdl F) (p : Page) (w : Window F)
      → well_selected p p.next_canvas_id s.windows ≡ true
      → listed w.addr s.windows ≡ false
      → let q = (create_window s p w).0 in well_selected q q.next_canvas_id (w ∷ s.windows) ≡ true
  create_window-well_selected s p w h off =
      let q = (create_window s p w).0 in
      let (others, own, next) = created s p w in
      elim (Bool-cases (is_first w.addr s.windows)) [
        | inl only ↦
            let empty = is_first-empty w.addr s.windows only off in rw (own, only, empty) refl
        | inr more ↦
            let n = p.next_canvas_id in
            let free : unselected q (extra n) s.windows ≡ true =
              unselected_kept p q w.addr others (extra n) s.windows off
              ∙ unselected_extra p n s.windows h in
            let id : q.next_canvas_id ≡ n + 1 = next ∙ rw more refl in
            let kept : well_selected q q.next_canvas_id s.windows ≡ true =
              ap (λ (k : ℕ). well_selected q k s.windows) id
              ∙ well_selected_kept p q w.addr others n (n + 1) s.windows (used_next n) off h in
            let mine : q.driverdata w.addr ≡ some (fresh (extra n) true) = own ∙ rw more refl in
            let below : used q.next_canvas_id (extra n) ≡ true =
              ap (λ (k : ℕ). used k (extra n)) id ∙ ground arith in
            rw (mine, free, kept, below) refl
      ]
