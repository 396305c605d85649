-- ===== src/Web/Input/Locks.antt =====
-- src/video/emscripten/sdlop_emscripten.c: the pointer lock of the browser, and the motion under it.
use sdlop.Base.{
  ℕ, ◌≡◌, ◌↔◌, refl, ap, sym, ◌∙◌, ==_iff, subst, Bool, true, false, ◌&&◌, Option, none, some, List,
  [], ◌∷◌, Bool-cases, inl, inr, ◌==◌, if◌then◌else◌, arith,
}
use sdlop.State.{Sdl, Window}
use sdlop.State.Lists.{listed}
use sdlop.Web.{Selector, WebData, Page, canvas, extra, same_selector}
use sdlop.Web.Input.{
  LockId, no_id, of_canvas, foreign, names_selector, lock_window, lock_from, pointerlock_cb,
}

-- The pointer is held by the canvas of a selector, as far as `pointerlock_cb` takes it: the id is that of the
-- canvas, or there is none.
abbrev pub IsHolder : LockId → Selector → Type 0
IsHolder no_id t = Unit
IsHolder (of_canvas h) t = h ≡ t
IsHolder foreign t = ⊥

same_selector-eq : (h t : Selector) → same_selector h t ≡ true → h ≡ t
same_selector-eq canvas canvas e = refl
same_selector-eq canvas (extra k) e = absurd (ground (arith, e))
same_selector-eq (extra k) canvas e = absurd (ground (arith, e))
same_selector-eq (extra k) (extra m) e = ap extra ((==_iff k m).0 e)

same_selector_refl : (t : Selector) → same_selector t t ≡ true
same_selector_refl canvas = refl
same_selector_refl (extra k) = (==_iff k k).1 refl

held :
    (is_active : Bool) (id : LockId) (t : Selector)
    → (is_active && names_selector id t ≡ true) ↔ (is_active ≡ true) × IsHolder id t
held false id t = (λ e. absurd (ground (arith, e)), λ h. h.0)
held true no_id t = (λ e. (refl, tt), λ h. refl)
held true (of_canvas h) t = (
  λ e. (refl, same_selector-eq h t e),
  λ k. ap (same_selector h) (sym k.1) ∙ same_selector_refl h,
)
held true foreign t = (λ e. absurd (ground (arith, e)), λ h. absurd h.1)

-- The data of a window once the browser has said what holds the pointer
abbrev told : Bool → LockId → Option WebData → Option WebData
told is_active id none = none
told is_active id (some d) =
    some (record d { pointer_locked = is_active && names_selector id d.selector })

told_twice :
    (is_active : Bool) (id : LockId) (o : Option WebData)
    → told is_active id (told is_active id o) ≡ told is_active id o
told_twice is_active id none = refl
told_twice is_active id (some d) = refl

module _ {F : Type 0} (is_active : Bool) (id : LockId) where
  lock_hit :
      (s : Sdl F) (p : Page) (w : Window F)
      → (lock_window is_active id (s, p) w).1.driverdata w.addr
        ≡ told is_active id (p.driverdata w.addr)
  unfolding lock_window
  lock_hit s p w = ground (arith)

  lock_miss :
      (s : Sdl F) (p : Page) (w : Window F) (a : ℕ)
      → (w.addr == a) ≡ false
      → (lock_window is_active id (s, p) w).1.driverdata a ≡ p.driverdata a
  unfolding lock_window
  lock_miss s p w a h = ground (arith, h)

  lock_window_lem :
      (s : Sdl F) (p : Page) (w : Window F) (a : ℕ)
      → (lock_window is_active id (s, p) w).1.driverdata a
        ≡ (if w.addr == a then told is_active id (p.driverdata a) else p.driverdata a)
  lock_window_lem s p w a = elim (Bool-cases (w.addr == a)) [
    | inl h ↦
        subst
          (λ (b : ℕ).
            (lock_window is_active id (s, p) w).1.driverdata b
            ≡ (if w.addr == b then told is_active id (p.driverdata b) else p.driverdata b))
          ((==_iff w.addr a).0 h) (rw ((==_iff w.addr w.addr).1 refl) (lock_hit s p w))
    | inr h ↦ rw h (lock_miss s p w a h)
  ]

  lock_from_lem :
      (ws : List (Window F)) (s : Sdl F) (p : Page) (a : ℕ)
      → (lock_from is_active id ws (s, p)).1.driverdata a
        ≡ (if listed a ws then told is_active id (p.driverdata a) else p.driverdata a)
  unfolding lock_from
  lock_from_lem [] s p a = refl
  lock_from_lem (w ∷ ws) s p a =
      let next = lock_window is_active id (s, p) w in
      ground (
        arith,
        lock_from_lem ws next.0 next.1 a,
        lock_window_lem s p w a,
        told_twice is_active id (p.driverdata a),
      )

  -- After `pointerlock_cb` a window of the list with driver data is locked exactly when the lock is active
  -- and the id is that of its own canvas, or, a defect, empty: an element without an id locks the windows
  -- of all canvases. Nothing else of the data changes, and no data of a window that is not on the list.
  pub pointerlock_cb_lem :
      (s : Sdl F) (p : Page) (a c : ℕ) {d : WebData}
      → listed a s.windows ≡ true
      → p.driverdata a ≡ some d
      → listed c s.windows ≡ false
      → let p' = (pointerlock_cb (s, p) is_active id).1 in
        (locked : Bool) × (p'.driverdata a ≡ some (record d { pointer_locked = locked }))
        × ((locked ≡ true) ↔ (is_active ≡ true) × IsHolder id d.selector)
        × (p'.driverdata c ≡ p.driverdata c)
  unfolding pointerlock_cb
  pointerlock_cb_lem s p a c {d} on_list has_data off_list = (
    is_active && names_selector id d.selector,
    lock_from_lem s.windows s p a ∙ rw (on_list, has_data) refl,
    held is_active id d.selector,
    lock_from_lem s.windows s p c ∙ rw off_list refl,
  )
