-- ===== src/Windows/Calls/Destroy.antt =====
-- `SDL_DestroyWindow` of src/SDL_video.c and the loop of `SDLOP_VideoQuit` over all windows.
use sdlop.Base.{
  Bool, ◌==◌, pick, List-cases, ℕ, zero, suc, ◌+◌, ◌≤◌, ◌≡◌, refl, sym, ap, ◌∙◌, true, false,
  Option, none, some, inl, inr, List, [], ◌∷◌, length, if◌then◌else◌, arith,
}
use sdlop.Base.Int.{pos}
use sdlop.Event.{window_destroyed}
use sdlop.State.{Sdl, Window, window_at}
use sdlop.State.Lists.{listed, window_at-found, listed-put, distinct-put, length-put, live-put}
use sdlop.Events.{send_window_event, push_event_internal, now_ns}
use sdlop.Windows.{Driver, store, remove_window}
use sdlop.Windows.Focus.{IsLinked, remove_window-IsLinked, length-unlink}
use sdlop.Windows.Calls.{destroy_window, destroy_all}

-- What the list and the pointers of a state are.
record SameList {F : Type 0} (s t : Sdl F) : Type 0 where
  windows : s.windows ≡ t.windows
  num_windows : s.num_windows ≡ t.num_windows
  keyboard : s.keyboard_focus ≡ t.keyboard_focus
  mouse : s.mouse_focus ≡ t.mouse_focus
  relative : s.relative_mode_window ≡ t.relative_mode_window

-- A driver that leaves the list and the window pointers to its caller when it destroys a window.
pub record IsPlain {F : Type 0} (d : Driver F) : Type 0 where
  pub windows : (s : Sdl F) (a : ℕ) → (d.destroy_window s a).windows ≡ s.windows
  pub linked : (s : Sdl F) (a : ℕ) → IsLinked s → IsLinked (d.destroy_window s a)

module _ {F : Type 0} where
  send-SameList :
      (s : Sdl F) (w : Option (Window F)) (type : ℕ)
      → SameList (send_window_event s w type (pos 0) (pos 0)) s
  unfolding send_window_event push_event_internal now_ns
  send-SameList s w type = record {
    windows = ground arith;
    num_windows = ground arith;
    keyboard = ground arith;
    mouse = ground arith;
    relative = ground arith;
  }

  SameList-IsLinked : {s t : Sdl F} → SameList s t → IsLinked t → IsLinked s
  SameList-IsLinked {s} {t} h v = record {
    counted = ground (arith, h.windows, h.num_windows, v.counted);
    apart = rw h.windows v.apart;
    keyboard = rw (h.windows, h.keyboard) v.keyboard;
    mouse = rw (h.windows, h.mouse) v.mouse;
    relative = rw (h.windows, h.relative) v.relative;
  }

  store-IsLinked : {s : Sdl F} (w : Window F) → IsLinked s → IsLinked (store s w)
  store-IsLinked {s} w v = record {
    counted = v.counted ∙ sym (length-put w s.windows);
    apart = distinct-put w s.windows ∙ v.apart;
    keyboard = live-put s.keyboard_focus w s.windows ∙ v.keyboard;
    mouse = live-put s.mouse_focus w s.windows ∙ v.mouse;
    relative = live-put s.relative_mode_window w s.windows ∙ v.relative;
  }

module _ {F : Type 0} where
  shorter :
      (s : Sdl F) (a : ℕ)
      → listed a s.windows ≡ true
      → length (remove_window s a).windows + 1 ≡ length s.windows
  unfolding remove_window
  shorter s a h = ground (arith, length-unlink a s.windows, h)

module _ {F : Type 0} (d : Driver F) (plain : IsPlain d) where
  -- The state that `SDL_DestroyWindow` hands to `SDLOP_RemoveWindow`.
  abbrev before : Sdl F → Window F → ℕ → Sdl F
  before s w a =
      let s2 =
        store (send_window_event s (some w) window_destroyed (pos 0) (pos 0))
          (record w { surface = none }) in
      if s2.video then d.destroy_window s2 a else s2

  before_lem :
      (s : Sdl F) (w : Window F) (a : ℕ)
      → IsLinked s
      → IsLinked (before s w a)
        × ((b : ℕ) → listed b (before s w a).windows ≡ listed b s.windows)
        × (length (before s w a).windows ≡ length s.windows)
  before_lem s w a v =
      let s1 : Sdl F = send_window_event s (some w) window_destroyed (pos 0) (pos 0) in
      let same : SameList s1 s = send-SameList s (some w) window_destroyed in
      let w' : Window F = record w { surface = none } in
      let s2 : Sdl F = store s1 w' in
      let linked : IsLinked s2 = store-IsLinked w' (SameList-IsLinked same v) in
      let here : (b : ℕ) → listed b s2.windows ≡ listed b s.windows =
        λ b. listed-put b w' s1.windows ∙ ap (listed b) same.windows in
      let size : length s2.windows ≡ length s.windows =
        length-put w' s1.windows ∙ ap length same.windows in
      pick s2.video (d.destroy_window s2 a) s2
        (λ t.
          IsLinked t
          × ((b : ℕ) → listed b t.windows ≡ listed b s.windows)
          × (length t.windows ≡ length s.windows))
        (λ e. (
          plain.linked s2 a linked,
          λ b. ap (listed b) (plain.windows s2 a) ∙ here b,
          ap length (plain.windows s2 a) ∙ size,
        ))
        (λ e. (linked, here, size))

  destroyed :
      (s : Sdl F) (w : Window F) (a : ℕ)
      → window_at a s.windows ≡ some w
      → destroy_window d s (some a) ≡ remove_window (before s w a) a
  unfolding destroy_window
  destroyed s w a h = rw (h, destroy_window) refl

  -- `SDL_DestroyWindow` of a window of the list, with a driver that leaves the list and the window
  -- pointers alone, keeps the count, the addresses and the pointers right: the window is in no
  -- pointer and not in the list any more, every other one still is, and the list is one shorter.
  pub destroy_window_lem :
      (s : Sdl F) (w : Window F) (a : ℕ)
      → IsLinked s
      → window_at a s.windows ≡ some w
      → let s' = destroy_window d s (some a) in
        IsLinked s'
        × ((b : ℕ) → listed b s'.windows ≡ (if b == a then false else listed b s.windows))
        × (length s'.windows + 1 ≡ length s.windows)
  destroy_window_lem s w a v h =
      let old = before_lem s w a v in
      let gone = remove_window-IsLinked a old.0 in
      rw (destroyed s w a h) (
        gone.0,
        λ b. gone.1 b ∙ ap (λ (l : Bool). if b == a then false else l) (old.1 b),
        shorter (before s w a) a (old.1 a ∙ window_at-found a w s.windows h) ∙ old.2,
      )

  -- The loop of `SDLOP_VideoQuit` ends with no window, whatever windows there were: as many rounds as
  -- there are windows are enough.
  pub destroy_all_lem :
      (n : ℕ) (s : Sdl F)
      → IsLinked s
      → length s.windows ≤ n
      → ((destroy_all d n s).windows ≡ []) × IsLinked (destroy_all d n s)
  unfolding destroy_all
  destroy_all_lem zero s v h = elim (List-cases s.windows) [
    | inl e ↦ (e, v)
    | inr (w, ws, e) ↦ absurd (omega (arith, h, ap length e))
  ]
  destroy_all_lem (suc n) s v h = elim (List-cases s.windows) [
    | inl e ↦ rw (round e) (e, v)
    | inr (w, ws, e) ↦
        let step = destroy_window_lem s w w.addr v (first_at e) in
        rw (round e)
          (destroy_all_lem n (destroy_window d s (some w.addr)) step.0 (omega (arith, h, step.2)))
  ]
    where
      first_at :
          {w : Window F} {ws : List (Window F)}
          → s.windows ≡ w ∷ ws
          → window_at w.addr s.windows ≡ some w
      first_at {w} e = rw e (ground arith)

      round :
          {l : List (Window F)}
          → s.windows ≡ l
          → destroy_all d (suc n) s
            ≡ elim l [ [] ↦ s | w ∷ ws ↦ destroy_all d n (destroy_window d s (some w.addr)) ]
      round e =
          ap
            (λ (k : List (Window F)). elim k [
              | [] ↦ s
              | w ∷ ws ↦ destroy_all d n (destroy_window d s (some w.addr))
            ])
            e
