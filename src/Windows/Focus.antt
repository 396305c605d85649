-- ===== src/Windows/Focus.antt =====
-- The window list of src/SDL_video.c and the window pointers of the state: no pointer dangles.
use sdlop.Base.{
  ℕ, ◌+◌, ◌≡◌, ◌≢◌, refl, ap, ◌∙◌, true, false, Option, none, some, List, [], ◌∷◌, length, ◌==◌,
  if◌then◌else◌, arith,
}
use sdlop.State.{Sdl, Window}
use sdlop.State.Lists.{listed, distinct, live}
use sdlop.Windows.{add_window, remove_window, unlink, linked, forget, is_at}

-- The count is the length of the list, its addresses differ, and the three window pointers are live.
pub record IsLinked {F : Type 0} (s : Sdl F) : Type 0 where
  pub counted : s.num_windows ≡ length s.windows
  pub apart : distinct s.windows ≡ true
  pub keyboard : live s.keyboard_focus s.windows ≡ true
  pub mouse : live s.mouse_focus s.windows ≡ true
  pub relative : live s.relative_mode_window s.windows ≡ true

module _ {F : Type 0} where
  pub length-unlink :
      (a : ℕ) (ws : List (Window F))
      → length ws ≡ length (unlink a ws) + (if listed a ws then 1 else 0)
  unfolding unlink
  length-unlink a [] = refl
  length-unlink a (w ∷ ws) = ground (arith, length-unlink a ws)

  linked_listed : (a : ℕ) (ws : List (Window F)) → linked a ws ≡ listed a ws
  unfolding linked
  linked_listed a [] = refl
  linked_listed a (w ∷ ws) = ground (arith, linked_listed a ws)

  unlink_other : (a b : ℕ) (ws : List (Window F)) → b ≢ a → listed b (unlink a ws) ≡ listed b ws
  unfolding unlink
  unlink_other a b [] h = refl
  unlink_other a b (w ∷ ws) h = ground (arith, unlink_other a b ws h)

  unlink_self : (a : ℕ) (ws : List (Window F)) → distinct ws ≡ true → listed a (unlink a ws) ≡ false
  unfolding unlink
  unlink_self a [] d = refl
  unlink_self a (w ∷ ws) d = ground (arith, unlink_self a ws)

  unlink-distinct :
      (a : ℕ) (ws : List (Window F)) → distinct ws ≡ true → distinct (unlink a ws) ≡ true
  unfolding unlink
  unlink-distinct a [] d = refl
  unlink-distinct a (w ∷ ws) d = ground (arith, unlink-distinct a ws, unlink_other a w.addr ws)

  forget-live :
      (p : Option ℕ) (a : ℕ) (ws : List (Window F))
      → live p ws ≡ true
      → live (forget p a) (unlink a ws) ≡ true
  forget-live none a ws h = refl
  forget-live (some b) a ws h = ground (arith, unlink_other a b ws)

  live-cons :
      (p : Option ℕ) (w : Window F) (ws : List (Window F))
      → live p ws ≡ true
      → live p (w ∷ ws) ≡ true
  live-cons none w ws h = refl
  live-cons (some a) w ws h = ground (arith, h)

  -- `SDLOP_AddWindow` of a window at a fresh address keeps the invariant.
  pub add_window-IsLinked :
      {s : Sdl F} (w : Window F)
      → IsLinked s
      → listed w.addr s.windows ≡ false
      → IsLinked (add_window s w)
  unfolding add_window
  add_window-IsLinked {s} w v fresh = record {
    counted = ap (λ n. n + 1) v.counted ∙ omega arith;
    apart = ground (arith, v.apart, fresh);
    keyboard = live-cons s.keyboard_focus w s.windows v.keyboard;
    mouse = live-cons s.mouse_focus w s.windows v.mouse;
    relative = live-cons s.relative_mode_window w s.windows v.relative;
  }

  -- `SDLOP_RemoveWindow` keeps the invariant, and so leaves no pointer to the window: the window is
  -- not listed any more, every other one still is, and a window that had the mouse takes the position
  -- of the mouse with it.
  pub remove_window-IsLinked :
      {s : Sdl F} (a : ℕ)
      → IsLinked s
      → let s' = remove_window s a in
        IsLinked s'
        × ((b : ℕ) → listed b s'.windows ≡ (if b == a then false else listed b s.windows))
        × (s'.mouse.has_position ≡ (if is_at s.mouse_focus a then false else s.mouse.has_position))
  unfolding remove_window
  remove_window-IsLinked {s} a v = (
    record {
      counted = ground (arith, length-unlink a s.windows, linked_listed a s.windows, v.counted);
      apart = unlink-distinct a s.windows v.apart;
      keyboard = forget-live s.keyboard_focus a s.windows v.keyboard;
      mouse = forget-live s.mouse_focus a s.windows v.mouse;
      relative = forget-live s.relative_mode_window a s.windows v.relative;
    },
    λ b. ground (arith, unlink_self a s.windows v.apart, unlink_other a b s.windows),
    ground arith,
  )
