-- ===== src/Windows/Modes/Refusal.antt =====
-- `SDL_SetWindowRelativeMouseMode` of src/SDL_mouse.c when the driver refuses.
use sdlop.Base.{ℕ, ◌≡◌, ap, ◌∙◌, Bool, true, false, Option, some, if◌then◌else◌, arith}
use sdlop.State.{Sdl, Window, window_at, put_window}
use sdlop.State.Lists.{window_at-put, window_at-addr, put-put}
use sdlop.Mouse.{window_mouse_relative_mode}
use sdlop.Windows.{Driver, store, forget}
use sdlop.Windows.Modes.{set_window_relative_mouse_mode, set_flag, restore, drive}

module _ {F : Type 0} where
  -- Putting a window back undoes a change to it.
  undone :
      (s : Sdl F) (a flags : ℕ) (w : Window F)
      → window_at a s.windows ≡ some w
      → let w1 = record w { flags = flags } in
        (t : Sdl F)
        → t.windows ≡ put_window w1 s.windows
        → (restore t (window_at w.addr t.windows) w.flags).windows ≡ s.windows
  unfolding restore
  undone s a flags w h t e =
      let w1 : Window F = record w { flags = flags } in
      let at : w.addr ≡ a = window_at-addr a w s.windows h in
      let there : window_at w.addr t.windows ≡ some w1 =
        ap (λ ws. window_at w.addr ws) e
        ∙ (ap (λ (i : ℕ). window_at i (put_window w1 s.windows)) at
            ∙ window_at-put a w1 w s.windows h at) in
      rw there (ap (λ ws. put_window w ws) e ∙ put-put a w1 w s.windows h at)

module _ {F : Type 0} (d : Driver F) (f : Sdl F → ℕ → Bool → Sdl F × Bool) where
  -- When the driver refuses and has left the windows alone, `SDL_SetWindowRelativeMouseMode` returns false, and the windows
  -- and the window in relative mode are those from before the call.
  pub relative_mode_refused :
      (s : Sdl F) (w : Window F) (a : ℕ) (enabled : Bool)
      → d.set_window_relative_mouse_mode ≡ some f
      → ((t : Sdl F) (b : ℕ)
          → ((f t b enabled).1 ≡ false) × ((f t b enabled).0.windows ≡ t.windows))
      → s.video ≡ true
      → window_at a s.windows ≡ some w
      → let (s', done) = set_window_relative_mouse_mode d s (some a) enabled in
        (done ≡ false)
        × (s'.windows ≡ s.windows)
        × (s'.relative_mode_window ≡ s.relative_mode_window)
  unfolding set_window_relative_mouse_mode drive
  relative_mode_refused s w a enabled op refuses v h =
      let flags : ℕ = set_flag enabled window_mouse_relative_mode w.flags in
      let mode : Option ℕ = if enabled then some w.addr else forget s.relative_mode_window w.addr in
      let s1 : Sdl F = record (store s (record w { flags = flags })) {
        relative_mode_window = mode;
      } in
      let at : w.addr ≡ a = window_at-addr a w s.windows h in
      let no : ((f s1 w.addr enabled).1 ≡ false) × ((f s1 w.addr enabled).0.windows ≡ s1.windows) =
        refuses s1 w.addr in
      ground (arith, op, v, h, no, undone s a flags w h (f s1 w.addr enabled).0 no.1)
