-- ===== src/Dummy/Fullscreen.antt =====
-- `SDL_SetWindowFullscreen` of src/SDL_video.c with the driver of src/video/dummy/sdlop_dummy.c.
use sdlop.Base.{ℕ, ◌≡◌, refl, ◌∙◌, ap, true, false, some, bit_or, arith}
use sdlop.Base.Bits.{has, clear, bit, bit-bit_or, bit-clear, has-pow, bit-le-one, bit-pow_self}
use sdlop.Base.Int.{pos}
use sdlop.State.{Sdl, Window, window_at, put_window}
use sdlop.State.Lists.{window_at-put, window_at-addr}
use sdlop.Windows.{window_fullscreen, window_flags, store}
use sdlop.Events.{send_window_event, push_event_internal, now_ns}
use sdlop.Windows.Modes.{set_window_fullscreen}
use sdlop.Dummy.{leave_fullscreen, dummy, set_fullscreen}

bit-one : bit 1 0 ≡ 1
bit-one = bit-pow_self 0

-- The flag of fullscreen, as set and as cleared.
has-set : (flags : ℕ) → has (bit_or flags window_fullscreen) window_fullscreen ≡ true
has-set flags =
    has-pow (bit_or flags 1) 0 ∙ ground (arith, bit-bit_or flags 1 0, bit-one, bit-le-one flags 0)

has-clear : (flags : ℕ) → has (clear 64 flags window_fullscreen) window_fullscreen ≡ false
has-clear flags =
    has-pow (clear 64 flags 1) 0
    ∙ ground (arith, bit-clear 64 flags 1 0 (omega arith) (omega arith), bit-one)

module _ {F : Type 0} where
  -- The events leave the windows alone.
  pub windows-send :
      (s : Sdl F) (w : Window F) (type : ℕ)
      → (send_window_event s (some w) type (pos 0) (pos 0)).windows ≡ s.windows
  unfolding send_window_event push_event_internal now_ns
  windows-send s w type = ground arith

  -- What the driver does to a window that has the flag: it takes it away.
  set_fullscreen-again :
      (s : Sdl F) (a : ℕ) (w : Window F)
      → window_at a s.windows ≡ some w
      → has w.flags window_fullscreen ≡ true
      → window_at a (set_fullscreen s a).0.windows
        ≡ some (record w { flags = clear 64 w.flags window_fullscreen })
  unfolding set_fullscreen
  set_fullscreen-again s a w h on =
      let w' : Window F = record w { flags = clear 64 w.flags window_fullscreen } in
      ground (
        arith,
        h,
        on,
        windows-send (store s w') w' leave_fullscreen,
        window_at-put a w' w s.windows h (window_at-addr a w s.windows h),
      )

  set_fullscreen-done : (s : Sdl F) (a : ℕ) → (set_fullscreen s a).1 ≡ true
  unfolding set_fullscreen
  set_fullscreen-done s a = refl

  -- A defect: with the offscreen driver a request to make a window that is not fullscreen fullscreen
  -- returns true, and the flag of the window is clear afterwards: the caller sets the flag before
  -- the driver runs, and the driver takes a window with the flag out of fullscreen.
  pub fullscreen_undone :
      (s : Sdl F) (a : ℕ) (w : Window F)
      → s.video ≡ true
      → window_at a s.windows ≡ some w
      → has w.flags window_fullscreen ≡ false
      → let (s', done) = set_window_fullscreen dummy s (some a) true in
        (done ≡ true) × (has (window_flags s' (some a)) window_fullscreen ≡ false)
  unfolding set_window_fullscreen dummy window_flags
  fullscreen_undone s a w v h off =
      let w1 : Window F = record w { flags = bit_or w.flags window_fullscreen } in
      let at : w.addr ≡ a = window_at-addr a w s.windows h in
      let there : window_at w.addr (put_window w1 s.windows) ≡ some w1 =
        ap (λ (i : ℕ). window_at i (put_window w1 s.windows)) at
        ∙ window_at-put a w1 w s.windows h at in
      ground (
        arith,
        v,
        h,
        off,
        set_fullscreen-done (store s w1) w.addr,
        set_fullscreen-again (store s w1) w.addr w1 there (has-set w.flags),
        has-clear w1.flags,
        at,
      )
