-- ===== src/Wayland/Toplevel/States.antt =====
-- src/video/wayland/sdlop_wayland.c: the flags of a window follow the states that the compositor names.
use sdlop.Base.{
  ℕ, ◌<◌, ◌^◌, ◌≡◌, ◌∙◌, refl, ap, sym, Bool, true, false, not, ◌&&◌, Bool-cases, inl, inr, some,
  List, any, if◌then◌else◌, ◌==◌, arith,
}
use sdlop.Base.Int.{ℤ}
use sdlop.Base.Bits.{has, bit, bit-bit_or, bit-clear, has-pow, bit-le-one, bit-pow_self}
use sdlop.State.{Sdl, Window}
use sdlop.Windows.{window_fullscreen, window_hidden_flag}
use sdlop.Dummy.{window_maximized, window_restored, enter_fullscreen, leave_fullscreen}
use sdlop.Wayland.{Device, WindowData}
use sdlop.Wayland.Toplevel.{
  ToplevelState, is_maximized, is_fullscreen, maximized_flag, set_data, follow, toplevel_configure,
}

module _ {F : Type 0} where
  -- What `follow` does to the flag itself and to another digit of the flags
  follow-digit :
      (k : ℕ) (wanted : Bool) (gained lost : ℕ) (s : Sdl F) (w : Window F)
      → k < 64
      → 2 ^ k < 2 ^ 64
      → bit (follow wanted (2 ^ k) gained lost (s, w)).1.flags k ≡ (if wanted then 1 else 0)
  unfolding follow
  follow-digit k wanted gained lost s w h l = ground (
    arith,
    has-pow w.flags k,
    bit-le-one w.flags k,
    bit-bit_or w.flags (2 ^ k) k,
    bit-clear 64 w.flags (2 ^ k) k l h,
    bit-pow_self k,
  )

  follow-other :
      (k i : ℕ) (wanted : Bool) (gained lost : ℕ) (s : Sdl F) (w : Window F)
      → i < 64
      → 2 ^ k < 2 ^ 64
      → bit (2 ^ k) i ≡ 0
      → bit (follow wanted (2 ^ k) gained lost (s, w)).1.flags i ≡ bit w.flags i
  unfolding follow
  follow-other k i wanted gained lost s w h l z = ground (
    arith,
    bit-le-one w.flags i,
    bit-bit_or w.flags (2 ^ k) i,
    bit-clear 64 w.flags (2 ^ k) i l h,
    z,
  )

  -- After `toplevel_configure` the flags of the window for maximized and fullscreen say what the
  -- compositor's states say, and the size of the message waits in the driver data.
  pub toplevel_configure_lem :
      (s : Sdl F) (d : Device F) (w : Window F) (wd : WindowData) (width height : ℤ)
      (states : List ToplevelState)
      → let (world, w') = toplevel_configure (s, d) w wd width height states in
        (has w'.flags maximized_flag ≡ any is_maximized states)
        × (has w'.flags window_fullscreen ≡ any is_fullscreen states)
        × (world.1.driverdata w.addr ≡ some (record wd { pending_w = width; pending_h = height }))
  unfolding toplevel_configure bit
  toplevel_configure_lem s d w wd width height states =
      let m = any is_maximized states in
      let f = any is_fullscreen states in
      let r1 = follow m (2 ^ 7) window_maximized window_restored (s, w) in
      let r2 = follow f (2 ^ 0) enter_fullscreen leave_fullscreen r1 in
      (
        has-flag 7 r2.1.flags m (
            follow-other 0 7 f enter_fullscreen leave_fullscreen r1.0 r1.1 (omega arith)
              (omega arith) refl
            ∙ follow-digit 7 m window_maximized window_restored s w (omega arith) (omega arith)),
        has-flag 0 r2.1.flags f (
            follow-digit 0 f enter_fullscreen leave_fullscreen r1.0 r1.1 (omega arith)
              (omega arith)),
        ground arith,
      )
    where
      has-flag :
          (k flags : ℕ) (b : Bool) → bit flags k ≡ (if b then 1 else 0) → has flags (2 ^ k) ≡ b
      has-flag k flags true e = has-pow flags k ∙ ap (λ (n : ℕ). n == 1) e
      has-flag k flags false e = has-pow flags k ∙ ap (λ (n : ℕ). n == 1) e

  -- `follow` leaves the size and the address alone.
  size-follow :
      (wanted : Bool) (flag gained lost : ℕ) (s : Sdl F) (w : Window F)
      → let w' = (follow wanted flag gained lost (s, w)).1 in (w'.w ≡ w.w) × (w'.h ≡ w.h)
  unfolding follow
  size-follow wanted flag gained lost s w = elim (Bool-cases (wanted && not (has w.flags flag))) [
    | inl h ↦ rw (follow, h) (refl, refl)
    | inr h ↦ elim (Bool-cases (not wanted && has w.flags flag)) [
      | inl k ↦ rw (follow, h, k) (refl, refl)
      | inr k ↦ rw (follow, h, k) (refl, refl)
    ]
  ]

  -- `toplevel_configure` does not resize the window, nor hide or show it.
  pub toplevel_configure-kept :
      (s : Sdl F) (d : Device F) (w : Window F) (wd : WindowData) (width height : ℤ)
      (states : List ToplevelState)
      → let w' = (toplevel_configure (s, d) w wd width height states).1 in
        (w'.w ≡ w.w)
        × (w'.h ≡ w.h)
        × (has w'.flags window_hidden_flag ≡ has w.flags window_hidden_flag)
  unfolding toplevel_configure bit
  toplevel_configure-kept s d w wd width height states =
      let m = any is_maximized states in
      let f = any is_fullscreen states in
      let r1 = follow m (2 ^ 7) window_maximized window_restored (s, w) in
      let r2 = follow f (2 ^ 0) enter_fullscreen leave_fullscreen r1 in
      let (w1, h1) = size-follow m (2 ^ 7) window_maximized window_restored s w in
      let (w2, h2) = size-follow f (2 ^ 0) enter_fullscreen leave_fullscreen r1.0 r1.1 in
      let digit : bit r2.1.flags 3 ≡ bit w.flags 3 =
        follow-other 0 3 f enter_fullscreen leave_fullscreen r1.0 r1.1 (omega arith) (omega arith)
          refl
        ∙ follow-other 7 3 m window_maximized window_restored s w (omega arith) (omega arith)
            refl in
      (
        w2 ∙ w1,
        h2 ∙ h1,
        has-pow r2.1.flags 3 ∙ ap (λ (n : ℕ). n == 1) digit ∙ sym (has-pow w.flags 3),
      )

  -- Where the flags agree with the states that the compositor names, `toplevel_configure` sends no
  -- event and changes no flag: it only notes the size. `SDL_SetWindowFullscreen` sets the flag before
  -- the driver asks the compositor, so the answer to it is of this kind and `ENTER_FULLSCREEN` is never
  -- sent for it.
  pub toplevel_configure_agrees :
      (s : Sdl F) (d : Device F) (w : Window F) (wd : WindowData) (width height : ℤ)
      (states : List ToplevelState)
      → has w.flags maximized_flag ≡ any is_maximized states
      → has w.flags window_fullscreen ≡ any is_fullscreen states
      → toplevel_configure (s, d) w wd width height states
        ≡ ((s, set_data d w.addr (some (record wd { pending_w = width; pending_h = height }))), w)
  unfolding toplevel_configure follow
  toplevel_configure_agrees s d w wd width height states m f = ground (arith, m, f)
