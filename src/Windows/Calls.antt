-- ===== src/Windows/Calls.antt =====
-- src/SDL_video.c: creating, showing, changing and destroying windows.
pub mod Destroy
use sdlop.Base.{
  ℕ, zero, suc, ◌+◌, ◌%◌, ◌^◌, bit_or, Bool, true, false, not, ◌&&◌, ◌||◌, Option, none, some, [],
  ◌∷◌, String, if◌then◌else◌,
}
use sdlop.Base.Int.{ℤ, pos, leb_ℤ}
use sdlop.Base.Bits.{has, clear}
use sdlop.Event.{window_shown, window_hidden, window_destroyed}
use sdlop.State.{Sdl, Window, window_at, set_error}
use sdlop.Events.{send_window_event}
use sdlop.Windows.{
  Driver, add_window, remove_window, with_window, ask, notify, store, window_hidden_flag,
}

module _ {F : Type 0} (d : Driver F) where
  -- `SDL_ShowWindow`. The flag is cleared before the driver is called, and the event comes last.
  pub show_window : Sdl F → Option ℕ → Sdl F × Bool
  show_window s p = with_window s p λ w.
      if has w.flags window_hidden_flag
      then (let w' = record w { flags = clear 64 w.flags window_hidden_flag } in
          let s' = notify d.show_window (store s w') w.addr in
          (send_window_event s' (window_at w.addr s'.windows) window_shown (pos 0) (pos 0), true))
      else (s, true)

  -- `SDL_HideWindow`
  pub hide_window : Sdl F → Option ℕ → Sdl F × Bool
  hide_window s p = with_window s p λ w.
      if has w.flags window_hidden_flag
      then (s, true)
      else (let w' = record w { flags = bit_or w.flags window_hidden_flag } in
          let s' = notify d.hide_window (store s w') w.addr in
          (send_window_event s' (window_at w.addr s'.windows) window_hidden (pos 0) (pos 0), true))

  -- `SDL_CreateWindow`; `memory` is what `calloc` gives, and `unit` is the scale 1.0f.
  pub create_window : F → Option ℕ → Sdl F → Option String → ℤ → ℤ → ℕ → Sdl F × Option ℕ
  unfolding add_window show_window
  create_window unit memory s title w h flags =
      if not (s.init_done && s.video)
      then (set_error s "Video subsystem not initialized", none)
      else elim memory [
        | none ↦ (set_error s "Out of memory", none)
        | some a ↦
            let s1 = record s { next_window_id = (s.next_window_id + 1) % 2 ^ 32 } in
            let new : Window F = record {
              addr = a;
              id = s1.next_window_id;
              title = elim title [ none ↦ "" | some t ↦ t ];
              x = pos 0;
              y = pos 0;
              w = if leb_ℤ w (pos 0) then pos 640 else w;
              h = if leb_ℤ h (pos 0) then pos 480 else h;
              flags = bit_or flags window_hidden_flag;
              text_input_active = false;
              clear_r = 0x20;
              clear_g = 0x20;
              clear_b = 0x28;
              display_scale = unit;
              surface = none;
            } in
            let (s2, made, done) = d.create_window s1 new in
            if done
            then (let s3 = add_window s2 made in
                if has flags window_hidden_flag
                then (s3, some a)
                else ((show_window s3 (some a)).0, some a))
            else (s2, none)
      ]

  -- `SDL_DestroyWindow`. The memory that is freed is not modelled.
  pub destroy_window : Sdl F → Option ℕ → Sdl F
  unfolding remove_window
  destroy_window s none = s
  destroy_window s (some a) = elim (window_at a s.windows) [
    | none ↦ s
    | some w ↦
        let s1 = send_window_event s (some w) window_destroyed (pos 0) (pos 0) in
        let s2 = store s1 (record w { surface = none }) in
        let s3 = if s2.video then d.destroy_window s2 a else s2 in remove_window s3 a
  ]

  -- The loop of `SDLOP_VideoQuit` over at most `n` windows, and its end: `sdlop.video` is set to
  -- NULL after the driver has quit.
  pub destroy_all : ℕ → Sdl F → Sdl F
  unfolding destroy_window
  destroy_all zero s = s
  destroy_all (suc n) s = elim s.windows [
    | [] ↦ s
    | w ∷ ws ↦ destroy_all n (destroy_window s (some w.addr))
  ]

  -- `SDL_SetWindowTitle`
  pub set_window_title : Sdl F → Option ℕ → Option String → Sdl F × Bool
  set_window_title s p title = with_window s p λ w.
      ask d.set_window_title (store s (record w { title = elim title [ none ↦ "" | some t ↦ t ] }))
        w.addr

  -- `SDL_SetWindowSize`
  pub set_window_size : Sdl F → Option ℕ → ℤ → ℤ → Sdl F × Bool
  set_window_size s p w h = with_window s p λ v.
      if leb_ℤ w (pos 0) || leb_ℤ h (pos 0)
      then (set_error s "Invalid window size", false)
      else ask d.set_window_size (store s (record v { w = w; h = h })) v.addr

  -- `SDL_MinimizeWindow`, `SDL_MaximizeWindow`, `SDL_RestoreWindow` and `SDL_RaiseWindow`
  pub minimize_window : Sdl F → Option ℕ → Sdl F × Bool
  minimize_window s p = with_window s p λ w. (notify d.minimize_window s w.addr, true)

  pub maximize_window : Sdl F → Option ℕ → Sdl F × Bool
  maximize_window s p = with_window s p λ w. (notify d.maximize_window s w.addr, true)

  pub restore_window : Sdl F → Option ℕ → Sdl F × Bool
  restore_window s p = with_window s p λ w. (notify d.restore_window s w.addr, true)

  pub raise_window : Sdl F → Option ℕ → Sdl F × Bool
  raise_window s p = with_window s p λ w. (notify d.raise_window s w.addr, true)
