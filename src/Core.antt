-- ===== src/Core.antt =====
-- src/SDLop_core.c: starting and stopping the library. The subsystems that it starts are parameters.
pub mod Flags
use sdlop.Base.{
  ℕ, zero, bit_or, bit_and, Bool, true, false, ◌&&◌, ◌||◌, Option, none, [], replicate, ◌==◌,
  if◌then◌else◌,
}
use sdlop.Base.Bits.{has, clear}
use sdlop.Clock.{monotonic_ns}
use sdlop.Event.{event_user}
use sdlop.Scancode.{scancode_count}
use sdlop.State.{Sdl, clear_error}

abbrev pub init_video : ℕ
init_video = 0x20

abbrev pub init_events_timer : ℕ
init_events_timer = 0x4001

-- The subsystems: `SDLOP_VideoInit`, `SDLOP_KeyboardSetDefaultKeymap` and `SDLOP_RawInputInit`, and
-- `SDLOP_RawInputQuit`, `SDLOP_VideoQuit` and `SDLOP_KeyboardQuit` one after the other.
pub record Subsystems (F : Type 0) : Type 0 where
  pub video_init : Sdl F → Sdl F × Bool
  pub keymap_init : Sdl F → Sdl F × Bool
  pub raw_init : Sdl F → Sdl F × Bool
  pub all_quit : Sdl F → Sdl F

module _ {F : Type 0} where
  -- What an optional subsystem that fails leaves: no error.
  optional : Sdl F × Bool → Sdl F
  optional (s, true) = s
  optional (s, false) = clear_error s

  -- `memset` of `sdlop`; the statics of the other files stay: the queue, the timer and the error.
  cleared : F → Sdl F → Sdl F
  cleared zero_f s = record s {
    init_done = false;
    init_flags = 0;
    init_monotonic_ns = 0;
    video = false;
    windows = [];
    num_windows = 0;
    next_window_id = 0;
    keystate = replicate scancode_count false;
    modstate = 0;
    keyboard_focus = none;
    mouse_focus = none;
    relative_mode_window = none;
    mouse = record {
      x = zero_f;
      y = zero_f;
      last_x = zero_f;
      last_y = zero_f;
      has_position = false;
      xrel_acc = zero_f;
      yrel_acc = zero_f;
      buttons = 0;
    };
    repeat = record {
      scancode = 0;
      rawcode = 0;
      active = false;
      next_ns = 0;
      delay_ms = 0;
      interval_ms = 0;
    };
    next_user_event = 0;
  }

module _ {F : Type 0} (u : Subsystems F) where
  -- `subsystem_init`
  pub subsystem_init : Sdl F → ℕ → Sdl F × Bool
  unfolding optional
  subsystem_init s flags =
      if has flags init_video
      then (let (s1, done) = u.video_init s in
          if done then (optional (u.raw_init (optional (u.keymap_init s1))), true) else (s1, false))
      else (s, true)

  -- `subsystem_quit`
  pub subsystem_quit : Sdl F → ℕ → Sdl F
  subsystem_quit s flags = if has flags init_video then u.all_quit s else s

  -- The part of `SDL_Init` that runs once. The eventfd is not modelled.
  pub first_init : Sdl F → Sdl F
  unfolding monotonic_ns
  first_init s =
      if s.init_done
      then s
      else (let (c, t) = monotonic_ns s.clock in
          record s {
            clock = c;
            init_monotonic_ns = t;
            next_window_id = 0;
            next_user_event = event_user;
            repeat = record s.repeat { delay_ms = 500; interval_ms = 33 };
            init_done = true;
          })

  -- `SDL_Init` and `SDL_InitSubSystem`
  pub init : Sdl F → ℕ → Sdl F × Bool
  unfolding first_init subsystem_init
  init s flags =
      let s1 = first_init s in
      let wanted = if has flags init_video then bit_or flags init_events_timer else flags in
      let new = clear 32 wanted s1.init_flags in
      if new == 0
      then (s1, true)
      else (let (s2, done) = subsystem_init s1 new in
          if done then (record s2 { init_flags = bit_or s2.init_flags new }, true) else (s2, false))

  -- `SDL_QuitSubSystem`
  pub quit_subsystem : Sdl F → ℕ → Sdl F
  unfolding subsystem_quit
  quit_subsystem s flags =
      let active = bit_and flags s.init_flags in
      if active == 0
      then s
      else (let s1 = subsystem_quit s active in
          record s1 { init_flags = clear 32 s1.init_flags active })

  -- `SDL_WasInit`
  pub was_init : Sdl F → ℕ → ℕ
  was_init s flags = if flags == 0 then s.init_flags else bit_and s.init_flags flags

  -- `SDL_Quit`, with the number 0.0f.
  pub quit : F → Sdl F → Sdl F
  unfolding subsystem_quit cleared
  quit zero_f s =
      if s.init_done
      then (let s1 =
            if s.init_flags == 0
            then s
            else record (subsystem_quit s s.init_flags) { init_flags = 0 } in
          cleared zero_f s1)
      else s
