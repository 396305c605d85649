-- ===== src/Core/Flags.antt =====
-- src/SDLop_core.c: the flags of the subsystems that run.
use sdlop.Base.{
  ℕ, ◌-◌, ◌^◌, ◌<◌, ◌≡◌, refl, ◌∙◌, min, max, bit_or, bit_and, Bool, true, false, if◌then◌else◌,
  arith,
}
use sdlop.Base.Bits.{bit, has, clear, bit-le-one, bit-bit_or, bit-bit_and, bit-clear, zero-bit}
use sdlop.State.{Sdl, clear_error}
use sdlop.Core.{
  Subsystems, init, quit_subsystem, first_init, subsystem_init, subsystem_quit, optional,
  init_video, init_events_timer,
}

-- The flags that `SDL_Init` starts: video brings the events and the timer with it.
abbrev pub implied : ℕ → ℕ
implied flags = if has flags init_video then bit_or flags init_events_timer else flags

-- The subsystems leave the flags of the library alone.
pub record IsFlagFree {F : Type 0} (u : Subsystems F) : Type 0 where
  pub video_init : (s : Sdl F) → (u.video_init s).0.init_flags ≡ s.init_flags
  pub keymap_init : (s : Sdl F) → (u.keymap_init s).0.init_flags ≡ s.init_flags
  pub raw_init : (s : Sdl F) → (u.raw_init s).0.init_flags ≡ s.init_flags
  pub all_quit : (s : Sdl F) → (u.all_quit s).init_flags ≡ s.init_flags

-- The digits of the flags after a start.
new_or :
    (a b i : ℕ) → b < 2 ^ 32 → i < 32 → bit (bit_or b (clear 32 a b)) i ≡ max (bit b i) (bit a i)
new_or a b i h k =
    bit-bit_or b (clear 32 a b) i
    ∙ ground (arith, bit-clear 32 a b i h k, bit-le-one a i, bit-le-one b i)

kept-optional : {F : Type 0} (p : Sdl F × Bool) → (optional p).init_flags ≡ p.0.init_flags
unfolding optional clear_error
kept-optional (s, true) = refl
kept-optional (s, false) = refl

module _ {F : Type 0} (u : Subsystems F) (free : IsFlagFree u) where
  kept-first_init : (s : Sdl F) → (first_init u s).init_flags ≡ s.init_flags
  unfolding first_init
  kept-first_init s = ground arith

  kept-subsystem_init :
      (s : Sdl F) (flags : ℕ) → (subsystem_init u s flags).0.init_flags ≡ s.init_flags
  unfolding subsystem_init
  kept-subsystem_init s flags =
      let s1 = (u.video_init s).0 in
      let s2 = optional (u.keymap_init s1) in
      ground (
        arith,
        free.video_init s,
        free.keymap_init s1,
        kept-optional (u.keymap_init s1),
        free.raw_init s2,
        kept-optional (u.raw_init s2),
      )

  kept-subsystem_quit :
      (s : Sdl F) (flags : ℕ) → (subsystem_quit u s flags).init_flags ≡ s.init_flags
  unfolding subsystem_quit
  kept-subsystem_quit s flags = ground (arith, free.all_quit s)

  -- When `SDL_Init` succeeds the flags are those from before together with the ones asked for, video
  -- with the events and the timer; when it fails they are as before.
  pub init_lem :
      (s : Sdl F) (flags i : ℕ)
      → s.init_flags < 2 ^ 32
      → i < 32
      → let (s', done) = init u s flags in
        bit s'.init_flags i
        ≡ (if done then max (bit s.init_flags i) (bit (implied flags) i) else bit s.init_flags i)
  unfolding init
  init_lem s flags i h k =
      let s1 = first_init u s in
      let new = clear 32 (implied flags) s1.init_flags in
      ground (
        arith,
        kept-first_init s,
        kept-subsystem_init s1 new,
        new_or (implied flags) s.init_flags i h k,
        bit-clear 32 (implied flags) s.init_flags i h k,
        zero-bit i,
        bit-le-one s.init_flags i,
        bit-le-one (implied flags) i,
      )

  -- `SDL_QuitSubSystem` takes the flags that it is given out of those that are set.
  pub quit_subsystem_lem :
      (s : Sdl F) (flags i : ℕ)
      → bit_and flags s.init_flags < 2 ^ 32
      → i < 32
      → bit (quit_subsystem u s flags).init_flags i ≡ min (bit s.init_flags i) (1 - bit flags i)
  unfolding quit_subsystem
  quit_subsystem_lem s flags i h k =
      let active = bit_and flags s.init_flags in
      ground (
        arith,
        kept-subsystem_quit s active,
        bit-clear 32 s.init_flags active i h k,
        bit-bit_and flags s.init_flags i,
        zero-bit i,
        bit-le-one s.init_flags i,
        bit-le-one flags i,
      )
