-- ===== src/Tests/Videos.antt =====
-- The window calls on the two windows of `running`.
use sdlop.Base.{ℕ, ◌+◌, ◌≡◌, ◌==◌, refl, true, false, none, some, [], length, arith, if◌then◌else◌}
use sdlop.Base.Int.{ℤ}
use sdlop.State.Lists.{listed}
use sdlop.Windows.{Driver}
use sdlop.Windows.Focus.{IsLinked}
use sdlop.Windows.Calls.{destroy_window, destroy_all}
use sdlop.Windows.Calls.Destroy.{IsPlain, destroy_window_lem, destroy_all_lem}
use sdlop.Tests.Samples.{running, window_of}

running-IsLinked : IsLinked running
running-IsLinked = record {
  counted = refl;
  apart = refl;
  keyboard = refl;
  mouse = refl;
  relative = refl;
}

-- A driver that refuses relative mode, and that leaves all else to its caller.
abbrev refusing : Driver ℤ
refusing = record {
  name = "refusing";
  create_window = λ s w. (s, w, true);
  destroy_window = λ s a. s;
  show_window = none;
  hide_window = none;
  set_window_title = none;
  set_window_size = none;
  set_window_position = none;
  minimize_window = none;
  maximize_window = none;
  restore_window = none;
  set_window_fullscreen = none;
  raise_window = none;
  set_window_clear_color = none;
  set_window_relative_mouse_mode = some (λ s a on. (s, false));
}

refusing-IsPlain : IsPlain refusing
refusing-IsPlain = record { windows = λ s a. refl; linked = λ s a v. v }

destroy_window_example :
    let s = destroy_window refusing running (some 7) in
    IsLinked s
    × ((b : ℕ) → listed b s.windows ≡ (if b == 7 then false else listed b running.windows))
    × (length s.windows + 1 ≡ 2)
destroy_window_example =
    destroy_window_lem refusing refusing-IsPlain running (window_of 7 0) 7 running-IsLinked refl

destroy_all_example :
    ((destroy_all refusing 2 running).windows ≡ []) × IsLinked (destroy_all refusing 2 running)
destroy_all_example =
    destroy_all_lem refusing refusing-IsPlain 2 running running-IsLinked (omega arith)
