-- ===== src/Tests/Samples.antt =====
-- The inputs that the tests share. C's `float` is the type of the integers here.
use sdlop.Keysym.{Keysym, KeysymValues}
use sdlop.Base.{
  ℕ, ◌*◌, ◌/◌, ◌^◌, ◌≡◌, min, Bool, true, false, Option, none, some, [], ◌∷◌, replicate, refl,
  arith, leb, if◌then◌else◌,
}
use sdlop.Base.Int.{ℤ, pos, ltb_ℤ, leb_ℤ, eqb_ℤ, negsuc, ◌+ℤ◌, ◌-ℤ◌, ◌≤ℤ◌}
use sdlop.Clock.{Clock}
use sdlop.Clock.Ticks.{IsMonotone}
use sdlop.Event.{Event, Payload, common, external, slot_text, text_input, event_quit, event_user}
use sdlop.Queue.{Queue, Slot, blank}
use sdlop.Queue.Contents.{IsValid}
use sdlop.State.{Sdl, Window}
use sdlop.Float.{Float, IsOrdered}
use sdlop.Gl.{GlAttributes}

-- A clock that shows a second more at each reading, up to a thousand.
abbrev pub clock_at : Option ℕ → Bool → Clock
clock_at origin counter_first = record {
  reading = λ i. record { sec = min i 1000; nsec = 0 };
  reads = 5;
  origin = origin;
  counter_first = counter_first;
}

pub clock_at-IsMonotone : (o : Option ℕ) (first : Bool) → IsMonotone (clock_at o first)
clock_at-IsMonotone o first = record { grows = λ i. ground arith }

abbrev pub quit_slot : Slot ℤ
quit_slot = record {
  event = record { type = event_quit; timestamp = 9; window_id = 0; payload = common };
  textbuf = [];
}

-- A text event that points at slot 1.
abbrev pub text_slot : Slot ℤ
text_slot = record {
  event = record {
    type = text_input;
    timestamp = 10;
    window_id = 1;
    payload = Payload.text (slot_text 1);
  };
  textbuf = 104 ∷ 105 ∷ [];
}

-- A text event that a caller pushes.
abbrev pub typed : Event ℤ
typed = record {
  type = text_input;
  timestamp = 11;
  window_id = 1;
  payload = Payload.text (external (111 ∷ 107 ∷ []));
}

abbrev pub user_event : Event ℤ
user_event = record {
  type = event_user;
  timestamp = 0;
  window_id = 0;
  payload = Payload.user (pos 4) 0 0;
}

abbrev pub two_events : Queue ℤ
two_events = record { slots = quit_slot ∷ text_slot ∷ replicate 126 blank; head = 2; tail = 0 }

pub two_events-IsValid : IsValid two_events
two_events-IsValid = record {
  storage = refl;
  head_in = omega arith;
  tail_in = omega arith;
  fits = omega arith;
}

abbrev pub window_of : ℕ → ℕ → Window ℤ
window_of addr flags = record {
  addr = addr;
  id = addr;
  title = "";
  x = pos 0;
  y = pos 0;
  w = pos 640;
  h = pos 480;
  flags = flags;
  text_input_active = true;
  clear_r = 0x20;
  clear_g = 0x20;
  clear_b = 0x28;
  display_scale = pos 1;
  surface = none;
}

-- The library with two windows, at the addresses 7 and 8; the first has the focus.
abbrev pub running : Sdl ℤ
running = record {
  queue = two_events;
  clock = clock_at (some 3000000000) false;
  error = "";
  init_done = true;
  init_flags = 0x4021;
  init_monotonic_ns = 2000000000;
  video = true;
  windows = window_of 7 0 ∷ window_of 8 0 ∷ [];
  num_windows = 2;
  next_window_id = 8;
  keystate = replicate 512 false;
  modstate = 0;
  keyboard_focus = some 7;
  mouse_focus = some 7;
  relative_mode_window = none;
  mouse = record {
    x = pos 10;
    y = pos 20;
    last_x = pos 10;
    last_y = pos 20;
    has_position = true;
    xrel_acc = pos 0;
    yrel_acc = pos 0;
    buttons = 2;
  };
  repeat = record {
    scancode = 4;
    rawcode = 30;
    active = true;
    next_ns = 4999999999;
    delay_ms = 500;
    interval_ms = 33;
  };
  next_user_event = 0x8000;
}

-- The numbers of the symbols as X11 documents them.
abbrev pub x11 : KeysymValues
x11 Keysym.escape = 0xff1b
x11 Keysym.return = 0xff0d
x11 Keysym.kp_enter = 0xff8d
x11 Keysym.tab = 0xff09
x11 Keysym.iso_left_tab = 0xfe20
x11 Keysym.back_space = 0xff08
x11 Keysym.delete = 0xffff
x11 Keysym.insert = 0xff63
x11 Keysym.home = 0xff50
x11 Keysym.end = 0xff57
x11 Keysym.page_up = 0xff55
x11 Keysym.page_down = 0xff56
x11 Keysym.left = 0xff51
x11 Keysym.right = 0xff53
x11 Keysym.up = 0xff52
x11 Keysym.down = 0xff54
x11 Keysym.caps_lock = 0xffe5
x11 Keysym.num_lock = 0xff7f
x11 Keysym.scroll_lock = 0xff14
x11 Keysym.print = 0xff61
x11 Keysym.pause = 0xff13
x11 Keysym.menu = 0xff67
x11 Keysym.space = 32
x11 Keysym.shift_l = 0xffe1
x11 Keysym.shift_r = 0xffe2
x11 Keysym.control_l = 0xffe3
x11 Keysym.control_r = 0xffe4
x11 Keysym.alt_l = 0xffe9
x11 Keysym.alt_r = 0xffea
x11 Keysym.super_l = 0xffeb
x11 Keysym.super_r = 0xffec
x11 Keysym.kp_space = 0xff80
x11 Keysym.kp_tab = 0xff89
x11 Keysym.kp_multiply = 0xffaa
x11 Keysym.kp_add = 0xffab
x11 Keysym.kp_subtract = 0xffad
x11 Keysym.kp_decimal = 0xffae
x11 Keysym.kp_divide = 0xffaf
x11 Keysym.kp_equal = 0xffbd
x11 Keysym.kp_separator = 0xffac
x11 Keysym.kp_0 = 0xffb0
x11 Keysym.kp_1 = 0xffb1
x11 Keysym.kp_2 = 0xffb2
x11 Keysym.kp_3 = 0xffb3
x11 Keysym.kp_4 = 0xffb4
x11 Keysym.kp_5 = 0xffb5
x11 Keysym.kp_6 = 0xffb6
x11 Keysym.kp_7 = 0xffb7
x11 Keysym.kp_8 = 0xffb8
x11 Keysym.kp_9 = 0xffb9
x11 Keysym.lower_a = 97
x11 Keysym.lower_z = 122
x11 Keysym.upper_a = 65
x11 Keysym.upper_z = 90
x11 Keysym.f1 = 0xffbe
x11 Keysym.f24 = 0xffd5
x11 Keysym.no_symbol = 0

abbrev pub whole : Float
whole = record {
  Carrier = ℤ;
  of_int = λ x. x;
  add = λ a b. a +ℤ b;
  sub = λ a b. a -ℤ b;
  lt = ltb_ℤ;
  le = leb_ℤ;
  eq = eqb_ℤ;
  div_120 = λ x. x;
  one = pos 1;
  no_pos = negsuc 999;
}

-- Integers that are rounded as C's `float` does above 2^24, at least where 25 bits hold them
abbrev rounded : ℤ → ℤ
rounded (pos n) = if leb n (2 ^ 24) then pos n else pos (2 * (n / 2))
rounded (negsuc n) = negsuc n

abbrev pub single : Float
single = record whole { of_int = rounded }

single_positive : (a : ℤ) → ltb_ℤ (pos 0) a ≡ true → ltb_ℤ (pos 0) (rounded a) ≡ true
single_positive (pos n) h = ground (arith, h)
single_positive (negsuc n) h = ground (arith, h)

single_mono :
    (a b : ℤ)
    → pos 0 ≤ℤ a
    → b ≤ℤ pos (2 ^ 24)
    → ltb_ℤ a b ≡ true
    → ltb_ℤ (rounded a) (rounded b) ≡ true
single_mono (pos n) (pos m) k l h = ground (arith, k, l, h)
single_mono (pos n) (negsuc m) k l h = ground (arith, k, l, h)
single_mono (negsuc n) (pos m) k l h = ground (arith, k, l, h)
single_mono (negsuc n) (negsuc m) k l h = ground (arith, k, l, h)

pub single-IsOrdered : IsOrdered single
single-IsOrdered = record {
  irrefl = λ x. ground arith;
  lt_not-le = λ x y e. ground arith;
  positive = single_positive;
  mono = single_mono;
}

abbrev pub attributes : GlAttributes
attributes = record {
  red_size = pos 8;
  green_size = pos 8;
  blue_size = pos 8;
  alpha_size = pos 8;
  buffer_size = pos 0;
  doublebuffer = pos 1;
  depth_size = pos 16;
  stencil_size = pos 0;
  accum_red = pos 4;
  accum_green = pos 0;
  accum_blue = pos 0;
  accum_alpha = pos 0;
  stereo = pos 0;
  multisamplebuffers = pos 0;
  multisamplesamples = pos 0;
  major_version = pos 2;
  minor_version = pos 1;
  flags = pos 0;
  profile_mask = pos 0;
  share_with_current_context = pos 0;
  framebuffer_srgb_capable = pos 0;
  floatbuffers = pos 0;
}
