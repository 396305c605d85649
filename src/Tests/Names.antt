-- ===== src/Tests/Names.antt =====
-- Key names and the drained rings on concrete inputs.
use sdlop.Base.{true, false, none, ◌≡◌, ◌≢◌, refl, [], ◌∷◌, replicate, arith}
use sdlop.Base.Int.{pos}
use sdlop.Keynames.Names.{
  get_scancode_name, named_scancode, capital, get_key_name, get_key_from_name,
}
use sdlop.Keynames.Names.RoundTrip.{get_key_name-get_key_from_name, get_key_from_name-get_key_name}
use sdlop.Scancode.Names.{scancode_names}
use sdlop.Ring.{Ring}
use sdlop.Ring.Refine.{IsValid}
use sdlop.Keyboard.{Xkb}
use sdlop.RawInput.{Raw, RawEvent, no_event, sdl_ring_size}
use sdlop.RawInput.Pump.{Main, pump_from}
use sdlop.RawInput.Pump.Drain.{pending, pump_all, pump_from_drains}
use sdlop.Tests.Samples.{x11, running, whole}

-- A ring of 2048 slots with a key press in it.
abbrev pressed : RawEvent
pressed = record { device = 0; type = 1; code = 30; value = pos 1; timestamp_ns = 2500000000 }

abbrev busy_ring : Ring RawEvent
busy_ring = record {
  head = 1;
  tail = 0;
  dropped = 0;
  mask = 2047;
  slots = pressed ∷ replicate 2047 no_event;
}

busy_ring-IsValid : IsValid 11 busy_ring
busy_ring-IsValid = record {
  small = omega arith;
  mask_is = refl;
  storage = refl;
  head_in = omega arith;
  tail_in = omega arith;
  fits = omega arith;
}

abbrev busy : Raw
busy = record {
  running = true;
  have_keyboard = true;
  have_pointer = false;
  sdl_ring = busy_ring;
  poll_ring = busy_ring;
  event_count = 1;
  callbacks = none;
  calls = [];
}

-- No keymap: keys repeat never and give no text.
abbrev silent : Xkb
silent = record {
  state_ready = false;
  has_keymap = false;
  one_sym = λ k. 0;
  repeats = λ k. false;
  utf8 = λ k. [];
  value = x11;
}

abbrev still : Main whole silent
still = (running, record { hi_res_x_acc = pos 0; hi_res_y_acc = pos 0 })

pump_from_drains_example :
    let (r, m, count) = pump_from whole silent sdl_ring_size busy still in
    (m ≡ pump_all whole silent still (pressed ∷ [])) × (count ≡ 1) × (pending 11 r.sdl_ring ≡ [])
pump_from_drains_example = pump_from_drains whole silent busy still busy_ring-IsValid

named_a : get_scancode_name 4 ≢ []
unfolding get_scancode_name scancode_names
named_a e = ground (arith, e)

get_key_name-get_key_from_name_example :
    (get_key_name running [] (get_key_from_name (get_scancode_name 4))).2 ≡ get_scancode_name 4
get_key_name-get_key_from_name_example =
    get_key_name-get_key_from_name running [] 4 (omega arith) named_a (omega arith)

euro_unnamed : named_scancode 0x20ac ≡ 0
unfolding named_scancode
euro_unnamed = refl

get_key_from_name-get_key_name_example :
    get_key_from_name (get_key_name running [] 0x20ac).2 ≡ capital 0x20ac
get_key_from_name-get_key_name_example =
    get_key_from_name-get_key_name running [] 0x20ac (omega arith) (omega arith) euro_unnamed
      (omega arith)
