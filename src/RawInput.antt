-- ===== src/RawInput.antt =====
-- src/internal/sdlop_evdev.c: what the worker thread does with an input event, and what the main
-- thread does with what it finds in the rings. Devices, epoll and the thread itself are not modelled.
pub mod Callbacks
pub mod Pump
use sdlop.Base.{
  ℕ, zero, suc, ◌+◌, ◌-◌, ◌*◌, ◌%◌, ◌^◌, Bool, true, false, not, ◌&&◌, ◌||◌, Option, none, some,
  List, [], ◌∷◌, ◌++◌, length, ltb, leb, ◌==◌, if◌then◌else◌,
}
use sdlop.Base.Int.{ℤ, pos, leb_ℤ}
use sdlop.Ring
use sdlop.Ring.{Ring}

-- `SDLop_RawEvent`
pub record RawEvent : Type 0 where
  pub device : ℕ
  pub type : ℕ
  pub code : ℕ
  pub value : ℤ
  pub timestamp_ns : ℕ

-- A `struct input_event`
pub record InputEvent : Type 0 where
  pub sec : ℕ
  pub usec : ℕ
  pub type : ℕ
  pub code : ℕ
  pub value : ℤ

-- A registered callback: the function and its `userdata`, as addresses.
abbrev pub Callback : Type 0
Callback = ℕ × ℕ

-- The static `raw` of src/internal/sdlop_evdev.c. `callbacks` is `none` before the first registration.
-- `calls` records the calls that the worker has made, oldest first.
pub record Raw : Type 0 where
  pub running : Bool
  pub have_keyboard : Bool
  pub have_pointer : Bool
  pub sdl_ring : Ring RawEvent
  pub poll_ring : Ring RawEvent
  pub event_count : ℕ
  pub callbacks : Option (List Callback)
  pub calls : List (Callback × RawEvent)

abbrev pub sdl_ring_size : ℕ
sdl_ring_size = 2048

abbrev pub poll_ring_size : ℕ
poll_ring_size = 1024

abbrev pub max_callbacks : ℕ
max_callbacks = 8

abbrev pub ev_msc : ℕ
ev_msc = 4

-- What a read of the storage of a ring gives where nothing was written.
abbrev pub no_event : RawEvent
no_event = record { device = 0; type = 0; code = 0; value = pos 0; timestamp_ns = 0 }

-- The time stamp that `worker_main` gives an event: a stamp of the real-time clock, more than two
-- seconds ahead of the monotonic clock, is shifted back.
pub normalize : ℕ → ℕ → ℕ → ℕ
normalize rt_offset mono_now stamp =
    if ltb ((mono_now + 2000000000) % 2 ^ 64) stamp && ltb rt_offset stamp
    then stamp - rt_offset
    else stamp

-- The event that `worker_main` makes of an input event of a device.
pub translate : ℕ → ℕ → ℕ → InputEvent → RawEvent
unfolding normalize
translate rt_offset mono_now device ie = record {
  device = device;
  type = ie.type;
  code = ie.code;
  value = ie.value;
  timestamp_ns = normalize rt_offset mono_now ((ie.sec * 1000000000 + ie.usec * 1000) % 2 ^ 64);
}

calls_for : List Callback → RawEvent → List (Callback × RawEvent)
calls_for [] e = []
calls_for (c ∷ cs) e = (c, e) ∷ calls_for cs e

-- `dispatch_callbacks`
pub dispatch_callbacks : Raw → RawEvent → Raw
unfolding calls_for
dispatch_callbacks r e = elim r.callbacks [
  | none ↦ r
  | some cs ↦ record r { calls = r.calls ++ calls_for cs e }
]

-- The body of the innermost loop of `worker_main`, past the test for scan codes
pub publish : Raw → RawEvent → Raw
unfolding dispatch_callbacks
publish r e =
    let r1 = record r {
      sdl_ring = (Ring.push r.sdl_ring e).0;
      poll_ring = (Ring.push r.poll_ring e).0;
    } in
    let r2 = dispatch_callbacks r1 e in record r2 { event_count = (r2.event_count + 1) % 2 ^ 64 }

-- The innermost loop of `worker_main`: one batch of input events of a device. `msc_scan` is
-- `MSC_SCAN` of linux/input.h.
pub work : ℕ → ℕ → ℕ → ℕ → Raw → List InputEvent → Raw
unfolding publish translate
work msc_scan rt_offset mono_now device r [] = r
work msc_scan rt_offset mono_now device r (ie ∷ ies) =
    work msc_scan rt_offset mono_now device
      (if ie.type == ev_msc && ie.code == msc_scan
        then r
        else publish r (translate rt_offset mono_now device ie))
      ies

-- `SDLOP_RawInputKeyboardActive` and `SDLOP_RawInputMouseActive`
pub keyboard_active : Raw → Bool
keyboard_active r = r.running && r.have_keyboard

pub mouse_active : Raw → Bool
mouse_active r = r.running && r.have_pointer

-- `SDLop_RegisterRawEventCallback`; `memory` says whether `calloc` succeeds. On false an error is set.
pub register_callback : Bool → Raw → Option ℕ → ℕ → Raw × Bool
register_callback memory r none userdata = (r, false)
register_callback memory r (some cb) userdata =
    let old : List Callback = elim r.callbacks [ none ↦ [] | some cs ↦ cs ] in
    if leb max_callbacks (length old)
    then (r, false)
    else if memory
    then (record r { callbacks = some (old ++ ((cb, userdata) ∷ [])) }, true)
    else (r, false)

-- The entries of another function
pub without : ℕ → List Callback → List Callback
without cb [] = []
without cb ((f, u) ∷ cs) = if f == cb then without cb cs else (f, u) ∷ without cb cs

-- `SDLop_UnregisterRawEventCallback`
pub unregister_callback : Bool → Raw → ℕ → Raw
unfolding without
unregister_callback memory r cb = elim r.callbacks [
  | none ↦ r
  | some cs ↦ if memory then record r { callbacks = some (without cb cs) } else r
]

-- The loop of `SDLop_PollRawEvents`, with room for `n` more events
poll_from : ℕ → Ring RawEvent → Ring RawEvent × List RawEvent
poll_from zero ring = (ring, [])
poll_from (suc n) ring =
    let (ring', out) = Ring.pop no_event ring in
    elim out [ none ↦ (ring', []) | some e ↦ let (last, es) = poll_from n ring' in (last, e ∷ es) ]

-- `SDLop_PollRawEvents` with a buffer for `max_events`; `none` stands for -1.
pub poll_raw_events : Raw → ℤ → Raw × Option (List RawEvent)
unfolding poll_from
poll_raw_events r (pos (suc n)) =
    let (ring, es) = poll_from (suc n) r.poll_ring in (record r { poll_ring = ring }, some es)
poll_raw_events r max_events = (r, none)
