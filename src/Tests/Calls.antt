-- ===== src/Tests/Calls.antt =====
-- The time, the public event calls, the subsystem flags and the OpenGL calls.
use sdlop.Base.{◌≡◌, refl, max, true, false, some, arith, if◌then◌else◌}
use sdlop.Base.Int.{ℤ}
use sdlop.Base.Bits.{bit}
use sdlop.Queue.{stored, slot_at}
use sdlop.Queue.Contents.{contents, offer}
use sdlop.Events.{push_event}
use sdlop.Events.Push.{stamped, push_event_lem}
use sdlop.Core.{Subsystems, init}
use sdlop.Core.Flags.{IsFlagFree, init_lem, implied}
use sdlop.Tests.Samples.{running, two_events-IsValid, user_event}

push_event_example :
    let (s, done, out) = push_event running (some user_event) in
    let e = stamped running user_event in
    ((contents s.queue, done)
      ≡ offer (contents running.queue) (stored running.queue.slots (slot_at 2) e))
    × (out ≡ some e)
    × (s.error ≡ (if done then "" else "Event queue is full (%d events)"))
push_event_example = push_event_lem running user_event two_events-IsValid

-- Subsystems that succeed and change nothing but the driver.
abbrev started : Subsystems ℤ
started = record {
  video_init = λ s. (record s { video = true }, true);
  keymap_init = λ s. (s, true);
  raw_init = λ s. (s, false);
  all_quit = λ s. record s { video = false };
}

started-IsFlagFree : IsFlagFree started
started-IsFlagFree = record {
  video_init = λ s. refl;
  keymap_init = λ s. refl;
  raw_init = λ s. refl;
  all_quit = λ s. refl;
}

init_example :
    let (s, done) = init started running 0x120 in
    bit s.init_flags 8 ≡ (if done then max (bit 0x4021 8) (bit (implied 0x120) 8) else bit 0x4021 8)
init_example = init_lem started started-IsFlagFree running 0x120 8 (omega arith) (omega arith)
