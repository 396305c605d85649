-- ===== src/RawInput/Pump/Drain.antt =====
-- src/internal/sdlop_evdev.c: what the main thread takes out of the two rings.
use sdlop.Base.{
  ℕ, zero, suc, min, ◌≤◌, ◌≡◌, refl, ap, ◌∙◌, some, List, [], ◌∷◌, length, take, drop, take_whole,
  drop_whole, arith,
}
use sdlop.Base.Int.{pos}
use sdlop.Float.{Float}
use sdlop.Keyboard.{Xkb}
use sdlop.Ring
use sdlop.Ring.{Ring}
use sdlop.Ring.Refine.{IsValid, contents, pop_nothing, pop_oldest, pop-IsValid, length-contents}
use sdlop.RawInput.{Raw, RawEvent, no_event, poll_from, poll_raw_events, sdl_ring_size}
use sdlop.RawInput.Pump.{Main, pump_event, pump_from}

-- The elements of a ring of `2 ^ k` raw events.
abbrev pub pending : ℕ → Ring RawEvent → List RawEvent
pending k ring = contents no_event k ring

poll_from_lem :
    (k n : ℕ) (items : List RawEvent) {ring : Ring RawEvent}
    → IsValid k ring
    → pending k ring ≡ items
    → let (ring', out) = poll_from n ring in
      (out ≡ take n items) × (pending k ring' ≡ drop n items) × IsValid k ring'
unfolding poll_from
poll_from_lem k zero items v e = (refl, e, v)
poll_from_lem k (suc n) [] {ring} v e =
    let gone = pop_nothing no_event k v e in
    rw (poll_from, gone.0) (refl, gone.1, pop-IsValid no_event k v)
poll_from_lem k (suc n) (x ∷ items) {ring} v e =
    let gone = pop_oldest no_event k v e in
    let later = poll_from_lem k n items (pop-IsValid no_event k v) gone.1 in
    rw (poll_from, gone.0) (ap (λ (l : List RawEvent). x ∷ l) later.0, later.1, later.2)

-- `SDLop_PollRawEvents` with a buffer for `n + 1` events copies out the oldest pending events, as many
-- as fit, and leaves the others pending in their order.
pub poll_raw_events_lem :
    (k n : ℕ) (r : Raw)
    → IsValid k r.poll_ring
    → let (r', out) = poll_raw_events r (pos (suc n)) in
      let items = pending k r.poll_ring in
      (out ≡ some (take (suc n) items))
      × (pending k r'.poll_ring ≡ drop (suc n) items)
      × IsValid k r'.poll_ring
unfolding poll_raw_events
poll_raw_events_lem k n r v =
    let done = poll_from_lem k (suc n) (pending k r.poll_ring) v refl in
    (ap some done.0, done.1, done.2)

module _ (fl : Float) (xkb : Xkb) where
  -- The events of a list pumped one after the other.
  abbrev pub pump_all : Main fl xkb → List RawEvent → Main fl xkb
  pump_all m [] = m
  pump_all m (e ∷ es) = pump_all (pump_event fl xkb m e) es

  pump_from_lem :
      (k n : ℕ) (items : List RawEvent) (r : Raw) (m : Main fl xkb)
      → IsValid k r.sdl_ring
      → pending k r.sdl_ring ≡ items
      → let (r', m', count) = pump_from fl xkb n r m in
        (m' ≡ pump_all m (take n items))
        × (count ≡ min n (length items))
        × (pending k r'.sdl_ring ≡ drop n items)
  unfolding pump_from
  pump_from_lem k zero items r m v e = (refl, omega arith, e)
  pump_from_lem k (suc n) [] r m v e =
      let gone = pop_nothing no_event k v e in rw (pump_from, gone.0) (refl, omega arith, gone.1)
  pump_from_lem k (suc n) (x ∷ items) r m v e =
      let gone = pop_oldest no_event k v e in
      let r1 : Raw = record r { sdl_ring = (Ring.pop no_event r.sdl_ring).0 } in
      let later =
        pump_from_lem k n items r1 (pump_event fl xkb m x) (pop-IsValid no_event k v) gone.1 in
      rw (pump_from, gone.0) (later.0, omega (arith, later.1), later.2)

  -- The loop of `SDLOP_RawInputPump` on a valid ring of 2048 slots hands every pending event to
  -- `pump_event`, each once and oldest first, counts them, and leaves the ring empty.
  pub pump_from_drains :
      (r : Raw) (m : Main fl xkb)
      → IsValid 11 r.sdl_ring
      → let (r', m', count) = pump_from fl xkb sdl_ring_size r m in
        let items = pending 11 r.sdl_ring in
        (m' ≡ pump_all m items) × (count ≡ length items) × (pending 11 r'.sdl_ring ≡ [])
  pump_from_drains r m v =
      let items : List RawEvent = pending 11 r.sdl_ring in
      let done = pump_from_lem 11 sdl_ring_size items r m v refl in
      let few : length items ≤ sdl_ring_size =
        omega (arith, length-contents no_event 11 r.sdl_ring, v.fits) in
      (
        done.0 ∙ ap (pump_all m) (take_whole sdl_ring_size items few),
        omega (arith, done.1, few),
        done.2 ∙ drop_whole sdl_ring_size items few,
      )
