-- ===== src/Tests/Rings.antt =====
-- The ring of src/internal/sdlop_ring.h on rings of two slots.
use sdlop.Base.{ℕ, ◌≤◌, ◌≡◌, ◌≢◌, refl, List, [], ◌∷◌, ◌++◌, length, arith}
use sdlop.Ring.{Ring, slot_of, init, push, pop}
use sdlop.Ring.Fifo
use sdlop.Ring.Fifo.{put, get, taken, got}
use sdlop.Ring.Refine.{IsValid, view, run, run_refines, push_refines, pop_refines, init-IsValid}
use sdlop.Ring.Threads.Defs.{
  World, Producer, Consumer, Reach, here, next, claim, write, publish, look,
}
use sdlop.Ring.Threads.Safety.{start, in_order, no_race}

-- Three elements have gone in and two out, the counters wrap next.
abbrev wrapping : Ring ℕ
wrapping = record {
  head = 18446744073709551615;
  tail = 18446744073709551614;
  dropped = 0;
  mask = 1;
  slots = 5 ∷ 6 ∷ [];
}

wrapping-IsValid : IsValid 1 wrapping
wrapping-IsValid = record {
  small = omega arith;
  mask_is = refl;
  storage = refl;
  head_in = omega arith;
  tail_in = omega arith;
  fits = omega arith;
}

run_refines_example :
    run 0 1 wrapping (put 7 ∷ put 8 ∷ get ∷ get ∷ get ∷ [])
    ≡ Fifo.run 2 (view 0 1 wrapping) (put 7 ∷ put 8 ∷ get ∷ get ∷ get ∷ [])
run_refines_example = run_refines 0 1 (put 7 ∷ put 8 ∷ get ∷ get ∷ get ∷ []) wrapping-IsValid

push_refines_example :
    let (r, done) = push wrapping 7 in (view 0 1 r, done) ≡ Fifo.push 2 (view 0 1 wrapping) 7
push_refines_example = push_refines 0 1 7 wrapping-IsValid

pop_refines_example :
    let (r, out) = pop 0 wrapping in (view 0 1 r, out) ≡ Fifo.pop (view 0 1 wrapping)
pop_refines_example = pop_refines 0 1 wrapping-IsValid

init-IsValid_example : IsValid {A = ℕ} 1 (init (3 ∷ 4 ∷ []) 2)
init-IsValid_example = init-IsValid 0 1 (3 ∷ 4 ∷ []) (omega arith) refl

-- The producer has put in 5 and is about to copy 6; the consumer is about to copy 5 out.
abbrev empty_ring : Ring ℕ
empty_ring = record { head = 0; tail = 0; dropped = 0; mask = 1; slots = 0 ∷ 0 ∷ [] }

abbrev idle : World ℕ
idle = record {
  ring = empty_ring;
  producer = Producer.resting;
  consumer = Consumer.waiting;
  accepted = [];
  received = [];
}

abbrev claimed_five : World ℕ
claimed_five = record idle { producer = Producer.claimed 5 0 }

abbrev written_five : World ℕ
written_five = record idle {
  ring = record empty_ring { slots = 5 ∷ 0 ∷ [] };
  producer = Producer.written 5 0;
}

abbrev with_five : World ℕ
with_five = record idle {
  ring = record empty_ring { slots = 5 ∷ 0 ∷ []; head = 1 };
  accepted = 5 ∷ [];
}

abbrev both_busy : World ℕ
both_busy = record with_five { producer = Producer.claimed 6 1; consumer = Consumer.claimed 0 }

both_busy-Reach : Reach 0 (start 0 1 (0 ∷ 0 ∷ [])) both_busy
unfolding start init
both_busy-Reach =
    let one : Reach 0 idle claimed_five = next here (claim idle 5 refl refl) in
    let two : Reach 0 idle written_five = next one (write claimed_five 5 0 refl) in
    let three : Reach 0 idle with_five = next two (publish written_five 5 0 refl) in
    let four : Reach 0 idle (record with_five { consumer = Consumer.claimed 0 }) =
      next three (look with_five refl (omega arith)) in
    next four (claim (record with_five { consumer = Consumer.claimed 0 }) 6 refl refl)

in_order_example :
    (rest : List ℕ) × (both_busy.accepted ≡ both_busy.received ++ rest) × (length rest ≤ 2)
in_order_example = in_order 0 1 (0 ∷ 0 ∷ []) (omega arith) refl both_busy-Reach

no_race_example : slot_of 1 1 ≢ slot_of 1 0
no_race_example = no_race 0 1 (0 ∷ 0 ∷ []) (omega arith) refl both_busy-Reach 6 1 0 refl refl
