-- ===== src/Ring/Threads/Defs.antt =====
-- The steps of the two threads on src/internal/sdlop_ring.h.
use sdlop.Base.{ℕ, ◌≡◌, ◌≢◌, List, [], ◌∷◌, ◌++◌, get_or, set, true, false, ltb}
use sdlop.Ring.{Ring, sub64, next64, slot_of}

-- Where a thread is in its call: before it, after the test of the counters, after the `memcpy`.
pub data Producer (A : Type 0) : Type 0 where
  resting : Producer A
  claimed : A → ℕ → Producer A
  written : A → ℕ → Producer A

pub data Consumer (A : Type 0) : Type 0 where
  waiting : Consumer A
  claimed : ℕ → Consumer A
  held : A → ℕ → Consumer A

-- `accepted` and `received` record what the calls that returned true have moved.
pub record World (A : Type 0) : Type 0 where
  pub ring : Ring A
  pub producer : Producer A
  pub consumer : Consumer A
  pub accepted : List A
  pub received : List A

module _ {A : Type 0} (d : A) where
  pub data Step : World A → World A → Type 0 where
    refuse :
        (w : World A)
        → w.producer ≡ Producer.resting
        → ltb w.ring.mask (sub64 w.ring.head w.ring.tail) ≡ true
        → Step w (record w { ring = record w.ring { dropped = next64 w.ring.dropped } })
    claim :
        (w : World A) (x : A)
        → w.producer ≡ Producer.resting
        → ltb w.ring.mask (sub64 w.ring.head w.ring.tail) ≡ false
        → Step w (record w { producer = Producer.claimed x w.ring.head })
    write :
        (w : World A) (x : A) (head : ℕ)
        → w.producer ≡ Producer.claimed x head
        → Step w (record w {
          ring = record w.ring { slots = set w.ring.slots (slot_of w.ring.mask head) x };
          producer = Producer.written x head;
        })
    publish :
        (w : World A) (x : A) (head : ℕ)
        → w.producer ≡ Producer.written x head
        → Step w (record w {
          ring = record w.ring { head = next64 head };
          producer = Producer.resting;
          accepted = w.accepted ++ (x ∷ []);
        })
    look :
        (w : World A)
        → w.consumer ≡ Consumer.waiting
        → w.ring.tail ≢ w.ring.head
        → Step w (record w { consumer = Consumer.claimed w.ring.tail })
    read :
        (w : World A) (tail : ℕ)
        → w.consumer ≡ Consumer.claimed tail
        → Step w (record w {
          consumer = Consumer.held (get_or w.ring.slots (slot_of w.ring.mask tail) d) tail;
        })
    release :
        (w : World A) (x : A) (tail : ℕ)
        → w.consumer ≡ Consumer.held x tail
        → Step w (record w {
          ring = record w.ring { tail = next64 tail };
          consumer = Consumer.waiting;
          received = w.received ++ (x ∷ []);
        })

  pub data Reach (s : World A) : World A → Type 0 where
    here : Reach s s
    next : {t u : World A} → Reach s t → Step t u → Reach s u
