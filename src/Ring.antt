-- ===== src/Ring.antt =====
-- src/internal/sdlop_ring.h, the ring between the input worker and the main thread.
-- Elements are moved as wholes: `elem_size` and the byte addresses are not modelled.
pub mod Fifo
pub mod Refine
pub mod Threads
use sdlop.Base.{
  ℕ, ◌+◌, ◌-◌, ◌%◌, ◌^◌, bit_and, Bool, true, false, Option, none, some, List, get_or, set, ltb,
  ◌==◌, if◌then◌else◌,
}

-- `SDLOP_Ring`. The capacity is `mask + 1`.
pub record Ring (A : Type 0) : Type 0 where
  pub head : ℕ
  pub tail : ℕ
  pub dropped : ℕ
  pub mask : ℕ
  pub slots : List A

-- `head - tail` and `n + 1` on uint64_t.
abbrev pub sub64 : ℕ → ℕ → ℕ
sub64 a b = (a + 2 ^ 64 - b) % 2 ^ 64

abbrev pub next64 : ℕ → ℕ
next64 a = (a + 1) % 2 ^ 64

-- `(uint32_t)(n & ring->mask)`
abbrev pub slot_of : ℕ → ℕ → ℕ
slot_of mask n = bit_and n mask % 2 ^ 32

module _ {A : Type 0} where
  -- `capacity - 1` is on uint32_t.
  unfoldable pub init : List A → ℕ → Ring A
  init storage capacity = record {
    head = 0;
    tail = 0;
    dropped = 0;
    mask = (capacity + 2 ^ 32 - 1) % 2 ^ 32;
    slots = storage;
  }

  pub push : Ring A → A → Ring A × Bool
  push r x =
      if ltb r.mask (sub64 r.head r.tail)
      then (record r { dropped = next64 r.dropped }, false)
      else (record r { slots = set r.slots (slot_of r.mask r.head) x; head = next64 r.head }, true)

  -- The option is what goes through `elem`; `d` is what a read out of range would give.
  pub pop : A → Ring A → Ring A × Option A
  pop d r =
      if r.tail == r.head
      then (r, none)
      else (record r { tail = next64 r.tail }, some (get_or r.slots (slot_of r.mask r.tail) d))

  pub is_empty : Ring A → Bool
  is_empty r = r.head == r.tail

  pub count : Ring A → ℕ
  count r = sub64 r.head r.tail
