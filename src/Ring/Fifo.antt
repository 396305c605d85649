-- ===== src/Ring/Fifo.antt =====
-- What src/internal/sdlop_ring.h promises: a bounded queue that drops and counts what does not fit.
use sdlop.Base.{
  ℕ, ◌+◌, ◌%◌, ◌^◌, Bool, true, false, Option, none, some, List, [], ◌∷◌, ◌++◌, length,
}
use sdlop.Base.{ltb, if◌then◌else◌}

pub record Fifo (A : Type 0) : Type 0 where
  pub items : List A
  pub lost : ℕ

-- What one side asks of the ring, and what it sees.
pub data Op (A : Type 0) : Type 0 where
  put : A → Op A
  get : Op A

pub data Reply (A : Type 0) : Type 0 where
  taken : Bool → Reply A
  got : Option A → Reply A

module _ {A : Type 0} where
  unfoldable pub push : ℕ → Fifo A → A → Fifo A × Bool
  push cap q x =
      if ltb (length q.items) cap
      then (record q { items = q.items ++ (x ∷ []) }, true)
      else (record q { lost = (q.lost + 1) % 2 ^ 64 }, false)

  unfoldable pub pop_items : List A → ℕ → Fifo A × Option A
  pop_items [] n = (record { items = []; lost = n }, none)
  pop_items (x ∷ xs) n = (record { items = xs; lost = n }, some x)

  unfoldable pub pop : Fifo A → Fifo A × Option A
  unfolding pop_items
  pop q = pop_items q.items q.lost

  unfoldable pub run : ℕ → Fifo A → List (Op A) → List (Reply A)
  run cap q [] = []
  run cap q (put x ∷ ops) = let (q', done) = push cap q x in taken done ∷ run cap q' ops
  run cap q (get ∷ ops) = let (q', out) = pop q in got out ∷ run cap q' ops
