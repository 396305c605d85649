-- ===== src/Clock/Ticks.antt =====
-- The time that src/SDL_timer.c reports, and how long it sleeps.
use sdlop.Base.{
  ℕ, suc, ◌+◌, ◌-◌, ◌*◌, ◌^◌, ◌≤◌, ◌<◌, ◌≡◌, ◌/◌, Bool-cases, inl, inr, none, some, List, [], ◌∷◌,
  arith, ◌∙◌, if◌then◌else◌,
}
use sdlop.Clock.{Clock, Timespec, sub_ns, ticks, to_ns, ticks_ns, delay, delay_from, request}

-- The readings never go back, and stay below 2^64 nanoseconds.
pub record IsMonotone (c : Clock) : Type 0 where
  pub grows : (i : ℕ) → to_ns (c.reading i) ≤ to_ns (c.reading (suc i))

-- Once the origin is taken, the ticks are the time since then, and a later call never reports less.
pub ticks_ns_monotone :
    {c : Clock} {o : ℕ}
    → IsMonotone c
    → c.origin ≡ some o
    → o ≤ to_ns (c.reading c.reads)
    → let (c1, t1) = ticks_ns c in
      let (c2, t2) = ticks_ns c1 in (t1 + o ≡ to_ns (c.reading c.reads)) × (t1 ≤ t2)
unfolding ticks_ns
ticks_ns_monotone {c} {o} m e h = ground (arith, m.grows c.reads)

-- The first call: with the origin read first the ticks are the time between the two readings; with
-- the counter read first they wrap to just below 2^64 as soon as the clock moves between the two.
pub ticks_ns_first :
    {c : Clock}
    → IsMonotone c
    → c.origin ≡ none
    → to_ns (c.reading c.reads) < to_ns (c.reading (suc c.reads))
    → let d = to_ns (c.reading (suc c.reads)) - to_ns (c.reading c.reads) in
      (ticks_ns c).1 ≡ (if c.counter_first then 2 ^ 64 - d else d)
unfolding ticks_ns
ticks_ns_first {c} m e h = ground arith

-- What `SDL_GetTicks` gives for a reading when the origin is known
abbrev pub shown : (ℕ → Timespec) → ℕ → ℕ → ℕ
shown reading origin i = sub_ns (to_ns (reading i)) origin / 1000000

pub ticks-origin :
    (c : Clock) {o : ℕ}
    → c.origin ≡ some o
    → ticks c ≡ (record c { reads = suc c.reads }, shown c.reading o c.reads)
unfolding ticks ticks_ns
ticks-origin c {o} e = elim (Bool-cases c.counter_first) [
  | inl h ↦ ground (arith, h, e)
  | inr h ↦ ground (arith, h, e)
]

unfoldable pub sum : List ℕ → ℕ
sum [] = 0
sum (x ∷ xs) = x + sum xs

sum-delay_from : (req : ℕ) (signals : List ℕ) → sum (delay_from req signals) ≡ req
unfolding sum delay_from
sum-delay_from req [] = omega arith
sum-delay_from req (s ∷ rest) = ground (arith, sum-delay_from (req - s) rest)

-- However often signals interrupt it, `SDL_Delay` sleeps exactly the time it was asked for.
pub sum-delay : (ms : ℕ) (signals : List ℕ) → sum (delay ms signals) ≡ ms * 1000000
unfolding delay
sum-delay ms signals =
    sum-delay_from ((request (ms * 1000000)).sec * 1000000000 + (request (ms * 1000000)).nsec)
      signals
    ∙ omega arith
