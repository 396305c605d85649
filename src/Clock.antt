-- ===== src/Clock.antt =====
-- src/SDL_timer.c, and `SDLOP_MonotonicNS` of src/SDLop_core.c. The system's clock is a sequence of
-- readings, one for each `clock_gettime` that the program makes.
pub mod Ticks
use sdlop.Base.{ℕ, zero, suc, ◌+◌, ◌-◌, ◌*◌, ◌/◌, ◌%◌, ◌^◌, Bool, Option, none, some, List, [], ◌∷◌}
use sdlop.Base.{if◌then◌else◌, ltb}

-- A `struct timespec`.
pub record Timespec : Type 0 where
  pub sec : ℕ
  pub nsec : ℕ

-- `reads` readings of the system's clock have been made; `origin` is the static of `timer_origin_ns`.
-- C leaves open which operand of a subtraction is evaluated first: `counter_first` says which.
pub record Clock : Type 0 where
  pub reading : ℕ → Timespec
  pub reads : ℕ
  pub origin : Option ℕ
  pub counter_first : Bool

-- `(Uint64)ts.tv_sec * 1000000000ull + (Uint64)ts.tv_nsec`
abbrev pub to_ns : Timespec → ℕ
to_ns t = (t.sec * 1000000000 + t.nsec) % 2 ^ 64

-- `SDLOP_MonotonicNS` and `SDL_GetPerformanceCounter`
unfoldable pub monotonic_ns : Clock → Clock × ℕ
monotonic_ns c = (record c { reads = suc c.reads }, to_ns (c.reading c.reads))

origin_of : Option ℕ → Clock → Clock × ℕ
unfolding monotonic_ns
origin_of (some o) c = (c, o)
origin_of none c = let (c', t) = monotonic_ns c in (record c' { origin = some t }, t)

unfoldable pub timer_origin_ns : Clock → Clock × ℕ
unfolding origin_of
timer_origin_ns c = origin_of c.origin c

abbrev pub sub_ns : ℕ → ℕ → ℕ
sub_ns a b = (a + 2 ^ 64 - b) % 2 ^ 64

-- `SDL_GetTicksNS`
unfoldable pub ticks_ns : Clock → Clock × ℕ
unfolding timer_origin_ns monotonic_ns
ticks_ns c =
    if c.counter_first
    then (let (c1, t) = monotonic_ns c in let (c2, o) = timer_origin_ns c1 in (c2, sub_ns t o))
    else (let (c1, o) = timer_origin_ns c in let (c2, t) = monotonic_ns c1 in (c2, sub_ns t o))

-- `SDL_GetTicks`
pub ticks : Clock → Clock × ℕ
unfolding ticks_ns
ticks c = let (c', t) = ticks_ns c in (c', t / 1000000)

-- What `SDL_DelayNS` asks of `nanosleep`: the list holds, for each call that a signal ends early, the
-- time that it slept. The result is what each call slept.
delay_from : ℕ → List ℕ → List ℕ
delay_from req [] = req ∷ []
delay_from req (slept ∷ rest) =
    if ltb slept req then slept ∷ delay_from (req - slept) rest else req ∷ []

-- `req.tv_sec` and `req.tv_nsec` of `SDL_DelayNS`
pub request : ℕ → Timespec
request ns = record { sec = ns / 1000000000; nsec = ns % 1000000000 }

pub delay_ns : ℕ → List ℕ → List ℕ
unfolding delay_from request
delay_ns ns signals = delay_from ((request ns).sec * 1000000000 + (request ns).nsec) signals

-- `SDL_Delay`
pub delay : ℕ → List ℕ → List ℕ
unfolding delay_ns
delay ms signals = delay_ns (ms * 1000000) signals
