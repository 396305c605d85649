-- ===== src/Ring/Threads.antt =====
-- src/internal/sdlop_ring.h under its two threads: the steps of one `SDLOP_RingPush` and of one
-- `SDLOP_RingPop`, in any order. A load of a counter with its test, a `memcpy` and a store are a
-- step each; what acquire and release order is in order here.
pub mod Defs
pub mod Invariant
pub mod Safety
