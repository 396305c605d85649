-- ===== src/Events/Wait/Deadline.antt =====
-- src/SDL_events.c: `SDL_WaitEventTimeout` comes back.
use sdlop.Base.{
  ℕ, zero, suc, ◌+◌, ◌-◌, ◌^◌, ◌%◌, ◌≤◌, ◌≡◌, ◌∙◌, refl, subst, sym, ap, Bool, true, false, ◌||◌,
  ◌&&◌, Option, none, some, Bool-cases, Option-cases, ◌⊎◌, inl, inr, ltb, leb, ◌==◌, if◌then◌else◌,
  arith,
}
use sdlop.Base.Int.{pos}
use sdlop.Clock.{Timespec}
use sdlop.Clock.Ticks.{shown, ticks-origin}
use sdlop.Event.{Event}
use sdlop.Queue
use sdlop.State.{Sdl}
use sdlop.Events.Wait.{
  Waiting, pump_events, pause, pause_until, world_ticks, wait_from, wait_event_timeout,
}

module _ {F D : Type 0} where
  -- A call leaves the readings of the clock and its origin alone, and no reading is taken back.
  pub record IsSteady (op : Sdl F × D → Sdl F × D) : Type 0 where
    pub reading : (w : Sdl F × D) → (op w).0.clock.reading ≡ w.0.clock.reading
    pub origin :
        (w : Sdl F × D) (o : ℕ) → w.0.clock.origin ≡ some o → (op w).0.clock.origin ≡ some o
    pub reads : (w : Sdl F × D) → w.0.clock.reads ≤ (op w).0.clock.reads

  -- The calls of the loop are such calls.
  pub record AreSteady (calls : Waiting F D) : Type 0 where
    pub raw_pump : IsSteady calls.raw_pump
    pub video_pump : IsSteady calls.video_pump
    pub poll_fds : (ms : ℕ) → IsSteady (calls.poll_fds ms)
    pub sleep : (ms : ℕ) → IsSteady (calls.sleep ms)

module _ {F D : Type 0} (r : ℕ → Timespec) (o : ℕ) where
  -- The clock of a world: its readings, its origin, and that `k` readings are made.
  abbrev pub At : ℕ → Sdl F × D → Type 0
  At k w = (w.0.clock.reading ≡ r) × (w.0.clock.origin ≡ some o) × (k ≤ w.0.clock.reads)

  steady-At :
      {op : Sdl F × D → Sdl F × D} (k : ℕ) (w : Sdl F × D) → IsSteady op → At k w → At k (op w)
  steady-At k w steady (reading, origin, reads) =
      (steady.reading w ∙ reading, steady.origin w o origin, omega (arith, reads, steady.reads w))

  world_ticks-At :
      (k : ℕ) (w : Sdl F × D)
      → At k w
      → let (v, t) = world_ticks w in
        At (suc k) v × (v.0.clock.reads ≡ suc w.0.clock.reads) × (t ≡ shown r o w.0.clock.reads)
  unfolding world_ticks
  world_ticks-At k w (reading, origin, reads) = rw (ticks-origin w.0.clock origin) (
    (reading, origin, omega (arith, reads)),
    refl,
    ap (λ (f : ℕ → Timespec). shown f o w.0.clock.reads) reading,
  )

  either-At : (k : ℕ) (b : Bool) (v w : Sdl F × D) → At k v → At k w → At k (if b then v else w)
  either-At k true v w at at' = at
  either-At k false v w at at' = at'

  module _ (calls : Waiting F D) (steady : AreSteady calls) where
    pump_events-At : (k : ℕ) (w : Sdl F × D) → At k w → At k (pump_events calls w)
    unfolding pump_events
    pump_events-At k w at =
        let v = calls.raw_pump w in
        let raw = steady-At k w steady.raw_pump at in
        either-At k v.0.video (calls.video_pump v) v (steady-At k v steady.video_pump raw) raw

    pause-At : (ms k : ℕ) (w : Sdl F × D) → At k w → At k (pause calls ms w)
    unfolding pause
    pause-At ms k w at =
        either-At k (calls.wake_fd w.1 || (w.0.video && calls.video_fd w.1)) (calls.poll_fds ms w)
          (calls.sleep ms w) (steady-At k w (steady.poll_fds ms) at)
          (steady-At k w (steady.sleep ms) at)

    pause_until-At : (deadline k : ℕ) (w : Sdl F × D) → At k w → At k (pause_until calls deadline w)
    unfolding pause_until
    pause_until-At deadline k w at =
        let (v, t) = world_ticks w in
        let (reading, origin, reads) = (world_ticks-At k w at).0 in
        let next : At k v = (reading, origin, omega (arith, reads)) in
        let left = (deadline + 2 ^ 64 - t) % 2 ^ 64 in
        either-At k (left == 0 || leb (2 ^ 63) left) v
          (pause calls (if ltb left 10 then left else 10) v) next
          (pause-At (if ltb left 10 then left else 10) k v next)

    -- What the loop has given back: an event, or none when the queue is empty and the last reading of
    -- the clock is at the deadline or after it.
    abbrev pub Ended : ℕ → Option ((Sdl F × D) × Option (Event F)) → Type 0
    Ended deadline result =
        (out : (Sdl F × D) × Option (Event F)) × (result ≡ some out)
        × (((x : Event F) × (out.1 ≡ some x))
            ⊎ ((out.1 ≡ none)
                × ((Queue.poll out.0.0.queue).1 ≡ none)
                × (deadline ≤ shown r o (out.0.0.clock.reads - 1))))

    -- A round of the loop, when the rounds after it end
    round :
        (deadline n k : ℕ) (w : Sdl F × D)
        → At k w
        → let u = (world_ticks (pump_events calls w)).0 in
          (leb deadline (shown r o (pump_events calls w).0.clock.reads) ≡ false
            → Ended deadline (wait_from calls n (some deadline) (pause_until calls deadline u)))
          → Ended deadline (wait_from calls (suc n) (some deadline) w)
    unfolding wait_from world_ticks
    round deadline n k w at next =
        let v : Sdl F × D = pump_events calls w in
        let (at_u, one, t) = world_ticks-At k v (pump_events-At k w at) in
        elim (Option-cases (Queue.poll v.0.queue).1) [
          | inl e ↦ elim (Bool-cases (leb deadline (world_ticks v).1)) [
            | inl h ↦
                rw (wait_from, e, h)
                  (
                    ((world_ticks v).0, none),
                    refl,
                    inr (
                      refl,
                      e,
                      subst (λ (i : ℕ). deadline ≤ shown r o i) (omega (arith, one))
                          (subst (λ (i : ℕ). deadline ≤ i) t (ground (arith, h))),
                    ),
                  )
            | inr h ↦ rw (wait_from, e, h) (next (ap (λ (i : ℕ). leb deadline i) (sym t) ∙ h))
          ]
          | inr (x, e) ↦
              rw (wait_from, e)
                (
                  ((record v.0 { queue = (Queue.poll v.0.queue).0 }, v.1), some x),
                  refl,
                  inl (x, refl),
                )
        ]

    module _ (deadline last : ℕ) (due : (i : ℕ) → last ≤ i → deadline ≤ shown r o i) where
      wait_from_lem :
          (n k : ℕ) (w : Sdl F × D)
          → last ≤ n + k
          → At k w
          → Ended deadline (wait_from calls (suc n) (some deadline) w)
      wait_from_lem zero k w enough at = round deadline zero k w at λ early. absurd (
          ground (
            arith,
            early,
            due (pump_events calls w).0.clock.reads
                (omega (arith, enough, (pump_events-At k w at).2)),
          ))
      wait_from_lem (suc n) k w enough at = round deadline (suc n) k w at λ early.
          let v = pump_events calls w in
          let next = (world_ticks-At k v (pump_events-At k w at)).0 in
          wait_from_lem n (suc k) (pause_until calls deadline (world_ticks v).0)
            (omega (arith, enough)) (pause_until-At deadline (suc k) (world_ticks v).0 next)

module _ {F D : Type 0} (calls : Waiting F D) (steady : AreSteady calls) where
  -- `SDL_WaitEventTimeout` with a time of 0 or more comes back, whatever the pumps and the waiting do:
  -- with an event, or with none, and then the queue is empty and the clock shows the deadline or more.
  -- The clock shows at least the deadline from the reading `last` on, its origin is known, and the
  -- calls leave both alone; one round more than `last` is enough.
  pub wait_event_timeout-Ended :
      (last timeout : ℕ) (w : Sdl F × D) {o : ℕ}
      → w.0.clock.origin ≡ some o
      → let shows = shown w.0.clock.reading o in
        let deadline = (shows w.0.clock.reads + timeout) % 2 ^ 64 in
        ((i : ℕ) → last ≤ i → deadline ≤ shows i)
        → Ended w.0.clock.reading o calls steady deadline
            (wait_event_timeout calls (suc last) (pos timeout) w)
  unfolding wait_event_timeout
  wait_event_timeout-Ended last timeout w {o} origin due =
      let r = w.0.clock.reading in
      let deadline = (shown r o w.0.clock.reads + timeout) % 2 ^ 64 in
      let (at, one, t) = world_ticks-At r o 0 w (refl, origin, omega arith) in
      rw (wait_event_timeout, t)
        (wait_from_lem r o calls steady deadline last due last 1 (world_ticks w).0 (omega arith) at)
