-- ===== src/Events/Wait.antt =====
-- src/SDL_events.c: pumping events and waiting for one. A world is the global state with what the
-- drivers keep, a type of theirs.
pub mod Deadline
use sdlop.Base.{
  ℕ, zero, suc, ◌+◌, ◌-◌, ◌%◌, ◌^◌, Bool, ◌||◌, ◌&&◌, Option, none, some, ltb, leb, ◌==◌,
  if◌then◌else◌,
}
use sdlop.Base.Int.{ℤ, pos, negsuc}
use sdlop.Clock.{ticks}
use sdlop.Event.{Event}
use sdlop.Queue
use sdlop.State.{Sdl}

-- What the loop calls: `SDLOP_RawInputPump`, `PumpEvents` of the video driver without waiting, and the
-- system. `wake_fd` and `video_fd` are whether there are descriptors to poll; `poll_fds` is the call of
-- `poll` for a time in milliseconds, with the reading that resets the first one, and `sleep` is `SDL_Delay`.
pub record Waiting (F D : Type 0) : Type 0 where
  pub raw_pump : Sdl F × D → Sdl F × D
  pub video_pump : Sdl F × D → Sdl F × D
  pub wake_fd : D → Bool
  pub video_fd : D → Bool
  pub poll_fds : ℕ → Sdl F × D → Sdl F × D
  pub sleep : ℕ → Sdl F × D → Sdl F × D

-- `SDL_GetTicks` in a world
pub world_ticks : {F D : Type 0} → Sdl F × D → (Sdl F × D) × ℕ
world_ticks (s, d) = let (c, t) = ticks s.clock in ((record s { clock = c }, d), t)

module _ {F D : Type 0} (calls : Waiting F D) where
  -- `SDL_PumpEvents`
  pub pump_events : Sdl F × D → Sdl F × D
  pump_events w = let v = calls.raw_pump w in if v.0.video then calls.video_pump v else v

  -- The end of the loop of `SDL_WaitEventTimeout`
  pub pause : ℕ → Sdl F × D → Sdl F × D
  pause wait_ms w =
      if calls.wake_fd w.1 || (w.0.video && calls.video_fd w.1)
      then calls.poll_fds wait_ms w
      else calls.sleep wait_ms w

  -- The time to wait, and the waiting: at most 10 milliseconds, and none after the deadline.
  pub pause_until : ℕ → Sdl F × D → Sdl F × D
  unfolding pause world_ticks
  pause_until deadline w =
      let (v, t) = world_ticks w in
      let left = (deadline + 2 ^ 64 - t) % 2 ^ 64 in
      if left == 0 || leb (2 ^ 63) left then v else pause (if ltb left 10 then left else 10) v

  -- The loop of `SDL_WaitEventTimeout`, at most `n` rounds; no deadline is `none`. The result is the
  -- world with the event that is taken from the queue, if any.
  pub wait_from : ℕ → Option ℕ → Sdl F × D → Option ((Sdl F × D) × Option (Event F))
  unfolding pump_events pause pause_until world_ticks
  wait_from zero deadline w = none
  wait_from (suc n) none w =
      let v = pump_events w in
      let (q, e) = Queue.poll v.0.queue in
      let rest = wait_from n none (pause 10 v) in
      elim e [ some x ↦ some ((record v.0 { queue = q }, v.1), some x) | none ↦ rest ]
  wait_from (suc n) (some deadline) w =
      let v = pump_events w in
      let (q, e) = Queue.poll v.0.queue in
      let (u, t) = world_ticks v in
      let rest = wait_from n (some deadline) (pause_until deadline u) in
      elim e [
        | some x ↦ some ((record v.0 { queue = q }, v.1), some x)
        | none ↦ if leb deadline t then some (u, none) else rest
      ]

  -- `SDL_WaitEventTimeout`, with fuel; a time below 0 is no limit.
  pub wait_event_timeout : ℕ → ℤ → Sdl F × D → Option ((Sdl F × D) × Option (Event F))
  unfolding wait_from world_ticks
  wait_event_timeout fuel (pos timeout) w =
      let (v, now) = world_ticks w in wait_from fuel (some ((now + timeout) % 2 ^ 64)) v
  wait_event_timeout fuel (negsuc n) w = wait_from fuel none w

  -- `SDL_WaitEvent`
  pub wait_event : ℕ → Sdl F × D → Option ((Sdl F × D) × Option (Event F))
  unfolding wait_event_timeout
  wait_event fuel w = wait_event_timeout fuel (negsuc 0) w
