-- ===== src/RawInput/Callbacks.antt =====
-- src/internal/sdlop_evdev.c: the callbacks that are registered, and the calls that they get.
use sdlop.Base.{
  ℕ, suc, ◌+◌, ◌%◌, ◌^◌, ◌≤◌, ◌≡◌, ◌≢◌, refl, sym, ap, true, false, Option-cases, inl, inr, none,
  some, List, [], ◌∷◌, ◌++◌, map, length, length-append, ltb, ◌==◌, if◌then◌else◌, arith,
}
use mathlib.Core.List.{append-nil}
use sdlop.Ring
use sdlop.RawInput.{
  Raw, RawEvent, Callback, max_callbacks, register_callback, unregister_callback, without,
  calls_for, dispatch_callbacks, publish,
}

-- The registered callbacks, in the order of their registration.
abbrev pub registered : Raw → List Callback
registered r = elim r.callbacks [ none ↦ [] | some cs ↦ cs ]

-- `SDLop_RegisterRawEventCallback` with enough memory: a callback is added at the end, and the call
-- returns true, exactly when fewer than 8 are registered; otherwise nothing changes. There are never
-- more than 8, and NULL is refused.
pub register_callback_lem :
    (r : Raw) (cb u : ℕ)
    → length (registered r) ≤ max_callbacks
    → let (r', done) = register_callback true r (some cb) u in
      let old = registered r in
      (length (registered r') ≤ max_callbacks)
      × (done ≡ ltb (length old) max_callbacks)
      × (registered r' ≡ (if done then old ++ ((cb, u) ∷ []) else old))
      × (register_callback true r none u ≡ (r, false))
unfolding register_callback
register_callback_lem r cb u h = ground (arith, length-append (registered r) ((cb, u) ∷ []))

-- How many entries have a function.
unfoldable pub uses : ℕ → List Callback → ℕ
uses cb [] = 0
uses cb ((f, u) ∷ cs) = if f == cb then suc (uses cb cs) else uses cb cs

without-uses :
    (cb : ℕ) (cs : List Callback)
    → (uses cb (without cb cs) ≡ 0) × (length (without cb cs) + uses cb cs ≡ length cs)
unfolding without uses
without-uses cb [] = (refl, omega arith)
without-uses cb ((f, u) ∷ cs) = ground (arith, without-uses cb cs)

uses-without_other :
    (cb other : ℕ) (cs : List Callback) → other ≢ cb → uses other (without cb cs) ≡ uses other cs
unfolding without uses
uses-without_other cb other [] h = refl
uses-without_other cb other ((f, u) ∷ cs) h = ground (arith, uses-without_other cb other cs h)

-- `SDLop_UnregisterRawEventCallback` with enough memory takes out every entry of the function and no
-- other entry.
pub unregister_callback_lem :
    (r : Raw) (cb other : ℕ)
    → let r' = unregister_callback true r cb in
      (uses other (registered r') ≡ (if other == cb then 0 else uses other (registered r)))
      × (length (registered r') + uses cb (registered r) ≡ length (registered r))
unfolding unregister_callback uses
unregister_callback_lem r cb other = elim (Option-cases r.callbacks) [
  | inl n ↦ rw n (ground arith, omega arith)
  | inr (cs, h) ↦
      rw h
        (ground (arith, without-uses cb cs, uses-without_other cb other cs), (without-uses cb cs).1)
]

calls_for-map : (cs : List Callback) (e : RawEvent) → calls_for cs e ≡ map (λ c. (c, e)) cs
unfolding calls_for
calls_for-map [] e = refl
calls_for-map (c ∷ cs) e = ap (λ l. (c, e) ∷ l) (calls_for-map cs e)

-- `publish` calls every registered callback once, in order, with the event, pushes it to both rings
-- and counts it.
pub publish_lem :
    (r : Raw) (e : RawEvent)
    → let r' = publish r e in
      (r'.calls ≡ r.calls ++ map (λ c. (c, e)) (registered r))
      × (r'.sdl_ring ≡ (Ring.push r.sdl_ring e).0)
      × (r'.poll_ring ≡ (Ring.push r.poll_ring e).0)
      × (r'.event_count ≡ (r.event_count + 1) % 2 ^ 64)
unfolding publish dispatch_callbacks
publish_lem r e = elim (Option-cases r.callbacks) [
  | inl n ↦ rw n (sym (append-nil r.calls), refl, refl, refl)
  | inr (cs, h) ↦ rw h (ap (λ l. r.calls ++ l) (calls_for-map cs e), refl, refl, refl)
]
