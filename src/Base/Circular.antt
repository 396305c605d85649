-- ===== src/Base/Circular.antt =====
-- A circular buffer read through free-running counters: index `t` stands for the slot `t % cap`.
use Prim.Native.Nat.{ℕ, zero, suc, ◌+◌, ◌-◌, ◌%◌, ◌≤◌, ◌<◌}
use mathlib.Core.Path.{◌≡◌, refl, sym, ap, ap₂, ◌∙◌}
use mathlib.Core.Logic.{◌≢◌}
use mathlib.Core.List.{List, [], ◌∷◌, ◌++◌}
use native.Mathlib.Omega.{arith}
use native.Mathlib.Decide.{dec_lt}
use native.Mathlib.Nat.{mod-lt, mod-eq_of_lt, mod-eq-sub-mod, mod-add-mod}
use sdlop.Base.Lists.{length, get_or, set, get_or-set_self, get_or-set_ne}

-- Two indices less than a round apart are two slots.
mod-ne_add : (cap a d : ℕ) → 0 < d → d < cap → (a + d) % cap ≢ a % cap
mod-ne_add cap a d h k e = elim (dec_lt (a % cap + d) cap) [
  | yes p ↦ omega (arith, folded, mod-eq_of_lt p)
  | no p ↦ omega (
    arith,
    folded,
    in_range,
    mod-eq-sub-mod {n = a % cap + d} {m = cap} (omega arith),
    mod-eq_of_lt {n = a % cap + d - cap} {m = cap} (omega (arith, in_range)),
  )
]
  where
    in_range : a % cap < cap
    in_range = mod-lt a {m = cap} (omega arith)

    folded : (a % cap + d) % cap ≡ a % cap
    folded = rw mod-add-mod e

pub mod-ne : (cap a b : ℕ) → a < b → b < a + cap → b % cap ≢ a % cap
mod-ne cap a b h k e = mod-ne_add cap a (b - a) (omega arith) (omega arith) (rw same e)
  where
    same : a + (b - a) ≡ b
    same = omega arith

module _ {ℓ} {A : Type ℓ} (cap : ℕ) (d : A) where
  -- The `n` items from counter `t` on.
  abbrev pub window : List A → ℕ → ℕ → List A
  window buf t zero = []
  window buf t (suc n) = get_or buf (t % cap) d ∷ window buf (t + 1) n

  pub length-window : (buf : List A) (t n : ℕ) → length (window buf t n) ≡ n
  length-window buf t zero = refl
  length-window buf t (suc n) = ap suc (length-window buf (t + 1) n)

  -- The counters matter up to whole rounds.
  pub window_mod : (buf : List A) (t u n : ℕ) → t % cap ≡ u % cap → window buf t n ≡ window buf u n
  window_mod buf t u zero e = refl
  window_mod buf t u (suc n) e =
      ap₂ ◌∷◌ (ap (λ i. get_or buf i d) e) (window_mod buf (t + 1) (u + 1) n step)
    where
      step : (t + 1) % cap ≡ (u + 1) % cap
      step = cc (e, mod-add-mod t cap 1, mod-add-mod u cap 1)

  -- A write behind a window, less than a round back, leaves it alone.
  pub window-set_behind :
      (buf : List A) (a t n : ℕ) (v : A)
      → a < t
      → t + n ≤ a + cap
      → window (set buf (a % cap) v) t n ≡ window buf t n
  window-set_behind buf a t zero v h k = refl
  window-set_behind buf a t (suc n) v h k =
      ap₂ ◌∷◌
        (get_or-set_ne buf (a % cap) (t % cap) v d (λ e. mod-ne cap a t h (omega arith) (sym e)))
        (window-set_behind buf a (t + 1) n v (omega arith) (omega arith))

  -- So does a write past it, less than a round on.
  pub window-set_ahead :
      (buf : List A) (a t n : ℕ) (v : A)
      → t + n ≤ a
      → a < t + cap
      → window (set buf (a % cap) v) t n ≡ window buf t n
  window-set_ahead buf a t zero v h k = refl
  window-set_ahead buf a t (suc n) v h k =
      ap₂ ◌∷◌ (get_or-set_ne buf (a % cap) (t % cap) v d (mod-ne cap t a (omega arith) k))
        (window-set_ahead buf a (t + 1) n v (omega arith) (omega arith))

  -- One more item on the right.
  pub window-snoc :
      (buf : List A) (t n : ℕ)
      → window buf t (suc n) ≡ window buf t n ++ (get_or buf ((t + n) % cap) d ∷ [])
  window-snoc buf t zero = ap (λ k. get_or buf (k % cap) d ∷ []) {x = t} {y = t + 0} (omega arith)
  window-snoc buf t (suc n) =
      ap (λ l. get_or buf (t % cap) d ∷ l)
        (window-snoc buf (t + 1) n
          ∙ ap (λ k. window buf (t + 1) n ++ (get_or buf (k % cap) d ∷ [])) {x = t + 1 + n}
              {y = t + suc n} (omega arith))

  -- A write just past a window extends it.
  pub window-set_next :
      (buf : List A) (t n : ℕ) (v : A)
      → n < cap
      → cap ≤ length buf
      → window (set buf ((t + n) % cap) v) t (suc n) ≡ window buf t n ++ (v ∷ [])
  window-set_next buf t n v h k =
      window-snoc (set buf ((t + n) % cap) v) t n
      ∙ ap₂ (λ l x. l ++ (x ∷ [])) (window-set_ahead buf (t + n) t n v (omega arith) (omega arith))
          (get_or-set_self buf ((t + n) % cap) v d
            (omega (arith, mod-lt (t + n) {m = cap} (omega arith))))
