-- ===== src/Float.antt =====
-- C's `float` as the mouse code uses it: a type with the operations that the code calls. The laws are
-- what IEEE 754 promises of comparisons between numbers.
use sdlop.Base.{◌^◌, Bool, true, false, ◌≡◌}
use sdlop.Base.Int.{ℤ, pos, ltb_ℤ, ◌≤ℤ◌}

pub record Float : Type 1 where
  pub Carrier : Type 0
  pub of_int : ℤ → Carrier
  pub add : Carrier → Carrier → Carrier
  pub sub : Carrier → Carrier → Carrier
  pub lt : Carrier → Carrier → Bool
  pub le : Carrier → Carrier → Bool
  pub eq : Carrier → Carrier → Bool
  -- `x / 120.0f`
  pub div_120 : Carrier → Carrier
  -- `1.0f`, and `SDLOP_NO_POS`, which is -1e30f
  pub one : Carrier
  pub no_pos : Carrier

-- Comparisons of C's `float`, NaN and infinities included: nothing is less than itself, and of two
-- values one is not both less than the other and no less. An integer above 0 converts to a number above
-- 0, and integers that the 24 bits of the mantissa hold convert in order.
pub record IsOrdered (fl : Float) : Type 0 where
  pub irrefl : (x : fl.Carrier) → fl.lt x x ≡ false
  pub lt_not-le : (x y : fl.Carrier) → fl.lt x y ≡ true → fl.le y x ≡ false
  pub positive : (a : ℤ) → ltb_ℤ (pos 0) a ≡ true → fl.lt (fl.of_int (pos 0)) (fl.of_int a) ≡ true
  pub mono :
      (a b : ℤ)
      → pos 0 ≤ℤ a
      → b ≤ℤ pos (2 ^ 24)
      → ltb_ℤ a b ≡ true
      → fl.lt (fl.of_int a) (fl.of_int b) ≡ true
