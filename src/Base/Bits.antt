-- ===== src/Base/Bits.antt =====
-- Binary digits of flag words: each digit of `&`, `|` and a complement, at every width.
pub mod Parts
use Prim.Native.Nat.{
  ℕ, zero, suc, ◌+◌, ◌-◌, ◌*◌, ◌/◌, ◌%◌, ◌^◌, ◌≤◌, ◌<◌, min, max, bit_and, bit_or, digits,
}
use Prim.Native.Nat.{bit_and-bitwise, bit_or-bitwise}
use mathlib.Core.Path.{◌≡◌, refl, sym, ◌∙◌, ap, ap₂}
use mathlib.Core.Logic.{◌≢◌, ◌⊎◌, inl, inr}
use mathlib.Core.Bool.{Bool, true, false}
use native.Mathlib.Omega.{arith}
use native.Mathlib.Nat.{pow-suc, one-le-pow, div-add-mod, mul-add-mod_self_left, mod-eq_of_lt}
use native.Mathlib.Nat.{mul_assoc, mod-lt, dvd_refl, dvd-mul_right_of_dvd}
use native.Mathlib.Decide.{dec_le}
use Prim.Native.Nat.{◌∣◌}
use sdlop.Base.Tests.{◌==◌, if◌then◌else◌}

-- Digit `i` of `a`.
unfoldable pub bit : ℕ → ℕ → ℕ
bit a zero = a % 2
bit a (suc i) = bit (a / 2) i

-- `~m` of a w-bit word
abbrev pub compl : ℕ → ℕ → ℕ
compl w m = 2 ^ w - 1 - m

-- `(a & m) != 0`
abbrev pub has : ℕ → ℕ → Bool
has a m = if bit_and a m == 0 then false else true

-- `a & ~m` of a w-bit word
abbrev pub clear : ℕ → ℕ → ℕ → ℕ
clear w a m = bit_and a (compl w m)

pub bit-le-one : (a i : ℕ) → bit a i ≤ 1
unfolding bit
bit-le-one a zero = omega arith
bit-le-one a (suc i) = bit-le-one (a / 2) i

-- Digit by digit, `op` on two numbers and `rest` where the first has run out.
abbrev pub by_digits : (ℕ → ℕ) → (ℕ → ℕ → ℕ) → ℕ → ℕ → ℕ → ℕ
by_digits rest op fuel a b = digits rest op fuel a b

-- Fuel beyond the digits of the first number changes nothing.
by_digits_enough :
    (rest : ℕ → ℕ) (op : ℕ → ℕ → ℕ) (n m a b : ℕ)
    → a ≤ n
    → a ≤ m
    → by_digits rest op n a b ≡ by_digits rest op m a b
by_digits_enough rest op n m zero b p q = stop n ∙ sym (stop m)
  where
    stop : (k : ℕ) → by_digits rest op k zero b ≡ rest b
    stop zero = refl
    stop (suc k) = refl
by_digits_enough rest op zero m (suc a) b p q = absurd (omega arith)
by_digits_enough rest op (suc n) zero (suc a) b p q = absurd (omega arith)
by_digits_enough rest op (suc n) (suc m) (suc a) b p q =
    ap (λ (t : ℕ). t * 2 + op (suc a % 2) (b % 2))
      (by_digits_enough rest op n m (suc a / 2) (b / 2) (omega arith) (omega arith))

-- The lowest digit of an operation that works digit by digit, and the digits above it.
module _ (rest : ℕ → ℕ) (op f : ℕ → ℕ → ℕ) (law : (x y : ℕ) → f x y ≡ by_digits rest op x x y) where
  lowest : (x y : ℕ) → f (suc x) y ≡ f (suc x / 2) (y / 2) * 2 + op (suc x % 2) (y % 2)
  lowest x y =
      let half : ℕ = suc x / 2 in
      let same : by_digits rest op x half (y / 2) ≡ by_digits rest op half half (y / 2) =
        by_digits_enough rest op x half half (y / 2) (omega arith) (omega arith) in
      law (suc x) y ∙ ap (λ (t : ℕ). t * 2 + op (suc x % 2) (y % 2)) (same ∙ sym (law half (y / 2)))

pub bit_and_step : (x y : ℕ) → bit_and x y ≡ bit_and (x / 2) (y / 2) * 2 + min (x % 2) (y % 2)
bit_and_step zero y = omega (arith, bit_and-bitwise 0 y, bit_and-bitwise 0 (y / 2))
bit_and_step (suc x) y = lowest (λ b. zero) min bit_and bit_and-bitwise x y

pub bit_or_step : (x y : ℕ) → bit_or x y ≡ bit_or (x / 2) (y / 2) * 2 + max (x % 2) (y % 2)
bit_or_step zero y = omega (arith, bit_or-bitwise 0 y, bit_or-bitwise 0 (y / 2))
bit_or_step (suc x) y = lowest (λ b. b) max bit_or bit_or-bitwise x y

half-bit_and : (a b : ℕ) → bit_and a b / 2 ≡ bit_and (a / 2) (b / 2)
half-bit_and a b = omega (arith, bit_and_step a b)

half-bit_or : (a b : ℕ) → bit_or a b / 2 ≡ bit_or (a / 2) (b / 2)
half-bit_or a b = omega (arith, bit_or_step a b)

pub bit-bit_and : (a b i : ℕ) → bit (bit_and a b) i ≡ min (bit a i) (bit b i)
unfolding bit
bit-bit_and a b zero = omega (arith, bit_and_step a b)
bit-bit_and a b (suc i) = rw half-bit_and (bit-bit_and (a / 2) (b / 2) i)

pub bit-bit_or : (a b i : ℕ) → bit (bit_or a b) i ≡ max (bit a i) (bit b i)
unfolding bit
bit-bit_or a b zero = omega (arith, bit_or_step a b)
bit-bit_or a b (suc i) = rw half-bit_or (bit-bit_or (a / 2) (b / 2) i)

half-compl : (w m : ℕ) → m < 2 ^ suc w → compl (suc w) m / 2 ≡ compl w (m / 2)
half-compl w m h = omega (arith, pow-suc 2 w, one-le-pow w 2)

-- Below the width, `~` turns each digit round.
pub bit-compl : (w m i : ℕ) → m < 2 ^ w → i < w → bit (compl w m) i ≡ 1 - bit m i
unfolding bit
bit-compl zero m i h k = absurd (omega arith)
bit-compl (suc w) m zero h k = omega (arith, pow-suc 2 w, one-le-pow w 2)
bit-compl (suc w) m (suc i) h k =
    ap (λ x. bit x i) (half-compl w m h)
    ∙ bit-compl w (m / 2) i (omega (arith, pow-suc 2 w)) (omega arith)

-- `a & ~m` is `a` without the digits of `m`.
pub bit-clear :
    (w a m i : ℕ) → m < 2 ^ w → i < w → bit (clear w a m) i ≡ min (bit a i) (1 - bit m i)
bit-clear w a m i h k = rw (bit-bit_and, bit-compl w m i h k)

none_in_common : (fuel x : ℕ) → by_digits (λ b. zero) min fuel x 0 ≡ 0
none_in_common zero zero = refl
none_in_common zero (suc x) = refl
none_in_common (suc fuel) zero = refl
none_in_common (suc fuel) (suc x) = omega (arith, none_in_common fuel (suc x / 2))

pub bit_and-zero : (x : ℕ) → bit_and x 0 ≡ 0
bit_and-zero x = bit_and-bitwise x 0 ∙ none_in_common x x

-- A mask of one digit picks out that digit.
pub bit_and-pow : (a k : ℕ) → bit_and a (2 ^ k) ≡ bit a k * 2 ^ k
unfolding bit
bit_and-pow a zero = omega (arith, bit_and_step a 1, bit_and-zero (a / 2))
bit_and-pow a (suc k) = omega (
  arith,
  pow-suc 2 k,
  bit_and_step a (2 ^ suc k),
  ap (λ (t : ℕ). bit_and (a / 2) t) (half-pow k),
  bit_and-pow (a / 2) k,
  ap (λ (t : ℕ). bit (a / 2) k * t) (pow-suc 2 k),
)
  where
    half-pow : (k : ℕ) → 2 ^ suc k / 2 ≡ 2 ^ k
    half-pow k = omega (arith, pow-suc 2 k)

-- The test of a single flag reads its digit.
pub has-pow : (a k : ℕ) → has a (2 ^ k) ≡ (bit a k == 1)
has-pow a k = elim (digit-cases (bit a k) (bit-le-one a k)) [
  | inl z ↦ ground (arith, bit_and-pow a k, ap (λ (t : ℕ). t * 2 ^ k) z)
  | inr o ↦ ground (arith, bit_and-pow a k, ap (λ (t : ℕ). t * 2 ^ k) o, one-le-pow k 2)
]
  where
    digit-cases : (d : ℕ) → d ≤ 1 → (d ≡ 0) ⊎ (d ≡ 1)
    digit-cases d h = omega arith

-- A mask of `k` low ones is the remainder by `2 ^ k`.
pub bit_and_low : (a k : ℕ) → bit_and a (2 ^ k - 1) ≡ a % 2 ^ k
bit_and_low a zero = omega (arith, bit_and-zero a)
bit_and_low a (suc k) = omega (
  arith,
  pow-suc 2 k,
  one-le-pow k 2,
  bit_and_step a (2 ^ suc k - 1),
  ap (λ (t : ℕ). bit_and (a / 2) t) low_half,
  bit_and_low (a / 2) k,
  halved,
)
  where
    low_half : (2 ^ suc k - 1) / 2 ≡ 2 ^ k - 1
    low_half = omega (arith, pow-suc 2 k, one-le-pow k 2)

    split : a ≡ 2 ^ suc k * (a / 2 / 2 ^ k) + (a / 2 % 2 ^ k * 2 + a % 2)
    split =
        omega
          (arith, div-add-mod (a / 2) (2 ^ k), ap (λ (t : ℕ). t * (a / 2 / 2 ^ k)) (pow-suc 2 k))

    halved : a % 2 ^ suc k ≡ a / 2 % 2 ^ k * 2 + a % 2
    halved =
        ap (λ (t : ℕ). t % 2 ^ suc k) split
        ∙ mul-add-mod_self_left (2 ^ suc k) (a / 2 / 2 ^ k) (a / 2 % 2 ^ k * 2 + a % 2)
        ∙ mod-eq_of_lt (omega (arith, pow-suc 2 k, mod-lt (a / 2) (one-le-pow k 2 (omega arith))))

-- A smaller power of two divides a larger one.
pub pow-dvd : (k n : ℕ) → k ≤ n → 2 ^ k ∣ 2 ^ n
pow-dvd k zero h = ap-dvd (omega arith)
  where
    ap-dvd : k ≡ 0 → 2 ^ k ∣ 2 ^ 0
    ap-dvd e = rw e (dvd_refl 1)
pow-dvd k (suc n) h = elim (dec_le k n) [
  | yes p ↦ rw pow-suc (dvd-mul-two (pow-dvd k n p))
  | no p ↦ last (omega arith)
]
  where
    dvd-mul-two : 2 ^ k ∣ 2 ^ n → 2 ^ k ∣ 2 ^ n * 2
    dvd-mul-two e = dvd-mul_right_of_dvd (2 ^ k) e 2

    last : k ≡ suc n → 2 ^ k ∣ 2 ^ suc n
    last e = rw e (dvd_refl (2 ^ suc n))

-- The digits of a power of two.
pub bit-pow_self : (k : ℕ) → bit (2 ^ k) k ≡ 1
unfolding bit
bit-pow_self zero = refl
bit-pow_self (suc k) =
    ap (λ (a : ℕ). bit a k) {x = 2 ^ suc k / 2} {y = 2 ^ k} (omega (arith, pow-suc 2 k))
    ∙ bit-pow_self k

pub zero-bit : (i : ℕ) → bit 0 i ≡ 0
unfolding bit
zero-bit zero = refl
zero-bit (suc i) = zero-bit i

pub bit-pow_ne : (k i : ℕ) → i ≢ k → bit (2 ^ k) i ≡ 0
unfolding bit
bit-pow_ne zero zero h = absurd (h refl)
bit-pow_ne zero (suc i) h = zero-bit i
bit-pow_ne (suc k) zero h = omega (arith, pow-suc 2 k)
bit-pow_ne (suc k) (suc i) h =
    ap (λ (a : ℕ). bit a i) {x = 2 ^ suc k / 2} {y = 2 ^ k} (omega (arith, pow-suc 2 k))
    ∙ bit-pow_ne k i (λ e. h (ap suc e))
