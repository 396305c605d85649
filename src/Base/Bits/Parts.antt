-- ===== src/Base/Bits/Parts.antt =====
-- Flag words in parts: what `&` and `|` do to the digits from some place on and to those below.
use Prim.Native.Nat.{ℕ, zero, suc, ◌+◌, ◌*◌, ◌/◌, ◌^◌, ◌≤◌, ◌<◌, max, bit_and, bit_or}
use Prim.Native.Nat.{bit_and-bitwise, bit_or-bitwise}
use mathlib.Core.Path.{◌≡◌, refl, sym, ◌∙◌, ap, ap₂}
use native.Mathlib.Omega.{arith}
use native.Mathlib.Nat.{pow-suc}
use native.Mathlib.Nat.{mul_assoc}
use sdlop.Base.Bits.{bit, by_digits, bit_and_step, bit_or_step}

-- A number and one that fits below its last `k` digits have no digit in common.
only_first : (fuel x : ℕ) → x ≤ fuel → by_digits (λ b. b) max fuel x 0 ≡ x
only_first zero zero h = refl
only_first zero (suc x) h = absurd (omega arith)
only_first (suc fuel) zero h = refl
only_first (suc fuel) (suc x) h = omega (arith, only_first fuel (suc x / 2) (omega arith))

doubled : (a k : ℕ) → a * 2 ^ suc k ≡ a * 2 ^ k * 2
doubled a k = ap (λ (t : ℕ). a * t) (pow-suc 2 k) ∙ sym (mul_assoc a (2 ^ k) 2)

pub bit_or_high : (k a b : ℕ) → b < 2 ^ k → bit_or (a * 2 ^ k) b ≡ a * 2 ^ k + b
bit_or_high zero a b h =
    let whole : a * 2 ^ 0 ≡ a = omega arith in
    let none : b ≡ 0 = omega arith in
    omega (arith, ap₂ bit_or whole none, bit_or-bitwise a 0, only_first a a (omega arith))
bit_or_high (suc k) a b h = omega (
  arith,
  pow-suc 2 k,
  doubled a k,
  bit_or_step (a * 2 ^ suc k) b,
  ap (λ (t : ℕ). bit_or t (b / 2)) {x = a * 2 ^ suc k / 2} {y = a * 2 ^ k}
      (omega (arith, doubled a k)),
  bit_or_high k a (b / 2) (omega (arith, pow-suc 2 k)),
)

-- `&` works on the digits from `k` on and on those below apart.
pub bit_and_high :
    (k a b c d : ℕ)
    → b < 2 ^ k
    → d < 2 ^ k
    → bit_and (a * 2 ^ k + b) (c * 2 ^ k + d) ≡ bit_and a c * 2 ^ k + bit_and b d
bit_and_high zero a b c d h l =
    let left : a * 2 ^ 0 + b ≡ a = omega arith in
    let right : c * 2 ^ 0 + d ≡ c = omega arith in
    let none : b ≡ 0 = omega arith in
    omega (arith, ap₂ bit_and left right, ap (λ (t : ℕ). bit_and t d) none, bit_and-bitwise 0 d)
bit_and_high (suc k) a b c d h l =
    let left : (a * 2 ^ suc k + b) / 2 ≡ a * 2 ^ k + b / 2 = omega (arith, doubled a k) in
    let right : (c * 2 ^ suc k + d) / 2 ≡ c * 2 ^ k + d / 2 = omega (arith, doubled c k) in
    omega (
      arith,
      pow-suc 2 k,
      doubled a k,
      doubled c k,
      doubled (bit_and a c) k,
      bit_and_step (a * 2 ^ suc k + b) (c * 2 ^ suc k + d),
      bit_and_step b d,
      ap₂ bit_and left right,
      bit_and_high k a (b / 2) c (d / 2) (omega (arith, pow-suc 2 k)) (omega (arith, pow-suc 2 k)),
    )

-- `|` of a number with one whose last `k` digits are 0
pub bit_or_above :
    (k a b c : ℕ) → b < 2 ^ k → bit_or (a * 2 ^ k + b) (c * 2 ^ k) ≡ bit_or a c * 2 ^ k + b
bit_or_above zero a b c h =
    let left : a * 2 ^ 0 + b ≡ a = omega arith in
    let right : c * 2 ^ 0 ≡ c = omega arith in omega (arith, ap₂ bit_or left right)
bit_or_above (suc k) a b c h =
    let left : (a * 2 ^ suc k + b) / 2 ≡ a * 2 ^ k + b / 2 = omega (arith, doubled a k) in
    let right : c * 2 ^ suc k / 2 ≡ c * 2 ^ k = omega (arith, doubled c k) in
    omega (
      arith,
      doubled a k,
      doubled c k,
      doubled (bit_or a c) k,
      bit_or_step (a * 2 ^ suc k + b) (c * 2 ^ suc k),
      ap₂ bit_or left right,
      bit_or_above k a (b / 2) c (omega (arith, pow-suc 2 k)),
    )

-- A number below `2 ^ k` has no digit `k`.
pub bit-lt_pow : (k a : ℕ) → a < 2 ^ k → bit a k ≡ 0
unfolding bit
bit-lt_pow zero a h = omega arith
bit-lt_pow (suc k) a h = bit-lt_pow k (a / 2) (omega (arith, pow-suc 2 k))
