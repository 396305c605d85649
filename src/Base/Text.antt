-- ===== src/Base/Text.antt =====
-- Texts as their bytes before the terminator, and the comparisons of C's string functions.
use Prim.Native.Nat.{ℕ, ◌+◌}
use mathlib.Core.Path.{◌≡◌, refl, ap₂}
use native.Mathlib.Omega.{arith}
use Prim.Native.Char.{code}
use Prim.Native.String.{String}
use mathlib.Core.Bool.{Bool, true, false, ◌&&◌}
use mathlib.Core.List.{List, [], ◌∷◌}
use sdlop.Base.Tests.{◌==◌, leb, if◌then◌else◌}

-- The bytes of an ASCII literal
abbrev pub codes : String → List ℕ
codes String.[] = []
codes (String.◌∷◌ c s) = code c ∷ codes s

-- `strcmp(a, b) == 0`
abbrev pub same_name : List ℕ → List ℕ → Bool
same_name [] [] = true
same_name (x ∷ xs) (y ∷ ys) = x == y && same_name xs ys
same_name _ _ = false

-- `tolower` of the C locale
abbrev pub to_lower : ℕ → ℕ
to_lower c = if leb b'A' c && leb c b'Z' then c + 32 else c

-- `strcasecmp(a, b) == 0`
abbrev pub same_nocase : List ℕ → List ℕ → Bool
same_nocase [] [] = true
same_nocase (x ∷ xs) (y ∷ ys) = to_lower x == to_lower y && same_nocase xs ys
same_nocase _ _ = false

pub same_name_self : (s : List ℕ) → same_name s s ≡ true
same_name_self [] = refl
same_name_self (x ∷ s) = ground (arith, same_name_self s)

pub same_name_eq : (a b : List ℕ) → same_name a b ≡ true → a ≡ b
same_name_eq [] [] h = refl
same_name_eq (x ∷ a) (y ∷ b) h =
    ap₂ (λ (i : ℕ) (l : List ℕ). i ∷ l) {x = x} {y = y} (ground (arith, h))
      (same_name_eq a b (ground (arith, h)))
same_name_eq [] (y ∷ b) h = absurd (ground (arith, h))
same_name_eq (x ∷ a) [] h = absurd (ground (arith, h))
