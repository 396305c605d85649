-- ===== src/Surface/Fill.antt =====
-- src/SDL_surface.c: what the loops of `fill32`, `fill24` and `fill16` write.
use sdlop.Base.{
  ℕ, zero, suc, ◌+◌, ◌*◌, ◌≤◌, ◌<◌, ◌≡◌, ◌∙◌, refl, ap, ◌⊎◌, inl, List, [], ◌∷◌, length, get_or,
  ◌==◌, if◌then◌else◌, arith,
}
use native.Mathlib.Nat.{suc-mul, mul-le-mul_right}
use native.Mathlib.Decide.{dec_le}
use sdlop.Surface.{Memory, put, fill_row, fill_rows}

put_outside :
    (px : List ℕ) (a i : ℕ) (m : Memory) → (i < a) ⊎ (a + length px ≤ i) → put px a m i ≡ m i
unfolding put
put_outside [] a i m h = refl
put_outside (b ∷ px) a i m h =
    put_outside px (suc a) i (λ k. if k == a then b else m k) (ground (arith, h))
    ∙ ground (arith, h)

put_inside :
    (px : List ℕ) (a j : ℕ) (m : Memory) → j < length px → put px a m (a + j) ≡ get_or px j 0
unfolding put
put_inside [] a j m h = absurd (omega arith)
put_inside (b ∷ px) a zero m h =
    put_outside px (suc a) (a + 0) (λ k. if k == a then b else m k) (inl (omega arith))
    ∙ ground arith
put_inside (b ∷ px) a (suc j) m h =
    ap (λ (i : ℕ). put px (suc a) (λ k. if k == a then b else m k) i) {x = a + suc j}
      {y = suc a + j} (omega arith)
    ∙ put_inside px (suc a) j (λ k. if k == a then b else m k) (omega arith)

row_outside :
    (px : List ℕ) (n a i : ℕ) (m : Memory)
    → (i < a) ⊎ (a + n * length px ≤ i)
    → fill_row px n a m i ≡ m i
unfolding fill_row
row_outside px zero a i m h = refl
row_outside px (suc n) a i m h =
    row_outside px n (a + length px) i (put px a m) (ground (arith, h, suc-mul n (length px)))
    ∙ put_outside px a i m (ground (arith, h, suc-mul n (length px)))

row_inside :
    (px : List ℕ) (n a q j : ℕ) (m : Memory)
    → q < n
    → j < length px
    → fill_row px n a m (a + q * length px + j) ≡ get_or px j 0
unfolding fill_row
row_inside px zero a q j m h k = absurd (omega arith)
row_inside px (suc n) a zero j m h k =
    row_outside px n (a + length px) (a + 0 * length px + j) (put px a m) (inl (omega arith))
    ∙ ap (put px a m) {x = a + 0 * length px + j} {y = a + j} (omega arith)
    ∙ put_inside px a j m k
row_inside px (suc n) a (suc q) j m h k =
    ap (fill_row px n (a + length px) (put px a m)) {x = a + suc q * length px + j}
      {y = a + length px + q * length px + j} (omega (arith, suc-mul q (length px)))
    ∙ row_inside px n (a + length px) q j (put px a m) (omega arith) k

-- A byte of a pixel of a row lies in the row.
in_row : (cols q j n : ℕ) → q < cols → j < n → q * n + j < cols * n
in_row cols q j n h k =
    omega (arith, suc-mul q n, mul-le-mul_right {m = suc q} {n = cols} n (omega arith))

module _ (px : List ℕ) (row : ℕ → ℕ) (cols : ℕ) where
  -- A byte that no row covers keeps its value.
  pub rows_outside :
      (n y i : ℕ) (m : Memory)
      → ((r : ℕ) → y ≤ r → r < y + n → (i < row r) ⊎ (row r + cols * length px ≤ i))
      → fill_rows px row cols n y m i ≡ m i
  unfolding fill_rows
  rows_outside zero y i m h = refl
  rows_outside (suc n) y i m h =
      rows_outside n (suc y) i (fill_row px cols (row y) m)
        (λ r a b. h r (omega arith) (omega arith))
      ∙ row_outside px cols (row y) i m (h y (omega arith) (omega arith))

  -- Where each row ends before the next one begins, byte `j` of pixel `q` of a row is that of the pixel.
  pub rows_inside :
      (n y r q j : ℕ) (m : Memory)
      → ((a b : ℕ) → a < b → row a + cols * length px ≤ row b)
      → y ≤ r
      → r < y + n
      → q < cols
      → j < length px
      → fill_rows px row cols n y m (row r + q * length px + j) ≡ get_or px j 0
  unfolding fill_rows
  rows_inside zero y r q j m apart a b c d = absurd (omega arith)
  rows_inside (suc n) y r q j m apart a b c d = elim (dec_le (suc y) r) [
    | yes later ↦
        rows_inside n (suc y) r q j (fill_row px cols (row y) m) apart later (omega arith) c d
    | no here ↦
        rows_outside n (suc y) (row r + q * length px + j) (fill_row px cols (row y) m)
          (λ t e f. inl (omega (arith, apart r t (omega arith), in_row cols q j (length px) c d)))
        ∙ ap (λ (k : ℕ). fill_row px cols (row k) m (row r + q * length px + j)) {x = y} {y = r}
            (omega arith)
        ∙ row_inside px cols (row r) q j m c d
  ]
