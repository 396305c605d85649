-- ===== src/Symtab/Slots.antt =====
-- src/SDL_keyboard.c: where the loops of the symbol table stop.
use sdlop.Base.{
  ℕ, zero, suc, ◌+◌, ◌-◌, ◌%◌, ◌≤◌, ◌<◌, ◌≡◌, ◌≢◌, ◌∙◌, ap, refl, sym, ◌⊎◌, inl, inr, List, [], ◌∷◌,
  Option, none, some, get_or, set, length, get_or-set_self, get_or-set_ne, Bool-cases, ◌==◌, ◌||◌,
  if◌then◌else◌, arith,
}
use native.Mathlib.Decide.{ℕ_discrete}
use sdlop.Symtab.{Slot, free, sym_at, seek, get_from, symtab_get}

-- The number of slots in use.
unfoldable pub used : List Slot → ℕ
used [] = 0
used (s ∷ t) = if s.sym == 0 then used t else suc (used t)

pub used-set : (t : List Slot) (i : ℕ) (s : Slot) → used (set t i s) ≤ used t + 1
unfolding used
used-set [] i s = omega arith
used-set (x ∷ t) zero s = ground arith
used-set (x ∷ t) (suc i) s = ground (arith, used-set t i s)

pub free_slot : (t : List Slot) → used t < length t → (f : ℕ) × (f < length t) × (sym_at t f ≡ 0)
unfolding used
free_slot [] h = absurd (omega arith)
free_slot (x ∷ t) h = elim (ℕ_discrete x.sym 0) [
  | yes e ↦ (0, omega arith, e)
  | no ne ↦ let (f, inside, e) = free_slot t (ground arith) in (suc f, omega arith, e)
]

-- A slot where the search for a symbol stops is free or holds the symbol.
abbrev pub IsStop : List Slot → ℕ → ℕ → Type 0
IsStop t key k = (sym_at t k ≡ 0) ⊎ (sym_at t k ≡ key)

pub seek-IsStop : (n : ℕ) (t : List Slot) (key h k : ℕ) → seek n t key h ≡ some k → IsStop t key k
unfolding seek
seek-IsStop zero t key h k e = cc
seek-IsStop (suc n) t key h k e = ground (arith, seek-IsStop n t key ((h + 1) % 1024) k)

-- With a free slot the search stops.
seek_stops :
    (n : ℕ) (t : List Slot) (key h d : ℕ)
    → d < n
    → sym_at t ((h + d) % 1024) ≡ 0
    → h < 1024
    → (k : ℕ) × (k < 1024) × (seek n t key h ≡ some k)
unfolding seek
seek_stops zero t key h d l e b = absurd (omega arith)
seek_stops (suc n) t key h d l e b = elim (Bool-cases (sym_at t h == 0 || sym_at t h == key)) [
  | inl stop ↦ (h, b, rw stop)
  | inr go ↦
      let apart : d ≢ 0 = λ z. ground (
        arith,
        go,
        e,
        ap (λ (i : ℕ). sym_at t i) {x = (h + d) % 1024} {y = h} (omega (arith, z)),
      ) in
      let same : (h + d) % 1024 ≡ ((h + 1) % 1024 + (d - 1)) % 1024 = omega (arith, apart) in
      let (k, inside, found) =
        seek_stops n t key ((h + 1) % 1024) (d - 1) (omega (arith, apart))
          (ap (λ (i : ℕ). sym_at t i) (sym same) ∙ e) (omega arith) in
      (k, inside, rw go found)
]

pub seek_total :
    (t : List Slot) (key h : ℕ)
    → length t ≡ 1024
    → used t < 1024
    → h < 1024
    → (k : ℕ) × (k < 1024) × (seek 1024 t key h ≡ some k)
seek_total t key h size room b =
    let (f, inside, e) = free_slot t (omega (arith, size)) in
    let back : (h + (f + 1024 - h) % 1024) % 1024 ≡ f = omega (arith, size) in
    seek_stops 1024 t key h ((f + 1024 - h) % 1024) (omega arith)
      (ap (λ (i : ℕ). sym_at t i) back ∙ e) b

-- A write to a slot where its own symbol may stand does not move where another search stops, unless
-- that search stopped in this slot.
pub seek-set :
    (n : ℕ) (t : List Slot) (key h k i : ℕ) (s : Slot)
    → i < length t
    → IsStop t s.sym i
    → (k ≢ i) ⊎ (key ≡ s.sym)
    → seek n t key h ≡ some k
    → seek n (set t i s) key h ≡ some k
unfolding seek
seek-set zero t key h k i s b stop apart e = e
seek-set (suc n) t key h k i s b stop apart e = elim (ℕ_discrete i h) [
  | yes here ↦ ground (
    arith,
    here,
    stop,
    ap (λ (j : ℕ). sym_at t j) here,
    ap (λ (x : Slot). x.sym) (get_or-set_self t i s free b),
    ap (λ (j : ℕ). sym_at (set t i s) j) here,
    seek-set n t key ((h + 1) % 1024) k i s,
  )
  | no other ↦ ground (
    arith,
    ap (λ (x : Slot). x.sym) (get_or-set_ne t i h s free other),
    seek-set n t key ((h + 1) % 1024) k i s,
  )
]

-- `symtab_get` stops where the search stops.
found_in : List Slot → Option ℕ → Option ℕ
found_in t none = none
found_in t (some k) = some (if sym_at t k == 0 then 0 else (get_or t k free).sc)

get_from-seek :
    (n : ℕ) (t : List Slot) (key h : ℕ) → get_from n t key h ≡ found_in t (seek n t key h)
unfolding get_from seek found_in
get_from-seek zero t key h = refl
get_from-seek (suc n) t key h = ground (arith, get_from-seek n t key ((h + 1) % 1024))

pub symtab_get-seek :
    (t : List Slot) (key k : ℕ)
    → seek 1024 t key (key % 1024) ≡ some k
    → symtab_get t key ≡ some (if sym_at t k == 0 then 0 else (get_or t k free).sc)
unfolding symtab_get found_in
symtab_get-seek t key k e = get_from-seek 1024 t key (key % 1024) ∙ ap (found_in t) e
