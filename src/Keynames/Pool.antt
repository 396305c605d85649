-- ===== src/Keynames/Pool.antt =====
-- src/SDL_keynames.c: the pool of key names keeps every name that it has handed out.
use sdlop.Base.{
  ℕ, zero, suc, ◌+◌, ◌-◌, ◌≤◌, ◌<◌, ◌≡◌, ◌≢◌, ◌∙◌, refl, ap, Bool-cases, Option-cases, inl, inr,
  true, false, none, some, List, [], ◌∷◌, ◌++◌, length, get_or, take_whole, get_or-append,
  get_or-append_last, length-append, ltb, arith,
}
use sdlop.Base.Text.{same_name, same_name_self, same_name_eq}
use sdlop.Keynames.{name_pool, name_size, find_name, intern_key_name}

find_name-found :
    (pool : List (List ℕ)) (s : List ℕ) (i j : ℕ)
    → find_name pool s i ≡ some j
    → (i ≤ j) × (j < i + length pool) × (get_or pool (j - i) [] ≡ s)
unfolding find_name
find_name-found [] s i j h = absurd (ground (arith, h))
find_name-found (n ∷ pool) s i j h = elim (Bool-cases (same_name n s)) [
  | inl e ↦
      let here : i ≡ j = ground (arith, h, e) in
      (
        omega arith,
        omega arith,
        ap (λ (k : ℕ). get_or (n ∷ pool) k []) {x = j - i} {y = 0} (omega arith)
            ∙ same_name_eq n s e,
      )
  | inr e ↦
      let later = find_name-found pool s (suc i) j (ground (arith, h, e)) in
      (
        omega (arith, later.0),
        omega (arith, later.1),
        ap (λ (k : ℕ). get_or (n ∷ pool) k []) {x = j - i} {y = suc (j - suc i)}
              (omega (arith, later.0))
            ∙ later.2,
      )
]

find_name-missing :
    (pool : List (List ℕ)) (s : List ℕ) (i j : ℕ)
    → find_name pool s i ≡ none
    → j < length pool
    → get_or pool j [] ≢ s
unfolding find_name
find_name-missing [] s i j h k = absurd (omega arith)
find_name-missing (n ∷ pool) s i zero h k =
    λ same. ground (arith, h, same_name_self s, ap (λ (t : List ℕ). same_name t s) same)
find_name-missing (n ∷ pool) s i (suc j) h k = elim (Bool-cases (same_name n s)) [
  | inl e ↦ absurd (ground (arith, h, e))
  | inr e ↦ find_name-missing pool s (suc i) j (ground (arith, h, e)) (omega arith)
]

find_name-append :
    (pool : List (List ℕ)) (s : List ℕ) (i : ℕ)
    → find_name pool s i ≡ none
    → find_name (pool ++ (s ∷ [])) s i ≡ some (i + length pool)
unfolding find_name
find_name-append [] s i h = rw (same_name_self s) (ap some (omega arith))
find_name-append (n ∷ pool) s i h = elim (Bool-cases (same_name n s)) [
  | inl e ↦ absurd (ground (arith, h, e))
  | inr e ↦ rw e (find_name-append pool s (suc i) (ground (arith, h, e)) ∙ ap some (omega arith))
]

-- The three ends of `intern_key_name`.
known :
    (pool : List (List ℕ)) (s : List ℕ) {i : ℕ}
    → find_name pool s 0 ≡ some i
    → intern_key_name pool s ≡ (pool, i)
unfolding intern_key_name
known pool s e = rw (intern_key_name, e) refl

added :
    (pool : List (List ℕ)) (s : List ℕ)
    → find_name pool s 0 ≡ none
    → length pool < name_pool
    → length s ≤ name_size
    → intern_key_name pool s ≡ (pool ++ (s ∷ []), length pool)
unfolding intern_key_name
added pool s e room short =
    let fits : ltb (length pool) name_pool ≡ true = ground arith in
    rw (intern_key_name, e, fits, take_whole name_size s short) refl

refused :
    (pool : List (List ℕ)) (s : List ℕ)
    → find_name pool s 0 ≡ none
    → length pool ≡ name_pool
    → intern_key_name pool s ≡ (pool, 0)
unfolding intern_key_name
refused pool s e full =
    let no_room : ltb (length pool) name_pool ≡ false = ground arith in
    rw (intern_key_name, e, no_room) refl

found_here :
    (pool : List (List ℕ)) (s : List ℕ) {i : ℕ}
    → find_name pool s 0 ≡ some i
    → (i < length pool) × (get_or pool i [] ≡ s)
found_here pool s {i} e =
    let there = find_name-found pool s 0 i e in
    (
      omega (arith, there.1),
      ap (λ (k : ℕ). get_or pool k []) {x = i} {y = i - 0} (omega arith) ∙ there.2,
    )

-- While there is room in the pool, `intern_key_name` of a name of at most 7 bytes gives the index of
-- that name, every name handed out before stays where it is, and asking again gives the same index
-- and changes nothing.
pub intern_key_name_lem :
    (pool : List (List ℕ)) (s : List ℕ) (j : ℕ)
    → length s ≤ name_size
    → length pool < name_pool
    → j < length pool
    → let (pool', i) = intern_key_name pool s in
      (get_or pool' i [] ≡ s)
      × (length pool' ≤ name_pool)
      × (get_or pool' j [] ≡ get_or pool j [])
      × (intern_key_name pool' s ≡ (pool', i))
intern_key_name_lem pool s j short room old = elim (Option-cases (find_name pool s 0)) [
  | inr (i, e) ↦ rw (known pool s e) ((found_here pool s e).1, omega arith, refl, known pool s e)
  | inl e ↦ rw (added pool s e room short) (
    get_or-append_last pool s [],
    omega (arith, length-append pool (s ∷ [])),
    get_or-append pool (s ∷ []) j [] old,
    known (pool ++ (s ∷ [])) s (find_name-append pool s 0 e ∙ ap some (omega arith)),
  )
]

pub intern_key_name_given :
    (pool : List (List ℕ)) (s : List ℕ)
    → length s ≤ name_size
    → length pool < name_pool
    → let (pool', i) = intern_key_name pool s in get_or pool' i [] ≡ s
intern_key_name_given pool s short room = elim (Option-cases (find_name pool s 0)) [
  | inr (i, e) ↦ rw (known pool s e) (found_here pool s e).1
  | inl e ↦ rw (added pool s e room short) (get_or-append_last pool s [])
]

-- A defect: once the pool holds 64 names, a name that is not among them gets the index of another one.
pub intern_key_name_full :
    (pool : List (List ℕ)) (s : List ℕ)
    → length pool ≡ name_pool
    → ((j : ℕ) → j < length pool → get_or pool j [] ≢ s)
    → let (pool', i) = intern_key_name pool s in get_or pool' i [] ≢ s
intern_key_name_full pool s full fresh = elim (Option-cases (find_name pool s 0)) [
  | inr (i, e) ↦ let there = found_here pool s e in absurd (fresh i there.0 there.1)
  | inl e ↦ rw (refused pool s e full) (fresh 0 (omega arith))
]
