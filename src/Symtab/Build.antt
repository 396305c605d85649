-- ===== src/Symtab/Build.antt =====
-- `build_symtab` of src/SDL_keyboard.c ends, and enters the last key that gives a symbol.
use sdlop.Base.{
  ℕ, zero, suc, ◌+◌, ◌*◌, ◌≤◌, ◌<◌, ◌≡◌, ◌≢◌, ◌∙◌, ap, refl, sym, ◌%◌, get_or, inl, inr, Bool, true,
  false, List, some, replicate, Bool-cases, not, ltb, ltb→lt, ◌==◌, ◌&&◌, ◌||◌, if◌then◌else◌,
  arith,
}
use sdlop.Keysym.{KeysymValues, no_symbol}
use sdlop.Scancode.{evdev_to_scancode}
use sdlop.Symtab.{
  Slot, free, seek, symtab_put, symtab_get, lowered, is_capital, enter_key, build_from,
  build_symtab,
}
use sdlop.Symtab.Slots.{used}
use sdlop.Symtab.Puts.{Represents, update, symtab_put_lem, symtab_get_lem}

-- A function that agrees with `m` is represented too.
Represents-eq :
    {t : List Slot} {m m' : ℕ → ℕ} → Represents t m → ((key : ℕ) → m key ≡ m' key) → Represents t m'
Represents-eq r same = record {
  size = r.size;
  stored = r.stored;
  holds = λ key ne. rw (← same key) (r.holds key ne);
}

-- Of `n` key codes from the one after `i` on, those with a scancode.
keys_left : ℕ → ℕ → ℕ
keys_left zero i = 0
keys_left (suc n) i =
    let rest = keys_left n (suc i) in if evdev_to_scancode (suc i) == 0 then rest else suc rest

-- Fewer than 512 key codes have a scancode, and each enters two symbols at most.
few_keys : ltb (keys_left 767 0) 512 ≡ true
unfolding keys_left evdev_to_scancode
few_keys = refl

second : (a b : Bool) → (a || b) ≡ true → a ≡ false → b ≡ true
second a b e f = ground (arith, e, f)

neither : (a b : Bool) → (a || b) ≡ false → (a ≡ false) × (b ≡ false)
neither a b e = ground (arith, e)

module _ (value : KeysymValues) (one_sym : ℕ → ℕ) where
  -- A key code gives a symbol: the key's own, or the small letter of a capital.
  abbrev pub gives : ℕ → ℕ → Bool
  gives code key =
      not (evdev_to_scancode code == 0)
      && not (one_sym (code + 8) == value no_symbol)
      && (one_sym (code + 8) == key
          || (is_capital value (one_sym (code + 8)) && lowered value (one_sym (code + 8)) == key))

  -- The scancode of the highest key code up to a number that gives a symbol; 0 where there is none.
  pub last_key : ℕ → ℕ → ℕ
  last_key zero key = 0
  last_key (suc code) key =
      if gives (suc code) key then evdev_to_scancode (suc code) else last_key code key

  abbrev Entered : ℕ → ℕ → ℕ → List Slot → Type 0
  Entered n i code t = Represents t (last_key code) × (used t + 2 * keys_left n i < 1024)

  module _ (i : ℕ) (t : List Slot) where
    abbrev sc : ℕ
    sc = evdev_to_scancode (suc i)

    abbrev key : ℕ
    key = one_sym (suc i + 8)

    abbrev low : ℕ
    low = lowered value key

    skipped :
        (sc == 0 || key == value no_symbol) ≡ true → enter_key value one_sym (suc i) t ≡ some t
    unfolding enter_key
    skipped e = elim (Bool-cases (sc == 0)) [
      | inl a ↦ rw a refl
      | inr a ↦ rw (a, second (sc == 0) (key == value no_symbol) e a) refl
    ]

    skipped_keys :
        (sc == 0 || key == value no_symbol) ≡ true → (k : ℕ) → last_key i k ≡ last_key (suc i) k
    unfolding last_key
    skipped_keys e k = ground (arith, e)

    module _ (e : (sc == 0 || key == value no_symbol) ≡ false) where
      put_one :
          (t1 : List Slot)
          → symtab_put t key sc ≡ some t1
          → is_capital value key ≡ false
          → enter_key value one_sym (suc i) t ≡ some t1
      unfolding enter_key
      put_one t1 p c =
          let (e0, e1) = neither (sc == 0) (key == value no_symbol) e in rw (e0, e1, p, c) refl

      put_two :
          (t1 t2 : List Slot)
          → symtab_put t key sc ≡ some t1
          → symtab_put t1 low sc ≡ some t2
          → is_capital value key ≡ true
          → enter_key value one_sym (suc i) t ≡ some t2
      unfolding enter_key
      put_two t1 t2 p q c =
          let (e0, e1) = neither (sc == 0) (key == value no_symbol) e in rw (e0, e1, p, c, q) refl

      one_key :
          is_capital value key ≡ false → (k : ℕ) → update (last_key i) key sc k ≡ last_key (suc i) k
      unfolding last_key
      one_key c k = ground (arith, e, c)

      two_keys :
          is_capital value key ≡ true
          → (k : ℕ) → update (update (last_key i) key sc) low sc k ≡ last_key (suc i) k
      unfolding last_key
      two_keys c k = ground (arith, e, c)

  enter_key_lem :
      (n i : ℕ) (t : List Slot)
      → Entered (suc n) i i t
      → (t' : List Slot) × (enter_key value one_sym (suc i) t ≡ some t')
        × Represents t' (last_key (suc i))
        × (used t' + 2 * keys_left n (suc i) < 1024)
  unfolding keys_left
  enter_key_lem n i t (r, room) = elim (Bool-cases (sc i t == 0 || key i t == value no_symbol)) [
    | inl e ↦ (t, skipped i t e, Represents-eq r (skipped_keys i t e), ground (arith, room))
    | inr e ↦
        let enough : used t + 2 + 2 * keys_left n (suc i) < 1024 = ground (arith, e, room) in
        let (t1, put1, r1, more1) = symtab_put_lem r (key i t) (sc i t) (omega (arith, enough)) in
        elim (Bool-cases (is_capital value (key i t))) [
          | inl c ↦
              let (t2, put2, r2, more2) =
                symtab_put_lem r1 (low i t) (sc i t) (omega (arith, enough, more1)) in
              (
                t2,
                put_two i t e t1 t2 put1 put2 c,
                Represents-eq r2 (two_keys i t e c),
                omega (arith, enough, more1, more2),
              )
          | inr c ↦ (
            t1,
            put_one i t e t1 put1 c,
            Represents-eq r1 (one_key i t e c),
            omega (arith, enough, more1),
          )
        ]
  ]

  next_key :
      (n i : ℕ) (t t1 : List Slot)
      → enter_key value one_sym (suc i) t ≡ some t1
      → build_from value one_sym (suc n) i t ≡ build_from value one_sym n (suc i) t1
  unfolding build_from
  next_key n i t t1 e = rw (build_from, e) refl

  build_from_lem :
      (n i : ℕ) (t : List Slot)
      → Entered n i i t
      → (t' : List Slot) × (build_from value one_sym n i t ≡ some t')
        × Represents t' (last_key (i + n))
  unfolding build_from
  build_from_lem zero i t e =
      (t, refl, Represents-eq e.0 (λ k. ap (λ (c : ℕ). last_key c k) (omega arith)))
  build_from_lem (suc n) i t e =
      let (t1, entered, r1, room) = enter_key_lem n i t e in
      let (t2, built, r2) = build_from_lem n (suc i) t1 (r1, room) in
      (
        t2,
        next_key n i t t1 entered ∙ built,
        Represents-eq r2 (λ k. ap (λ (c : ℕ). last_key c k) (omega arith)),
      )

  get_or-replicate : (n h : ℕ) → get_or (replicate n free) h free ≡ free
  get_or-replicate zero h = refl
  get_or-replicate (suc n) zero = refl
  get_or-replicate (suc n) (suc h) = get_or-replicate n h

  seek-replicate : (n key h : ℕ) → seek (suc n) (replicate 1024 free) key h ≡ some h
  unfolding seek
  seek-replicate n key h = rw (get_or-replicate 1024 h) refl

  empty-Represents : Represents (replicate 1024 free) (last_key 0)
  unfolding last_key
  empty-Represents = record {
    size = refl;
    stored =
        λ key k ne b e. absurd (ne (sym e ∙ ap (λ (s : Slot). s.sym) (get_or-replicate 1024 k)));
    holds = λ key ne. (
      key % 1024,
      (
        seek-replicate 1023 key (key % 1024),
        omega arith,
        inl (ap (λ (s : Slot). s.sym) (get_or-replicate 1024 (key % 1024)), refl),
      ),
    );
  }

  used-replicate : used (replicate 1024 free) ≡ 0
  unfolding used
  used-replicate = refl

  -- `build_symtab` ends, and then `symtab_get` ends for every symbol and gives the scancode of the
  -- highest key code whose own symbol, or the small letter of whose capital, it is.
  pub build_symtab_lem :
      (t : List Slot) × (build_symtab value one_sym ≡ some t)
      × ((key : ℕ) → key ≢ 0 → symtab_get t key ≡ some (last_key 767 key))
  unfolding build_symtab
  build_symtab_lem =
      let room : used (replicate 1024 free) + 2 * keys_left 767 0 < 1024 =
        omega (arith, used-replicate, ltb→lt (keys_left 767 0) 512 few_keys) in
      let (t, built, r) = build_from_lem 767 0 (replicate 1024 free) (empty-Represents, room) in
      (t, built, symtab_get_lem r)

  -- `symtab_get` after `build_symtab`: both loops end, whatever symbols the layout has, and a lookup gives
  -- the scancode of the highest key code whose own symbol, or the small letter of whose capital, is the
  -- symbol asked for; 0 where there is none.
  pub symtab_get-build_symtab :
      (key : ℕ)
      → key ≢ 0
      → (t : List Slot) × (build_symtab value one_sym ≡ some t)
        × (symtab_get t key ≡ some (last_key 767 key))
  symtab_get-build_symtab key ne =
      let (t, built, found) = build_symtab_lem in (t, built, found key ne)

  -- A key that gives the symbol, above which none does, is the last.
  pub last_key-top :
      (code wanted : ℕ) (n : ℕ)
      → gives (suc code) wanted ≡ true
      → ((c : ℕ) → suc code < c → c ≤ suc code + n → gives c wanted ≡ false)
      → last_key (suc code + n) wanted ≡ evdev_to_scancode (suc code)
  unfolding last_key
  last_key-top code wanted zero own above =
      ap (λ (c : ℕ). last_key c wanted) {x = suc code + 0} {y = suc code} (omega arith)
      ∙ rw own refl
  last_key-top code wanted (suc n) own above =
      let first : suc code + suc n ≡ suc (suc code + n) = omega arith in
      ap (λ (c : ℕ). last_key c wanted) first
      ∙ ground (
        arith,
        above (suc (suc code + n)) (omega arith) (omega arith),
        last_key-top code wanted n own (λ c a b. above c a (omega arith)),
      )
