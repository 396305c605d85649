-- ===== src/Symtab/Puts.antt =====
-- src/SDL_keyboard.c: the symbol table as a function from symbols to scancodes.
use sdlop.Base.{
  ℕ, ◌+◌, ◌%◌, ◌≤◌, ◌<◌, ◌≡◌, ◌≢◌, ◌∙◌, ap, refl, sym, subst, ◌⊎◌, inl, inr, List, some, get_or,
  set, length, length-set, get_or-set_self, get_or-set_ne, ◌==◌, if◌then◌else◌, arith,
}
use native.Mathlib.Decide.{ℕ_discrete}
use sdlop.Symtab.{Slot, free, sym_at, seek, symtab_put, symtab_get}
use sdlop.Symtab.Slots.{used, used-set, IsStop, seek-IsStop, seek_total, seek-set, symtab_get-seek}

-- What the search for a key finds: a free slot where the key has no scancode, or the scancode.
abbrev Holds : List Slot → ℕ → ℕ → ℕ → Type 0
Holds t key sc k =
    (seek 1024 t key (key % 1024) ≡ some k)
    × (k < 1024)
    × ((sym_at t k ≡ 0) × (sc ≡ 0) ⊎ (sym_at t k ≡ key) × ((get_or t k free).sc ≡ sc))

-- The table `t` stands for the function `m`, which gives 0 for a key that is not entered. A key stands
-- only where the search for it stops.
pub record Represents (t : List Slot) (m : ℕ → ℕ) : Type 0 where
  pub size : length t ≡ 1024
  pub stored :
      (key k : ℕ) → key ≢ 0 → k < 1024 → sym_at t k ≡ key → seek 1024 t key (key % 1024) ≡ some k
  pub holds : (key : ℕ) → key ≢ 0 → (k : ℕ) × Holds t key (m key) k

pub symtab_get_lem :
    {t : List Slot} {m : ℕ → ℕ}
    → Represents t m
    → (key : ℕ) → key ≢ 0
    → symtab_get t key ≡ some (m key)
symtab_get_lem {t} {m} r key ne =
    let (k, (found, inside, value)) = r.holds key ne in
    symtab_get-seek t key k found ∙ ground (arith, value, ne)

-- A function changed at one key.
abbrev pub update : (ℕ → ℕ) → ℕ → ℕ → ℕ → ℕ
update m key sc other = if other == key then sc else m other

module _ {t : List Slot} {m : ℕ → ℕ} (r : Represents t m) (key sc i : ℕ) (inside : i < 1024)
    (found : seek 1024 t key (key % 1024) ≡ some i) where
  abbrev entry : Slot
  entry = record { sym = key; sc = sc }

  abbrev t' : List Slot
  t' = set t i entry

  stop : IsStop t key i
  stop = seek-IsStop 1024 t key (key % 1024) i found

  moved :
      (other k : ℕ)
      → (k ≢ i) ⊎ (other ≡ key)
      → seek 1024 t other (other % 1024) ≡ some k
      → seek 1024 t' other (other % 1024) ≡ some k
  moved other k apart e =
      seek-set 1024 t other (other % 1024) k i entry (omega (arith, r.size, inside)) stop apart e

  here : get_or t' i free ≡ entry
  here = get_or-set_self t i entry free (omega (arith, r.size, inside))

  there : (k : ℕ) → k ≢ i → get_or t' k free ≡ get_or t k free
  there k ne = get_or-set_ne t i k entry free (λ e. ne (sym e))

  stored' :
      (other k : ℕ)
      → other ≢ 0
      → k < 1024
      → sym_at t' k ≡ other
      → seek 1024 t' other (other % 1024) ≡ some k
  stored' other k ne b e = elim (ℕ_discrete k i) [
    | yes same ↦
        let own : other ≡ key = sym e ∙ ap (sym_at t') same ∙ ap (λ (s : Slot). s.sym) here in
        rw same (moved other i (inr own) (rw own found))
    | no apart ↦
        moved other k (inl apart)
          (r.stored other k ne b (sym (ap (λ (s : Slot). s.sym) (there k apart)) ∙ e))
  ]

  -- The search for another key that stopped in the slot goes on to a free slot.
  passed :
      (other : ℕ)
      → used t' < 1024
      → other ≢ 0
      → other ≢ key
      → seek 1024 t other (other % 1024) ≡ some i
      → (k : ℕ) × Holds t' other 0 k
  passed other room ne apart e =
      let (k, b, e') =
        seek_total t' other (other % 1024) (length-set t i entry ∙ r.size) room (omega arith) in
      (
        k,
        (
          e',
          b,
          elim (seek-IsStop 1024 t' other (other % 1024) k e') [
            | inl open_slot ↦ inl (open_slot, refl)
            | inr full ↦ elim (ℕ_discrete k i) [
              | yes same ↦
                  absurd (apart (sym full ∙ ap (sym_at t') same ∙ ap (λ (s : Slot). s.sym) here))
              | no other_slot ↦
                  let old =
                    r.stored other k ne b
                      (sym (ap (λ (s : Slot). s.sym) (there k other_slot)) ∙ full) in
                  absurd (other_slot (ground (arith, old, e)))
            ]
          ],
        ),
      )

  holds' :
      (other : ℕ) → used t' < 1024 → other ≢ 0 → (k : ℕ) × Holds t' other (update m key sc other) k
  holds' other room ne = elim (ℕ_discrete other key) [
    | yes own ↦ (
      i,
      (
        moved other i (inr own) (rw own found),
        inside,
        inr (ap (λ (s : Slot). s.sym) here ∙ sym own, rw here (ground (arith, own))),
      ),
    )
    | no apart ↦
        let value : update m key sc other ≡ m other = ground (arith, apart) in
        let (k, (e, b, old)) = r.holds other ne in
        elim (ℕ_discrete k i) [
          | no away ↦ (
            k,
            (
              moved other k (inl away) e,
              b,
              rw value (
                  subst
                    (λ (s : Slot). (s.sym ≡ 0) × (m other ≡ 0) ⊎ (s.sym ≡ other) × (s.sc ≡ m other))
                    (sym (there k away)) old),
            ),
          )
          | yes same ↦
              let at_i : seek 1024 t other (other % 1024) ≡ some i = e ∙ ap some same in
              let unset : m other ≡ 0 =
                ground (arith, old, same, ap (sym_at t) same, stop, ne, apart) in
              rw (value, unset) (passed other room ne apart at_i)
        ]
  ]

-- `symtab_put` ends and enters the scancode of its key, where two slots are free.
pub symtab_put_lem :
    {t : List Slot} {m : ℕ → ℕ}
    → Represents t m
    → (key sc : ℕ) → used t + 1 < 1024
    → (t' : List Slot) × (symtab_put t key sc ≡ some t')
      × Represents t' (update m key sc)
      × (used t' ≤ used t + 1)
unfolding symtab_put
symtab_put_lem {t} r key sc room =
    let (i, inside, found) = seek_total t key (key % 1024) r.size (omega arith) (omega arith) in
    let s : Slot = record { sym = key; sc = sc } in
    let less : used (set t i s) ≤ used t + 1 = used-set t i s in
    (
      set t i s,
      rw (symtab_put, found) refl,
      record {
        size = length-set t i s ∙ r.size;
        stored = stored' r key sc i inside found;
        holds = λ other ne. holds' r key sc i inside found other (omega arith) ne;
      },
      less,
    )
