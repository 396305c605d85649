-- ===== src/Symtab.antt =====
-- The table of src/SDL_keyboard.c from the symbol of a key to its scancode: open addressing with 1024
-- slots, where the symbol 0 marks a free slot.
pub mod Slots
pub mod Puts
pub mod Build
use sdlop.Base.{
  ℕ, zero, suc, ◌+◌, ◌-◌, ◌%◌, ◌^◌, Bool, List, [], ◌∷◌, Option, none, some, get_or, set, replicate,
  leb, ◌==◌, ◌&&◌, ◌||◌, if◌then◌else◌,
}
use sdlop.Keysym.{KeysymValues, no_symbol, upper_a, upper_z, lower_a}
use sdlop.Scancode.{evdev_to_scancode, evdev_key_max}

-- `SYMTAB_SIZE`
abbrev pub symtab_size : ℕ
symtab_size = 1024

-- A slot of `symtab`
pub record Slot : Type 0 where
  pub sym : ℕ
  pub sc : ℕ

abbrev pub free : Slot
free = record { sym = 0; sc = 0 }

abbrev pub sym_at : List Slot → ℕ → ℕ
sym_at t h = (get_or t h free).sym

-- The loop of `symtab_put` from slot `h` on. `none` is out of fuel: every slot has been passed, and the
-- loop of the program does not end.
pub seek : ℕ → List Slot → ℕ → ℕ → Option ℕ
seek zero t sym h = none
seek (suc n) t sym h =
    let rest = seek n t sym ((h + 1) % symtab_size) in
    if sym_at t h == 0 || sym_at t h == sym then some h else rest

-- `symtab_put`
pub symtab_put : List Slot → ℕ → ℕ → Option (List Slot)
unfolding seek
symtab_put t sym sc = elim (seek symtab_size t sym (sym % symtab_size)) [
  | none ↦ none
  | some h ↦ some (set t h (record { sym = sym; sc = sc }))
]

-- The loop of `symtab_get`
pub get_from : ℕ → List Slot → ℕ → ℕ → Option ℕ
get_from zero t sym h = none
get_from (suc n) t sym h =
    let rest = get_from n t sym ((h + 1) % symtab_size) in
    if sym_at t h == 0
    then some 0
    else if sym_at t h == sym
    then some (get_or t h free).sc
    else rest

-- `symtab_get`
unfoldable pub symtab_get : List Slot → ℕ → Option ℕ
unfolding get_from
symtab_get t sym = get_from symtab_size t sym (sym % symtab_size)

module _ (value : KeysymValues) where
  -- The letter that `build_symtab` enters next to a capital
  abbrev pub lowered : ℕ → ℕ
  lowered sym = (sym - value upper_a + value lower_a) % 2 ^ 32

  abbrev pub is_capital : ℕ → Bool
  is_capital sym = leb (value upper_a) sym && leb sym (value upper_z)

module _ (value : KeysymValues) (one_sym : ℕ → ℕ) where
  -- The body of the loop of `build_symtab`
  pub enter_key : ℕ → List Slot → Option (List Slot)
  unfolding symtab_put
  enter_key code t =
      let sc = evdev_to_scancode code in
      let sym = one_sym (code + 8) in
      if sc == 0
      then some t
      else if sym == value no_symbol
      then some t
      else elim (symtab_put t sym sc) [
        | none ↦ none
        | some t' ↦ if is_capital value sym then symtab_put t' (lowered value sym) sc else some t'
      ]

  -- Its loop over `n` codes from the one after `i` on
  pub build_from : ℕ → ℕ → List Slot → Option (List Slot)
  unfolding enter_key
  build_from zero i t = some t
  build_from (suc n) i t = elim (enter_key (suc i) t) [
    | none ↦ none
    | some t' ↦ build_from n (suc i) t'
  ]

  -- `build_symtab`
  unfoldable pub build_symtab : Option (List Slot)
  unfolding build_from
  build_symtab = build_from evdev_key_max 0 (replicate symtab_size free)
