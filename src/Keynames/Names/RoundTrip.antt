-- ===== src/Keynames/Names/RoundTrip.antt =====
-- src/SDL_keynames.c: from names to keys and back.
use sdlop.Base.{
  ℕ, ◌^◌, ◌≤◌, ◌<◌, ◌≡◌, ◌≢◌, ◌∙◌, refl, ap, Bool, true, false, ◌&&◌, ◌||◌, inl, inr, Bool-cases,
  List, [], ◌∷◌, length, ltb, leb, ◌==◌, if◌then◌else◌, arith,
}
use sdlop.Base.Bits.{has, clear, has-pow}
use sdlop.Base.Bits.Parts.{bit-lt_pow}
use sdlop.Base.Text.{same_name, same_name_eq}
use sdlop.State.{Sdl}
use sdlop.Scancode.{scancode_count}
use sdlop.Scancode.Reverse.{every, entry}
use sdlop.Keynames.{ucs4_to_utf8, key_from_utf8, name_size, name_pool}
use sdlop.Keynames.Utf8.{key_from_utf8-ucs4_to_utf8}
use sdlop.Keynames.Pool.{intern_key_name_given}
use sdlop.Keynames.Names.{
  get_scancode_name, named_scancode, capital, get_character_name, get_key_name, get_key_from_name,
}

abbrev is_empty : List ℕ → Bool
is_empty [] = true
is_empty (c ∷ s) = false

-- A code point that is its own name
plain_key : ℕ → Bool
plain_key k = ltb 0 k && leb k 0x7f && named_scancode k == 0 && capital k == k

back : ℕ → Bool
back sc =
    let name = get_scancode_name sc in
    let k = get_key_from_name name in
    is_empty name
    || (if has k (2 ^ 30)
        then same_name (get_scancode_name (clear 32 k (2 ^ 30))) name
        else plain_key k && same_name (k ∷ []) name)

back_table : every back 512 ≡ true
unfolding every back get_scancode_name get_key_from_name plain_key named_scancode capital
back_table = refl

short : (cp : ℕ) → length (ucs4_to_utf8 cp) ≤ name_size
unfolding ucs4_to_utf8
short cp = ground arith

capital_bounds : (key : ℕ) → 0 < key → key < 0x110000 → (0 < capital key) × (capital key < 0x110000)
unfolding capital
capital_bounds key low high = ground arith

-- The name of a character is the UTF-8 text of its capital.
character_name :
    (pool : List (List ℕ)) (key : ℕ)
    → 0 < key
    → key < 0x110000
    → length pool < name_pool
    → (get_character_name pool key).1 ≡ ucs4_to_utf8 (capital key)
unfolding get_character_name
character_name pool key low high room =
    let inside : (ltb 0 (capital key) && ltb (capital key) 0x110000) ≡ true =
      ground (arith, capital_bounds key low high) in
    rw inside (intern_key_name_given pool (ucs4_to_utf8 (capital key)) (short (capital key)) room)

one_byte : (k : ℕ) → leb k 0x7f ≡ true → ucs4_to_utf8 k ≡ k ∷ []
unfolding ucs4_to_utf8
one_byte k low = rw low (ground (arith, low))

-- A name that decodes to a character is the name of that key.
decoded_key : (name : List ℕ) (k : ℕ) → key_from_utf8 name ≡ k → 0 < k → get_key_from_name name ≡ k
unfolding get_key_from_name
decoded_key name k e low = let some_key : (k == 0) ≡ false = ground arith in rw e (rw some_key refl)

not_above : (k n : ℕ) → k < 2 ^ n → has k (2 ^ n) ≡ false
not_above k n h = has-pow k n ∙ ground (arith, bit-lt_pow n k)

module _ {F : Type 0} (s : Sdl F) (pool : List (List ℕ)) where
  -- The name of a key that is a character without a name of its own
  name_of :
      (key : ℕ)
      → 0 < key
      → key < 0x110000
      → named_scancode key ≡ 0
      → length pool < name_pool
      → (get_key_name s pool key).2 ≡ ucs4_to_utf8 (capital key)
  unfolding get_key_name
  name_of key low high unnamed room =
      let free : (named_scancode key == 0) ≡ true = ground (arith, unnamed) in
      rw (get_key_name, not_above key 30 (omega arith), not_above key 29 (omega arith), free)
        (character_name pool key low high room)

  plain_name :
      (k : ℕ) → plain_key k ≡ true → length pool < name_pool → (get_key_name s pool k).2 ≡ k ∷ []
  unfolding plain_key
  plain_name k p room =
      let small : leb k 0x7f ≡ true = ground (arith, p) in
      name_of k (ground (arith, p)) (ground (arith, p)) (ground (arith, p)) room
      ∙ ap ucs4_to_utf8 {x = capital k} {y = k} (ground (arith, p))
      ∙ one_byte k small

  checked :
      (k : ℕ) (name : List ℕ)
      → (is_empty name
          || (if has k (2 ^ 30)
              then same_name (get_scancode_name (clear 32 k (2 ^ 30))) name
              else plain_key k && same_name (k ∷ []) name))
        ≡ true
      → name ≢ []
      → length pool < name_pool
      → (get_key_name s pool k).2 ≡ name
  unfolding get_key_name
  checked k [] h named room = absurd (named refl)
  checked k (c ∷ name) h named room = elim (Bool-cases (has k (2 ^ 30))) [
    | inl e ↦
        rw (get_key_name, e)
          (same_name_eq (get_scancode_name (clear 32 k (2 ^ 30))) (c ∷ name) (ground (arith, h, e)))
    | inr e ↦
        let plain : plain_key k ≡ true = ground (arith, h, e) in
        plain_name k plain room ∙ same_name_eq (k ∷ []) (c ∷ name) (ground (arith, h, e))
  ]

  -- A scancode's name leads to a key that has this name, for every scancode that has one: the pool has
  -- room for a name that is a single character.
  pub get_key_name-get_key_from_name :
      (sc : ℕ)
      → sc < scancode_count
      → get_scancode_name sc ≢ []
      → length pool < name_pool
      → (get_key_name s pool (get_key_from_name (get_scancode_name sc))).2 ≡ get_scancode_name sc
  unfolding back
  get_key_name-get_key_from_name sc h named room =
      checked (get_key_from_name (get_scancode_name sc)) (get_scancode_name sc)
        (entry back 512 sc back_table h) named room

  -- A character's name leads back to its key, in its capital form for a small letter: for every code
  -- point but the six keys that are named after a scancode, where the pool has room.
  pub get_key_from_name-get_key_name :
      (key : ℕ)
      → 0 < key
      → key < 0x110000
      → named_scancode key ≡ 0
      → length pool < name_pool
      → get_key_from_name (get_key_name s pool key).2 ≡ capital key
  get_key_from_name-get_key_name key low high unnamed room =
      let (above, below) = capital_bounds key low high in
      ap get_key_from_name (name_of key low high unnamed room)
      ∙ decoded_key (ucs4_to_utf8 (capital key)) (capital key)
          (key_from_utf8-ucs4_to_utf8 (capital key) below) above
