-- ===== src/Keynames/Names.antt =====
-- src/SDL_keynames.c: the names of scancodes and keys, and the way back. A name is its bytes before the
-- terminator; the NULL name, which gives the key 0, is left out.
pub mod RoundTrip
use sdlop.Base.{
  ℕ, zero, suc, ◌+◌, ◌-◌, ◌^◌, bit_or, Bool, true, false, ◌&&◌, Option, none, some, List, [], ◌∷◌,
  String, length, get_or, ltb, leb, ◌==◌, if◌then◌else◌,
}
use sdlop.Base.Bits.{has, clear}
use sdlop.Base.Text.{codes, same_nocase}
use sdlop.State.{Sdl, set_error}
use sdlop.Scancode.{scancode_count}
use sdlop.Scancode.Names.{scancode_names}
use sdlop.Keynames.{ucs4_to_utf8, key_from_utf8, intern_key_name}

-- `SDL_GetScancodeName`
unfoldable pub get_scancode_name : ℕ → List ℕ
unfolding scancode_names
get_scancode_name sc =
    if ltb 0 sc && ltb sc scancode_count then codes (get_or scancode_names sc "") else []

-- `sdlop_extended_key_names`
abbrev pub extended_key_names : List String
extended_key_names =
    "LeftTab" ∷ "Level5Shift" ∷ "MultiKeyCompose" ∷ "Left Meta" ∷ "Right Meta" ∷ "Left Hyper"
    ∷ "Right Hyper" ∷ []

-- The `switch` of `SDL_GetKeyName`: the scancode whose name the key has; 0 for the other keys.
unfoldable pub named_scancode : ℕ → ℕ
named_scancode key =
    if key == 0xd
    then 40
    else if key == 0x1b
    then 41
    else if key == 0x8
    then 42
    else if key == 0x9
    then 43
    else if key == 0x20
    then 44
    else if key == 0x7f
    then 76
    else 0

-- The capital of a small letter
pub capital : ℕ → ℕ
capital key = if leb b'a' key && leb key b'z' then key - 32 else key

-- The end of `SDL_GetKeyName`: the name of a code point, from the pool.
pub get_character_name : List (List ℕ) → ℕ → List (List ℕ) × List ℕ
unfolding capital
get_character_name pool key =
    let key' = capital key in
    if ltb 0 key' && ltb key' 0x110000
    then (let (pool', i) = intern_key_name pool (ucs4_to_utf8 key') in (pool', get_or pool' i []))
    else (pool, [])

module _ {F : Type 0} where
  -- `SDL_GetKeyName`, with the pool of names as a state
  pub get_key_name : Sdl F → List (List ℕ) → ℕ → Sdl F × List (List ℕ) × List ℕ
  unfolding get_scancode_name named_scancode get_character_name set_error
  get_key_name s pool key =
      if has key (2 ^ 30)
      then (s, pool, get_scancode_name (clear 32 key (2 ^ 30)))
      else if has key (2 ^ 29)
      then (let i = clear 32 key (2 ^ 29) in
          if ltb 0 i && ltb (i - 1) 7
          then (s, pool, codes (get_or extended_key_names (i - 1) ""))
          else (set_error s "Parameter '%s' is invalid", pool, []))
      else if named_scancode key == 0
      then (let (pool', name) = get_character_name pool key in (s, pool', name))
      else (s, pool, get_scancode_name (named_scancode key))

-- The loop over the extended names from the one at `i` on
pub find_extended : List String → List ℕ → ℕ → Option ℕ
find_extended [] name i = none
find_extended (t ∷ ts) name i =
    if same_nocase name (codes t) then some i else find_extended ts name (suc i)

-- `*sc_name && *sc_name == *name`
abbrev pub starts_alike : List ℕ → List ℕ → Bool
starts_alike [] name = false
starts_alike (c ∷ t) [] = false
starts_alike (c ∷ t) (d ∷ name) = c == d

-- The loop over the scancodes from number `i` on
pub find_scancode : List String → List ℕ → ℕ → Option ℕ
find_scancode [] name i = none
find_scancode (t ∷ ts) name i =
    if starts_alike (codes t) name && same_nocase name (codes t)
    then some i
    else find_scancode ts name (suc i)

-- `SDL_GetKeyFromName`
pub get_key_from_name : List ℕ → ℕ
unfolding key_from_utf8 find_extended find_scancode scancode_names
get_key_from_name name =
    let key = key_from_utf8 name in
    if key == 0
    then elim (find_extended extended_key_names name 0) [
      | some i ↦ bit_or (2 ^ 29) (i + 1)
      | none ↦ elim (find_scancode scancode_names name 0) [ some i ↦ bit_or i (2 ^ 30) | none ↦ 0 ]
    ]
    else key
