-- ===== src/Keynames.antt =====
-- src/SDL_keynames.c: text input of a window, the UTF-8 names of keys and the pool that keeps them. A
-- name is its bytes before the terminator.
pub mod Utf8
pub mod Pool
pub mod Names
use sdlop.Base.{
  ℕ, zero, suc, ◌+◌, ◌*◌, ◌/◌, ◌%◌, ◌^◌, bit_and, bit_or, Bool, true, false, ◌&&◌, Option, none,
  some, List, [], ◌∷◌, ◌++◌, length, get_or, take, ltb, leb, ◌==◌, if◌then◌else◌,
}
use sdlop.Base.Text.{same_name}
use sdlop.State.{Sdl, Window, window_at, set_error}
use sdlop.Windows.{with_window, store}

module _ {F : Type 0} where
  -- `SDL_StartTextInput` and `SDL_StopTextInput`
  pub start_text_input : Sdl F → Option ℕ → Sdl F × Bool
  start_text_input s p =
      with_window s p λ w. (store s (record w { text_input_active = true }), true)

  pub stop_text_input : Sdl F → Option ℕ → Sdl F × Bool
  stop_text_input s p =
      with_window s p λ w. (store s (record w { text_input_active = false }), true)

  -- `SDL_TextInputActive`
  pub text_input_active : Sdl F → Option ℕ → Bool
  text_input_active s none = false
  text_input_active s (some a) = elim (window_at a s.windows) [
    | none ↦ false
    | some w ↦ w.text_input_active
  ]

-- `(char)x` as a byte
abbrev pub byte : ℕ → ℕ
byte x = x % 256

-- `ucs4_to_utf8`
pub ucs4_to_utf8 : ℕ → List ℕ
ucs4_to_utf8 cp =
    if leb cp 0x7f
    then byte cp ∷ []
    else if leb cp 0x7ff
    then byte (bit_or 0xc0 (cp / 2 ^ 6)) ∷ byte (bit_or 0x80 (bit_and cp 0x3f)) ∷ []
    else if leb cp 0xffff
    then byte (bit_or 0xe0 (cp / 2 ^ 12))
      ∷ byte (bit_or 0x80 (bit_and (cp / 2 ^ 6) 0x3f))
      ∷ byte (bit_or 0x80 (bit_and cp 0x3f))
      ∷ []
    else byte (bit_or 0xf0 (cp / 2 ^ 18))
      ∷ byte (bit_or 0x80 (bit_and (cp / 2 ^ 12) 0x3f))
      ∷ byte (bit_or 0x80 (bit_and (cp / 2 ^ 6) 0x3f))
      ∷ byte (bit_or 0x80 (bit_and cp 0x3f))
      ∷ []

-- The part of `SDL_GetKeyFromName` that decodes a single character; 0 sends it on to the tables. A
-- read at the length of the name gives the terminator.
pub key_from_utf8 : List ℕ → ℕ
key_from_utf8 name =
    let at : ℕ → ℕ = λ i. get_or name i 0 in
    let key = at 0 in
    if leb 0xf0 key
    then (if length name == 4
        then bit_or
            (bit_or (bit_or (bit_and key 0x07 * 2 ^ 18) (bit_and (at 1) 0x3f * 2 ^ 12))
              (bit_and (at 2) 0x3f * 2 ^ 6))
            (bit_and (at 3) 0x3f)
        else 0)
    else if leb 0xe0 key
    then (if length name == 3
        then bit_or (bit_or (bit_and key 0x0f * 2 ^ 12) (bit_and (at 1) 0x3f * 2 ^ 6))
            (bit_and (at 2) 0x3f)
        else 0)
    else if leb 0xc0 key
    then (if length name == 2 then bit_or (bit_and key 0x1f * 2 ^ 6) (bit_and (at 1) 0x3f) else 0)
    else if length name == 1
    then key
    else 0

-- `SDLOP_NAME_POOL`, and the bytes of a slot that a name can use
abbrev pub name_pool : ℕ
name_pool = 64

abbrev pub name_size : ℕ
name_size = 7

-- The search of `intern_key_name`: the index of a name from `i` on.
pub find_name : List (List ℕ) → List ℕ → ℕ → Option ℕ
find_name [] s i = none
find_name (n ∷ ns) s i = if same_name n s then some i else find_name ns s (suc i)

-- `intern_key_name`: the pool and the index that the result points at.
pub intern_key_name : List (List ℕ) → List ℕ → List (List ℕ) × ℕ
unfolding find_name
intern_key_name pool s = elim (find_name pool s 0) [
  | some i ↦ (pool, i)
  | none ↦
      if ltb (length pool) name_pool
      then (pool ++ (take name_size s ∷ []), length pool)
      else (pool, 0)
]
