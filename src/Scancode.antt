-- ===== src/Scancode.antt =====
-- src/internal/scancode_evdev.h, and the reverse table of src/SDL_keyboard.c.
pub mod Reverse
pub mod Names
use sdlop.Base.{
  ℕ, zero, suc, ◌+◌, Bool, true, false, ◌&&◌, List, [], ◌∷◌, get_or, set, replicate, ltb, ◌==◌,
  if◌then◌else◌,
}

-- `SDLOP_EVDEV_KEY_MAX` and `SDL_SCANCODE_COUNT`
abbrev pub evdev_key_max : ℕ
evdev_key_max = 767

abbrev pub scancode_count : ℕ
scancode_count = 512

-- `sdlop_evdev_to_scancode`, less its zeros at the end: an index past the list reads 0.
evdev_table : List ℕ
evdev_table =
    400 ∷ 41 ∷ 30 ∷ 31 ∷ 32 ∷ 33 ∷ 34 ∷ 35 ∷ 36 ∷ 37 ∷ 38 ∷ 39 ∷ 45 ∷ 46 ∷ 42 ∷ 43 ∷ 20 ∷ 26 ∷ 8
    ∷ 21 ∷ 23 ∷ 28 ∷ 24 ∷ 12 ∷ 18 ∷ 19 ∷ 47 ∷ 48 ∷ 40 ∷ 224 ∷ 4 ∷ 22 ∷ 7 ∷ 9 ∷ 10 ∷ 11 ∷ 13 ∷ 14
    ∷ 15 ∷ 51 ∷ 52 ∷ 53 ∷ 225 ∷ 49 ∷ 29 ∷ 27 ∷ 6 ∷ 25 ∷ 5 ∷ 17 ∷ 16 ∷ 54 ∷ 55 ∷ 56 ∷ 229 ∷ 85 ∷ 226
    ∷ 44 ∷ 57 ∷ 58 ∷ 59 ∷ 60 ∷ 61 ∷ 62 ∷ 63 ∷ 64 ∷ 65 ∷ 66 ∷ 67 ∷ 83 ∷ 71 ∷ 95 ∷ 96 ∷ 97 ∷ 86 ∷ 92
    ∷ 93 ∷ 94 ∷ 87 ∷ 89 ∷ 90 ∷ 91 ∷ 98 ∷ 99 ∷ 0 ∷ 148 ∷ 50 ∷ 68 ∷ 69 ∷ 135 ∷ 146 ∷ 147 ∷ 138 ∷ 136
    ∷ 139 ∷ 140 ∷ 88 ∷ 228 ∷ 84 ∷ 70 ∷ 230 ∷ 0 ∷ 74 ∷ 82 ∷ 75 ∷ 80 ∷ 79 ∷ 77 ∷ 81 ∷ 78 ∷ 73 ∷ 76 ∷ 0
    ∷ 127 ∷ 129 ∷ 128 ∷ 102 ∷ 103 ∷ 0 ∷ 72 ∷ 0 ∷ 0 ∷ 144 ∷ 145 ∷ 137 ∷ 227 ∷ 231 ∷ 101 ∷ 120 ∷ 121
    ∷ 0 ∷ 122 ∷ 0 ∷ 124 ∷ 274 ∷ 125 ∷ 126 ∷ 123 ∷ 117 ∷ 118 ∷ 0 ∷ 0 ∷ 258 ∷ 259 ∷ 0 ∷ 0 ∷ 0 ∷ 0 ∷ 0
    ∷ 0 ∷ 0 ∷ 0 ∷ 0 ∷ 0 ∷ 0 ∷ 0 ∷ 286 ∷ 0 ∷ 282 ∷ 283 ∷ 0 ∷ 0 ∷ 0 ∷ 0 ∷ 0 ∷ 0 ∷ 0 ∷ 0 ∷ 0 ∷ 0 ∷ 0
    ∷ 0 ∷ 281 ∷ 0 ∷ 0 ∷ 0 ∷ 0 ∷ 0 ∷ 0 ∷ 182 ∷ 183 ∷ 273 ∷ 0 ∷ 104 ∷ 105 ∷ 106 ∷ 107 ∷ 108 ∷ 109
    ∷ 110 ∷ 111 ∷ 112 ∷ 113 ∷ 114 ∷ 115 ∷ 0 ∷ 0 ∷ 0 ∷ 0 ∷ 0 ∷ 0 ∷ 0 ∷ 0 ∷ 0 ∷ 0 ∷ 0 ∷ 275 ∷ 0 ∷ 0
    ∷ 0 ∷ 70 ∷ 0 ∷ 0 ∷ 0 ∷ 0 ∷ 0 ∷ 0 ∷ 280 ∷ 0 ∷ 0 ∷ 0 ∷ 0 ∷ 153 ∷ 155 ∷ 0 ∷ 0 ∷ 0 ∷ 0 ∷ 0 ∷ 0 ∷ 0
    ∷ 0 ∷ 0 ∷ 0 ∷ 277 ∷ 0 ∷ 0 ∷ 0 ∷ 0 ∷ 0 ∷ 0 ∷ 0 ∷ 0 ∷ 0 ∷ 0 ∷ 0 ∷ 0 ∷ 0 ∷ 0 ∷ 0 ∷ 0 ∷ 0 ∷ 0 ∷ 0
    ∷ 0 ∷ 0 ∷ 0 ∷ 0 ∷ 0 ∷ 0 ∷ 0 ∷ 0 ∷ 0 ∷ 0 ∷ 0 ∷ 0 ∷ 0 ∷ 0 ∷ 0 ∷ 0 ∷ 0 ∷ 0 ∷ 0 ∷ 0 ∷ 0 ∷ 0 ∷ 0 ∷ 0
    ∷ 0 ∷ 0 ∷ 0 ∷ 0 ∷ 0 ∷ 0 ∷ 0 ∷ 0 ∷ 0 ∷ 0 ∷ 0 ∷ 0 ∷ 0 ∷ 0 ∷ 0 ∷ 0 ∷ 0 ∷ 0 ∷ 0 ∷ 0 ∷ 0 ∷ 0 ∷ 0 ∷ 0
    ∷ 0 ∷ 0 ∷ 0 ∷ 0 ∷ 0 ∷ 0 ∷ 0 ∷ 0 ∷ 0 ∷ 0 ∷ 0 ∷ 0 ∷ 0 ∷ 0 ∷ 0 ∷ 0 ∷ 0 ∷ 0 ∷ 0 ∷ 0 ∷ 0 ∷ 0 ∷ 0 ∷ 0
    ∷ 0 ∷ 0 ∷ 0 ∷ 0 ∷ 0 ∷ 0 ∷ 0 ∷ 0 ∷ 0 ∷ 0 ∷ 0 ∷ 0 ∷ 0 ∷ 0 ∷ 0 ∷ 0 ∷ 0 ∷ 0 ∷ 0 ∷ 0 ∷ 0 ∷ 0 ∷ 0 ∷ 0
    ∷ 0 ∷ 0 ∷ 0 ∷ 119 ∷ 0 ∷ 156 ∷ 0 ∷ 0 ∷ 0 ∷ 0 ∷ 0 ∷ 0 ∷ 0 ∷ 0 ∷ 0 ∷ 0 ∷ 0 ∷ 0 ∷ 0 ∷ 0 ∷ 0 ∷ 0 ∷ 0
    ∷ 257 ∷ []

unfoldable pub evdev_to_scancode : ℕ → ℕ
unfolding evdev_table
evdev_to_scancode code = get_or evdev_table code 0

-- The loop of `build_tables` over the codes from `i` on, `n` of them.
build_from : ℕ → ℕ → List ℕ → List ℕ
unfolding evdev_to_scancode
build_from zero i table = table
build_from (suc n) i table =
    let sc = evdev_to_scancode i in
    build_from n (suc i) (
      if ltb 0 sc && ltb sc scancode_count && get_or table sc 0 == 0 then set table sc i else table)

-- `build_tables`
pub scancode_table : List ℕ
unfolding build_from
scancode_table = build_from (suc evdev_key_max) 0 (replicate scancode_count 0)

-- `evdev_from_scancode`, for a scancode from 0 on
unfoldable pub evdev_from_scancode : ℕ → ℕ
unfolding scancode_table
evdev_from_scancode sc = if ltb sc scancode_count then get_or scancode_table sc 0 else 0
