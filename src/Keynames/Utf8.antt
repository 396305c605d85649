-- ===== src/Keynames/Utf8.antt =====
-- src/SDL_keynames.c: the UTF-8 encoding of a key and its decoding.
use sdlop.Base.{
  ℕ, ◌+◌, ◌*◌, ◌/◌, ◌%◌, ◌^◌, ◌<◌, ◌≡◌, ◌∙◌, ap, sym, bit_and, bit_or, [], ◌∷◌, arith, leb,
  Bool-cases, inl, inr,
}
use sdlop.Base.Bits.{bit_and_low}
use sdlop.Base.Bits.Parts.{bit_or_high}
use sdlop.Keynames.{ucs4_to_utf8, key_from_utf8, byte}

-- A number above the last `k` digits and one below have no digit in common.
glue : (k x c t : ℕ) → t ≡ x * 2 ^ k → c < 2 ^ k → bit_or t c ≡ t + c
glue k x c t e h =
    ap (λ (u : ℕ). bit_or u c) e ∙ bit_or_high k x c h ∙ ap (λ (u : ℕ). u + c) (sym e)

follower : (x : ℕ) → x < 64 → bit_and (0x80 + x) 0x3f ≡ x
follower x h = bit_and_low (0x80 + x) 6 ∙ omega arith

two : (a b : ℕ) → a < 32 → b < 64 → key_from_utf8 ((0xc0 + a) ∷ (0x80 + b) ∷ []) ≡ a * 2 ^ 6 + b
unfolding key_from_utf8
two a b p q =
    let lead : bit_and (0xc0 + a) 0x1f ≡ a = bit_and_low (0xc0 + a) 5 ∙ omega arith in
    rw (lead, follower b q, glue 6 a b (a * 2 ^ 6) (omega arith) q) (ground arith)

three :
    (a b c : ℕ)
    → a < 16
    → b < 64
    → c < 64
    → key_from_utf8 ((0xe0 + a) ∷ (0x80 + b) ∷ (0x80 + c) ∷ []) ≡ a * 2 ^ 12 + b * 2 ^ 6 + c
unfolding key_from_utf8
three a b c p q r =
    let lead : bit_and (0xe0 + a) 0x0f ≡ a = bit_and_low (0xe0 + a) 4 ∙ omega arith in
    rw
      (
        lead,
        follower b q,
        follower c r,
        glue 12 a (b * 2 ^ 6) (a * 2 ^ 12) (omega arith) (omega arith),
        glue 6 (a * 2 ^ 6 + b) c (a * 2 ^ 12 + b * 2 ^ 6) (omega arith) r,
      )
      (ground arith)

four :
    (a b c d : ℕ)
    → a < 8
    → b < 64
    → c < 64
    → d < 64
    → key_from_utf8 ((0xf0 + a) ∷ (0x80 + b) ∷ (0x80 + c) ∷ (0x80 + d) ∷ [])
      ≡ a * 2 ^ 18 + b * 2 ^ 12 + c * 2 ^ 6 + d
unfolding key_from_utf8
four a b c d p q r s =
    let lead : bit_and (0xf0 + a) 0x07 ≡ a = bit_and_low (0xf0 + a) 3 ∙ omega arith in
    let high : ℕ = a * 2 ^ 18 + b * 2 ^ 12 in
    rw
      (
        lead,
        follower b q,
        follower c r,
        follower d s,
        glue 18 a (b * 2 ^ 12) (a * 2 ^ 18) (omega arith) (omega arith),
        glue 12 (a * 2 ^ 6 + b) (c * 2 ^ 6) high (omega arith) (omega arith),
        glue 6 (a * 2 ^ 12 + b * 2 ^ 6 + c) d (high + c * 2 ^ 6) (omega arith) s,
      )
      (ground arith)

-- A byte of the encoding: the marker and the digits that it carries.
tail_byte : (x : ℕ) → byte (bit_or 0x80 (bit_and x 0x3f)) ≡ 0x80 + x % 64
tail_byte x =
    ap (λ (t : ℕ). byte (bit_or 0x80 t)) (bit_and_low x 6)
    ∙ ap byte (bit_or_high 7 1 (x % 64) (omega arith))
    ∙ omega arith

-- A key is what its UTF-8 name decodes to, for every code point below 0x110000.
pub key_from_utf8-ucs4_to_utf8 : (cp : ℕ) → cp < 0x110000 → key_from_utf8 (ucs4_to_utf8 cp) ≡ cp
unfolding ucs4_to_utf8
key_from_utf8-ucs4_to_utf8 cp h = elim (Bool-cases (leb cp 0x7f)) [
  | inl e ↦ rw e (one cp (ground arith))
  | inr e1 ↦ elim (Bool-cases (leb cp 0x7ff)) [
    | inl e ↦
        let lead : byte (bit_or 0xc0 (cp / 64)) ≡ 0xc0 + cp / 64 =
          ap byte (bit_or_high 6 3 (cp / 64) (ground arith)) ∙ ground arith in
        rw (e1, e, lead, tail_byte cp)
          (two (cp / 64) (cp % 64) (ground arith) (omega arith) ∙ omega arith)
    | inr e2 ↦ elim (Bool-cases (leb cp 0xffff)) [
      | inl e ↦
          let lead : byte (bit_or 0xe0 (cp / 4096)) ≡ 0xe0 + cp / 4096 =
            ap byte (bit_or_high 5 7 (cp / 4096) (ground arith)) ∙ ground arith in
          rw (e1, e2, e, lead, tail_byte (cp / 64), tail_byte cp)
            (three (cp / 4096) (cp / 64 % 64) (cp % 64) (ground arith) (omega arith) (omega arith)
              ∙ omega arith)
      | inr e3 ↦
          let lead : byte (bit_or 0xf0 (cp / 262144)) ≡ 0xf0 + cp / 262144 =
            ap byte (bit_or_high 4 15 (cp / 262144) (omega arith)) ∙ omega arith in
          rw (e1, e2, e3, lead, tail_byte (cp / 4096), tail_byte (cp / 64), tail_byte cp)
            (four (cp / 262144) (cp / 4096 % 64) (cp / 64 % 64) (cp % 64) (omega arith)
                (omega arith) (omega arith) (omega arith)
              ∙ omega arith)
    ]
  ]
]
  where
    one : (c : ℕ) → c < 128 → key_from_utf8 (byte c ∷ []) ≡ c
    one c k = unfold key_from_utf8 in ground arith
