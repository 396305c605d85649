-- ===== src/Surface/Colors.antt =====
-- src/SDL_surface.c: the four parts of a color in a word.
use sdlop.Base.{
  ℕ, ◌+◌, ◌*◌, ◌/◌, ◌%◌, ◌^◌, ◌<◌, ◌≡◌, ◌∙◌, refl, ap, ap₂, some, bit_and, bit_or, arith,
}
use sdlop.Base.Bits.{bit_and_low, bit_and-zero}
use sdlop.Base.Bits.Parts.{bit_and_high, bit_or_high, bit_or_above}
use sdlop.Surface.{PixelFormat, swap_red_blue, unpack}

-- The parts of a color as they lie in a word.
abbrev pub packed : ℕ → ℕ → ℕ → ℕ → ℕ
packed a b c d = ((a * 2 ^ 8 + b) * 2 ^ 8 + c) * 2 ^ 8 + d

pub or_packed :
    (a b c d : ℕ)
    → b < 256
    → c < 256
    → d < 256
    → bit_or (bit_or (bit_or (a * 2 ^ 24) (b * 2 ^ 16)) (c * 2 ^ 8)) d ≡ packed a b c d
or_packed a b c d p q r =
    ap (λ (t : ℕ). bit_or (bit_or t (c * 2 ^ 8)) d) (bit_or_high 24 a (b * 2 ^ 16) (omega arith))
    ∙ ap (λ (t : ℕ). bit_or (bit_or t (c * 2 ^ 8)) d) {x = a * 2 ^ 24 + b * 2 ^ 16}
        {y = (a * 2 ^ 8 + b) * 2 ^ 16} (omega arith)
    ∙ ap (λ (t : ℕ). bit_or t d) (bit_or_high 16 (a * 2 ^ 8 + b) (c * 2 ^ 8) (omega arith))
    ∙ ap (λ (t : ℕ). bit_or t d) {x = (a * 2 ^ 8 + b) * 2 ^ 16 + c * 2 ^ 8}
        {y = ((a * 2 ^ 8 + b) * 2 ^ 8 + c) * 2 ^ 8} (omega arith)
    ∙ bit_or_high 8 ((a * 2 ^ 8 + b) * 2 ^ 8 + c) d r

-- `&` with a mask of whole bytes, byte by byte
and_packed :
    (a b c d i j k l : ℕ)
    → b < 256
    → c < 256
    → d < 256
    → j < 256
    → k < 256
    → l < 256
    → bit_and (packed a b c d) (packed i j k l)
      ≡ packed (bit_and a i) (bit_and b j) (bit_and c k) (bit_and d l)
and_packed a b c d i j k l p q r t u v =
    bit_and_high 8 ((a * 2 ^ 8 + b) * 2 ^ 8 + c) d ((i * 2 ^ 8 + j) * 2 ^ 8 + k) l r v
    ∙ ap (λ (n : ℕ). n * 2 ^ 8 + bit_and d l)
        (bit_and_high 8 (a * 2 ^ 8 + b) c (i * 2 ^ 8 + j) k q u
          ∙ ap (λ (n : ℕ). n * 2 ^ 8 + bit_and c k) (bit_and_high 8 a b i j p t))

pub swap_packed :
    (a b c d : ℕ)
    → a < 256
    → b < 256
    → c < 256
    → d < 256
    → swap_red_blue (packed a b c d) ≡ packed a d c b
swap_packed a b c d p q r t =
    rw (keep, red, blue)
      (ap₂ (λ (m n : ℕ). bit_or (bit_or m n) (d * 2 ^ 16)) high low
        ∙ ap (λ (m : ℕ). bit_or m (d * 2 ^ 16)) (bit_or_high 8 (a * 2 ^ 16 + c) b q)
        ∙ ap (λ (m : ℕ). bit_or m (d * 2 ^ 16)) split
        ∙ bit_or_above 16 (a * 2 ^ 8) (c * 2 ^ 8 + b) d (omega arith)
        ∙ omega (arith, bit_or_high 8 a d t))
  where
    keep : bit_and (packed a b c d) 0xff00ff00 ≡ a * 2 ^ 24 + c * 2 ^ 8
    keep =
        and_packed a b c d 0xff 0 0xff 0 q r t (omega arith) (omega arith) (omega arith)
        ∙ omega (arith, bit_and_low a 8, bit_and-zero b, bit_and_low c 8, bit_and-zero d)

    red : bit_and (packed a b c d) 0x00ff0000 ≡ b * 2 ^ 16
    red =
        and_packed a b c d 0 0xff 0 0 q r t (omega arith) (omega arith) (omega arith)
        ∙ omega (arith, bit_and-zero a, bit_and_low b 8, bit_and-zero c, bit_and-zero d)

    blue : bit_and (packed a b c d) 0x000000ff ≡ d
    blue =
        and_packed a b c d 0 0 0 0xff q r t (omega arith) (omega arith) (omega arith)
        ∙ omega (arith, bit_and-zero a, bit_and-zero b, bit_and-zero c, bit_and_low d 8)

    high : a * 2 ^ 24 + c * 2 ^ 8 ≡ (a * 2 ^ 16 + c) * 2 ^ 8
    high = omega arith

    low : b * 2 ^ 16 / 2 ^ 16 ≡ b
    low = omega arith

    split : (a * 2 ^ 16 + c) * 2 ^ 8 + b ≡ a * 2 ^ 8 * 2 ^ 16 + (c * 2 ^ 8 + b)
    split = omega arith

-- What is read back from a word of four parts
pub unpack-packed :
    (a b c d : ℕ)
    → a < 256
    → b < 256
    → c < 256
    → d < 256
    → (unpack PixelFormat.argb8888 (packed a b c d) ≡ some (b, c, d, a))
      × (unpack PixelFormat.abgr8888 (packed a b c d) ≡ some (d, c, b, a))
unfolding unpack
unpack-packed a b c d p q r t =
    let w0 : packed a b c d % 256 ≡ d = omega arith in
    let w1 : packed a b c d / 2 ^ 8 % 256 ≡ c = omega arith in
    let w2 : packed a b c d / 2 ^ 16 % 256 ≡ b = omega arith in
    let w3 : packed a b c d / 2 ^ 24 % 256 ≡ a = omega arith in rw (w0, w1, w2, w3) (refl, refl)
