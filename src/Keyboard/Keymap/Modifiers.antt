-- ===== src/Keyboard/Keymap/Modifiers.antt =====
-- src/SDL_keyboard.c: `SDLOP_KeyboardUpdateXkbModifiers` flag by flag.
use sdlop.Base.{
  ℕ, ◌-◌, ◌^◌, ◌<◌, ◌≡◌, ◌∙◌, refl, ap, min, max, bit_and, Bool, true, false, if◌then◌else◌, arith,
}
use sdlop.Base.Bits.{bit, bit-bit_or, bit-bit_and, bit-clear, bit-le-one}
use sdlop.Keyboard.Keymap.{ModIndices, synced, set_if, clear_unless}

bit-set_if :
    (b : Bool) (flag m i : ℕ)
    → bit (set_if b flag m) i ≡ (if b then max (bit m i) (bit flag i) else bit m i)
unfolding set_if
bit-set_if true flag m i = bit-bit_or m flag i
bit-set_if false flag m i = refl

bit-clear_unless :
    (b : Bool) (flags m i : ℕ)
    → flags < 2 ^ 16
    → i < 16
    → bit (clear_unless b flags m) i ≡ (if b then bit m i else min (bit m i) (1 - bit flags i))
unfolding clear_unless
bit-clear_unless true flags m i h k = refl
bit-clear_unless false flags m i h k = bit-clear 16 m flags i h k

abbrev add : Bool → ℕ → ℕ → ℕ
add b flag d = if b then max d flag else d

abbrev keep : Bool → ℕ → ℕ → ℕ
keep b flags d = if b then d else min d (1 - flags)

module _ (active : ℕ → Bool) (x : ModIndices) (m : ℕ) where
  added : ℕ → ℕ
  added i = add (active x.altgr) (bit 0x4000 i) (
      add (active x.level5) (bit 0x4 i) (
        add (active x.num) (bit 0x1000 i)
          (add (active x.caps) (bit 0x2000 i) (min (bit m i) (bit 0xfc3 i)))))

  abbrev with_locks : ℕ
  with_locks = set_if (active x.altgr) 0x4000 (
      set_if (active x.level5) 0x4
        (set_if (active x.num) 0x1000 (set_if (active x.caps) 0x2000 (bit_and m 0xfc3))))

  bit-with_locks : (i : ℕ) → bit with_locks i ≡ added i
  unfolding added
  bit-with_locks i = simp (bit-set_if, bit-bit_and) refl

  -- Digit `i` of the result in terms of the masks
  digit :
      (i : ℕ)
      → i < 16
      → bit (synced active x m) i
        ≡ keep
            (active x.super)
            (bit 0xc00 i)
            (keep (active x.ctrl) (bit 0xc0 i) (keep (active x.shift) (bit 0x3 i) (added i)))
  unfolding synced
  digit i h =
      let kept1 = clear_unless (active x.shift) 0x3 with_locks in
      let kept2 = clear_unless (active x.ctrl) 0xc0 kept1 in
      bit-clear_unless (active x.super) 0xc00 kept2 i (omega arith) h
      ∙ ap (keep (active x.super) (bit 0xc00 i)) (
          bit-clear_unless (active x.ctrl) 0xc0 kept1 i (omega arith) h
          ∙ ap (keep (active x.ctrl) (bit 0xc0 i)) (
              bit-clear_unless (active x.shift) 0x3 with_locks i (omega arith) h
              ∙ ap (keep (active x.shift) (bit 0x3 i)) (bit-with_locks i)))

  -- After `SDLOP_KeyboardUpdateXkbModifiers` the flags for Caps Lock, Num Lock, level 5 and AltGr say what
  -- xkb says; the two flags of shift, control and super are kept from before where xkb has the modifier
  -- and cleared where it has not; the two flags of alt are kept, and the flag of Scroll Lock is cleared.
  pub synced_lem :
      let m' = synced active x m in
      (bit m' 13 ≡ (if active x.caps then 1 else 0))
      × (bit m' 12 ≡ (if active x.num then 1 else 0))
      × (bit m' 2 ≡ (if active x.level5 then 1 else 0))
      × (bit m' 14 ≡ (if active x.altgr then 1 else 0))
      × (bit m' 0 ≡ (if active x.shift then bit m 0 else 0))
      × (bit m' 1 ≡ (if active x.shift then bit m 1 else 0))
      × (bit m' 6 ≡ (if active x.ctrl then bit m 6 else 0))
      × (bit m' 7 ≡ (if active x.ctrl then bit m 7 else 0))
      × (bit m' 10 ≡ (if active x.super then bit m 10 else 0))
      × (bit m' 11 ≡ (if active x.super then bit m 11 else 0))
      × (bit m' 8 ≡ bit m 8)
      × (bit m' 9 ≡ bit m 9)
      × (bit m' 15 ≡ 0)
  unfolding added bit
  synced_lem = (
    digit 13 (omega arith) ∙ ground (arith, bit-le-one m 13),
    digit 12 (omega arith) ∙ ground (arith, bit-le-one m 12),
    digit 2 (omega arith) ∙ ground (arith, bit-le-one m 2),
    digit 14 (omega arith) ∙ ground (arith, bit-le-one m 14),
    digit 0 (omega arith) ∙ ground (arith, bit-le-one m 0),
    digit 1 (omega arith) ∙ ground (arith, bit-le-one m 1),
    digit 6 (omega arith) ∙ ground (arith, bit-le-one m 6),
    digit 7 (omega arith) ∙ ground (arith, bit-le-one m 7),
    digit 10 (omega arith) ∙ ground (arith, bit-le-one m 10),
    digit 11 (omega arith) ∙ ground (arith, bit-le-one m 11),
    digit 8 (omega arith) ∙ ground (arith, bit-le-one m 8),
    digit 9 (omega arith) ∙ ground (arith, bit-le-one m 9),
    digit 15 (omega arith) ∙ ground (arith, bit-le-one m 15),
  )
