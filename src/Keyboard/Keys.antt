-- ===== src/Keyboard/Keys.antt =====
-- src/SDL_keyboard.c: which keys are down.
use sdlop.Base.{
  ℕ, zero, suc, ◌+◌, ◌≤◌, ◌<◌, ◌≡◌, ◌≢◌, ◌⊎◌, inl, inr, refl, ap, ◌∙◌, Bool, true, false, length,
  length-set, get_or, set, get_or-set_self, get_or-set_ne, Bool-cases, leb, ◌==◌, ◌||◌,
  if◌then◌else◌, arith, List, [], ◌∷◌,
}
use sdlop.State.{Sdl}
use sdlop.Events.{push_event_internal, now_ns}
use sdlop.Mouse.{event_time}
use sdlop.Scancode.{scancode_count, evdev_from_scancode}
use sdlop.Keyboard.{
  Xkb, send_keyboard_key, send_keyboard_text, send_key_event, send_pressed_text, translate_key,
  manage_repeat, press, release_from, reset_keyboard,
}

valid : (sc : ℕ) → sc ≢ 0 → sc < 512 → (sc == 0 || leb scancode_count sc) ≡ false
valid sc z h = ground arith

module _ {F : Type 0} where
  -- Text events leave the keys and the key repeat alone.
  kept-send_keyboard_text :
      (s : Sdl F) (text : List ℕ) (t : ℕ)
      → ((send_keyboard_text s text t).keystate ≡ s.keystate)
        × ((send_keyboard_text s text t).repeat ≡ s.repeat)
  unfolding send_keyboard_text event_time push_event_internal now_ns
  kept-send_keyboard_text s [] t = (refl, refl)
  kept-send_keyboard_text s (c ∷ cs) t = ground arith

  keystate-manage_repeat :
      (xkb : Xkb) (s : Sdl F) (down repeat : Bool) (sc raw : ℕ)
      → (manage_repeat xkb s down repeat sc raw).keystate ≡ s.keystate
  unfolding manage_repeat
  keystate-manage_repeat xkb s down repeat sc raw = ground arith

  pub kept-send_pressed_text :
      (s : Sdl F) (down : Bool) (text : List ℕ) (t : ℕ)
      → ((send_pressed_text s down text t).keystate ≡ s.keystate)
        × ((send_pressed_text s down text t).repeat ≡ s.repeat)
  unfolding send_pressed_text
  kept-send_pressed_text s true text t = kept-send_keyboard_text s text t
  kept-send_pressed_text s false text t = (refl, refl)

  pub kept-send_key_event :
      (s : Sdl F) (down repeat : Bool) (sc key raw t : ℕ)
      → ((send_key_event s down repeat sc key raw t).keystate ≡ s.keystate)
        × ((send_key_event s down repeat sc key raw t).repeat ≡ s.repeat)
  unfolding send_key_event event_time push_event_internal now_ns
  kept-send_key_event s down repeat sc key raw t = ground arith

  -- A key event records its key, and only that.
  pub keystate-send_keyboard_key :
      (xkb : Xkb) (s : Sdl F) (down repeat : Bool) (sc raw t : ℕ)
      → sc ≢ 0
      → sc < 512
      → (send_keyboard_key xkb s down repeat sc raw t).keystate ≡ set s.keystate sc down
  unfolding send_keyboard_key press
  keystate-send_keyboard_key xkb s down repeat sc raw t z h =
      let s1 = press s down sc in
      let code = if raw == 0 then evdev_from_scancode sc else raw in
      let out = translate_key xkb s1.modstate code true 64 in
      let s3 = send_key_event s1 down repeat sc out.0 raw t in
      rw (valid sc z h) (
        keystate-manage_repeat xkb (send_pressed_text s3 down out.1 t) down repeat sc raw
        ∙ (kept-send_pressed_text s3 down out.1 t).0
        ∙ (kept-send_key_event s1 down repeat sc out.0 raw t).0)

  -- One round of the loop of `SDL_ResetKeyboard`.
  abbrev released : Xkb → ℕ → Sdl F → Sdl F
  released xkb i s =
      if get_or s.keystate i false
      then send_keyboard_key xkb s false false i (evdev_from_scancode i) 0
      else s

  keystate-released :
      (xkb : Xkb) (i : ℕ) (s : Sdl F)
      → i < 512
      → get_or s.keystate 0 false ≡ false
      → ((released xkb i s).keystate ≡ set s.keystate i false)
        ⊎ (((released xkb i s).keystate ≡ s.keystate) × (get_or s.keystate i false ≡ false))
  keystate-released xkb i s h z = elim (Bool-cases (get_or s.keystate i false)) [
    | inl e ↦ inl (
        rw e
          (keystate-send_keyboard_key xkb s false false i (evdev_from_scancode i) 0 (not_zero e) h))
    | inr e ↦ inr (rw e (refl, refl))
  ]
    where
      not_zero : get_or s.keystate i false ≡ true → i ≢ 0
      not_zero e same = ground (arith, e, z, ap (λ (k : ℕ). get_or s.keystate k false) same)

  -- A round keeps the storage and the keys that are up, and the key `i` is up after it.
  released_lem :
      (xkb : Xkb) (i j : ℕ) (s : Sdl F)
      → i < 512
      → length s.keystate ≡ 512
      → get_or s.keystate 0 false ≡ false
      → (length (released xkb i s).keystate ≡ 512)
        × ((j ≡ i) ⊎ (get_or s.keystate j false ≡ false)
            → get_or (released xkb i s).keystate j false ≡ false)
  released_lem xkb i j s h l z = elim (keystate-released xkb i s h z) [
    | inl e ↦ rw e (
      length-set s.keystate i false ∙ l,
      λ up. ground (
        arith,
        up,
        get_or-set_self s.keystate i false false (omega (arith, l)),
        get_or-set_ne s.keystate i j false false,
      ),
    )
    | inr (e, f) ↦ rw e (l, λ up. ground (arith, up, f))
  ]

  keystate-release_from :
      (xkb : Xkb) (n i j : ℕ) (s : Sdl F)
      → i + n ≤ 512
      → length s.keystate ≡ 512
      → get_or s.keystate 0 false ≡ false
      → (j < i → get_or s.keystate j false ≡ false)
      → j < i + n
      → get_or (release_from xkb n i s).keystate j false ≡ false
  unfolding release_from
  keystate-release_from xkb zero i j s b l z up h = up (omega arith)
  keystate-release_from xkb (suc n) i j s b l z up h =
      let here = released_lem xkb i j s (omega arith) l z in
      let first = released_lem xkb i 0 s (omega arith) l z in
      keystate-release_from xkb n (suc i) j (released xkb i s) (omega arith) here.0
        (first.1 (inr z)) (λ k. here.1 (ground (arith, up))) (omega arith)

  -- After `SDL_ResetKeyboard` no key is down and no key repeats, where the unknown scancode 0 was not
  -- down before.
  pub reset_keyboard_lem :
      (xkb : Xkb) (s : Sdl F) (sc : ℕ)
      → length s.keystate ≡ 512
      → get_or s.keystate 0 false ≡ false
      → sc < 512
      → let s' = reset_keyboard xkb s in
        (get_or s'.keystate sc false ≡ false) × (s'.repeat.active ≡ false)
  unfolding reset_keyboard
  reset_keyboard_lem xkb s sc l z h = (
    keystate-release_from xkb 512 0 sc s (omega arith) l z (λ k. absurd (omega arith))
        (omega arith),
    refl,
  )
