-- ===== src/Web/Input/Modifiers.antt =====
-- src/video/emscripten/sdlop_emscripten.c with src/SDL_keyboard_web.c: the modifiers of a key event.
use sdlop.Base.{ℕ, ◌≡◌, refl, Bool, true, false, ◌&&◌, not, Option, none, some, [], leb, arith}
use sdlop.Base.Bits.{has}
use sdlop.WebKeyboard.{KeyEntry, key, key_table, entry_in, resolve, resolve_entry, text_of_key}
use sdlop.Web.Input.{DomKey, dom_modifiers}

-- A test on all Booleans
both : (Bool → Bool) → Bool
both f = f true && f false

both_at : (f : Bool → Bool) (b : Bool) → both f ≡ true → f b ≡ true
unfolding both
both_at f true h = ground (arith, h)
both_at f false h = ground (arith, h)

-- Whether an event with the flags has neither Num Lock nor Caps Lock
free : Bool → Bool → Bool → Bool → Bool → Bool
unfolding dom_modifiers
free shift ctrl alt meta right =
    let m = dom_modifiers (record {
      code = [];
      key_code = 0;
      shift = shift;
      ctrl = ctrl;
      alt = alt;
      meta = meta;
      right = right;
      repeat = false;
    }) in
    not (has m 0x1000) && not (has m 0x2000)

free_table : both (λ a. both λ b. both λ c. both λ d. both λ e. free a b c d e) ≡ true
unfolding both free
free_table = refl

free_at : (a b c d e : Bool) → free a b c d e ≡ true
free_at a b c d e =
    both_at (λ x. free a b c d x) e
      (both_at (λ x. both λ e. free a b c x e) d
        (both_at (λ x. both λ d. both λ e. free a b x d e) c
          (both_at (λ x. both λ c. both λ d. both λ e. free a x c d e) b
            (both_at (λ x. both λ b. both λ c. both λ d. both λ e. free x b c d e) a free_table))))

neither : (a b : Bool) → not a && not b ≡ true → (a ≡ false) × (b ≡ false)
neither a b h = ground (arith, h)

-- No event says that Num Lock or Caps Lock is on.
pub dom_modifiers-locks :
    (e : DomKey) → (has (dom_modifiers e) 0x1000 ≡ false) × (has (dom_modifiers e) 0x2000 ≡ false)
unfolding dom_modifiers free
dom_modifiers-locks e =
    neither (has (dom_modifiers e) 0x1000) (has (dom_modifiers e) 0x2000)
      (free_at e.shift e.ctrl e.alt e.meta e.right)

silent_entry :
    (o : Option KeyEntry) (sc mods : ℕ) (key_event : Bool)
    → has mods 0x1000 ≡ false
    → leb 84 sc && leb sc 97 ≡ true
    → (resolve_entry o sc mods key_event).1 ≡ []
unfolding resolve_entry text_of_key
silent_entry none sc mods key_event num pad = refl
silent_entry (some (key k base shifted repeats)) sc mods key_event num pad =
    ground (arith, num, pad)

-- A defect: with the modifiers that the browser driver makes of an event, the keys of the numeric
-- keypad from division to 9 (scancodes 84 to 97) give no text, whatever the event says, for Num Lock is never on.
pub resolve-dom_modifiers :
    (e : DomKey) (sc : ℕ) (key_event : Bool)
    → leb 84 sc && leb sc 97 ≡ true
    → (resolve sc (dom_modifiers e) key_event).1 ≡ []
unfolding resolve
resolve-dom_modifiers e sc key_event pad =
    silent_entry (entry_in key_table sc) sc (dom_modifiers e) key_event (dom_modifiers-locks e).0
      pad
