-- ===== src/Wayland/Keyboard/Focus.antt =====
-- src/video/wayland/sdlop_wayland.c: the window that has the keyboard focus is the one with the flag.
use sdlop.Base.{
  ℕ, ◌≡◌, refl, ◌∙◌, sym, ap, Bool, true, false, not, ◌&&◌, Option, none, some, Bool-cases,
  Option-cases, inl, inr, List, [], ◌∷◌, bit_or, ◌==◌, if◌then◌else◌, arith,
}
use sdlop.Base.Bits.{has, clear, bit-bit_or, bit-clear, has-pow, bit-le-one, bit-pow_self}
use sdlop.Base.Int.{pos}
use sdlop.State.{Sdl, Window, window_at, put_window}
use sdlop.State.Lists.{
  listed, distinct, window_at-addr, window_at-found, window_at-listed, distinct-put, listed-put,
}
use sdlop.Events.{send_window_event, push_event_internal, now_ns}
use sdlop.Windows.{store, is_at}
use sdlop.Dummy.Fullscreen.{windows-send}
use sdlop.Wayland.{Device, window_from_surface}
use sdlop.Event.{focus_lost, focus_gained}
use sdlop.Wayland.Keyboard.{window_input_focus, lose_focus, leave_other, gain_focus, keyboard_enter}

has-set : (flags : ℕ) → has (bit_or flags window_input_focus) window_input_focus ≡ true
has-set flags =
    has-pow (bit_or flags 0x200) 9
    ∙ ground (arith, bit-bit_or flags 0x200 9, bit-pow_self 9, bit-le-one flags 9)

has-clear : (flags : ℕ) → has (clear 64 flags window_input_focus) window_input_focus ≡ false
has-clear flags =
    has-pow (clear 64 flags 0x200) 9
    ∙ ground (arith, bit-clear 64 flags 0x200 9 (omega arith) (omega arith), bit-pow_self 9)

module _ {F : Type 0} where
  -- The flag of each window of a list says whether the focus is there.
  abbrev pub agrees : Option ℕ → List (Window F) → Bool
  agrees p [] = true
  agrees p (w ∷ ws) =
      (if has w.flags window_input_focus then is_at p w.addr else not (is_at p w.addr))
      && agrees p ws

  agrees-unlisted :
      (a : ℕ) (p q : Option ℕ) (ws : List (Window F))
      → listed a ws ≡ false
      → ((b : ℕ) → (b == a) ≡ false → is_at p b ≡ is_at q b)
      → agrees p ws ≡ agrees q ws
  agrees-unlisted a p q [] h same = refl
  agrees-unlisted a p q (w ∷ ws) h same = ground (arith, h, same w.addr, agrees-unlisted a p q ws)

  -- A window that is put in its place with the right flag, where the others agree already
  agrees-put :
      (p q : Option ℕ) (v : Window F) (ws : List (Window F))
      → listed v.addr ws ≡ true
      → distinct ws ≡ true
      → agrees p ws ≡ true
      → ((b : ℕ) → (b == v.addr) ≡ false → is_at p b ≡ is_at q b)
      → has v.flags window_input_focus ≡ is_at q v.addr
      → agrees q (put_window v ws) ≡ true
  agrees-put p q v [] l d h same flag = refl
  agrees-put p q v (w ∷ ws) l d h same flag =
      ground (arith, l, d, h, flag, same w.addr, agrees-unlisted v.addr p q ws, agrees-put p q v ws)

  found-listed :
      (d : Device F) (ws : List (Window F)) (surface : ℕ) (w : Window F)
      → window_from_surface d ws surface ≡ some w
      → listed w.addr ws ≡ true
  unfolding window_from_surface
  found-listed d [] surface w h = absurd (ground (arith, h))
  found-listed d (u ∷ ws) surface w h = ground (arith, h, found-listed d ws surface w)

  -- The windows of a state: which have the flag, where the others of `a` do not, and which there are.
  record Ready (a : ℕ) (before after : List (Window F)) : Type 0 where
    focus : Option ℕ
    flags : agrees focus after ≡ true
    others : (b : ℕ) → (b == a) ≡ false → is_at focus b ≡ is_at (some a) b
    apart : distinct after ≡ true
    known : listed a after ≡ listed a before

  windows-lose_focus :
      (s : Sdl F) (b : ℕ) (w : Window F)
      → window_at b s.windows ≡ some w
      → (lose_focus s b).windows
        ≡ put_window (record w { flags = clear 64 w.flags window_input_focus }) s.windows
  unfolding lose_focus
  windows-lose_focus s b w e =
      let v = record w { flags = clear 64 w.flags window_input_focus } in
      rw (lose_focus, e) (windows-send (store s v) v focus_lost)

  windows-lose_nothing :
      (s : Sdl F) (b : ℕ) → window_at b s.windows ≡ none → (lose_focus s b).windows ≡ s.windows
  unfolding lose_focus
  windows-lose_nothing s b e = rw (lose_focus, e) refl

  lose_focus_lem :
      (s : Sdl F) (a b : ℕ)
      → distinct s.windows ≡ true
      → agrees (some b) s.windows ≡ true
      → (b == a) ≡ false
      → Ready a s.windows (lose_focus s b).windows
  lose_focus_lem s a b d h ne = elim (Option-cases (window_at b s.windows)) [
    | inl e ↦ rw (windows-lose_nothing s b e) (record {
      focus = none;
      flags =
          agrees-unlisted b none (some b) s.windows (window_at-listed b s.windows e)
            (λ c n. ground (arith, n))
          ∙ h;
      others = λ c n. ground (arith, n);
      apart = d;
      known = refl;
    })
    | inr (w, e) ↦
        let v = record w { flags = clear 64 w.flags window_input_focus } in
        let at : w.addr ≡ b = window_at-addr b w s.windows e in
        let there : listed v.addr s.windows ≡ true =
          ap (λ (c : ℕ). listed c s.windows) at ∙ window_at-found b w s.windows e in
        rw (windows-lose_focus s b w e) (record {
          focus = none;
          flags =
              agrees-put (some b) none v s.windows there d h (λ c n. ground (arith, n, at))
                (has-clear w.flags);
          others = λ c n. ground (arith, n);
          apart = distinct-put v s.windows ∙ d;
          known = listed-put a v s.windows;
        })
  ]

  leave_other_lem :
      (s : Sdl F) (a : ℕ)
      → distinct s.windows ≡ true
      → agrees s.keyboard_focus s.windows ≡ true
      → Ready a s.windows (leave_other s a).windows
  unfolding leave_other
  leave_other_lem s a d h = elim (Option-cases s.keyboard_focus) [
    | inl e ↦
        rw (leave_other, e)
          (record {
            focus = none;
            flags = ap (λ (p : Option ℕ). agrees p s.windows) (sym e) ∙ h;
            others = λ c n. ground (arith, n);
            apart = d;
            known = refl;
          })
    | inr (b, e) ↦
        let h' : agrees (some b) s.windows ≡ true =
          ap (λ (p : Option ℕ). agrees p s.windows) (sym e) ∙ h in
        elim (Bool-cases (b == a)) [
          | inl same ↦
              rw (leave_other, e, same)
                (record {
                  focus = some b;
                  flags = h';
                  others = λ c n. ground (arith, n, same);
                  apart = d;
                  known = refl;
                })
          | inr other ↦ rw (leave_other, e, other) (lose_focus_lem s a b d h' other)
        ]
  ]

  focus-send :
      (s : Sdl F) (w : Window F) (type : ℕ)
      → (send_window_event s (some w) type (pos 0) (pos 0)).keyboard_focus ≡ s.keyboard_focus
  unfolding send_window_event push_event_internal now_ns
  focus-send s w type = ground arith

  gain_focus_lem :
      (s : Sdl F) (w : Window F)
      → distinct s.windows ≡ true
      → agrees s.keyboard_focus s.windows ≡ true
      → listed w.addr s.windows ≡ true
      → (agrees (some w.addr) (gain_focus s w).windows ≡ true)
        × ((gain_focus s w).keyboard_focus ≡ some w.addr)
  unfolding gain_focus
  gain_focus_lem s w d h there =
      let r = leave_other_lem s w.addr d h in
      let s1 = record (leave_other s w.addr) { keyboard_focus = some w.addr } in
      let v = record w { flags = bit_or w.flags window_input_focus } in
      (
        rw (windows-send (store s1 v) v focus_gained) (
            agrees-put r.focus (some w.addr) v s1.windows (r.known ∙ there) r.apart r.flags r.others
              (ground (arith, has-set w.flags))),
        focus-send (store s1 v) v focus_gained,
      )

  -- The window whose address `keyboard_enter` makes the focus
  abbrev pub entered : Option (Window F) → Option ℕ → Option ℕ
  entered none focus = focus
  entered (some w) focus = some w.addr

  -- `keyboard_enter` keeps the flags of the windows right: exactly the window that has the keyboard focus
  -- has the flag for it, before and after. The focus is then the window of the surface, or the old one
  -- where no window has the surface.
  pub keyboard_enter_lem :
      (s : Sdl F) (d : Device F) (surface : ℕ)
      → distinct s.windows ≡ true
      → agrees s.keyboard_focus s.windows ≡ true
      → let s' = keyboard_enter (s, d) surface in
        (agrees s'.keyboard_focus s'.windows ≡ true)
        × (s'.keyboard_focus ≡ entered (window_from_surface d s.windows surface) s.keyboard_focus)
  unfolding keyboard_enter
  keyboard_enter_lem s d surface apart h =
      elim (Option-cases (window_from_surface d s.windows surface)) [
        | inl e ↦ rw (keyboard_enter, e) (h, refl)
        | inr (w, e) ↦
            let (flags, focus) =
              gain_focus_lem s w apart h (found-listed d s.windows surface w e) in
            rw (keyboard_enter, e)
              (ap (λ (p : Option ℕ). agrees p (gain_focus s w).windows) focus ∙ flags, focus)
      ]
