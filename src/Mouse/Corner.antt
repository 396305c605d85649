-- ===== src/Mouse/Corner.antt =====
-- src/SDL_mouse.c: motion to the corner of a window.
use sdlop.Base.{ℕ, ◌≡◌, ◌∙◌, Bool-cases, inl, inr, refl, ap, true, false, some, ◌==◌}
use sdlop.Base.Int.{ℤ, pos, ltb_ℤ}
use sdlop.State.{Sdl, Window, Mouse}
use sdlop.Base.Bits.{has}
use sdlop.Event.{Event}
use sdlop.Queue
use sdlop.Mouse.Bounds.{edge_next}
use sdlop.Events.{push_event_internal, now_ns}
use sdlop.Float.{Float, IsOrdered}
use sdlop.Mouse.{
  constrain_axis, constrain_in, constrain_mouse_pos, zero_f, deref, at_position, both_zero,
  event_time, report_motion, absolute_motion, send_mouse_motion,
}

module _ (fl : Float) (ord : IsOrdered fl) where
  open fl use {Carrier, add, eq, no_pos, le, of_int}

  axis :
      (size : ℤ) (last : Carrier)
      → ltb_ℤ (pos 0) size ≡ true
      → constrain_axis fl (zero_f fl) size last ≡ zero_f fl
  unfolding constrain_axis
  axis size last h =
      rw
        (
          edge_next size,
          ord.lt_not-le (zero_f fl) (of_int size) (ord.positive size h),
          ord.irrefl (zero_f fl),
        )
        refl

  corner :
      (s : Sdl Carrier) (v : Window Carrier)
      → deref s.mouse_focus s.windows ≡ some v
      → ltb_ℤ (pos 0) v.w ≡ true
      → ltb_ℤ (pos 0) v.h ≡ true
      → constrain_mouse_pos fl s (zero_f fl) (zero_f fl) ≡ (zero_f fl, zero_f fl)
  unfolding constrain_mouse_pos constrain_in
  corner s v focus wide high = rw focus (elim (Bool-cases (has v.flags 0x4000)) [
    | inl h ↦ rw h refl
    | inr h ↦ rw (h, axis v.w s.mouse.last_x wide, axis v.h s.mouse.last_y high) refl
  ])

  mouse-push_event_internal :
      (s : Sdl Carrier) (e : Event Carrier) → (push_event_internal s e).0.mouse ≡ s.mouse
  unfolding push_event_internal
  mouse-push_event_internal s e = elim (Bool-cases (Queue.push s.queue e).1) [
    | inl h ↦ rw h refl
    | inr h ↦ rw h refl
  ]

  mouse-event_time : (s : Sdl Carrier) (t : ℕ) → (event_time s t).0.mouse ≡ s.mouse
  unfolding event_time now_ns
  mouse-event_time s t = elim (Bool-cases (t == 0)) [ inl h ↦ rw h refl | inr h ↦ rw h refl ]

  -- The mouse after a motion that is not zero is reported
  mouse-report_motion :
      (s : Sdl Carrier) (dx dy : Carrier) (t : ℕ)
      → both_zero fl dx dy ≡ false
      → (report_motion fl s dx dy t).mouse
        ≡ record s.mouse { xrel_acc = add s.mouse.xrel_acc dx; yrel_acc = add s.mouse.yrel_acc dy }
  unfolding report_motion
  mouse-report_motion s dx dy t moved =
      let m : Mouse Carrier = record s.mouse {
        xrel_acc = add s.mouse.xrel_acc dx;
        yrel_acc = add s.mouse.yrel_acc dy;
      } in
      rw (report_motion, moved)
        (mouse-push_event_internal (event_time (record s { mouse = m }) t).0 _
          ∙ mouse-event_time (record s { mouse = m }) t)

  -- Motion with a displacement to the corner, in a window of positive size
  pub send_mouse_motion_corner :
      (s : Sdl Carrier) (v : Window Carrier) (dx dy : Carrier) (t : ℕ)
      → deref s.mouse_focus s.windows ≡ some v
      → ltb_ℤ (pos 0) v.w ≡ true
      → ltb_ℤ (pos 0) v.h ≡ true
      → eq (zero_f fl) no_pos ≡ false
      → both_zero fl dx dy ≡ false
      → let m = (send_mouse_motion fl s (zero_f fl) (zero_f fl) dx dy t).mouse in
        (m.x ≡ zero_f fl)
        × (m.y ≡ zero_f fl)
        × (m.xrel_acc ≡ add s.mouse.xrel_acc dx)
        × (m.yrel_acc ≡ add s.mouse.yrel_acc dy)
  unfolding send_mouse_motion absolute_motion
  send_mouse_motion_corner s v dx dy t focus wide high apart moved =
      rw (send_mouse_motion, apart, absolute_motion, corner s v focus wide high, moved)
        (let m : Mouse Carrier = record (at_position fl s.mouse (zero_f fl) (zero_f fl)) {
          has_position = true;
        } in
          let e = mouse-report_motion (record s { mouse = m }) dx dy t moved in
          (
            ap (λ (n : Mouse Carrier). n.x) e,
            ap (λ (n : Mouse Carrier). n.y) e,
            ap (λ (n : Mouse Carrier). n.xrel_acc) e,
            ap (λ (n : Mouse Carrier). n.yrel_acc) e,
          ))
