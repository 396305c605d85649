-- ===== src/Wayland/Seat/Numbers.antt =====
-- src/video/wayland/sdlop_wayland.c: the numbers of the devices of a seat.
use sdlop.Base.{
  refl, ◌∙◌, ap, Bool-cases, inl, inr, ℕ, ◌+◌, ◌^◌, ◌≤◌, ◌<◌, ◌≡◌, Bool, true, false, not, ◌&&◌,
  ◌==◌, if◌then◌else◌, arith,
}
use sdlop.Base.Bits.{has}
use sdlop.State.{Sdl}
use sdlop.Wayland.Seat.{
  Seat, device_next_id, keyboard_capability, pointer_capability, touch_capability,
  seat_capabilities,
}

-- A device has a number exactly when it is there, no two have the same, and all were given out.
pub record IsNumbered (d : Seat) : Type 0 where
  pub keyboard_has : (d.keyboard_id == 0) ≡ not d.keyboard
  pub pointer_has : (d.pointer_id == 0) ≡ not d.pointer
  pub apart : d.keyboard && d.pointer && d.keyboard_id == d.pointer_id ≡ false
  pub keyboard_given : d.keyboard_id ≤ d.next_id
  pub pointer_given : d.pointer_id ≤ d.next_id

-- What becomes of the seat, without the events
keyboard_seat : Seat → Bool → Seat
keyboard_seat d wanted =
    if wanted && not d.keyboard
    then record d { keyboard = true; keyboard_id = device_next_id d; next_id = device_next_id d }
    else if not wanted && d.keyboard
    then record d { keyboard = false; keyboard_id = 0 }
    else d

pointer_seat : Seat → Bool → Seat
pointer_seat d wanted =
    if wanted && not d.pointer
    then record d { pointer = true; pointer_id = device_next_id d; next_id = device_next_id d }
    else if not wanted && d.pointer
    then record d { pointer = false; pointer_id = 0 }
    else d

keyboard_step :
    (d : Seat) (wanted : Bool)
    → IsNumbered d
    → d.next_id + 1 < 2 ^ 32
    → let d' = keyboard_seat d wanted in
      IsNumbered d'
      × ((d'.keyboard ≡ wanted) × (d'.next_id ≤ d.next_id + 1) × (d'.pointer ≡ d.pointer))
unfolding keyboard_seat
keyboard_step d wanted n room = (
  record {
    keyboard_has = ground (arith, n.keyboard_has, room);
    pointer_has = ground (arith, n.pointer_has, room);
    apart = ground (arith, n.apart, n.pointer_given, room);
    keyboard_given = ground (arith, n.keyboard_given, room);
    pointer_given = ground (arith, n.pointer_given, room);
  },
  (ground (arith, room), ground (arith, room), ground (arith, room)),
)

pointer_step :
    (d : Seat) (wanted : Bool)
    → IsNumbered d
    → d.next_id + 1 < 2 ^ 32
    → let d' = pointer_seat d wanted in
      IsNumbered d' × ((d'.pointer ≡ wanted) × (d'.keyboard ≡ d.keyboard))
unfolding pointer_seat
pointer_step d wanted n room = (
  record {
    keyboard_has = ground (arith, n.keyboard_has, room);
    pointer_has = ground (arith, n.pointer_has, room);
    apart = ground (arith, n.apart, n.keyboard_given, room);
    keyboard_given = ground (arith, n.keyboard_given, room);
    pointer_given = ground (arith, n.pointer_given, room);
  },
  (ground (arith, room), ground (arith, room)),
)

module _ {F : Type 0} where
  keyboard_capability_lem :
      (w : Sdl F × Seat) (wanted : Bool)
      → (keyboard_capability w wanted).1 ≡ keyboard_seat w.1 wanted
  unfolding keyboard_capability keyboard_seat
  keyboard_capability_lem (s, d) wanted = elim (Bool-cases (wanted && not d.keyboard)) [
    | inl h ↦ rw (keyboard_capability, keyboard_seat, h) refl
    | inr h ↦ elim (Bool-cases (not wanted && d.keyboard)) [
      | inl k ↦ rw (keyboard_capability, keyboard_seat, h, k) refl
      | inr k ↦ rw (keyboard_capability, keyboard_seat, h, k) refl
    ]
  ]

  pointer_capability_lem :
      (w : Sdl F × Seat) (wanted : Bool) → (pointer_capability w wanted).1 ≡ pointer_seat w.1 wanted
  unfolding pointer_capability pointer_seat
  pointer_capability_lem (s, d) wanted = elim (Bool-cases (wanted && not d.pointer)) [
    | inl h ↦ rw (pointer_capability, pointer_seat, h) refl
    | inr h ↦ elim (Bool-cases (not wanted && d.pointer)) [
      | inl k ↦ rw (pointer_capability, pointer_seat, h, k) refl
      | inr k ↦ rw (pointer_capability, pointer_seat, h, k) refl
    ]
  ]

  after_both :
      (s : Sdl F) (d : Seat) (caps : ℕ)
      → (pointer_capability (keyboard_capability (s, d) (has caps 0x2)) (has caps 0x1)).1
        ≡ pointer_seat (keyboard_seat d (has caps 0x2)) (has caps 0x1)
  after_both s d caps =
      pointer_capability_lem (keyboard_capability (s, d) (has caps 0x2)) (has caps 0x1)
      ∙ ap (λ (e : Seat). pointer_seat e (has caps 0x1))
          (keyboard_capability_lem (s, d) (has caps 0x2))

  touch_capability_lem :
      (w : Sdl F × Seat) (wanted : Bool)
      → (touch_capability w wanted).1 ≡ record w.1 { touch = wanted }
  unfolding touch_capability
  touch_capability_lem (s, d) wanted = elim (Bool-cases (wanted && not d.touch)) [
    | inl h ↦ let e : wanted ≡ true = ground (arith, h) in rw (touch_capability, h, e) refl
    | inr h ↦ elim (Bool-cases (not wanted && d.touch)) [
      | inl k ↦ let e : wanted ≡ false = ground (arith, k) in rw (touch_capability, h, k, e) refl
      | inr k ↦
          let e : d.touch ≡ wanted = ground (arith, h, k) in
          rw (touch_capability, h, k) (ap (λ (t : Bool). record d { touch = t }) e)
    ]
  ]

  -- After `seat_capabilities` the seat has exactly the devices that the compositor names, whatever it
  -- had before. A keyboard and a pointer have a number exactly while they are there, not the same one,
  -- and every number was given out by the counter, when that was so before and the counter is not about
  -- to wrap around.
  pub seat_capabilities_lem :
      (s : Sdl F) (d : Seat) (caps : ℕ)
      → IsNumbered d
      → d.next_id + 2 < 2 ^ 32
      → let d' = (seat_capabilities (s, d) caps).1 in
        IsNumbered d'
        × (d'.keyboard ≡ has caps 0x2)
        × (d'.pointer ≡ has caps 0x1)
        × (d'.touch ≡ has caps 0x4)
  unfolding seat_capabilities
  seat_capabilities_lem s d caps n room =
      let (n1, (k1, small, p1)) = keyboard_step d (has caps 0x2) n (omega (arith, room)) in
      let d1 = keyboard_seat d (has caps 0x2) in
      let (n2, (p2, k2)) = pointer_step d1 (has caps 0x1) n1 (omega (arith, room, small)) in
      let d2 = pointer_seat d1 (has caps 0x1) in
      let both = pointer_capability (keyboard_capability (s, d) (has caps 0x2)) (has caps 0x1) in
      rw (touch_capability_lem both (has caps 0x4), after_both s d caps)
        (
          record {
            keyboard_has = n2.keyboard_has;
            pointer_has = n2.pointer_has;
            apart = n2.apart;
            keyboard_given = n2.keyboard_given;
            pointer_given = n2.pointer_given;
          },
          k2 ∙ k1,
          p2,
          refl,
        )
