-- ===== src/Wayland/Pointer/Wheel.antt =====
-- src/video/wayland/sdlop_wayland.c: what a frame of the pointer makes of the scroll axes.
use sdlop.Base.{◌≡◌, refl, Bool-cases, inl, inr, Bool, true, false, ◌&&◌, arith}
use sdlop.Base.Int.{ℤ}
use sdlop.Float.{Float}
use sdlop.Mouse.{zero_f}
use sdlop.State.{Sdl}
use sdlop.Wayland.{Scaling, Device}
use sdlop.Wayland.Pointer.{
  pointer_axis, pointer_axis_value120, pointer_frame, frame_wheel, frame_motion, any_motion,
}

module _ (fl : Float) (scaling : Scaling fl) where
  open fl use {Carrier, add, sub, eq}
  open scaling use {tenth, detents}

  -- Nothing waits for a frame: on the axes, and as relative motion.
  abbrev NoWheel : Device Carrier → Type 0
  NoWheel d = any_motion fl scaling d.axis_x_acc d.axis_y_acc ≡ false

  abbrev NoMotion : Device Carrier → Type 0
  NoMotion d = (d.relative_pointer && any_motion fl scaling d.rel_x_acc d.rel_y_acc) ≡ false

  quiet :
      (raw : Bool) (s : Sdl Carrier) (d : Device Carrier)
      → NoWheel d
      → NoMotion d
      → pointer_frame fl scaling raw (s, d) ≡ (s, d)
  unfolding pointer_frame frame_wheel frame_motion
  quiet raw s d a b = rw a (rw b refl)

  still : eq (zero_f fl) (zero_f fl) ≡ true → any_motion fl scaling (zero_f fl) (zero_f fl) ≡ false
  still z = rw z refl

  wheel_done :
      (s : Sdl Carrier) (d : Device Carrier)
      → eq (zero_f fl) (zero_f fl) ≡ true
      → NoWheel (frame_wheel fl scaling (s, d)).1
  unfolding frame_wheel
  wheel_done s d z = elim (Bool-cases (any_motion fl scaling d.axis_x_acc d.axis_y_acc)) [
    | inl e ↦ rw (frame_wheel, e) (still z)
    | inr e ↦ rw (frame_wheel, e) e
  ]

  motion_done :
      (raw : Bool) (s : Sdl Carrier) (d : Device Carrier)
      → eq (zero_f fl) (zero_f fl) ≡ true
      → NoWheel d
      → let d' = (frame_motion fl scaling raw (s, d)).1 in NoWheel d' × NoMotion d'
  unfolding frame_motion
  motion_done raw s d z a =
      let waits = d.relative_pointer && any_motion fl scaling d.rel_x_acc d.rel_y_acc in
      let none_left : (d.relative_pointer && any_motion fl scaling (zero_f fl) (zero_f fl))
          ≡ false =
        rw (still z) (never d.relative_pointer) in
      elim (Bool-cases waits) [
        | inl e ↦ elim (Bool-cases raw) [
          | inl r ↦ rw (frame_motion, e, r) (a, none_left)
          | inr r ↦ rw (frame_motion, e, r) (a, none_left)
        ]
        | inr e ↦ rw (frame_motion, e) (a, e)
      ]
    where
      never : (b : Bool) → (b && false) ≡ false
      never true = refl
      never false = refl

  -- After a frame of the pointer nothing is left over for the next one: a second frame changes nothing
  -- and sends nothing.
  pub pointer_frame_twice :
      (raw : Bool) (s : Sdl Carrier) (d : Device Carrier)
      → eq (zero_f fl) (zero_f fl) ≡ true
      → let w = pointer_frame fl scaling raw (s, d) in pointer_frame fl scaling raw w ≡ w
  unfolding pointer_frame
  pointer_frame_twice raw s d z =
      let w = frame_wheel fl scaling (s, d) in
      let (a, b) = motion_done raw w.0 w.1 z (wheel_done s d z) in
      let w' = frame_motion fl scaling raw w in quiet raw w'.0 w'.1 a b

  -- A defect: the two events that a compositor sends for one step of the wheel, `axis` and `axis_value120`,
  -- are added up with opposite signs on the vertical axis. Where the numbers are exact, the frame that
  -- follows changes nothing and sends nothing: the wheel is lost.
  pub wheel_lost :
      (s : Sdl Carrier) (d : Device Carrier) (value value120 : ℤ)
      → eq (zero_f fl) (zero_f fl) ≡ true
      → d.axis_x_acc ≡ zero_f fl
      → d.axis_y_acc ≡ zero_f fl
      → d.relative_pointer ≡ false
      → tenth value ≡ detents value120
      → add (sub (zero_f fl) (tenth value)) (tenth value) ≡ zero_f fl
      → let d1 = pointer_axis fl scaling false d true value in
        let d2 = pointer_axis_value120 fl scaling false d1 true value120 in
        pointer_frame fl scaling false (s, d2) ≡ (s, d2)
  unfolding pointer_axis pointer_axis_value120 pointer_frame frame_wheel frame_motion
  wheel_lost s d value value120 z x y off same exact = ground (arith, z, x, y, off, same, exact)
