-- ===== src/Wayland/Touch.antt =====
-- src/video/wayland/sdlop_wayland.c: touch events, and the 16 fingers that are followed.
pub mod Fingers
use sdlop.Base.{
  ℕ, Bool, true, false, ◌&&◌, ◌||◌, Option, none, some, List, [], ◌∷◌, ◌==◌, if◌then◌else◌,
}
use sdlop.Base.Int.{ℤ, pos, leb_ℤ}
use sdlop.Event.{finger_down, finger_up, finger_motion, finger_canceled}
use sdlop.State.{Sdl, Window}
use sdlop.Float.{Float}
use sdlop.Mouse.{deref, send_touch, zero_f}
use sdlop.Events.{mono_ns}
use sdlop.Wayland.{Scaling, World, Device, Finger, window_from_surface}

module _ (fl : Float) where
  open fl use {Carrier, sub, lt, one}

  -- The test of a finger in the loops: it is down and has the number.
  abbrev pub is_finger : ℕ → Finger Carrier → Bool
  is_finger id f = f.active && f.id == id

  -- The first loop of `touch_finger_track`: the deltas of the finger that it finds, moved there.
  pub move_finger :
      List (Finger Carrier)
      → ℕ
      → Carrier
      → Carrier
      → Bool
      → Option (List (Finger Carrier) × Carrier × Carrier)
  move_finger [] id nx ny activate = none
  move_finger (f ∷ fs) id nx ny activate =
      if is_finger id f
      then some (record f { active = activate; nx = nx; ny = ny } ∷ fs, sub nx f.nx, sub ny f.ny)
      else elim (move_finger fs id nx ny activate) [
        | none ↦ none
        | some (fs', dx, dy) ↦ some (f ∷ fs', dx, dy)
      ]

  -- The second loop: the first entry that is free takes the finger.
  pub place_finger : List (Finger Carrier) → ℕ → Carrier → Carrier → List (Finger Carrier)
  place_finger [] id nx ny = []
  place_finger (f ∷ fs) id nx ny =
      if f.active
      then f ∷ place_finger fs id nx ny
      else record { active = true; id = id; nx = nx; ny = ny } ∷ fs

  -- `touch_finger_track`: the fingers, `*dx` and `*dy`
  pub finger_track :
      List (Finger Carrier)
      → ℕ
      → Carrier
      → Carrier
      → Bool
      → List (Finger Carrier) × Carrier × Carrier
  unfolding move_finger place_finger
  finger_track fs id nx ny activate = elim (move_finger fs id nx ny activate) [
    | some r ↦ r
    | none ↦ (if activate then place_finger fs id nx ny else fs, zero_f fl, zero_f fl)
  ]

  -- The loop of `touch_up`: where a finger was last
  unfoldable pub last_position : List (Finger Carrier) → ℕ → Option (Carrier × Carrier)
  last_position [] id = none
  last_position (f ∷ fs) id = if is_finger id f then some (f.nx, f.ny) else last_position fs id

  -- `if (n < 0.0f) n = 0.0f; if (n > 1.0f) n = 1.0f;`
  abbrev pub unit : Carrier → Carrier
  unit n = let m = if lt n (zero_f fl) then zero_f fl else n in if lt one m then one else m

  module _ (scaling : Scaling fl) where
    -- `touch_down` and `touch_motion` on a window
    pub touch_at : ℕ → Bool → World Carrier → Option ℕ → Window Carrier → ℕ → ℤ → ℤ → World Carrier
    unfolding finger_track mono_ns
    touch_at type moves (s, d) focus w id x y =
        if leb_ℤ w.w (pos 0) || leb_ℤ w.h (pos 0)
        then (s, d)
        else (let nx = unit (scaling.share x w.w) in
            let ny = unit (scaling.share y w.h) in
            let (fs, dx, dy) = finger_track d.fingers id nx ny true in
            let (s1, t) = mono_ns s in
            (
              send_touch fl s1 type d.seat id nx ny (if moves then dx else zero_f fl)
                  (if moves then dy else zero_f fl) one w.id t,
              record d { fingers = fs; touch_focus = focus },
            ))

    -- `touch_down`
    pub touch_down : World Carrier → ℕ → ℕ → ℤ → ℤ → World Carrier
    unfolding touch_at window_from_surface
    touch_down (s, d) surface id x y = elim (window_from_surface d s.windows surface) [
      | none ↦ (s, d)
      | some w ↦ touch_at finger_down false (s, d) (some w.addr) w id x y
    ]

    -- `touch_motion`
    pub touch_motion : World Carrier → ℕ → ℤ → ℤ → World Carrier
    unfolding touch_at
    touch_motion (s, d) id x y = elim (deref d.touch_focus s.windows) [
      | none ↦ (s, d)
      | some w ↦ touch_at finger_motion true (s, d) d.touch_focus w id x y
    ]

    abbrev pub id_of : Option (Window Carrier) → ℕ
    id_of none = 0
    id_of (some w) = w.id

    -- `touch_up`
    pub touch_up : World Carrier → ℕ → World Carrier
    unfolding finger_track last_position mono_ns
    touch_up (s, d) id =
        let (nx, ny) : Carrier × Carrier = elim (last_position d.fingers id) [
          | none ↦ (zero_f fl, zero_f fl)
          | some p ↦ p
        ] in
        let (fs, dx, dy) = finger_track d.fingers id nx ny false in
        let (s1, t) = mono_ns s in
        (
          send_touch fl s1 finger_up d.seat id nx ny (zero_f fl) (zero_f fl) (zero_f fl)
              (id_of (deref d.touch_focus s.windows)) t,
          record d { fingers = fs },
        )

    -- The loop of `touch_cancel`
    pub cancel_from : ℕ → Sdl Carrier → List (Finger Carrier) → Sdl Carrier × List (Finger Carrier)
    unfolding mono_ns
    cancel_from seat s [] = (s, [])
    cancel_from seat s (f ∷ fs) =
        let s' =
          if f.active
          then (let (s1, t) = mono_ns s in
              send_touch fl s1 finger_canceled seat f.id f.nx f.ny (zero_f fl) (zero_f fl)
                (zero_f fl) 0 t)
          else s in
        let (s2, rest) = cancel_from seat s' fs in
        (s2, (if f.active then record f { active = false } else f) ∷ rest)

    -- `touch_cancel`
    pub touch_cancel : World Carrier → World Carrier
    unfolding cancel_from
    touch_cancel (s, d) =
        let (s', fs) = cancel_from d.seat s d.fingers in (s', record d { fingers = fs })
