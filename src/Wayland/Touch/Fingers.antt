-- ===== src/Wayland/Touch/Fingers.antt =====
-- src/video/wayland/sdlop_wayland.c: the followed fingers as a map from numbers to positions.
use sdlop.Base.{
  ℕ, ◌≡◌, refl, ap, Bool, true, false, ◌&&◌, ◌||◌, Option, none, some, Bool-cases, Option-cases,
  inl, inr, List, [], ◌∷◌, ◌==◌, if◌then◌else◌, arith,
}
use sdlop.Float.{Float}
use sdlop.Mouse.{zero_f}
use sdlop.Wayland.{Finger}
use sdlop.Wayland.Touch.{is_finger, move_finger, place_finger, finger_track, last_position}

module _ (fl : Float) where
  open fl use {Carrier, sub}

  abbrev pub is_some : {A : Type 0} → Option A → Bool
  is_some none = false
  is_some (some a) = true

  -- No two fingers that are down have the same number.
  abbrev pub distinct : List (Finger Carrier) → Bool
  distinct [] = true
  distinct (f ∷ fs) = if f.active && is_some (last_position fl fs f.id) then false else distinct fs

  abbrev pub has_free : List (Finger Carrier) → Bool
  has_free [] = false
  has_free (f ∷ fs) = if f.active then has_free fs else true

  move_none :
      (fs : List (Finger Carrier)) (id : ℕ) (nx ny : Carrier) (activate : Bool)
      → last_position fl fs id ≡ none
      → move_finger fl fs id nx ny activate ≡ none
  unfolding move_finger last_position
  move_none [] id nx ny activate h = refl
  move_none (f ∷ fs) id nx ny activate h = ground (arith, h, move_none fs id nx ny activate)

  -- A finger that is followed is found; the others stay where they are.
  move_some :
      (fs : List (Finger Carrier)) (id : ℕ) (nx ny ox oy : Carrier) (activate : Bool)
      → last_position fl fs id ≡ some (ox, oy)
      → distinct fs ≡ true
      → (fs' : List (Finger Carrier)) × (move_finger fl fs id nx ny activate
          ≡ some (fs', sub nx ox, sub ny oy))
        × (distinct fs' ≡ true)
        × ((other : ℕ)
            → last_position fl fs' other ≡ (
                if other == id
                then (if activate then some (nx, ny) else none)
                else last_position fl fs other))
  unfolding move_finger last_position
  move_some [] id nx ny ox oy activate h d = absurd (ground (arith, h))
  move_some (f ∷ fs) id nx ny ox oy activate h d = elim (Bool-cases (is_finger fl id f)) [
    | inl e ↦
        let same : last_position fl fs f.id ≡ last_position fl fs id =
          ap (last_position fl fs) (ground (arith, e)) in
        (
          record f { active = activate; nx = nx; ny = ny } ∷ fs,
          ground (arith, h, e),
          ground (arith, d, e),
          λ other. ground (arith, h, e, d, same, λ (p : other ≡ id). ap (last_position fl fs) p),
        )
    | inr e ↦
        let (fs', moved, apart, others) =
          move_some fs id nx ny ox oy activate (ground (arith, h, e)) (ground (arith, d)) in
        (
          f ∷ fs',
          rw (e, moved) refl,
          ground (arith, d, e, apart, others f.id),
          λ other. ground (arith, e, others other),
        )
  ]

  place_lem :
      (fs : List (Finger Carrier)) (id : ℕ) (nx ny : Carrier) (other : ℕ)
      → last_position fl fs id ≡ none
      → last_position fl (place_finger fl fs id nx ny) other
        ≡ (if other == id && has_free fs then some (nx, ny) else last_position fl fs other)
  unfolding place_finger last_position
  place_lem [] id nx ny other h = ground arith
  place_lem (f ∷ fs) id nx ny other h = ground (arith, h, place_lem fs id nx ny other)

  place-distinct :
      (fs : List (Finger Carrier)) (id : ℕ) (nx ny : Carrier)
      → last_position fl fs id ≡ none
      → distinct fs ≡ true
      → distinct (place_finger fl fs id nx ny) ≡ true
  unfolding place_finger last_position
  place-distinct [] id nx ny h d = refl
  place-distinct (f ∷ fs) id nx ny h d =
      ground (arith, h, d, place-distinct fs id nx ny, place_lem fs id nx ny f.id)

  -- The delta of a coordinate from its old value; 0 without one
  abbrev from_x : Option (Carrier × Carrier) → Carrier → Carrier
  from_x none nx = zero_f fl
  from_x (some (ox, oy)) nx = sub nx ox

  abbrev from_y : Option (Carrier × Carrier) → Carrier → Carrier
  from_y none ny = zero_f fl
  from_y (some (ox, oy)) ny = sub ny oy

  -- What `touch_finger_track` must do to the positions: the finger is at its new position where it stays
  -- down and is followed already or finds a free entry, and nowhere otherwise; the other fingers stay
  -- where they are; the deltas are those from its last position.
  pub record Tracks (fs : List (Finger Carrier)) (id : ℕ) (nx ny : Carrier) (activate : Bool)
      (r : List (Finger Carrier) × Carrier × Carrier) : Type 0 where
    pub positions :
        (other : ℕ)
        → last_position fl r.0 other ≡ (
            if other == id
            then (if activate && (is_some (last_position fl fs id) || has_free fs)
                then some (nx, ny)
                else none)
            else last_position fl fs other)
    pub dx : r.1 ≡ from_x (last_position fl fs id) nx
    pub dy : r.2 ≡ from_y (last_position fl fs id) ny
    pub apart : distinct r.0 ≡ true

  -- `touch_finger_track` does what `Tracks` says, where the numbers of the fingers that are down differ,
  -- and they differ after it too.
  pub finger_track-Tracks :
      (fs : List (Finger Carrier)) (id : ℕ) (nx ny : Carrier) (activate : Bool)
      → distinct fs ≡ true
      → Tracks fs id nx ny activate (finger_track fl fs id nx ny activate)
  unfolding finger_track
  finger_track-Tracks fs id nx ny activate d = elim (Option-cases (last_position fl fs id)) [
    | inl none_there ↦
        let stuck = move_none fs id nx ny activate none_there in
        rw (finger_track, stuck)
          (record {
            positions = λ other. untracked fs id nx ny activate other none_there;
            dx = rw none_there refl;
            dy = rw none_there refl;
            apart = placed fs id nx ny activate none_there d;
          })
    | inr ((ox, oy), there) ↦
        let (fs', moved, apart, others) = move_some fs id nx ny ox oy activate there d in
        rw (finger_track, moved)
          (record {
            positions = λ other. ground (arith, others other, there);
            dx = rw there refl;
            dy = rw there refl;
            apart = apart;
          })
  ]
    where
      untracked :
          (fs : List (Finger Carrier)) (id : ℕ) (nx ny : Carrier) (activate : Bool) (other : ℕ)
          → last_position fl fs id ≡ none
          → last_position fl (if activate then place_finger fl fs id nx ny else fs) other ≡ (
              if other == id
              then (if activate && (is_some (last_position fl fs id) || has_free fs)
                  then some (nx, ny)
                  else none)
              else last_position fl fs other)
      untracked fs id nx ny activate other h =
          ground (
            arith,
            h,
            place_lem fs id nx ny other h,
            λ (p : other ≡ id). ap (last_position fl fs) p,
          )

      placed :
          (fs : List (Finger Carrier)) (id : ℕ) (nx ny : Carrier) (activate : Bool)
          → last_position fl fs id ≡ none
          → distinct fs ≡ true
          → distinct (if activate then place_finger fl fs id nx ny else fs) ≡ true
      placed fs id nx ny true h d = place-distinct fs id nx ny h d
      placed fs id nx ny false h d = d
