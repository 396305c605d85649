-- ===== src/Wayland/Outputs/Removal.antt =====
-- src/video/wayland/sdlop_wayland.c: an output that goes away.
use sdlop.Base.{
  ℕ, ◌≡◌, ◌≢◌, refl, Bool, true, false, Option, none, some, inl, inr, Bool-cases, Option-cases,
  List, [], ◌∷◌, ◌==◌, if◌then◌else◌, arith,
}
use sdlop.State.{Sdl, Window}
use sdlop.State.Lists.{listed}
use sdlop.Float.{Float}
use sdlop.Wayland.{Device, WindowData, Output}
use sdlop.Wayland.Outputs.{
  named, without, drop_output, drop_from, registry_global_remove, scale_of, is_on,
}

module _ (fl : Float) where
  open fl use {Carrier}

  dropped : (output : ℕ) (o : Option WindowData) → is_on fl output (drop_output output o) ≡ false
  dropped output none = refl
  dropped output (some wd) = elim (Option-cases wd.output) [
    | inl e ↦ rw (e, e) refl
    | inr (o, e) ↦ elim (Bool-cases (o == output)) [
      | inl same ↦ rw (e, same) refl
      | inr other ↦ rw (e, other) (rw e other)
    ]
  ]

  dropped_if :
      (output : ℕ) (b : Bool) (o : Option WindowData)
      → is_on fl output o ≡ false
      → is_on fl output (if b then drop_output output o else o) ≡ false
  dropped_if output true o h = dropped output o
  dropped_if output false o h = h

  -- What is dropped once stays dropped, and a window of the list loses the output.
  drop_from-keeps :
      (ws : List (Window Carrier)) (output a : ℕ) (driverdata : ℕ → Option WindowData)
      → is_on fl output (driverdata a) ≡ false
      → is_on fl output (drop_from ws output driverdata a) ≡ false
  unfolding drop_from
  drop_from-keeps [] output a driverdata h = h
  drop_from-keeps (w ∷ ws) output a driverdata h =
      drop_from-keeps ws output a
        (λ b. if b == w.addr then drop_output output (driverdata b) else driverdata b)
        (dropped_if output (a == w.addr) (driverdata a) h)

  drop_from-drops :
      (ws : List (Window Carrier)) (output a : ℕ) (driverdata : ℕ → Option WindowData)
      → listed a ws ≡ true
      → is_on fl output (drop_from ws output driverdata a) ≡ false
  unfolding drop_from
  drop_from-drops [] output a driverdata h = absurd (ground (arith, h))
  drop_from-drops (w ∷ ws) output a driverdata h = elim (Bool-cases (w.addr == a)) [
    | inl e ↦
        drop_from-keeps ws output a
          (λ b. if b == w.addr then drop_output output (driverdata b) else driverdata b)
          (ground (arith, e, dropped output (driverdata a)))
    | inr e ↦
        drop_from-drops ws output a
          (λ b. if b == w.addr then drop_output output (driverdata b) else driverdata b)
          (ground (arith, e, h))
  ]

  scale_without :
      (os : List Output) (name output other : ℕ)
      → named os name ≡ some output
      → other ≢ output
      → scale_of fl (without os name) other ≡ scale_of fl os other
  unfolding scale_of without named
  scale_without [] name output other h ne = refl
  scale_without (o ∷ os) name output other h ne =
      ground (arith, h, ne, scale_without os name output other)

  -- When an output goes away, no window of the list refers to it any more, and the scales of the other
  -- outputs read as before.
  pub registry_global_remove_lem :
      (s : Sdl Carrier) (d : Device Carrier) (name output a other : ℕ)
      → named d.outputs name ≡ some output
      → listed a s.windows ≡ true
      → other ≢ output
      → let d' = (registry_global_remove (s, d) name).1 in
        (is_on fl output (d'.driverdata a) ≡ false)
        × (scale_of fl d'.outputs other ≡ scale_of fl d.outputs other)
  unfolding registry_global_remove
  registry_global_remove_lem s d name output a other h there ne =
      rw (registry_global_remove, h)
        (
          drop_from-drops s.windows output a d.driverdata there,
          scale_without d.outputs name output other h ne,
        )
