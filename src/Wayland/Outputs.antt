-- ===== src/Wayland/Outputs.antt =====
-- src/video/wayland/sdlop_wayland.c: the outputs of the compositor and the display scale of windows.
pub mod Removal
use sdlop.Base.{
  ℕ, zero, suc, Bool, true, false, not, Option, none, some, List, [], ◌∷◌, ◌++◌, length, ltb, ◌==◌,
  if◌then◌else◌,
}
use sdlop.Base.Int.{ℤ, pos}
use sdlop.Event.{display_scale_changed}
use sdlop.State.{Sdl, Window, put_window}
use sdlop.Events.{send_window_event}
use sdlop.Float.{Float}
use sdlop.Wayland.{World, Device, WindowData, Output}

-- `SDLOP_MAX_OUTPUTS`
abbrev pub max_outputs : ℕ
max_outputs = 16

-- The branch of `registry_global` for an output that is bound at an address
pub add_output : {F : Type 0} → Device F → ℕ → ℕ → Device F
add_output d output name =
    if ltb (length d.outputs) max_outputs
    then record d {
      outputs = d.outputs ++ (record { output = output; name = name; scale = pos 1 } ∷ []);
    }
    else d

-- `output_scale`
pub set_scale : List Output → ℕ → ℤ → List Output
set_scale [] output factor = []
set_scale (o ∷ os) output factor =
    if o.output == output then record o { scale = factor } ∷ os else o ∷ set_scale os output factor

-- The output with a name, and the list without it
unfoldable pub named : List Output → ℕ → Option ℕ
named [] name = none
named (o ∷ os) name = if o.name == name then some o.output else named os name

pub without : List Output → ℕ → List Output
without [] name = []
without (o ∷ os) name = if o.name == name then os else o ∷ without os name

-- `wd->output = NULL` where it was the output
abbrev pub drop_output : ℕ → Option WindowData → Option WindowData
drop_output output none = none
drop_output output (some wd) = elim wd.output [
  | none ↦ some wd
  | some o ↦ some (if o == output then record wd { output = none } else wd)
]

-- The loop of `registry_global_remove` over the windows
pub drop_from : {F : Type 0} → List (Window F) → ℕ → (ℕ → Option WindowData) → ℕ → Option WindowData
drop_from [] output driverdata = driverdata
drop_from (w ∷ ws) output driverdata =
    drop_from ws output λ a. if a == w.addr then drop_output output (driverdata a) else driverdata a

-- `registry_global_remove`
pub registry_global_remove : {F : Type 0} → World F → ℕ → World F
unfolding named without drop_from
registry_global_remove (s, d) name = elim (named d.outputs name) [
  | none ↦ (s, d)
  | some output ↦ (
    s,
    record d {
      outputs = without d.outputs name;
      driverdata = drop_from s.windows output d.driverdata;
    },
  )
]

module _ (fl : Float) where
  open fl use {Carrier, of_int, eq, one}

  -- `wayland_output_scale`
  pub scale_of : List Output → ℕ → Carrier
  scale_of [] output = one
  scale_of (o ∷ os) output = if o.output == output then of_int o.scale else scale_of os output

  -- A window takes a display scale, with an event where it is new.
  pub rescale : Sdl Carrier → Window Carrier → Carrier → Sdl Carrier
  unfolding send_window_event
  rescale s w scale =
      if eq w.display_scale scale
      then s
      else (let v = record w { display_scale = scale } in
          send_window_event (record s { windows = put_window v s.windows }) (some v)
            display_scale_changed (pos 0) (pos 0))

  abbrev pub is_on : ℕ → Option WindowData → Bool
  is_on output none = false
  is_on output (some wd) = elim wd.output [ none ↦ false | some o ↦ o == output ]

  -- The loop of `output_done` over the windows
  pub done_from :
      (ℕ → Option WindowData) → ℕ → Carrier → List (Window Carrier) → Sdl Carrier → Sdl Carrier
  unfolding rescale
  done_from driverdata output scale [] s = s
  done_from driverdata output scale (w ∷ ws) s =
      done_from driverdata output scale ws
        (if is_on output (driverdata w.addr) then rescale s w scale else s)

  -- `output_done`
  pub output_done : World Carrier → ℕ → World Carrier
  unfolding done_from scale_of
  output_done (s, d) output =
      (done_from d.driverdata output (scale_of d.outputs output) s.windows s, d)

  -- `surface_enter` on a window with driver data
  pub surface_enter : World Carrier → Window Carrier → WindowData → ℕ → World Carrier
  unfolding rescale scale_of
  surface_enter (s, d) w wd output = (
    rescale s w (scale_of d.outputs output),
    record d {
      driverdata =
          λ a. if a == w.addr then some (record wd { output = some output }) else d.driverdata a;
    },
  )

  -- `surface_leave`
  pub surface_leave : Device Carrier → ℕ → WindowData → Device Carrier
  surface_leave d window wd = record d {
    driverdata = λ a. if a == window then some (record wd { output = none }) else d.driverdata a;
  }
