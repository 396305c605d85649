-- ===== src/Tests/Webs.antt =====
-- The browser driver on concrete inputs, with the two windows of the samples.
use sdlop.Base.{
  ℕ, ◌≡◌, ◌↔◌, ◌%◌, refl, Bool, true, false, Option, none, some, [], ◌∷◌, ◌==◌, if◌then◌else◌,
  arith,
}
use sdlop.Base.Int.{pos}
use sdlop.Surface.{Surface, PixelFormat, read_surface_pixel}
use sdlop.Web.{WebData, Page, canvas, extra, find_window, window_from_selector}
use sdlop.Web.Input.{DomMouse, no_id, pointerlock_cb, mouse_move_cb}
use sdlop.Web.Input.Locks.{IsHolder, pointerlock_cb_lem}
use sdlop.Web.Input.Motion.{mouse_move_cb-locked}
use sdlop.Web.Canvas.{create_window, destroy_window, fresh}
use sdlop.Web.Canvas.Reached.{start, made, gone, window_from_selector-Reached}
use sdlop.Windows.{unlink}
use sdlop.Web.Gl.{texel}
use sdlop.Web.Colors.{exchanged, texel-read_surface_pixel}
use sdlop.Tests.Samples.{running, window_of, single, single-IsOrdered}

-- The first window has the canvas "#canvas", the pointer is locked to it, and the second window has one
-- of the others.
abbrev data_at : ℕ → Option WebData
data_at a =
    if a == 7
    then some (record (fresh canvas false) { pointer_locked = true })
    else if a == 8
    then some (fresh (extra 0) true)
    else none

abbrev page : Page
page = record {
  driverdata = data_at;
  input_callbacks_registered = true;
  selectors = canvas ∷ extra 0 ∷ [];
  swap_interval = pos 0;
  next_canvas_id = 1;
}

-- No window, and no number of a selector in use
abbrev empty_page : Page
empty_page = record page { driverdata = λ a. none; selectors = []; next_canvas_id = 0 }

-- Two windows are made and the first one is destroyed; the second one is looked up.
window_from_selector-Reached_example :
    let s0 = record running { windows = [] } in
    let s1 = record running { windows = window_of 7 0 ∷ [] } in
    let p1 = (create_window s0 empty_page (window_of 7 0)).0 in
    let p2 = (create_window s1 p1 (window_of 8 0)).0 in
    let p3 = destroy_window p2 (window_of 7 0) in
    (d : WebData) × (p3.driverdata 8 ≡ some d)
    × (window_from_selector p3 (record running { windows = window_of 8 0 ∷ [] }) d.selector
        ≡ some (window_of 8 0))
unfolding unlink
window_from_selector-Reached_example =
    window_from_selector-Reached running 8
      (gone (window_of 7 0) (
        made (record running { windows = window_of 7 0 ∷ [] }) (window_of 8 0)
          (made (record running { windows = [] }) (window_of 7 0) (start empty_page) refl) refl))
      refl

pointerlock_cb_example :
    let p' = (pointerlock_cb (running, page) true no_id).1 in
    (locked : Bool) × (p'.driverdata 8
      ≡ some (record (fresh (extra 0) true) { pointer_locked = locked }))
    × ((locked ≡ true) ↔ (◌≡◌ {A = Bool} true true) × IsHolder no_id (extra 0))
    × (p'.driverdata 9 ≡ none)
pointerlock_cb_example = pointerlock_cb_lem true no_id running page 8 9 refl refl refl

abbrev moved : DomMouse
moved = record {
  target_x = pos 30;
  target_y = pos 40;
  movement_x = pos 5;
  movement_y = pos 6;
  button = 0;
}

first_found : window_from_selector page running canvas ≡ some (window_of 7 0)
unfolding window_from_selector find_window
first_found = refl

mouse_move_cb-locked_example :
    let m = (mouse_move_cb single running page canvas moved).0.mouse in
    (m.x ≡ pos 0)
    × (m.y ≡ pos 0)
    × (m.xrel_acc ≡ single.add (pos 0) (pos 5))
    × (m.yrel_acc ≡ single.add (pos 0) (pos 6))
mouse_move_cb-locked_example =
    mouse_move_cb-locked single single-IsOrdered running page canvas moved first_found refl refl
      refl refl refl refl refl

-- A surface of two pixels
abbrev two_pixels : Surface
two_pixels = record {
  format = PixelFormat.argb8888;
  w = 2;
  h = 1;
  pitch = 8;
  pixels = some (λ i. i % 256);
}

texel-read_surface_pixel_example :
    texel two_pixels 1 0 ≡ exchanged (read_surface_pixel two_pixels 1 0)
texel-read_surface_pixel_example =
    texel-read_surface_pixel two_pixels (λ i. i % 256) 1 0 refl refl refl (λ i. omega arith)
      (omega arith) (omega arith)
