-- ===== src/Tests/Drivers.antt =====
-- The choice of a driver, window surfaces, Vulkan, EGL and the waiting for events on concrete inputs.
use sdlop.Base.{
  ℕ, ◌≡◌, ◌≤◌, ◌+◌, ◌%◌, ◌^◌, refl, Bool, true, false, none, some, inr, [], ◌∷◌, any, if◌then◌else◌,
  arith,
}
use sdlop.Base.Int.{ℤ, pos}
use sdlop.Base.Text.{codes}
use sdlop.Clock.Ticks.{shown}
use sdlop.Queue.{has_events}
use sdlop.Queue.Contents.{contents}
use sdlop.Queue.Flush.{matches, has_events_lem}
use sdlop.State.{Sdl}
use sdlop.Events.Wait.{Waiting, wait_event_timeout}
use sdlop.Events.Wait.Deadline.{AreSteady, IsSteady, Ended, wait_event_timeout-Ended}
use sdlop.Windows.Drivers.{VideoDriver, video_drivers, video_init}
use sdlop.Windows.Drivers.Choice.{wanted, video_init_lem}
use sdlop.Surface.{Surface, PixelFormat, create_surface, bytes_per_pixel}
use sdlop.Windows.Surfaces.{
  Heap, World, dummy_framebuffers, web_framebuffers, get_window_surface, destroy_window_surface,
  window_has_surface,
}
use sdlop.Windows.Surfaces.Leak.{dummy-destroy_window_surface, web-destroy_window_surface}
use sdlop.Vulkan.{Linker, Loader}
use sdlop.Vulkan.Balance.{load, unload, support, is_balanced, after_calls, after_calls-is_balanced}
use sdlop.Wayland.Egl.{context_attribs, opengl_api, wants_debug, wants_forward}
use sdlop.Wayland.Egl.Attribs.{names_of, names_of-context_attribs}
use sdlop.Tests.Samples.{running, two_events, two_events-IsValid, attributes}

has_events_example :
    has_events two_events 0x300 0x303 ≡ any (matches 0x300 0x303) (contents two_events)
has_events_example = has_events_lem 0x300 0x303 two_events-IsValid

-- Calls that do nothing, on an empty queue; the clock shows a second more at each reading.
abbrev idle : Waiting ℤ Bool
idle = record {
  raw_pump = λ w. w;
  video_pump = λ w. w;
  wake_fd = λ d. d;
  video_fd = λ d. false;
  poll_fds = λ ms w. w;
  sleep = λ ms w. w;
}

same : IsSteady {F = ℤ} {D = Bool} (λ w. w)
same = record { reading = λ w. refl; origin = λ w o e. e; reads = λ w. omega arith }

idle-AreSteady : AreSteady idle
idle-AreSteady = record {
  raw_pump = same;
  video_pump = same;
  poll_fds = λ ms. same;
  sleep = λ ms. same;
}

abbrev quiet : Sdl ℤ
quiet = record running { queue = record two_events { tail = 2 } }

due :
    (i : ℕ)
    → 8 ≤ i
    → (shown quiet.clock.reading 3000000000 5 + 3000) % 2 ^ 64
      ≤ shown quiet.clock.reading 3000000000 i
due i h = ground (arith, h)

wait_event_timeout-Ended_example :
    Ended quiet.clock.reading 3000000000 idle idle-AreSteady
      ((shown quiet.clock.reading 3000000000 5 + 3000) % 2 ^ 64)
      (wait_event_timeout idle 9 (pos 3000) (quiet, true))
wait_event_timeout-Ended_example =
    wait_event_timeout-Ended idle idle-AreSteady 8 3000 (quiet, true) refl due

abbrev failing : VideoDriver ℤ
failing = record { name = codes "wayland"; init = λ s. (s, false) }

abbrev offscreen : VideoDriver ℤ
offscreen = record { name = codes "dummy"; init = λ s. (s, true) }

video_init_example :
    let ds = video_drivers none (some failing) offscreen in
    ((video_init running ds (some (codes "Dummy"))).1 ≡ wanted running ds (some (codes "Dummy")))
    × ((d : VideoDriver ℤ) × ((video_init running ds none).1 ≡ some d))
video_init_example =
    video_init_lem none (some failing) offscreen running (some (codes "Dummy")) λ t. refl

abbrev heap : Heap
heap = record { surfaces = λ a. none; next = 40; memory = true }

abbrev made : PixelFormat → Surface
made format = record { format = format; w = 640; h = 480; pitch = 2560; pixels = some (λ i. 0) }

made_x :
    create_surface true (pos 640) (pos 480) PixelFormat.xrgb8888 ≡ inr (made PixelFormat.xrgb8888)
unfolding create_surface bytes_per_pixel
made_x = refl

made_a :
    create_surface true (pos 640) (pos 480) PixelFormat.argb8888 ≡ inr (made PixelFormat.argb8888)
unfolding create_surface bytes_per_pixel
made_a = refl

dummy-destroy_window_surface_example :
    let (got, surface) = get_window_surface dummy_framebuffers (running, heap) (some 7) in
    let (left, done) = destroy_window_surface dummy_framebuffers got (some 7) in
    (surface ≡ some 40)
    × (got.1.surfaces 40 ≡ some (made PixelFormat.xrgb8888))
    × (window_has_surface left.0 (some 7) ≡ false)
    × (left.1.surfaces 40 ≡ none)
dummy-destroy_window_surface_example =
    dummy-destroy_window_surface running heap 7 refl refl refl made_x

abbrev drawn : World ℤ → ℕ → World ℤ × Bool
drawn world a = (world, true)

web-destroy_window_surface_example :
    let fb = web_framebuffers drawn in
    let (got, surface) = get_window_surface fb (running, heap) (some 7) in
    let (left, done) = destroy_window_surface fb got (some 7) in
    (surface ≡ some 40)
    × (window_has_surface left.0 (some 7) ≡ false)
    × (left.1.surfaces 40 ≡ some (made PixelFormat.argb8888))
web-destroy_window_surface_example =
    web-destroy_window_surface drawn running heap 7 refl refl refl made_a

-- A linker that has the loader, and an unloaded library
abbrev linker : Linker
linker = record { dlopen = λ name. some 90; proc_addr = λ h. some 91 }

abbrev unloaded : Loader
unloaded = record { vulkan_handle = none; get_instance_proc_addr = none; open_handles = 0 }

unloaded-is_balanced : is_balanced unloaded ≡ true
unfolding is_balanced
unloaded-is_balanced = refl

after_calls-is_balanced_example :
    is_balanced
      (after_calls linker none (running, unloaded) (load none ∷ support (some 3) ∷ unload ∷ [])).1
    ≡ true
after_calls-is_balanced_example =
    after_calls-is_balanced linker none (running, unloaded)
      (load none ∷ support (some 3) ∷ unload ∷ []) unloaded-is_balanced

names_of-context_attribs_example : names_of (context_attribs attributes opengl_api) ≡ (
    if wants_debug attributes
    then (if wants_forward attributes
        then some (pos 0x3098 ∷ pos 0x30fb ∷ pos 0x30fd ∷ pos 1 ∷ [])
        else none)
    else (if wants_forward attributes
        then none
        else some (pos 0x3098 ∷ pos 0x30fb ∷ pos 0x30fd ∷ [])))
names_of-context_attribs_example = names_of-context_attribs attributes
