-- ===== src/Lib.antt =====
-- SDLop, a small implementation of the SDL3 input and window interface: models of its parts and
-- theorems about them.
--
-- The program has one main thread, which owns the global state `sdlop`, and one worker thread,
-- which reads input devices. The worker hands raw events over in two rings; the main thread
-- drains one of them into mouse and keyboard events, which it appends to the event queue. The
-- window calls change the list of windows and call the video driver, and they too append events.
--
-- Ring models src/internal/sdlop_ring.h, one function per call; Ring/Fifo is its specification,
-- and Ring/Refine relates the two. Ring/Threads takes the calls apart into the steps of the two
-- threads, in any interleaving; the atomics are taken as sequentially consistent. Elements move
-- as wholes. Clock is src/SDL_timer.c over a sequence of readings of the system's clock. Event
-- and Queue are the event queue of src/SDL_events.c: Queue/Contents gives it as a list of slots,
-- Queue/Flush is about SDL_HasEvents and SDL_FlushEvents, Queue/Text and Queue/Alias about the
-- text that a slot owns. State is the global state of src/internal/sdlop_internal.h, with the
-- statics that its functions share; windows are records at addresses, and a pointer is an
-- optional address. Events has the public event calls of src/SDL_events.c on that state, Mouse
-- src/SDL_mouse.c, Keyboard the event part of src/SDL_keyboard.c with the text gate of
-- src/SDL_keynames.c, Keynames the rest of that file (Keynames/Names has the names of keys and
-- the way back), and Scancode the tables of src/internal/scancode_evdev.h and their inverse, with
-- Scancode/Names the table of src/scancode_names.h. Events/Wait is the pumping and the waiting of
-- src/SDL_events.c over the calls of the drivers and the system. The rest of src/SDL_keyboard.c
-- is Keysym (from the symbol of a key to its key code), Symtab (the table from symbols to
-- scancodes), Keyboard/Lookup (from key codes to scancodes) and Keyboard/Keymap (loading and
-- replacing a keymap, the modifiers); WebKeyboard is src/SDL_keyboard_web.c, which takes its
-- place on the web. RawInput is src/internal/sdlop_evdev.c: the body of the worker's loop, the
-- callbacks, and the pump. Windows is src/SDL_video.c (Windows/Drivers the choice of a driver,
-- Windows/Surfaces the surface of a window of src/SDL_surface.c with the framebuffers of two
-- drivers), Gl src/SDL_gl.c, Vulkan src/SDL_vulkan.c, Dummy the window calls of
-- src/video/dummy/sdlop_dummy.c, Web src/video/emscripten/sdlop_emscripten.c (Input its
-- callbacks, Canvas the windows, Gl the contexts, Colors what a surface looks like), where the
-- browser's answers are arguments, Wayland src/video/wayland/sdlop_wayland.c (Seat, Keyboard,
-- Pointer, Touch, Outputs, Toplevel for the size and state of windows, and Roles for making and
-- showing them), whose device and driver data stand next to the global state; a request to the
-- compositor changes nothing here. Wayland/Egl is src/video/wayland/sdlop_wayland_gl.c over what
-- EGL answers. Surface is the rest of src/SDL_surface.c without the flags, with the memory of a
-- surface as a function from offsets to bytes, Core src/SDLop_core.c. Base holds the shared
-- library: naturals with wrap-around written out, bits, circular windows on a list, integers, and
-- texts as their bytes.
--
-- C's `float` is a type with the operations that the code calls (Float); its laws are those of
-- comparisons, NaN included, and of integers that convert in order up to 2^24. xkbcommon is
-- the record Xkb for the key events, where the keymap is fixed during a call, and the record
-- XkbLibrary for loading one; the numbers that its headers give to the names of symbols are a
-- parameter (KeysymValues). What the Wayland driver computes with coordinates beyond Float is
-- the record Scaling. A driver is a record of functions (Windows.Driver,
-- Gl.Contexts.GlDriver). Where C's behaviour is undefined, at a dangling window pointer, the
-- models do nothing and return false.
--
-- Loops that C bounds are structural recursion on what is left: the flush and search loops run as
-- often as there are pending events, the pump at most 2048 times. Four loops carry fuel: the
-- probing of the symbol table, for which its 1024 slots are enough, since a layout fills fewer;
-- the loop of key repeats, for which one round for each nanosecond of delay and two more are
-- enough; the loop that destroys all windows, for which the number of windows is enough; and the
-- loop that waits for an event, for which one round more than the readings of the clock up to the
-- deadline is enough.
--
-- Not modelled: devices, epoll, eventfd and the start of threads, which are system calls; the
-- event loop, keymap file, shm pixels and cursor of the Wayland driver; what the browser driver
-- draws; the creation of a Vulkan surface by a driver; logging, which only prints; and the
-- loaders of shared libraries.
pub mod Base
pub mod Ring
pub mod Clock
pub mod Event
pub mod Queue
pub mod State
pub mod Events
pub mod Float
pub mod Mouse
pub mod Windows
pub mod Gl
pub mod Scancode
pub mod Surface
pub mod Keyboard
pub mod WebKeyboard
pub mod Keysym
pub mod Symtab
pub mod Keynames
pub mod RawInput
pub mod Dummy
pub mod Vulkan
pub mod Wayland
pub mod Web
pub mod Core
pub mod Tests
