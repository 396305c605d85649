-- ===== src/Vulkan.antt =====
-- src/SDL_vulkan.c. The dynamic linker is a parameter; a handle, an instance, a function and a surface are numbers, and
-- NULL is `none`.
pub mod Balance
use sdlop.Base.{
  ℕ, zero, suc, ◌-◌, Bool, true, false, ◌||◌, Option, none, some, List, [], ◌∷◌, String,
  if◌then◌else◌,
}
use sdlop.State.{Sdl, set_error}

-- `dlopen` of a name, and `dlsym` for "vkGetInstanceProcAddr" in a handle
pub record Linker : Type 0 where
  pub dlopen : String → Option ℕ
  pub proc_addr : ℕ → Option ℕ

-- The statics of the file, with the number of handles that are open
pub record Loader : Type 0 where
  pub vulkan_handle : Option ℕ
  pub get_instance_proc_addr : Option ℕ
  pub open_handles : ℕ

abbrev pub World : Type 0 → Type 0
World F = Sdl F × Loader

-- The names of `SDL_Vulkan_LoadLibrary`, without the path when it is NULL
pub names : Option String → List String
names none = "libvulkan.so.1" ∷ "libvulkan.so" ∷ []
names (some path) = path ∷ "libvulkan.so.1" ∷ "libvulkan.so" ∷ []

-- `dlclose` of the handle
abbrev pub closed : Loader → Loader
closed l = record {
  vulkan_handle = none;
  get_instance_proc_addr = none;
  open_handles = l.open_handles - 1;
}

-- `SDL_Vulkan_UnloadLibrary`
pub unload_library : Loader → Loader
unload_library l = elim l.vulkan_handle [ none ↦ l | some h ↦ closed l ]

module _ (linker : Linker) where
  -- The loop of `SDL_Vulkan_LoadLibrary`
  pub open_first : List String → Option ℕ
  open_first [] = none
  open_first (name ∷ rest) = elim (linker.dlopen name) [ none ↦ open_first rest | some h ↦ some h ]

  module _ {F : Type 0} where
    -- `SDL_Vulkan_LoadLibrary`
    pub load_library : World F → Option String → World F × Bool
    unfolding open_first names set_error
    load_library (s, l) path = elim l.vulkan_handle [
      | some h ↦ ((s, l), true)
      | none ↦ elim (open_first (names path)) [
        | none ↦ ((set_error s "Could not load Vulkan loader (libvulkan.so.1): %s", l), false)
        | some h ↦
            let opened = record l {
              vulkan_handle = some h;
              get_instance_proc_addr = linker.proc_addr h;
              open_handles = suc l.open_handles;
            } in
            elim (linker.proc_addr h) [
              | none ↦
                  ((set_error s "Vulkan loader has no vkGetInstanceProcAddr", closed opened), false)
              | some f ↦ ((s, opened), true)
            ]
      ]
    ]

    -- `!vulkan_handle && !SDL_Vulkan_LoadLibrary(NULL)`, negated: whether the loader is there
    pub ensure_loaded : World F → World F × Bool
    unfolding load_library
    ensure_loaded w = load_library w none

    -- `SDL_Vulkan_CreateSurface`, with `Vulkan_CreateSurface` of the driver where it has one. `out` is
    -- whether there is a pointer for the
    -- surface. A driver reads the statics of this file, and does not change them.
    pub create_surface :
        Option (World F → ℕ → Sdl F × Option ℕ) → World F → Option ℕ → Bool → World F × Option ℕ
    unfolding ensure_loaded set_error
    create_surface driver (s, l) none out = ((set_error s "Invalid window", l), none)
    create_surface driver (s, l) (some window) false =
        ((set_error s "NULL surface pointer", l), none)
    create_surface driver w (some window) true =
        let ((s, l), loaded) = ensure_loaded w in
        if loaded
        then elim driver [
          | none ↦ ((set_error s "Video driver does not support Vulkan", l), none)
          | some create ↦
              if s.video
              then (let (s', surface) = create (s, l) window in ((s', l), surface))
              else ((set_error s "Video driver does not support Vulkan", l), none)
        ]
        else ((s, l), none)

    -- `SDL_Vulkan_GetPresentationSupport`
    pub get_presentation_support : World F → Option ℕ → World F × Bool
    unfolding ensure_loaded set_error
    get_presentation_support (s, l) none = ((set_error s "Invalid VkInstance", l), false)
    get_presentation_support w (some instance_handle) =
        let ((s, l), loaded) = ensure_loaded w in
        if loaded
        then ((s, l), elim l.get_instance_proc_addr [ none ↦ false | some f ↦ true ])
        else ((s, l), false)
