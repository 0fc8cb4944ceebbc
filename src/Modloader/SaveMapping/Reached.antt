-- ===== src/Modloader/SaveMapping/Reached.antt =====
-- src/modloader/patches/save_mapping.c: the states that the operations come to, in any order.
use yafsml.Prelude.{ℕ, if_lem, Bool, ◌||◌, not, Option, none, some, ◌==◌, length, codes}
use yafsml.Common.Path.{Wide}
use yafsml.Modloader.Vfs.Table.{HashTable}
use yafsml.Modloader.Vfs.Writable.{Writable}
use yafsml.Modloader.SaveMapping.{
  SaveMappings, Answer, Descriptor, initial, ml_save_mapping_init_root, ml_save_mapping_uninit,
}
use yafsml.Modloader.SaveExtensions.{
  valid_override_name, ml_save_mapping_add_extension, ml_save_mapping_init, init_extension,
}
use yafsml.Modloader.SaveMapping.Steps.{Kept, initial-Kept, with_root-Kept, add-Kept}
use yafsml.Modloader.SaveMapping.Links.{System, Memory}
use yafsml.Modloader.SaveMapping.Route.{ml_save_mapping_route}
use yafsml.Modloader.SaveMapping.Keeps.{ml_save_mapping_route-Keeps}

module _ (same_text wcsicmp : Wide → Wide → Bool) (towlower : ℕ → ℕ)
    (ordinal_equal : Wide → Wide → Bool) (C : HashTable (Option Wide)) where
  -- The states that the operations come to, in any order. What the system answers may change.
  pub data Reached : SaveMappings → Type 0 where
    started : Reached initial
    root_set :
        {s : SaveMappings} (appdata : Option Wide) (full_path : Wide → Option Wide)
        (game : Option Descriptor)
        → Reached s
        → Reached (ml_save_mapping_init_root appdata full_path game s).state
    added :
        {s : SaveMappings} (extension override_name : Option Wide)
        → Reached s
        → Reached (ml_save_mapping_add_extension same_text wcsicmp extension override_name s).state
    single_set :
        {s : SaveMappings} (appdata : Option Wide) (full_path : Wide → Option Wide)
        (game : Option Descriptor) (override_name : Option Wide)
        → Reached s
        → Reached
            (ml_save_mapping_init same_text wcsicmp appdata full_path game override_name s).state
    routed :
        {s : SaveMappings} (system : System) (memory : Memory) (depth : ℕ) (path : Option Wide)
        (output : Bool) (w : Writable towlower ordinal_equal C)
        → Reached s
        → Reached
            (ml_save_mapping_route towlower ordinal_equal C system memory depth path output s
              w).state
    ended : {s : SaveMappings} → Reached s → Reached (ml_save_mapping_uninit s)

  init_root-Kept :
      (appdata : Option Wide) (full_path : Wide → Option Wide) (game : Option Descriptor)
      (s : SaveMappings)
      → Kept (ml_save_mapping_init_root appdata full_path game s).state
  unfolding ml_save_mapping_init_root
  init_root-Kept appdata full_path game s = with_root-Kept same_text wcsicmp _ s

  init_extension-Kept :
      (override_name : Wide) (a : Answer)
      → Kept a.state
      → Kept (init_extension same_text wcsicmp override_name a).state
  unfolding init_extension
  init_extension-Kept override_name a k =
      if_lem (λ (a : Answer). Kept a.state) (not a.answer) _ _ (λ e. k)
        (λ e. add-Kept same_text wcsicmp (some (codes ".sl2")) (some override_name) a.state k)

  init-Kept :
      (appdata : Option Wide) (full_path : Wide → Option Wide) (game : Option Descriptor)
      (override_name : Option Wide) (s : SaveMappings)
      → Kept s
      → Kept (ml_save_mapping_init same_text wcsicmp appdata full_path game override_name s).state
  unfolding ml_save_mapping_init
  init-Kept appdata full_path none override_name s k = k
  init-Kept appdata full_path (some game) none s k = k
  init-Kept appdata full_path (some game) (some override_name) s k =
      if_lem (λ (a : Answer). Kept a.state)
        (length override_name == 0 || not (valid_override_name wcsicmp override_name)) _ _ (λ e. k)
        (λ e. init_extension-Kept override_name _ (init_root-Kept appdata full_path (some game) s))

  -- After any sequence of roots, mappings that are added, starts with a single mapping, routes,
  -- and ends, neither table of the save mapping holds more than its eight places, the flag tells
  -- whether they hold anything, no mapping is there without a root, each extension starts with a
  -- dot and fits its array whole, and each name has one to 63 characters, none of them a
  -- separator, a colon or another that Windows refuses, and no blank or dot at its end.
  pub Reached-Kept : {s : SaveMappings} → Reached s → Kept s
  unfolding ml_save_mapping_uninit
  Reached-Kept started = initial-Kept same_text wcsicmp
  Reached-Kept (root_set {s = s} appdata full_path game r) = init_root-Kept appdata full_path game s
  Reached-Kept (added extension override_name r) =
      add-Kept same_text wcsicmp extension override_name _ (Reached-Kept r)
  Reached-Kept (single_set appdata full_path game override_name r) =
      init-Kept appdata full_path game override_name _ (Reached-Kept r)
  Reached-Kept (ended {s = s} r) = with_root-Kept same_text wcsicmp none s
  Reached-Kept (routed {s = s} system memory depth path output w r) =
      (ml_save_mapping_route-Keeps towlower ordinal_equal C s system memory depth (Reached-Kept r)
        path output w).kept
