-- ===== src/Launcher/ConfigPaths.antt =====
-- src/launcher/launch_config.c: where the configuration is. `get_full_path_name` and `get_file_attributes` are
-- what GetFullPathNameW and GetFileAttributesW answer.
use yafsml.Prelude.{
  ℕ, Bool, Option, none, some, codes, if◌then◌else◌, Run, done, ◌>>=◌, Returns, returned,
  Returns-bind, Returns-if,
}
use yafsml.Common.Path.{Wide}
use yafsml.Common.PathSystem.{Written, nonempty, ml_path_resolve_alloc, ml_path_is_directory}
use yafsml.Common.PathSystem.Ends.{NeedsMore, Ended, ml_path_resolve_alloc_ends}

module _ (memory : ℕ → Bool) (get_full_path_name : Wide → ℕ → Written) where
  unfoldable pub ml_launcher_resolve_path_alloc : Option Wide → Option Wide → Run (Option Wide)
  unfolding ml_path_resolve_alloc
  ml_launcher_resolve_path_alloc base requested = elim (nonempty requested) [
    | none ↦ done none
    | some name ↦ ml_path_resolve_alloc memory get_full_path_name base (some name)
  ]

  abbrev pub default_name : Wide
  default_name = codes "YAFSML.ini"

  -- The name that is asked for, or the usual one.
  abbrev pub name_or_default : Option Wide → Wide
  name_or_default requested = elim (nonempty requested) [ none ↦ default_name | some name ↦ name ]

  unfoldable pub ml_launcher_resolve_config_path_alloc :
      Option Wide → Option Wide → Run (Option Wide)
  unfolding ml_launcher_resolve_path_alloc
  ml_launcher_resolve_config_path_alloc module_dir requested_path = elim (nonempty module_dir) [
    | none ↦ done none
    | some dir ↦ ml_launcher_resolve_path_alloc (some dir) (some (name_or_default requested_path))
  ]

  -- The file that stands in a folder of the configuration.
  abbrev pub file_in : (Wide → ℕ) → Option Wide → Run (Option Wide)
  file_in get_file_attributes none = done none
  file_in get_file_attributes (some path) =
      if ml_path_is_directory get_file_attributes path
      then ml_path_resolve_alloc memory get_full_path_name (some path) (some default_name)
      else done (some path)

  unfoldable pub ml_launcher_config_ini_path_alloc : (Wide → ℕ) → Option Wide → Run (Option Wide)
  unfolding ml_path_resolve_alloc
  ml_launcher_config_ini_path_alloc get_file_attributes config_path = elim (nonempty config_path) [
    | none ↦ done none
    | some name ↦ do
      path ← ml_path_resolve_alloc memory get_full_path_name none (some name)
      file_in get_file_attributes path
  ]

  -- Where GetFullPathNameW asks for more room than it was given whenever it has too little, the path of the
  -- configuration file is found or refused after a bounded number of rounds.
  ml_launcher_config_ini_path_alloc_ends :
      ((joined : Wide) → NeedsMore (get_full_path_name joined))
      → (get_file_attributes : Wide → ℕ) (config_path : Option Wide)
      → Returns Ended (ml_launcher_config_ini_path_alloc get_file_attributes config_path)
  unfolding ml_launcher_config_ini_path_alloc
  ml_launcher_config_ini_path_alloc_ends more get_file_attributes config_path =
      of_name (nonempty config_path)
    where
      of_file : (path : Option Wide) → Returns Ended (file_in get_file_attributes path)
      of_file none = returned _ tt
      of_file (some path) =
          Returns-if (ml_path_is_directory get_file_attributes path)
            (λ e.
              ml_path_resolve_alloc_ends memory get_full_path_name more (some path)
                (some default_name))
            (λ e. returned _ tt)

      of_name :
          (o : Option Wide)
          → Returns Ended (elim o as (λ x. Run (Option Wide)) [
            | none ↦ done none
            | some name ↦
                ml_path_resolve_alloc memory get_full_path_name none (some name) >>= λ path.
                file_in get_file_attributes path
          ])
      of_name none = returned _ tt
      of_name (some name) =
          Returns-bind (ml_path_resolve_alloc_ends memory get_full_path_name more none (some name))
            λ path _. of_file path
