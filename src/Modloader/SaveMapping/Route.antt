-- ===== src/Modloader/SaveMapping/Route.antt =====
-- src/modloader/patches/save_mapping.c: the route of a path.
use yafsml.Prelude.{
  ℕ, Bool, true, false, not, ◌&&◌, ◌||◌, Option, none, some, ◌++◌, if◌then◌else◌, codes,
}
use yafsml.Common.Path.{Wide}
use yafsml.Modloader.Vfs.Table.{HashTable}
use yafsml.Modloader.Vfs.Writable
use yafsml.Modloader.Vfs.Writable.{Writable, vfs_route_writable_path, vfs_register_writable_path}
use yafsml.Modloader.SaveMapping.{SaveMappings, canonicalize_path}
use yafsml.Modloader.SaveExtensions.{extension_in, remember_failed_extension}
use yafsml.Modloader.SaveMapping.Links.{
  Memory, System, extension_of, find_override, is_interesting, logical_of, path_contains_link,
  path_is_under_root, target_of,
}

module _ (towlower : ℕ → ℕ) (ordinal_equal : Wide → Wide → Bool) (C : HashTable (Option Wide)) where
  pub record Routed : Type 0 where
    pub result : Bool
    pub mapped_path : Option Wide
    pub state : SaveMappings
    pub writable : Writable towlower ordinal_equal C

  module _ (system : System) (memory : Memory) (depth : ℕ) where
    abbrev pub written :
        Writable towlower ordinal_equal C
        → Wide
        → Writable.Answer towlower ordinal_equal C (Option Wide)
    written w path =
        vfs_route_writable_path towlower ordinal_equal C memory.copied memory.cached depth w path

    -- Nothing is opened, or the path is opened as it is.
    abbrev pub denied : SaveMappings → Writable towlower ordinal_equal C → Routed
    denied s w = record { result = true; mapped_path = none; state = s; writable = w }

    abbrev pub untouched : SaveMappings → Writable towlower ordinal_equal C → Routed
    untouched s w = record { result = false; mapped_path = none; state = s; writable = w }

    unfoldable pub deny_and_remember :
        Wide → SaveMappings → Writable towlower ordinal_equal C → Routed
    unfolding remember_failed_extension
    deny_and_remember extension s w =
        denied (remember_failed_extension system.same_text (some extension) s) w

    abbrev pub opened :
        Option Wide → Wide → SaveMappings → Writable towlower ordinal_equal C → Routed
    opened answer extension s w = elim answer [
      | none ↦ deny_and_remember extension s w
      | some mapped ↦ record { result = true; mapped_path = some mapped; state = s; writable = w }
    ]

    unfoldable pub register_target :
        Wide → Wide → Wide → SaveMappings → Writable towlower ordinal_equal C → Routed
    unfolding deny_and_remember vfs_register_writable_path vfs_route_writable_path
    register_target path target extension s w =
        let registered =
          vfs_register_writable_path towlower ordinal_equal C memory.registered w path target in
        let again = written registered.state path in
        if registered.answer
        then opened again.answer extension s again.state
        else deny_and_remember extension s registered.state

    -- The first time a save is opened, its file is copied.
    unfoldable pub seed_target :
        Wide → Wide → Wide → Wide → SaveMappings → Writable towlower ordinal_equal C → Routed
    unfolding register_target deny_and_remember
    seed_target path source target extension s w =
        if not (system.file_exists target)
          && system.file_exists source
          && not (system.copy_file source target)
        then deny_and_remember extension s w
        else register_target path target extension s w

    unfoldable pub route_target :
        Wide → Wide → Wide → Wide → SaveMappings → Writable towlower ordinal_equal C → Routed
    unfolding seed_target vfs_route_writable_path
    route_target path source target extension s w =
        let found = written w path in
        elim found.answer [
          | some mapped ↦ record {
            result = true;
            mapped_path = some mapped;
            state = s;
            writable = found.state;
          }
          | none ↦ seed_target path source target extension s found.state
        ]

    unfoldable pub map_name :
        Wide → Wide → Bool → Wide → Wide → SaveMappings → Writable towlower ordinal_equal C → Routed
    unfolding target_of route_target deny_and_remember
    map_name path source backup logical override_name s w =
        let target = target_of system logical override_name in
        if not memory.target
        then deny_and_remember (extension_of system logical) s w
        else if backup && not memory.backup
        then denied s w
        else route_target path source (if backup then target ++ codes ".bak" else target)
            (extension_of system logical) s w

    -- `root` is the copy of the root.
    unfoldable pub route_logical :
        Option Wide → Wide → Wide → SaveMappings → Writable towlower ordinal_equal C → Routed
    unfolding extension_in find_override map_name
    route_logical root path source s w =
        let backup = system.same_text (extension_of system source) (codes ".bak") in
        let logical = logical_of system source in
        let overriding = elim root as (λ x. Option Wide) [
          | none ↦ none
          | some r ↦ find_override system (extension_of system logical) s.mappings
        ] in
        let mapped = elim overriding as (λ x. Routed) [
          | none ↦ untouched s w
          | some name ↦ map_name path source backup logical name s w
        ] in
        if not memory.logical
        then denied s w
        else if extension_in system.same_text (extension_of system logical) s.failed_extensions
        then denied s w
        else mapped

    unfoldable pub route_rooted :
        Option Wide → Wide → Wide → SaveMappings → Writable towlower ordinal_equal C → Routed
    unfolding path_is_under_root path_contains_link vfs_route_writable_path route_logical
    route_rooted none path source s w = route_logical none path source s w
    route_rooted (some root) path source s w =
        let found = written w path in
        let go = elim found.answer as (λ x. Routed) [
          | some mapped ↦ record {
            result = true;
            mapped_path = some mapped;
            state = s;
            writable = found.state;
          }
          | none ↦ route_logical (some root) path source s found.state
        ] in
        if not (path_is_under_root system source root)
        then untouched s w
        else if path_contains_link system memory.checked source root
        then denied s w
        else go

    -- `output` is whether there is a place for the mapped path.
    unfoldable pub ml_save_mapping_route :
        Option Wide → Bool → SaveMappings → Writable towlower ordinal_equal C → Routed
    unfolding is_interesting canonicalize_path route_rooted
    ml_save_mapping_route none output s w = untouched s w
    ml_save_mapping_route (some path) output s w =
        let routed = elim (canonicalize_path system.full_path path) as (λ x. Routed) [
          | none ↦ untouched s w
          | some source ↦ route_rooted (if memory.root then s.save_root else none) path source s w
        ] in
        if not output || not s.mapping_active
        then untouched s w
        else if is_interesting system (extension_of system path) s
        then routed
        else untouched s w
