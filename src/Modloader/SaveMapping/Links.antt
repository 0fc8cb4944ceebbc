-- ===== src/Modloader/SaveMapping/Links.antt =====
-- src/modloader/patches/save_mapping.c: the system that a route asks, the links below the root, and the names
-- that a path is mapped to.
use yafsml.Prelude.{
  ℕ, Bool, true, false, not, ◌&&◌, ◌||◌, Option, none, some, List, [], ◌∷◌, ◌++◌, ltb, ◌==◌,
  if◌then◌else◌, length, take, drop, codes,
}
use yafsml.Common.Path.{Wide}
use yafsml.Modloader.SaveMapping.{Mapping, SaveMappings, is_separator, char_at, join_path}
use yafsml.Modloader.SaveExtensions.{build_override_name, extension_in}

-- What the system answers. `find_extension` and `find_file_name` are the places that
-- PathFindExtensionW and PathFindFileNameW find, `is_link` whether a path names a link, and
-- `copy_file` whether the file is copied, or is there already.
pub record System : Type 0 where
  pub same_text : Wide → Wide → Bool
  pub wcsicmp : Wide → Wide → Bool
  pub full_path : Wide → Option Wide
  pub find_extension : Wide → ℕ
  pub find_file_name : Wide → ℕ
  pub is_link : Wide → Bool
  pub file_exists : Wide → Bool
  pub copy_file : Wide → Wide → Bool

-- Whether each allocation succeeds: the copies of the root, of the path as it is checked and as it is
-- mapped, the target, the target of a backup, and those of the virtual file system.
pub record Memory : Type 0 where
  pub root : Bool
  pub checked : Bool
  pub logical : Bool
  pub target : Bool
  pub backup : Bool
  pub registered : Bool
  pub copied : Bool
  pub cached : Bool

abbrev pub extension_of : System → Wide → Wide
extension_of system path = drop (system.find_extension path) path

unfoldable pub path_is_under_root : System → Wide → Wide → Bool
path_is_under_root system canonical root =
    not (length root == 0)
    && ltb (length root) (length canonical)
    && system.wcsicmp (take (length root) canonical) root
    && is_separator (char_at canonical (length root))

-- The components behind `prefix`; `in_name` is whether a component has begun.
unfoldable pub link_loop : (Wide → Bool) → Bool → Wide → Wide → Bool
link_loop is_link in_name prefix [] = is_link prefix
link_loop is_link false prefix (c ∷ cs) =
    link_loop is_link (not (is_separator c)) (prefix ++ (c ∷ [])) cs
link_loop is_link true prefix (c ∷ cs) =
    let rest = link_loop is_link (not (is_separator c)) (prefix ++ (c ∷ [])) cs in
    if is_separator c then is_link prefix || rest else rest

unfoldable pub path_contains_link : System → Bool → Wide → Wide → Bool
unfolding link_loop
path_contains_link system memory canonical root =
    if not (ltb (length root) (length canonical))
    then false
    else if not memory
    then true
    else link_loop system.is_link false (take (length root) canonical)
        (drop (length root) canonical)

unfoldable pub find_override : System → Wide → List Mapping → Option Wide
find_override system extension [] = none
find_override system extension (m ∷ ms) =
    let rest = find_override system extension ms in
    if system.same_text extension m.extension then some m.override_name else rest

-- The filter before anything is copied.
unfoldable pub is_interesting : System → Wide → SaveMappings → Bool
unfolding extension_in find_override
is_interesting system extension s =
    system.same_text extension (codes ".bak")
    || extension_in system.same_text extension s.failed_extensions
    || elim (find_override system extension s.mappings) [ none ↦ false | some name ↦ true ]

-- The save that a path is about, without PathRemoveExtensionW's extension for a backup.
abbrev pub logical_of : System → Wide → Wide
logical_of system source =
    if system.same_text (extension_of system source) (codes ".bak")
    then take (system.find_extension source) source
    else source

-- Where the file of a mapped name stands.
unfoldable pub target_of : System → Wide → Wide → Wide
unfolding join_path build_override_name
target_of system logical override_name =
    let place = system.find_file_name logical in
    join_path (take place logical)
      (build_override_name system.wcsicmp system.find_extension (drop place logical) override_name)
