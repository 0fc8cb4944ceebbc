-- ===== src/Modloader/SaveMapping/Closed.antt =====
-- src/modloader/patches/save_mapping.c: a save whose extension is mapped or has failed is denied or mapped.
use yafsml.Prelude.{
  ℕ, ◌≡◌, Bool, true, Option, none, some, List, [], ◌++◌, codes, if◌then◌else◌, get_elem?,
}
use yafsml.Common.Path.{Wide}
use yafsml.Modloader.Vfs.Table.{HashTable}
use yafsml.Modloader.Vfs.Writable.{Writable}
use yafsml.Modloader.SaveMapping.{Mapping, SaveMappings}
use yafsml.Modloader.SaveMapping.Route
use yafsml.Modloader.SaveMapping.Links.{System, Memory, extension_of, logical_of, target_of}
use yafsml.Modloader.SaveMapping.Route.{Routed}

-- The path of the file beside a save that a mapping names, with .bak for a backup.
abbrev pub renamed : System → Wide → Wide → Wide
renamed system source name =
    let beside = target_of system (logical_of system source) name in
    if system.same_text (extension_of system source) (codes ".bak")
    then beside ++ codes ".bak"
    else beside

-- A mapping of the extension of the save names the path.
pub IsRenamed : System → List Mapping → Wide → Wide → Type 0
IsRenamed system mappings source target =
    (i : ℕ) × (e : Mapping) × (get_elem? mappings i ≡ some e)
    × (system.same_text (extension_of system (logical_of system source)) e.extension ≡ true)
    × (target ≡ renamed system source e.override_name)

-- Nothing is opened, or such a path.
abbrev pub Leads : System → List Mapping → Wide → Option Wide → Type 0
Leads system mappings source none = Unit
Leads system mappings source (some target) = IsRenamed system mappings source target

module _ (towlower : ℕ → ℕ) (ordinal_equal : Wide → Wide → Bool) (C : HashTable (Option Wide))
    (system : System) (memory : Memory) (depth : ℕ) (s : SaveMappings) (source : Wide) where
  abbrev Closed : Writable towlower ordinal_equal C → Routed towlower ordinal_equal C → Type 0
  Closed w r = (r.result ≡ true) × (w.entries ≡ [] → Leads system s.mappings source r.mapped_path)
