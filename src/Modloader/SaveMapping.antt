-- ===== src/Modloader/SaveMapping.antt =====
-- src/modloader/patches/save_mapping.c: the table of save extensions, the root of the saves, and the texts of
-- both. What runs under the lock is one step. Memory is taken to last.
pub mod Names
pub mod Steps
pub mod Failed
pub mod Links
pub mod Route
pub mod FirstRoute
pub mod Keeps
pub mod Managed
pub mod Closed
pub mod Reached
use yafsml.Prelude.{
  ℕ, ◌-◌, Bool, true, false, not, ◌&&◌, ◌||◌, Option, none, some, List, [], ◌∷◌, ◌++◌, ltb, leb,
  ◌==◌, if◌then◌else◌, length, get_elem?, take, drop, codes,
}
use yafsml.Common.Path.{Wide}

-- SAVE_MAPPING_MAX, and the sizes of the two arrays of an entry.
abbrev pub save_mapping_max : ℕ
save_mapping_max = 8

abbrev pub extension_size : ℕ
extension_size = 16

abbrev pub override_size : ℕ
override_size = 64

-- save_mapping_entry_t
pub record Mapping : Type 0 where
  pub extension : Wide
  pub override_name : Wide

-- The variables of the file.
pub record SaveMappings : Type 0 where
  pub save_root : Option Wide
  pub mappings : List Mapping
  pub failed_extensions : List Wide
  pub mapping_active : Bool

abbrev pub initial : SaveMappings
initial = record { save_root = none; mappings = []; failed_extensions = []; mapping_active = false }

-- What an operation answers, and the new state.
pub record Answer : Type 0 where
  pub answer : Bool
  pub state : SaveMappings

-- The character at a place, or the NUL behind the text.
abbrev pub char_at : Wide → ℕ → ℕ
char_at text i = elim (get_elem? text i) [ none ↦ 0 | some c ↦ c ]

-- lstrcpynW into an array of `size` characters.
abbrev pub copy_text : Wide → ℕ → Wide
copy_text text size = take (size - 1) text

unfoldable pub has_char : Wide → ℕ → Bool
has_char [] c = false
has_char (x ∷ xs) c = x == c || has_char xs c

abbrev pub is_forbidden : ℕ → Bool
is_forbidden c = ltb c 32 || has_char (codes "<>:\"/\\|?*") c

unfoldable pub any_forbidden : Wide → Bool
unfolding has_char
any_forbidden [] = false
any_forbidden (c ∷ cs) = is_forbidden c || any_forbidden cs

-- What stands before the first dot.
unfoldable pub stem_of : Wide → Wide
stem_of [] = []
stem_of (c ∷ cs) = if c == b'.' then [] else c ∷ stem_of cs

abbrev pub reserved : List Wide
reserved = codes "con" ∷ codes "prn" ∷ codes "aux" ∷ codes "nul" ∷ []

abbrev pub is_separator : ℕ → Bool
is_separator c = c == b'\\' || c == b'/'

unfoldable pub join_path : Wide → Wide → Wide
join_path left right =
    if not (length left == 0) && not (is_separator (char_at left (length left - 1)))
    then left ++ (b'\\' ∷ right)
    else left ++ right

-- A text without the separators at its end, and the loop of canonicalize_path, which leaves one
-- character.
unfoldable pub trim_separators : Wide → Wide
trim_separators [] = []
trim_separators (c ∷ cs) =
    let rest = trim_separators cs in if is_separator c && length rest == 0 then [] else c ∷ rest

unfoldable pub trim_path : Wide → Wide
unfolding trim_separators
trim_path [] = []
trim_path (c ∷ cs) = c ∷ trim_separators cs

-- `full_path` is GetFullPathNameW, `none` where it fails.
unfoldable pub canonicalize_path : (Wide → Option Wide) → Wide → Option Wide
unfolding trim_path
canonicalize_path full_path path = elim (full_path path) [
  | none ↦ none
  | some full ↦ some (trim_path full)
]

unfoldable pub update_mapping_active_locked : SaveMappings → SaveMappings
update_mapping_active_locked s = record s {
  mapping_active = not (length s.mappings == 0) || not (length s.failed_extensions == 0);
}

-- The field of ml_game_descriptor_t that is read.
pub record Descriptor : Type 0 where
  pub save_root_name : Option Wide

-- `appdata` is the value of APPDATA, where it is set.
unfoldable pub resolve_root : Option Wide → (Wide → Option Wide) → Option Descriptor → Option Wide
unfolding join_path canonicalize_path
resolve_root appdata full_path none = none
resolve_root appdata full_path (some game) = elim game.save_root_name [
  | none ↦ none
  | some name ↦ elim appdata [
    | none ↦ none
    | some left ↦ canonicalize_path full_path (join_path left name)
  ]
]

unfoldable pub with_root : Option Wide → SaveMappings → SaveMappings
unfolding update_mapping_active_locked
with_root root s =
    update_mapping_active_locked
      (record s { save_root = root; mappings = []; failed_extensions = [] })

abbrev pub is_set : Option Wide → Bool
is_set o = elim o [ none ↦ false | some text ↦ true ]

unfoldable pub ml_save_mapping_init_root :
    Option Wide → (Wide → Option Wide) → Option Descriptor → SaveMappings → Answer
unfolding resolve_root with_root
ml_save_mapping_init_root appdata full_path game s =
    let canonical = resolve_root appdata full_path game in
    record { answer = is_set canonical; state = with_root canonical s }

unfoldable pub ml_save_mapping_uninit : SaveMappings → SaveMappings
unfolding with_root
ml_save_mapping_uninit s = with_root none s

abbrev pub bad_end : Wide → Bool
bad_end name = char_at name (length name - 1) == b' ' || char_at name (length name - 1) == b'.'

-- An extension that fits its array with its NUL.
abbrev pub fits : Wide → Bool
fits extension = char_at extension 0 == b'.' && ltb (length extension) extension_size

abbrev pub with_mapping : Wide → Wide → SaveMappings → SaveMappings
with_mapping extension override_name s = record s {
  mappings =
      s.mappings
      ++ (record {
        extension = copy_text extension extension_size;
        override_name = copy_text override_name override_size;
      }
          ∷ []);
}

unfoldable pub add_mapping : Wide → Wide → SaveMappings → SaveMappings
unfolding update_mapping_active_locked
add_mapping extension override_name s =
    update_mapping_active_locked (with_mapping extension override_name s)
