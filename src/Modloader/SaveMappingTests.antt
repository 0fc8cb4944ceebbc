-- ===== src/Modloader/SaveMappingTests.antt =====
-- Runs of the save mapping on concrete inputs, and the theorems at inputs that meet their hypotheses.
use yafsml.Prelude.{
  ℕ, ◌<◌, ◌≡◌, refl, Bool, true, false, ◌&&◌, ◌==◌, Option, some, [], ◌∷◌, length, codes, arith,
}
use yafsml.Common.Path.{Wide}
use yafsml.Modloader.SaveMapping.{
  SaveMappings, Descriptor, initial, stem_of, ml_save_mapping_init_root,
}
use yafsml.Modloader.SaveExtensions.{
  valid_override_name, build_override_name, ml_save_mapping_add_extension,
}
use yafsml.Modloader.SaveMapping.Steps.{Kept}
use yafsml.Modloader.SaveMapping.Reached.{Reached, started, root_set, added, Reached-Kept}
use yafsml.Modloader.SaveMapping.Route
use yafsml.Modloader.SaveMapping.Links.{System, Memory}
use yafsml.Modloader.SaveMapping.Keeps.{Keeps, ml_save_mapping_route-Keeps}
use yafsml.Modloader.Vfs.Table.{HashTable}
use yafsml.Modloader.Vfs.AssociationTable.{association_table}
use yafsml.Modloader.Vfs.Writable.{Writable}
use yafsml.Modloader.SaveMapping.Failed.{Answered, ml_save_mapping_add_extension-Answered}

-- A comparison that tells cases apart, and the place of the first dot.
unfoldable equal : Wide → Wide → Bool
equal [] [] = true
equal [] (y ∷ ys) = false
equal (x ∷ xs) [] = false
equal (x ∷ xs) (y ∷ ys) = x == y && equal xs ys

unfoldable dot_place : Wide → ℕ
unfolding stem_of
dot_place text = length (stem_of text)

equal-same : (text : Wide) → equal text text ≡ true
unfolding equal
equal-same [] = refl
equal-same (x ∷ xs) = ground (arith, equal-same xs)

equal-symmetric : (a b : Wide) → equal a b ≡ equal b a
unfolding equal
equal-symmetric [] [] = refl
equal-symmetric [] (y ∷ ys) = refl
equal-symmetric (x ∷ xs) [] = refl
equal-symmetric (x ∷ xs) (y ∷ ys) = rw (equal-symmetric xs ys) (ground arith)

abbrev eldenring : Descriptor
eldenring = record { save_root_name = some (codes "EldenRing") }

abbrev appdata : Option Wide
appdata = some (codes "C:\\Roaming")

abbrev rooted : SaveMappings
rooted = (ml_save_mapping_init_root appdata (λ path. some path) (some eldenring) initial).state

valid_names :
    (valid_override_name equal (codes "ER0000.co2") ≡ true)
    × (valid_override_name equal (codes ".co2") ≡ true)
    × (valid_override_name equal (codes "a\\b") ≡ false)
    × (valid_override_name equal (codes "com1.co2") ≡ false)
    × (valid_override_name equal (codes "name.") ≡ false)
unfolding valid_override_name equal
valid_names = (refl, refl, refl, refl, refl)

add_runs :
    (ml_save_mapping_add_extension equal equal
      (some (codes ".sl2"))
      (some (codes ".co2"))
      rooted).state.save_root
    ≡ some (codes "C:\\Roaming\\EldenRing")
unfolding ml_save_mapping_add_extension ml_save_mapping_init_root valid_override_name
add_runs = refl

-- The name of a file stands behind the last separator.
abbrev name_place : Wide → ℕ
name_place text = 23

abbrev system : System
system = record {
  same_text = equal;
  wcsicmp = equal;
  full_path = λ path. some path;
  find_extension = dot_place;
  find_file_name = name_place;
  is_link = λ path. false;
  file_exists = λ path. false;
  copy_file = λ source target. true;
}

abbrev memory : Memory
memory = record {
  root = true;
  checked = true;
  logical = true;
  target = true;
  backup = true;
  registered = true;
  copied = true;
  cached = true;
}

abbrev same_char : ℕ → ℕ
same_char c = c

abbrev table : HashTable (Option Wide)
table = association_table (Option Wide)

abbrev no_paths : Writable same_char equal table
no_paths = record { entries = []; cache = table.empty }

abbrev mapped_sl2 : SaveMappings
mapped_sl2 =
    (ml_save_mapping_add_extension equal equal (some (codes ".sl2")) (some (codes ".co2"))
      rooted).state

abbrev save_file : Wide
save_file = codes "C:\\Roaming\\EldenRing\\1\\ER0000.sl2"

sl2-Reached : Reached equal equal same_char equal table mapped_sl2
sl2-Reached =
    added (some (codes ".sl2")) (some (codes ".co2"))
      (root_set appdata (λ path. some path) (some eldenring) started)

Reached-Kept_example : Kept mapped_sl2
Reached-Kept_example = Reached-Kept equal equal same_char equal table sl2-Reached

ml_save_mapping_add_extension-Answered_example :
    Answered equal equal (codes ".sl2") (some (codes "bad.")) initial (
      ml_save_mapping_add_extension equal equal (some (codes ".sl2")) (some (codes "bad.")) initial)
ml_save_mapping_add_extension-Answered_example =
    ml_save_mapping_add_extension-Answered equal equal equal-same equal-symmetric (codes ".sl2")
      (some (codes "bad.")) initial

dot_found : 0 < dot_place (codes "ER0000.sl2")
unfolding dot_place
dot_found = omega arith

ml_save_mapping_route-Keeps_example : Keeps same_char equal table mapped_sl2 (
    Route.ml_save_mapping_route same_char equal table system memory 0
      (some save_file)
      true
      mapped_sl2
      no_paths)
ml_save_mapping_route-Keeps_example =
    ml_save_mapping_route-Keeps same_char equal table mapped_sl2 system memory 0
      (Reached-Kept equal equal same_char equal table sl2-Reached) (some save_file) true no_paths

route_runs :
    (Route.ml_save_mapping_route same_char equal table system memory 0
      (some save_file)
      true
      mapped_sl2
      no_paths).mapped_path
    ≡ some (codes "C:\\Roaming\\EldenRing\\1\\ER0000.co2")
unfolding Route.ml_save_mapping_route ml_save_mapping_add_extension ml_save_mapping_init_root
    valid_override_name equal dot_place build_override_name
route_runs = refl
