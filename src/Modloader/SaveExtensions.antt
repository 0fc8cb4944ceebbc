-- ===== src/Modloader/SaveExtensions.antt =====
-- src/modloader/patches/save_mapping.c: which extensions are accepted, and which have failed. `same_text` is
-- `lstrcmpiW(a, b) == 0` and `wcsicmp` `_wcsicmp(a, b) == 0`.
use yafsml.Prelude.{
  ℕ, ◌-◌, Bool, true, false, not, ◌&&◌, ◌||◌, Option, none, some, List, [], ◌∷◌, ◌++◌, ltb, leb,
  ◌==◌, if◌then◌else◌, length, take, drop, codes,
}
use yafsml.Common.Path.{Wide}
use yafsml.Modloader.SaveMapping.{
  Answer, Descriptor, SaveMappings, add_mapping, any_forbidden, bad_end, char_at, copy_text,
  extension_size, fits, is_set, ml_save_mapping_init_root, override_size, reserved,
  save_mapping_max, stem_of, update_mapping_active_locked,
}

module _ (wcsicmp : Wide → Wide → Bool) where
  -- `_wcsnicmp(a, b, n) == 0`
  abbrev pub same_start : ℕ → Wide → Wide → Bool
  same_start n a b = wcsicmp (take n a) (take n b)

  unfoldable pub is_reserved : Wide → ℕ → List Wide → Bool
  is_reserved name stem_length [] = false
  is_reserved name stem_length (r ∷ rs) =
      length r == stem_length && same_start stem_length name r || is_reserved name stem_length rs

  -- COM1 to COM9, and LPT1 to LPT9.
  abbrev pub is_port : Wide → ℕ → Bool
  is_port name stem_length =
      stem_length == 4
      && (same_start 3 name (codes "com") || same_start 3 name (codes "lpt"))
      && leb b'1' (char_at name 3)
      && leb (char_at name 3) b'9'

  unfoldable pub valid_override_name : Wide → Bool
  unfolding any_forbidden stem_of is_reserved
  valid_override_name name =
      if length name == 0 || leb override_size (length name) || bad_end name
      then false
      else if any_forbidden name
      then false
      else if char_at name 0 == b'.'
      then ltb 1 (length name)
      else if is_reserved name (length (stem_of name)) reserved
      then false
      else not (is_port name (length (stem_of name)))

  abbrev pub is_valid : Wide → Wide → Bool
  is_valid extension override_name =
      fits extension && not (length override_name == 0) && valid_override_name override_name

  abbrev pub accepts : Wide → Wide → SaveMappings → Bool
  accepts extension override_name s =
      is_valid extension override_name
      && is_set s.save_root
      && ltb (length s.mappings) save_mapping_max

  -- Whether a name ends in an override with a dot, and more stands before it.
  abbrev pub is_mapped : Wide → Wide → Bool
  is_mapped source_name override_name =
      ltb (length override_name) (length source_name)
      && wcsicmp (drop (length source_name - length override_name) source_name) override_name

  -- `find_extension` is the place where PathFindExtensionW finds the extension.
  unfoldable pub build_override_name : (Wide → ℕ) → Wide → Wide → Wide
  build_override_name find_extension source_name override_name =
      if not (char_at override_name 0 == b'.')
      then override_name
      else if is_mapped source_name override_name
      then source_name
      else take (find_extension source_name) source_name ++ override_name

abbrev pub with_failed : Wide → SaveMappings → SaveMappings
with_failed extension s = record s {
  failed_extensions = s.failed_extensions ++ (copy_text extension extension_size ∷ []);
}

abbrev pub add_failed : Wide → SaveMappings → SaveMappings
add_failed extension s =
    if ltb (length s.failed_extensions) save_mapping_max then with_failed extension s else s

module _ (same_text : Wide → Wide → Bool) where
  unfoldable pub extension_in : Wide → List Wide → Bool
  extension_in extension [] = false
  extension_in extension (x ∷ xs) = same_text extension x || extension_in extension xs

  unfoldable pub is_remembered : Wide → List Wide → Bool
  is_remembered extension [] = false
  is_remembered extension (x ∷ xs) = same_text x extension || is_remembered extension xs

  unfoldable pub remember_failed_extension : Option Wide → SaveMappings → SaveMappings
  unfolding is_remembered update_mapping_active_locked
  remember_failed_extension none s = s
  remember_failed_extension (some extension) s =
      if not (fits extension)
      then s
      else if is_remembered extension s.failed_extensions
      then s
      else update_mapping_active_locked (add_failed extension s)

  module _ (wcsicmp : Wide → Wide → Bool) where
    unfoldable pub refuse : Option Wide → SaveMappings → Answer
    unfolding remember_failed_extension
    refuse extension s = record { answer = false; state = remember_failed_extension extension s }

    unfoldable pub ml_save_mapping_add_extension : Option Wide → Option Wide → SaveMappings → Answer
    unfolding refuse add_mapping
    ml_save_mapping_add_extension none override_name s = refuse none s
    ml_save_mapping_add_extension (some extension) none s = refuse (some extension) s
    ml_save_mapping_add_extension (some extension) (some override_name) s =
        if accepts wcsicmp extension override_name s
        then record { answer = true; state = add_mapping extension override_name s }
        else refuse (some extension) s

    unfoldable pub init_extension : Wide → Answer → Answer
    unfolding ml_save_mapping_add_extension
    init_extension override_name rooted =
        if not rooted.answer
        then record { answer = false; state = rooted.state }
        else ml_save_mapping_add_extension (some (codes ".sl2")) (some override_name) rooted.state

    unfoldable pub ml_save_mapping_init :
        Option Wide → (Wide → Option Wide) → Option Descriptor → Option Wide → SaveMappings → Answer
    unfolding ml_save_mapping_init_root init_extension
    ml_save_mapping_init appdata full_path none override_name s = record {
      answer = false;
      state = s;
    }
    ml_save_mapping_init appdata full_path (some game) none s = record { answer = false; state = s }
    ml_save_mapping_init appdata full_path (some game) (some override_name) s =
        if length override_name == 0 || not (valid_override_name wcsicmp override_name)
        then record { answer = false; state = s }
        else init_extension override_name
            (ml_save_mapping_init_root appdata full_path (some game) s)
