-- ===== src/Modloader/SaveMapping/Steps.antt =====
-- src/modloader/patches/save_mapping.c: what the tables hold after an operation.
use yafsml.Prelude.{
  if_lem, take_all, ◌≤◌, ◌≡◌, refl, subst, sym, Bool, true, false, ◌||◌, not, Option, none, some,
  List, [], ◌∷◌, ◌++◌, ltb, ◌==◌, length, All, All-append, arith, length-append,
}
use yafsml.Common.Path.{Wide}
use yafsml.Modloader.SaveMapping.{
  Mapping, SaveMappings, Answer, initial, save_mapping_max, is_set, fits, add_mapping,
  update_mapping_active_locked, with_root, with_mapping, copy_text, extension_size, override_size,
}
use yafsml.Modloader.SaveExtensions.{
  accepts, valid_override_name, with_failed, is_remembered, remember_failed_extension, refuse,
  ml_save_mapping_add_extension,
}
use yafsml.Modloader.SaveMapping.Names.{IsName, valid_override_name-IsName}

-- An extension with a dot that fits its array, and a name that Windows takes.
pub record IsMapping (m : Mapping) : Type 0 where
  pub fitting : fits m.extension ≡ true
  pub name : IsName m.override_name

-- The tables stay within their arrays, the flag tells whether they hold anything, and a mapping needs
-- the root of the saves.
pub record Kept (s : SaveMappings) : Type 0 where
  pub few : length s.mappings ≤ save_mapping_max
  pub few_failed : length s.failed_extensions ≤ save_mapping_max
  pub flag :
      s.mapping_active ≡ (not (length s.mappings == 0) || not (length s.failed_extensions == 0))
  pub rooted : is_set s.save_root ≡ false → length s.mappings ≡ 0
  pub entries : All IsMapping s.mappings

appended {ℓ} :
    {A : Type ℓ} (x : A) (xs : List A)
    → ltb (length xs) save_mapping_max ≡ true
    → length (xs ++ (x ∷ [])) ≤ save_mapping_max
appended x xs room = let e = length-append xs (x ∷ []) in ground arith

module _ (wcsicmp : Wide → Wide → Bool) (extension override_name : Wide) (s : SaveMappings)
    (ok : accepts wcsicmp extension override_name s ≡ true) where
  pub accepted_parts :
      (fits extension ≡ true)
      × (valid_override_name wcsicmp override_name ≡ true)
      × (is_set s.save_root ≡ true)
      × (ltb (length s.mappings) save_mapping_max ≡ true)
  accepted_parts = (ground arith, ground arith, ground arith, ground arith)

  -- Nothing is cut off when the two texts are copied.
  pub accepted_whole :
      (copy_text extension extension_size ≡ extension)
      × (copy_text override_name override_size ≡ override_name)
  accepted_whole =
      let name = valid_override_name-IsName wcsicmp override_name accepted_parts.1 in
      let fitting = accepted_parts.0 in
      (take_all 15 extension (ground arith), take_all 63 override_name (omega (arith, name.short)))

  accepted-IsMapping : IsMapping (record {
    extension = copy_text extension extension_size;
    override_name = copy_text override_name override_size;
  })
  accepted-IsMapping = record {
    fitting = subst (λ t. fits t ≡ true) (sym accepted_whole.0) accepted_parts.0;
    name =
        subst IsName (sym accepted_whole.1)
          (valid_override_name-IsName wcsicmp override_name accepted_parts.1);
  }

module _ (same_text wcsicmp : Wide → Wide → Bool) where
  update-Kept :
      (s : SaveMappings)
      → length s.mappings ≤ save_mapping_max
      → length s.failed_extensions ≤ save_mapping_max
      → (is_set s.save_root ≡ false → length s.mappings ≡ 0)
      → All IsMapping s.mappings
      → Kept (update_mapping_active_locked s)
  unfolding update_mapping_active_locked
  update-Kept s few few_failed rooted entries = record {
    few = few;
    few_failed = few_failed;
    flag = refl;
    rooted = rooted;
    entries = entries;
  }

  pub initial-Kept : Kept initial
  initial-Kept = record {
    few = omega arith;
    few_failed = omega arith;
    flag = refl;
    rooted = λ e. refl;
    entries = tt;
  }

  pub with_root-Kept : (root : Option Wide) (s : SaveMappings) → Kept (with_root root s)
  unfolding with_root
  with_root-Kept root s =
      update-Kept (record s { save_root = root; mappings = []; failed_extensions = [] })
        (omega arith) (omega arith) (λ e. refl) tt

  -- The cases of remember_failed_extension.
  pub remember_lem {ℓ} :
      (P : SaveMappings → Type ℓ) (extension : Wide) (s : SaveMappings)
      → (fits extension ≡ false → P s)
      → (is_remembered same_text extension s.failed_extensions ≡ true → P s)
      → (ltb (length s.failed_extensions) save_mapping_max ≡ true
          → P (update_mapping_active_locked (with_failed extension s)))
      → (ltb (length s.failed_extensions) save_mapping_max ≡ false
          → P (update_mapping_active_locked s))
      → P (remember_failed_extension same_text (some extension) s)
  unfolding remember_failed_extension
  remember_lem P extension s unfit there room full =
      if_lem P (not (fits extension)) _ _ (λ e. unfit (ground arith))
        (λ e. if_lem P (is_remembered same_text extension s.failed_extensions) _ _ there (λ e.
          if_lem (λ t. P (update_mapping_active_locked t))
            (ltb (length s.failed_extensions) save_mapping_max) _ _ room full))

  pub remember-others :
      (extension : Wide) (s : SaveMappings)
      → ((remember_failed_extension same_text (some extension) s).mappings ≡ s.mappings)
        × ((remember_failed_extension same_text (some extension) s).save_root ≡ s.save_root)
  unfolding remember_failed_extension update_mapping_active_locked
  remember-others extension s =
      remember_lem (λ t. (t.mappings ≡ s.mappings) × (t.save_root ≡ s.save_root)) extension s
        (λ e. (refl, refl)) (λ e. (refl, refl)) (λ e. (refl, refl)) (λ e. (refl, refl))

  pub remember-Kept :
      (extension : Option Wide) (s : SaveMappings)
      → Kept s
      → Kept (remember_failed_extension same_text extension s)
  unfolding remember_failed_extension
  remember-Kept none s k = k
  remember-Kept (some extension) s k =
      remember_lem Kept extension s (λ e. k) (λ e. k)
        (λ room.
          update-Kept (with_failed extension s) k.few
            (appended (copy_text extension extension_size) s.failed_extensions room) k.rooted
            k.entries)
        (λ full. update-Kept s k.few k.few_failed k.rooted k.entries)

  pub add-Kept :
      (extension override_name : Option Wide) (s : SaveMappings)
      → Kept s
      → Kept (ml_save_mapping_add_extension same_text wcsicmp extension override_name s).state
  unfolding ml_save_mapping_add_extension refuse add_mapping
  add-Kept none override_name s k = k
  add-Kept (some extension) none s k = remember-Kept (some extension) s k
  add-Kept (some extension) (some override_name) s k =
      if_lem (λ (a : Answer). Kept a.state) (accepts wcsicmp extension override_name s) _ _
        (λ ok.
          update-Kept (with_mapping extension override_name s)
            (appended _ s.mappings (accepted_parts wcsicmp extension override_name s ok).3)
            k.few_failed
            (λ e.
              let set = (accepted_parts wcsicmp extension override_name s ok).2 in
              absurd (ground arith))
            (All-append IsMapping s.mappings _ k.entries
              (accepted-IsMapping wcsicmp extension override_name s ok, tt)))
        (λ e. remember-Kept (some extension) s k)
