-- ===== src/Modloader/SaveMapping/Failed.antt =====
-- src/modloader/patches/save_mapping.c: what becomes of an extension that is refused.
use yafsml.Prelude.{
  ◌<◌, ◌≡◌, refl, ap, sym, ◌∙◌, Bool, true, false, ◌||◌, not, Option, none, some, List, [], ◌∷◌,
  ◌++◌, ◌==◌, length, arith, if_lem, length-append, take_all,
}
use yafsml.Common.Path.{Wide}
use yafsml.Modloader.SaveMapping.{
  SaveMappings, Answer, save_mapping_max, fits, add_mapping, copy_text, extension_size,
  update_mapping_active_locked,
}
use yafsml.Modloader.SaveExtensions.{
  accepts, is_remembered, extension_in, remember_failed_extension, refuse,
  ml_save_mapping_add_extension,
}
use yafsml.Modloader.SaveMapping.Steps.{remember_lem, remember-others, accepted_whole}

-- What an operation answers where it adds a mapping, and where it does not: then an extension that fits
-- is among the failed ones, unless eight others are there.
pub record Answered (same_text wcsicmp : Wide → Wide → Bool) (extension : Wide)
    (override_name : Option Wide) (s : SaveMappings) (a : Answer) : Type 0 where
  pub accepted :
      a.answer ≡ true
      → (name : Wide) × (override_name ≡ some name)
        × (a.state ≡ record s {
          mappings = s.mappings ++ (record { extension = extension; override_name = name } ∷ []);
          mapping_active = true;
        })
  pub refused :
      a.answer ≡ false → (a.state.mappings ≡ s.mappings) × (a.state.save_root ≡ s.save_root)
  pub denied :
      a.answer ≡ false
      → fits extension ≡ true
      → length s.failed_extensions < save_mapping_max
      → extension_in same_text extension a.state.failed_extensions ≡ true
  pub remembered :
      (other : Wide)
      → extension_in same_text other s.failed_extensions ≡ true
      → extension_in same_text other a.state.failed_extensions ≡ true

-- A table is not empty behind an entry that was added.
flagged {ℓ} :
    {A : Type ℓ} (x : A) (xs : List A) (other : Bool)
    → (not (length (xs ++ (x ∷ [])) == 0) || other) ≡ true
flagged x xs other = let e = length-append xs (x ∷ []) in ground arith

module _ (same_text wcsicmp : Wide → Wide → Bool)
    (same : (text : Wide) → same_text text text ≡ true)
    (symmetric : (a b : Wide) → same_text a b ≡ same_text b a) where
  extension_in-append :
      (extension : Wide) (xs ys : List Wide)
      → extension_in same_text extension (xs ++ ys)
        ≡ (extension_in same_text extension xs || extension_in same_text extension ys)
  unfolding extension_in
  extension_in-append extension [] ys = refl
  extension_in-append extension (x ∷ xs) ys =
      rw (extension_in-append extension xs ys) (ground (arith))

  is_remembered-extension_in :
      (extension : Wide) (xs : List Wide)
      → is_remembered same_text extension xs ≡ extension_in same_text extension xs
  unfolding extension_in is_remembered
  is_remembered-extension_in extension [] = refl
  is_remembered-extension_in extension (x ∷ xs) =
      rw (symmetric x extension, is_remembered-extension_in extension xs) refl

  last_found :
      (s : SaveMappings) (extension : Wide)
      → fits extension ≡ true
      → (extension_in same_text extension s.failed_extensions
          || extension_in same_text extension (copy_text extension extension_size ∷ []))
        ≡ true
  unfolding extension_in
  last_found s extension fitting =
      let whole : copy_text extension extension_size ≡ extension =
        take_all 15 extension (ground arith) in
      rw (whole, same extension) (ground arith)

  remember-denied :
      (extension : Wide) (s : SaveMappings)
      → fits extension ≡ true
      → length s.failed_extensions < save_mapping_max
      → extension_in same_text extension
          (remember_failed_extension same_text (some extension) s).failed_extensions
        ≡ true
  unfolding remember_failed_extension update_mapping_active_locked
  remember-denied extension s fitting room =
      remember_lem same_text wcsicmp
        (λ t. extension_in same_text extension t.failed_extensions ≡ true) extension s
        (λ e. absurd (ground arith))
        (λ there. sym (is_remembered-extension_in extension s.failed_extensions) ∙ there)
        (λ e.
          extension_in-append extension s.failed_extensions
            (copy_text extension extension_size ∷ [])
          ∙ last_found s extension fitting)
        (λ full. absurd (ground arith))

  remember-remembered :
      (extension : Wide) (s : SaveMappings) (other : Wide)
      → extension_in same_text other s.failed_extensions ≡ true
      → extension_in same_text other
          (remember_failed_extension same_text (some extension) s).failed_extensions
        ≡ true
  unfolding remember_failed_extension update_mapping_active_locked
  remember-remembered extension s other h =
      remember_lem same_text wcsicmp (λ t. extension_in same_text other t.failed_extensions ≡ true)
        extension s (λ e. h) (λ e. h)
        (λ e.
          extension_in-append other s.failed_extensions (copy_text extension extension_size ∷ [])
          ∙ rw h refl)
        (λ e. h)

  refused-Answered :
      (extension : Wide) (override_name : Option Wide) (s : SaveMappings)
      → Answered same_text wcsicmp extension override_name s
          (refuse same_text wcsicmp (some extension) s)
  unfolding refuse
  refused-Answered extension override_name s = record {
    accepted = λ e. absurd (ground arith);
    refused = λ e. remember-others same_text wcsicmp extension s;
    denied = λ e. remember-denied extension s;
    remembered = remember-remembered extension s;
  }

  added-Answered :
      (extension name : Wide) (s : SaveMappings)
      → accepts wcsicmp extension name s ≡ true
      → Answered same_text wcsicmp extension
          (some name)
          s
          (record { answer = true; state = add_mapping extension name s })
  unfolding add_mapping update_mapping_active_locked
  added-Answered extension name s ok =
      let whole = accepted_whole wcsicmp extension name s ok in
      record {
        accepted = λ e. (
          name,
          refl,
          rw (whole.0, whole.1)
              (ap
                (λ flag. record s {
                  mappings =
                      s.mappings ++ (record { extension = extension; override_name = name } ∷ []);
                  mapping_active = flag;
                })
                (flagged _ s.mappings _)),
        );
        refused = λ e. absurd (ground arith);
        denied = λ e. absurd (ground arith);
        remembered = λ other h. h;
      }

  -- An extension that is added with success is mapped to its name, both of them whole, behind the
  -- mappings of before. One that is refused changes no mapping and no root, and is among the
  -- failed extensions afterwards where it fits its array and there were fewer than eight of them.
  -- No extension that had failed is forgotten. Comparing texts is reflexive and symmetric.
  pub ml_save_mapping_add_extension-Answered :
      (extension : Wide) (override_name : Option Wide) (s : SaveMappings)
      → Answered same_text wcsicmp extension override_name s
          (ml_save_mapping_add_extension same_text wcsicmp (some extension) override_name s)
  unfolding ml_save_mapping_add_extension
  ml_save_mapping_add_extension-Answered extension none s = refused-Answered extension none s
  ml_save_mapping_add_extension-Answered extension (some name) s =
      if_lem (Answered same_text wcsicmp extension (some name) s) (accepts wcsicmp extension name s)
        _ _ (added-Answered extension name s) (λ e. refused-Answered extension (some name) s)
