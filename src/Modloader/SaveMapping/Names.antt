-- ===== src/Modloader/SaveMapping/Names.antt =====
-- src/modloader/patches/save_mapping.c: the names that valid_override_name lets through, and those that
-- build_override_name makes.
use yafsml.Prelude.{
  ℕ, ◌-◌, ◌<◌, ◌≡◌, refl, sym, ap, ◌∙◌, Bool, true, false, not, [], ◌∷◌, ◌++◌, ltb, ◌==◌,
  if◌then◌else◌, length, take, drop, All, arith, Bool-cases, inl, inr, length-append, length-take,
}
use yafsml.Common.Path.{Wide}
use yafsml.Modloader.SaveMapping.{char_at, is_forbidden, any_forbidden, bad_end}
use yafsml.Modloader.SaveExtensions.{valid_override_name, build_override_name, is_mapped}

-- A name of one to 63 characters, none of them a separator, a colon or any other that Windows refuses,
-- and no blank or dot at its end.
pub record IsName (name : Wide) : Type 0 where
  pub some_text : 0 < length name
  pub short : length name < 64
  pub allowed : All (λ c. is_forbidden c ≡ false) name
  pub ending : bad_end name ≡ false

All-allowed : (name : Wide) → any_forbidden name ≡ false → All (λ c. is_forbidden c ≡ false) name
unfolding any_forbidden
All-allowed [] e = tt
All-allowed (c ∷ cs) e = (ground arith, All-allowed cs (ground arith))

pub valid_override_name-IsName :
    (wcsicmp : Wide → Wide → Bool) (name : Wide)
    → valid_override_name wcsicmp name ≡ true
    → IsName name
unfolding valid_override_name
valid_override_name-IsName wcsicmp name e = record {
  some_text = ground arith;
  short = ground arith;
  allowed = All-allowed name (ground arith);
  ending = ground arith;
}

drop-append : (xs ys : Wide) → drop (length xs) (xs ++ ys) ≡ ys
drop-append [] ys = refl
drop-append (x ∷ xs) ys = drop-append xs ys

module _ (wcsicmp : Wide → Wide → Bool) (find_extension : Wide → ℕ)
    (same : (text : Wide) → wcsicmp text text ≡ true) where
  keeps_mapped :
      (stem override_name : Wide)
      → 0 < length stem
      → build_override_name wcsicmp find_extension (stem ++ override_name) override_name
        ≡ (if not (char_at override_name 0 == b'.') then override_name else stem ++ override_name)
  unfolding build_override_name
  keeps_mapped stem override_name long =
      let size = length-append stem override_name in
      let cut : length (stem ++ override_name) - length override_name ≡ length stem = omega arith in
      let longer : ltb (length override_name) (length (stem ++ override_name)) ≡ true =
        ground arith in
      rw cut (rw (drop-append stem override_name) (rw longer (rw (same override_name) refl)))

  -- Mapping a name a second time changes nothing, where the source has a stem before its
  -- extension and texts are equal to themselves.
  build_override_name-twice :
      (source_name override_name : Wide)
      → 0 < find_extension source_name
      → 0 < length source_name
      → build_override_name wcsicmp find_extension
          (build_override_name wcsicmp find_extension source_name override_name)
          override_name
        ≡ build_override_name wcsicmp find_extension source_name override_name
  unfolding build_override_name
  build_override_name-twice source_name override_name found long =
      let size = length-take (find_extension source_name) source_name in
      let mapped = take (find_extension source_name) source_name ++ override_name in
      let again =
        keeps_mapped (take (find_extension source_name) source_name) override_name (omega arith) in
      elim (Bool-cases (char_at override_name 0 == b'.')) [
        | inl dot ↦ elim (Bool-cases (is_mapped wcsicmp source_name override_name)) [
          | inl done ↦
              ap (λ n. build_override_name wcsicmp find_extension n override_name)
                (rw (dot, done) refl)
          | inr original ↦
              let e : build_override_name wcsicmp find_extension source_name override_name
                  ≡ mapped =
                rw (dot, original) refl in
              let f : build_override_name wcsicmp find_extension mapped override_name ≡ mapped =
                again ∙ rw dot refl in
              ap (λ n. build_override_name wcsicmp find_extension n override_name) e ∙ f ∙ sym e
        ]
        | inr plain ↦ rw plain refl
      ]
