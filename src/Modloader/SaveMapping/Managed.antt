-- ===== src/Modloader/SaveMapping/Managed.antt =====
-- src/modloader/patches/save_mapping.c: which saves are mapped or have failed, and that the filter of
-- ml_save_mapping_route lets them through.
use yafsml.Prelude.{
  ◌≡◌, refl, ap, subst, ◌∙◌, Bool, true, false, not, ◌||◌, ◌==◌, Option, none, some, List, [], ◌∷◌,
  length, codes, if◌then◌else◌, Bool-cases, inl, inr, arith,
}
use yafsml.Common.Path.{Wide}
use yafsml.Modloader.SaveMapping.{Mapping, SaveMappings}
use yafsml.Modloader.SaveExtensions.{extension_in}
use yafsml.Modloader.SaveMapping.Links.{
  System, extension_of, logical_of, find_override, is_interesting,
}

-- Whether an extension is that of a mapping, or has failed.
unfoldable pub extensions_of : List Mapping → List Wide
extensions_of [] = []
extensions_of (m ∷ ms) = m.extension ∷ extensions_of ms

unfoldable pub is_managed : System → Wide → SaveMappings → Bool
unfolding extensions_of extension_in
is_managed system extension s =
    extension_in system.same_text extension s.failed_extensions
    || extension_in system.same_text extension (extensions_of s.mappings)

abbrev is_some : Option Wide → Bool
is_some o = elim o [ none ↦ false | some name ↦ true ]

-- The same, as the code looks it up.
abbrev pub is_found : System → Wide → SaveMappings → Bool
is_found system extension s =
    extension_in system.same_text extension s.failed_extensions
    || is_some (find_override system extension s.mappings)

some_if :
    (b : Bool) (name : Wide) (rest : Option Wide)
    → is_some (if b then some name else rest) ≡ (b || is_some rest)
some_if true name rest = refl
some_if false name rest = refl

find_override-extension_in :
    (system : System) (extension : Wide) (ms : List Mapping)
    → is_some (find_override system extension ms)
      ≡ extension_in system.same_text extension (extensions_of ms)
unfolding find_override extension_in extensions_of
find_override-extension_in system extension [] = refl
find_override-extension_in system extension (m ∷ ms) =
    some_if (system.same_text extension m.extension) m.override_name
      (find_override system extension ms)
    ∙ ap (λ b. system.same_text extension m.extension || b)
        (find_override-extension_in system extension ms)

pub managed-found :
    (system : System) (extension : Wide) (s : SaveMappings)
    → is_managed system extension s ≡ true
    → is_found system extension s ≡ true
unfolding is_managed
managed-found system extension s h = rw (find_override-extension_in system extension s.mappings) h

or_true : (a b c : Bool) → (b || c) ≡ true → (a || b || c) ≡ true
or_true a b c h = ground arith

pub managed-nonempty :
    (system : System) (extension : Wide) (ms : List Mapping) (fs : List Wide)
    → (extension_in system.same_text extension fs
        || elim (find_override system extension ms) [ none ↦ false | some name ↦ true ])
      ≡ true
    → (not (length ms == 0) || not (length fs == 0)) ≡ true
unfolding extension_in find_override
managed-nonempty system extension [] [] h = h
managed-nonempty system extension [] (f ∷ fs) h = ground arith
managed-nonempty system extension (m ∷ ms) fs h = ground arith

-- The filter lets every path through that is about a managed save.
pub managed-interesting :
    (system : System) (source : Wide) (s : SaveMappings)
    → is_found system (extension_of system (logical_of system source)) s ≡ true
    → is_interesting system (extension_of system source) s ≡ true
unfolding is_interesting
managed-interesting system source s h =
    elim (Bool-cases (system.same_text (extension_of system source) (codes ".bak"))) [
      | inl backup ↦ rw backup refl
      | inr original ↦
          let e : extension_of system (logical_of system source) ≡ extension_of system source =
            rw original refl in
          let found = subst (λ x. is_found system x s ≡ true) e h in
          or_true (system.same_text (extension_of system source) (codes ".bak")) _ _ found
    ]
