-- ===== src/Modloader/Vfs/Lookup/Caches.antt =====
-- What one lookup answers and leaves in its cache.
use yafsml.Prelude.{
  ℕ, ◌≡◌, refl, ap, sym, ◌∙◌, Bool, true, false, Option, none, some, ◌==◌, if◌then◌else◌, arith,
  Bool-cases, Option-cases, inl, inr, subst,
}
use mathlib.Core.Option.{some-injective}
use yafsml.Common.Path.{Wide}
use yafsml.Modloader.Vfs.Table.{HashTable}
use yafsml.Modloader.Vfs.Index.{State}
use yafsml.Modloader.Vfs.Wide.{wide_discrete}
use yafsml.Modloader.Vfs.Lookup.{Cached, find_entry, result_of, store_result, through_cache}

module _ (towlower : ℕ → ℕ) (T : HashTable ℕ) (C : HashTable (Option Wide)) where
  -- What the index alone says of a path.
  abbrev pub plain : (ℕ → Option Wide) → Option (Option ℕ) → Option Wide
  plain value none = none
  plain value (some place) = result_of towlower T C value place

  -- All that a cache holds is what the index says.
  abbrev pub Good : State towlower T → (ℕ → Option Wide) → C.Table → Type 0
  Good s value cache =
      (path : Wide) (r : Option Wide)
      → C.kh_get path cache ≡ some r
      → plain value (find_entry towlower T C s path) ≡ r

  abbrev pub Empty : C.Table → Type 0
  Empty cache = (path : Wide) → C.kh_get path cache ≡ none

  pub Empty-Good :
      (s : State towlower T) (value : ℕ → Option Wide) (cache : C.Table)
      → Empty cache
      → Good s value cache
  Empty-Good s value cache e path r h = absurd (ground (arith, e path))

  put-Good :
      (s : State towlower T) (value : ℕ → Option Wide) (cache : C.Table) (path : Wide)
      → Good s value cache
      → Good s value (C.kh_put path (plain value (find_entry towlower T C s path)) cache)
  put-Good s value cache path good path' r h = elim (wide_discrete path' path) [
    | yes e ↦
        let r' = plain value (find_entry towlower T C s path) in
        let stored : some r' ≡ some r =
          sym (C.get_put path r' cache)
          ∙ subst (λ p. C.kh_get p (C.kh_put path r' cache) ≡ some r) e h in
        subst (λ p. plain value (find_entry towlower T C s p) ≡ r) (sym e)
          (some-injective r' r stored)
    | no ne ↦ good path' r (sym (C.get_put_other path' path _ cache ne) ∙ h)
  ]

  -- A lookup answers what the index says, and leaves a good cache.
  unfoldable pub Right : State towlower T → (ℕ → Option Wide) → Wide → Cached towlower T C → Type 0
  Right s value path c =
      (c.answer ≡ plain value (find_entry towlower T C s path)) × Good s value c.cache

  store_result-Right :
      (memory : Bool) (s : State towlower T) (value : ℕ → Option Wide) (cache : C.Table)
      (path : Wide)
      → Good s value cache
      → C.kh_get path cache ≡ none
      → Right s value path (
          store_result towlower T C memory cache path
            (plain value (find_entry towlower T C s path)))
  unfolding Right
  store_result-Right memory s value cache path good missing =
      let r = plain value (find_entry towlower T C s path) in
      let same : store_result towlower T C memory cache path r
          ≡ record { answer = r; cache = if memory then C.kh_put path r cache else cache } =
        rw (missing, store_result) in
      let kept = put-Good s value cache path good in
      subst (Right s value path) (sym same) (
        refl,
        elim memory as (λ m. Good s value (if m then C.kh_put path r cache else cache)) [
          | true ↦ kept
          | false ↦ good
        ],
      )

  pub uncached :
      (memory : Bool) (generation : ℕ) (cache : C.Table) (path : Wide) (value : ℕ → Option Wide)
      (found : Option (Option ℕ))
      → (generation == 0) ≡ true
      → through_cache towlower T C memory generation cache path value found
        ≡ record { answer = plain value found; cache = cache }
  unfolding through_cache
  uncached memory generation cache path value none off = rw (off, through_cache)
  uncached memory generation cache path value (some place) off = rw (off, through_cache)

  pub through_cache-Right :
      (memory : Bool) (generation : ℕ) (s : State towlower T) (value : ℕ → Option Wide)
      (cache : C.Table) (path : Wide)
      → Good s value cache
      → Right s value path (
          through_cache towlower T C memory generation cache path value
            (find_entry towlower T C s path))
  unfolding through_cache Right
  through_cache-Right memory generation s value cache path good =
      let found = find_entry towlower T C s path in
      let run = through_cache towlower T C memory generation cache path value found in
      elim (Bool-cases (generation == 0)) [
        | inl off ↦
            let same : run ≡ record { answer = plain value found; cache = cache } =
              uncached memory generation cache path value found off in
            subst (Right s value path) (sym same) (refl, good)
        | inr on ↦ elim (Option-cases (C.kh_get path cache)) [
          | inr (old, hit) ↦
              let same : run ≡ record { answer = old; cache = cache } =
                rw (on, through_cache) (rw hit) in
              subst (Right s value path) (sym same) (sym (good path old hit), good)
          | inl missing ↦ elim (Option-cases found) [
            | inl bad ↦
                let same : run ≡ record { answer = none; cache = cache } =
                  rw (on, through_cache) (rw missing (rw bad)) in
                subst (Right s value path) (sym same) (ap (plain value) (sym bad), good)
            | inr (place, there) ↦
                let same : run ≡ store_result towlower T C memory cache path (plain value found) =
                  rw (on, through_cache) (rw missing (rw there (rw on))) in
                subst (Right s value path) (sym same)
                  (store_result-Right memory s value cache path good missing)
          ]
        ]
      ]
