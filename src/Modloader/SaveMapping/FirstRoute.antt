-- ===== src/Modloader/SaveMapping/FirstRoute.antt =====
-- src/modloader/vfs.c: what the table of written paths answers while it is empty, and behind the first
-- path that is registered there.
use yafsml.Prelude.{
  ℕ, ◌≡◌, refl, ap, Bool, true, false, not, ◌||◌, Option, none, some, [], ◌∷◌, ◌++◌, ◌==◌,
  if◌then◌else◌, length, inl, inr, ◌⊎◌, arith, if_lem,
}
use yafsml.Common.Path.{Wide}
use yafsml.Modloader.Vfs.Table.{HashTable}
use yafsml.Modloader.Vfs.Normalize.{vfs_normalize_path}
use yafsml.Modloader.Vfs.Writable
use yafsml.Modloader.Vfs.Writable.{
  Writable, WritableEntry, find_writable, vfs_writable_segment_may_match, route_fresh,
  vfs_register_writable_path, vfs_route_writable_path,
}
use yafsml.Modloader.SaveMapping.Keeps.{option_lem}

module _ (towlower : ℕ → ℕ) (ordinal_equal : Wide → Wide → Bool) (C : HashTable (Option Wide)) where
  -- The table of one registered path.
  abbrev pub only : Wide → Wide → Writable towlower ordinal_equal C
  only key path = record { entries = record { key = key; path = path } ∷ []; cache = C.empty }

  -- Routes register nothing.
  pub route-entries :
      (copied memory : Bool) (depth : ℕ) (w : Writable towlower ordinal_equal C) (path : Wide)
      → (vfs_route_writable_path towlower ordinal_equal C copied memory depth w path).state.entries
        ≡ w.entries
  unfolding vfs_route_writable_path
  route-entries copied memory depth w path =
      let Same = λ (a : Writable.Answer towlower ordinal_equal C (Option Wide)).
        a.state.entries ≡ w.entries in
      if_lem Same (not (depth == 0) || length w.entries == 0) _ _ (λ e. refl)
        (λ e.
          option_lem Same (C.kh_get path w.cache) _ _
            (λ missing.
              if_lem Same (vfs_writable_segment_may_match ordinal_equal w.entries path) _ _
                (λ e.
                  if_lem Same copied _ _
                    (λ e.
                      option_lem Same (vfs_normalize_path towlower path) _ _ (λ bad. refl)
                        (λ key. refl))
                    (λ e. refl))
                (λ e. refl))
            (λ old. refl))

  pub route-empty :
      (copied memory : Bool) (depth : ℕ) (w : Writable towlower ordinal_equal C) (path : Wide)
      → w.entries ≡ []
      → (vfs_route_writable_path towlower ordinal_equal C copied memory depth w path).answer ≡ none
  unfolding vfs_route_writable_path
  route-empty copied memory depth w path e =
      if_lem (λ (a : Writable.Answer towlower ordinal_equal C (Option Wide)). a.answer ≡ none)
        (not (depth == 0) || length w.entries == 0) _ _ (λ e'. refl)
        (λ e'. let none_there = ap length e in absurd (ground arith))

  pub route-only :
      (copied memory : Bool) (depth : ℕ) (key target path : Wide)
      → ((vfs_route_writable_path towlower ordinal_equal C copied memory depth
            (only key target)
            path).answer
          ≡ none)
        ⊎ ((vfs_route_writable_path towlower ordinal_equal C copied memory depth
              (only key target)
              path).answer
            ≡ some target)
  unfolding vfs_route_writable_path find_writable
  route-only copied memory depth key target path =
      let One = λ (a : Writable.Answer towlower ordinal_equal C (Option Wide)).
        (a.answer ≡ none) ⊎ (a.answer ≡ some target) in
      rw (C.get_empty path) (
        if_lem One (not (depth == 0) || false) _ _ (λ e. inl refl)
          (λ e.
            if_lem One (vfs_writable_segment_may_match ordinal_equal (only key target).entries path)
              _ _
              (λ e.
                if_lem One copied _ _
                  (λ e.
                    option_lem One (vfs_normalize_path towlower path) _ _ (λ bad. inl refl)
                      (λ key'.
                        if_lem (λ (o : Option Wide). (o ≡ none) ⊎ (o ≡ some target)) _ _ _
                          (λ e. inr refl) (λ e. inl refl)))
                  (λ e. inl refl))
              (λ e. inl refl)))

  -- A registration in the empty table leaves it, or the path alone in it.
  pub register-only :
      (memory : Bool) (w : Writable towlower ordinal_equal C) (path target : Wide)
      → w.entries ≡ []
      → ((vfs_register_writable_path towlower ordinal_equal C memory w path target).state ≡ w)
        ⊎ ((key : Wide) × ((vfs_register_writable_path towlower ordinal_equal C memory w path
                target).state
              ≡ only key target))
  unfolding vfs_register_writable_path find_writable
  register-only memory w path target e =
      if_lem Either (length target == 0) _ _ (λ e'. inl refl)
        (λ e'. registered (vfs_normalize_path towlower path))
    where
      Either : Writable.Answer towlower ordinal_equal C Bool → Type 0
      Either a = (a.state ≡ w) ⊎ ((key : Wide) × (a.state ≡ only key target))

      registered :
          (n : Option Wide)
          → Either (elim n as (λ x. Writable.Answer towlower ordinal_equal C Bool) [
            | none ↦ record { answer = false; state = w }
            | some [] ↦ record { answer = false; state = w }
            | some (c ∷ cs) ↦ elim (find_writable w.entries (c ∷ cs)) [
              | some old ↦ record { answer = ordinal_equal target old; state = w }
              | none ↦
                  if memory
                  then record {
                    answer = true;
                    state = record {
                      entries = w.entries ++ (record { key = c ∷ cs; path = target } ∷ []);
                      cache = C.empty;
                    };
                  }
                  else record { answer = false; state = w }
            ]
          ])
      registered none = inl refl
      registered (some []) = inl refl
      registered (some (c ∷ cs)) =
          option_lem Either (find_writable w.entries (c ∷ cs)) _ _
            (λ missing.
              if_lem Either memory _ _
                (λ e'. inr (
                  c ∷ cs,
                  ap
                      (λ es. record {
                        entries = es ++ (record { key = c ∷ cs; path = target } ∷ []);
                        cache = C.empty;
                      })
                      e,
                ))
                (λ e'. inl refl))
            (λ old. inl refl)
