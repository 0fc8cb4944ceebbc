-- ===== src/Modloader/Vfs/Lookup/Reachable.antt =====
-- The states that the lookups come to, and what their caches hold: no more than the index answers.
use yafsml.Prelude.{
  ℕ, ◌≡◌, refl, ap, sym, ◌∙◌, Bool, true, false, Option, List, [], arith, Bool-cases, inl, inr,
  subst,
}
use yafsml.Common.Path.{Wide}
use yafsml.Modloader.Vfs.Table.{HashTable}
use yafsml.Modloader.Vfs.Index.{State, File, Memory, vfs_insert_package}
use yafsml.Modloader.Vfs.Lookup.{
  Vfs, Cached, read_path_at, uid_at, through_cache, vfs_lookup_domain, vfs_virtual_to_uid, vfs_init,
  vfs_begin_lookup_reset, vfs_reset_lookup_caches, vfs_add_package,
}
use yafsml.Modloader.Vfs.Lookup.Caches.{Good, Empty, Empty-Good, uncached}

module _ (towlower : ℕ → ℕ) (T : HashTable ℕ) (C : HashTable (Option Wide)) where
  -- What holds of the state in between the calls.
  unfoldable pub Coherent : Vfs towlower T C → Type 0
  Coherent v =
      ((domain : ℕ)
        → Good towlower T C v.files (read_path_at towlower T C v.files) (v.lookup_caches domain))
      × Good towlower T C v.files (uid_at towlower T C v.files) v.uid_cache
      × (v.frozen ≡ false
          → (v.generation ≡ 0)
            × ((domain : ℕ) → Empty towlower T C (v.lookup_caches domain))
            × Empty towlower T C v.uid_cache)

  -- The states that the calls lead to.
  pub data Reachable : Vfs towlower T C → Type 0 where
    started : Reachable (vfs_init towlower T C)
    added :
        {v : Vfs towlower T C}
        → Reachable v
        → (arrays : Bool) (memory : ℕ → Memory) (files : List File)
        → Reachable (vfs_add_package towlower T C arrays memory v files).1
    looked_up :
        {v : Vfs towlower T C}
        → Reachable v
        → (memory : Bool) (path : Wide) (domain : ℕ)
        → Reachable (vfs_lookup_domain towlower T C memory v path domain).vfs
    uid_looked_up :
        {v : Vfs towlower T C}
        → Reachable v
        → (memory : Bool) (path : Wide)
        → Reachable (vfs_virtual_to_uid towlower T C memory v path).vfs
    reset_begun :
        {v : Vfs towlower T C} → Reachable v → Reachable (vfs_begin_lookup_reset towlower T C v)
    reset :
        {v : Vfs towlower T C} → Reachable v → Reachable (vfs_reset_lookup_caches towlower T C v)

  -- Cleared caches are coherent with a frozen index.
  pub cleared-Coherent :
      (v : Vfs towlower T C) (generation sequence : ℕ)
      → Coherent (record v {
        frozen = true;
        generation = generation;
        generation_sequence = sequence;
        lookup_caches = λ domain. C.empty;
        uid_cache = C.empty;
      })
  unfolding Coherent
  cleared-Coherent v generation sequence = (
    (λ domain.
        Empty-Good towlower T C v.files (read_path_at towlower T C v.files) C.empty C.get_empty),
    Empty-Good towlower T C v.files (uid_at towlower T C v.files) C.empty C.get_empty,
    λ open_now. absurd (ground (arith, open_now)),
  )

  pub init-Coherent : Coherent (vfs_init towlower T C)
  unfolding Coherent vfs_init
  init-Coherent =
      let s : State towlower T = record { index = T.empty; entries = [] } in
      (
        (λ domain. Empty-Good towlower T C s (read_path_at towlower T C s) C.empty C.get_empty),
        Empty-Good towlower T C s (uid_at towlower T C s) C.empty C.get_empty,
        λ h. (refl, (λ domain. C.get_empty), C.get_empty),
      )

  -- Empty caches are coherent with any index.
  emptied-Coherent :
      (v : Vfs towlower T C) (s : State towlower T)
      → v.generation ≡ 0
      → ((domain : ℕ) → Empty towlower T C (v.lookup_caches domain))
      → Empty towlower T C v.uid_cache
      → Coherent (record v { files = s })
  unfolding Coherent
  emptied-Coherent v s z a b = (
    (λ domain.
        Empty-Good towlower T C s (read_path_at towlower T C s) (v.lookup_caches domain)
          (a domain)),
    Empty-Good towlower T C s (uid_at towlower T C s) v.uid_cache b,
    λ h. (z, a, b),
  )

  pub add-Coherent :
      (v : Vfs towlower T C) (arrays : Bool) (memory : ℕ → Memory) (files : List File)
      → Coherent v
      → Coherent (vfs_add_package towlower T C arrays memory v files).1
  unfolding Coherent vfs_add_package
  add-Coherent v arrays memory files h = elim (Bool-cases v.frozen) [
    | inl closed ↦
        let same : (vfs_add_package towlower T C arrays memory v files).1 ≡ v =
          rw (closed, vfs_add_package) in
        subst Coherent (sym same) h
    | inr open_now ↦
        let (z, a, b) = h.2 open_now in
        let s = (vfs_insert_package towlower T arrays memory v.files files).1 in
        let same : (vfs_add_package towlower T C arrays memory v files).1 ≡ record v { files = s } =
          rw (open_now, vfs_add_package) in
        subst Coherent (sym same) (emptied-Coherent v s z a b)
  ]

  -- A cache that a lookup leaves is empty while generation is 0 and it was empty.
  pub kept-Empty :
      (memory : Bool) (generation : ℕ) (cache : C.Table) (path : Wide) (value : ℕ → Option Wide)
      (found : Option (Option ℕ))
      → generation ≡ 0
      → Empty towlower T C cache
      → Empty towlower T C
          (through_cache towlower T C memory generation cache path value found).cache
  kept-Empty memory generation cache path value found z e path' =
      ap (λ (c : Cached towlower T C). C.kh_get path' c.cache)
        (uncached towlower T C memory generation cache path value found (ground (arith, z)))
      ∙ e path'
