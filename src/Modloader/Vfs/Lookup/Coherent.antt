-- ===== src/Modloader/Vfs/Lookup/Coherent.antt =====
-- The caches of the lookups never answer anything but the index.
use yafsml.Prelude.{
  ℕ, ◌+◌, ◌<◌, ◌≡◌, ap, sym, ◌∙◌, Bool, true, false, Option, none, some, leb, ◌==◌, if◌then◌else◌,
  arith, Bool-cases, Option-cases, inl, inr, subst,
}
use yafsml.Common.Path.{Wide}
use yafsml.Modloader.Vfs.Table.{HashTable}
use yafsml.Modloader.Vfs.Index.{State}
use yafsml.Modloader.Vfs.Uid.{vfs_uid_to_path}
use yafsml.Modloader.Vfs.Lookup.{
  Vfs, Looked, Cached, find_entry, read_path_at, uid_at, through_cache, vfs_lookup_domain,
  vfs_virtual_to_uid, vfs_begin_lookup_reset, vfs_reset_lookup_caches, domain_count,
}
use yafsml.Modloader.Vfs.Lookup.Caches.{plain, Good, Empty, Right, through_cache-Right}
use yafsml.Modloader.Vfs.Lookup.Reachable.{
  Coherent, Reachable, add-Coherent, added, cleared-Coherent, init-Coherent, kept-Empty, looked_up,
  reset, reset_begun, started, uid_looked_up,
}

module _ (towlower : ℕ → ℕ) (T : HashTable ℕ) (C : HashTable (Option Wide)) where
  -- What a lookup puts into the cache of a domain.
  abbrev looked : Bool → Vfs towlower T C → Wide → ℕ → Cached towlower T C
  looked memory v path domain =
      through_cache towlower T C memory v.generation (v.lookup_caches domain) path
        (read_path_at towlower T C v.files) (find_entry towlower T C v.files path)

  abbrev with_cache : Vfs towlower T C → ℕ → C.Table → Vfs towlower T C
  with_cache v domain cache = record v {
    lookup_caches = λ d. if d == domain then cache else v.lookup_caches d;
  }

  with_cache-Coherent :
      (v : Vfs towlower T C) (domain : ℕ) (cache : C.Table)
      → Coherent towlower T C v
      → Good towlower T C v.files (read_path_at towlower T C v.files) cache
      → (v.frozen ≡ false → Empty towlower T C cache)
      → Coherent towlower T C (with_cache v domain cache)
  unfolding Coherent
  with_cache-Coherent v domain cache (g, u, e) good empty = (
    (λ d.
        elim (d == domain)
          as (λ b.
            Good towlower T C v.files (read_path_at towlower T C v.files)
              (if b then cache else v.lookup_caches d)) [ true ↦ good | false ↦ g d ]),
    u,
    λ h.
        (let (z, a, b) = e h in
          (
            z,
            (λ d.
                elim (d == domain)
                  as (λ t. Empty towlower T C (if t then cache else v.lookup_caches d)) [
                    | true ↦ empty h
                    | false ↦ a d
                  ]),
            b,
          )),
  )

  lookup_of_uid :
      (v : Vfs towlower T C) (memory : Bool) (path : Wide) (domain : ℕ) (routed : Wide)
      → leb domain_count domain ≡ false
      → vfs_uid_to_path v.files.entries path ≡ some routed
      → vfs_lookup_domain towlower T C memory v path domain
        ≡ record { answer = some routed; vfs = v }
  unfolding vfs_lookup_domain
  lookup_of_uid v memory path domain routed good e = rw (good, vfs_lookup_domain) (rw e)

  lookup_of_path :
      (v : Vfs towlower T C) (memory : Bool) (path : Wide) (domain : ℕ)
      → leb domain_count domain ≡ false
      → vfs_uid_to_path v.files.entries path ≡ none
      → vfs_lookup_domain towlower T C memory v path domain ≡ record {
        answer = (looked memory v path domain).answer;
        vfs = with_cache v domain (looked memory v path domain).cache;
      }
  unfolding vfs_lookup_domain
  lookup_of_path v memory path domain good e = rw (good, vfs_lookup_domain) (rw e)

  lookup_of_no_domain :
      (v : Vfs towlower T C) (memory : Bool) (path : Wide) (domain : ℕ)
      → leb domain_count domain ≡ true
      → vfs_lookup_domain towlower T C memory v path domain ≡ record { answer = none; vfs = v }
  unfolding vfs_lookup_domain
  lookup_of_no_domain v memory path domain bad = rw (bad, vfs_lookup_domain)

  looked-Right :
      (v : Vfs towlower T C) (memory : Bool) (path : Wide) (domain : ℕ)
      → Coherent towlower T C v
      → Right towlower T C v.files
          (read_path_at towlower T C v.files)
          path
          (looked memory v path domain)
  unfolding Coherent
  looked-Right v memory path domain (g, u, e) =
      through_cache-Right towlower T C memory v.generation v.files
        (read_path_at towlower T C v.files) (v.lookup_caches domain) path (g domain)

  abbrev state_of : Looked towlower T C → Vfs towlower T C
  state_of l = l.vfs

  lookup-Coherent :
      (v : Vfs towlower T C) (memory : Bool) (path : Wide) (domain : ℕ)
      → Coherent towlower T C v
      → Coherent towlower T C (vfs_lookup_domain towlower T C memory v path domain).vfs
  unfolding Coherent Right
  lookup-Coherent v memory path domain h = elim (Bool-cases (leb domain_count domain)) [
    | inl bad ↦
        subst (λ l. Coherent towlower T C (state_of l))
          (sym (lookup_of_no_domain v memory path domain bad)) h
    | inr good ↦ elim (Option-cases (vfs_uid_to_path v.files.entries path)) [
      | inr (routed, e) ↦
          subst (λ l. Coherent towlower T C (state_of l))
            (sym (lookup_of_uid v memory path domain routed good e)) h
      | inl e ↦
          subst (λ l. Coherent towlower T C (state_of l))
            (sym (lookup_of_path v memory path domain good e))
            (with_cache-Coherent v domain (looked memory v path domain).cache h
              (looked-Right v memory path domain h).1
              (λ open_now.
                let (z, a, b) = h.2 open_now in
                kept-Empty towlower T C memory v.generation (v.lookup_caches domain) path
                  (read_path_at towlower T C v.files) (find_entry towlower T C v.files path) z
                  (a domain)))
    ]
  ]

  uid-Coherent :
      (v : Vfs towlower T C) (memory : Bool) (path : Wide)
      → Coherent towlower T C v
      → Coherent towlower T C (vfs_virtual_to_uid towlower T C memory v path).vfs
  unfolding Coherent Right vfs_virtual_to_uid
  uid-Coherent v memory path (g, u, e) = (
    g,
    (through_cache-Right towlower T C memory v.generation v.files (uid_at towlower T C v.files)
        v.uid_cache path u).1,
    λ h.
        (let (z, a, b) = e h in
          (
            z,
            a,
            kept-Empty towlower T C memory v.generation v.uid_cache path
                (uid_at towlower T C v.files) (find_entry towlower T C v.files path) z b,
          )),
  )

  Reachable-Coherent : {v : Vfs towlower T C} → Reachable towlower T C v → Coherent towlower T C v
  unfolding vfs_begin_lookup_reset vfs_reset_lookup_caches
  Reachable-Coherent started = init-Coherent towlower T C
  Reachable-Coherent (added {v = v} r arrays memory files) =
      add-Coherent towlower T C v arrays memory files (Reachable-Coherent r)
  Reachable-Coherent (looked_up {v = v} r memory path domain) =
      lookup-Coherent v memory path domain (Reachable-Coherent r)
  Reachable-Coherent (uid_looked_up {v = v} r memory path) =
      uid-Coherent v memory path (Reachable-Coherent r)
  Reachable-Coherent (reset_begun {v = v} r) =
      cleared-Coherent towlower T C v 0 v.generation_sequence
  Reachable-Coherent (reset {v = v} r) =
      cleared-Coherent towlower T C v (v.generation_sequence + 1) (v.generation_sequence + 1)

  -- What the entries alone say: a UID names its entry, another path is looked for in the index.
  pub index_answer : State towlower T → Wide → Option Wide
  index_answer s path = elim (vfs_uid_to_path s.entries path) [
    | some routed ↦ some routed
    | none ↦ plain towlower T C (read_path_at towlower T C s) (find_entry towlower T C s path)
  ]

  -- In every state that packages, lookups and resets of the caches lead to, a lookup in any
  -- domain answers what the index alone says of the path, a UID naming its entry, and so does the
  -- lookup of a UID: no cache answers for an index of before.
  pub vfs_lookup_domain-index_answer :
      (v : Vfs towlower T C) (memory : Bool) (path : Wide) (domain : ℕ)
      → Reachable towlower T C v
      → domain < domain_count
      → ((vfs_lookup_domain towlower T C memory v path domain).answer ≡ index_answer v.files path)
        × ((vfs_virtual_to_uid towlower T C memory v path).answer
            ≡ plain towlower T C
                (uid_at towlower T C v.files)
                (find_entry towlower T C v.files path))
  unfolding index_answer Right Coherent vfs_virtual_to_uid
  vfs_lookup_domain-index_answer v memory path domain r below =
      let h = Reachable-Coherent r in
      let good : leb domain_count domain ≡ false = ground arith in
      (
        (elim (Option-cases (vfs_uid_to_path v.files.entries path)) [
          | inr (routed, e) ↦
              ap (λ (l : Looked towlower T C). l.answer)
                (lookup_of_uid v memory path domain routed good e)
              ∙ rw (e, index_answer)
          | inl e ↦
              ap (λ (l : Looked towlower T C). l.answer)
                (lookup_of_path v memory path domain good e)
              ∙ (looked-Right v memory path domain h).0
              ∙ rw (e, index_answer)
        ]),
        (through_cache-Right towlower T C memory v.generation v.files (uid_at towlower T C v.files)
            v.uid_cache path h.1).0,
      )
