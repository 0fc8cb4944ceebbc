-- ===== src/Modloader/Vfs/Lookup.antt =====
-- src/modloader/vfs.c: the lookups, their caches and the resets of the caches. Each call runs alone; what
-- happens under one lock is a function of its own.
pub mod Caches
pub mod Reachable
pub mod Coherent
use yafsml.Prelude.{
  ℕ, zero, suc, ◌+◌, ◌≡◌, Bool, true, false, not, ◌&&◌, ◌||◌, Option, none, some, List, [], ◌∷◌,
  ltb, leb, ◌==◌, if◌then◌else◌, get_elem?, bit_and,
}
use yafsml.Common.Path.{Wide}
use yafsml.Modloader.Vfs.Table.{HashTable}
use yafsml.Modloader.Vfs.Normalize.{vfs_normalize_path, vfs_strip_path_prefix}
use yafsml.Modloader.Vfs.Index.{State, Entry, File, Memory, vfs_insert_package}
use yafsml.Modloader.Vfs.Uid.{vfs_uid_to_path, vfs_entry_read_path, uid_of}

-- VFS_LOOKUP_DOMAIN_COUNT; a domain is its number, from VFS_LOOKUP_VIRTUAL = 0 on.
abbrev pub domain_count : ℕ
domain_count = 4

abbrev pub disk_wide : ℕ
disk_wide = 1

module _ (towlower : ℕ → ℕ) (T : HashTable ℕ) (C : HashTable (Option Wide)) where
  pub record Vfs : Type 0 where
    pub files : State towlower T
    pub frozen : Bool
    pub generation : ℕ
    pub generation_sequence : ℕ
    pub lookup_caches : ℕ → C.Table
    pub uid_cache : C.Table

  pub record Looked : Type 0 where
    pub answer : Option Wide
    pub vfs : Vfs

  -- What a lookup stores in a cache.
  pub record Cached : Type 0 where
    pub answer : Option Wide
    pub cache : C.Table

  unfoldable pub vfs_init : Vfs
  vfs_init = record {
    files = record { index = T.empty; entries = [] };
    frozen = false;
    generation = 0;
    generation_sequence = 0;
    lookup_caches = λ domain. C.empty;
    uid_cache = C.empty;
  }

  -- The entry of a path; `none` outside is a path that cannot be normalized.
  unfoldable pub find_entry : State towlower T → Wide → Option (Option ℕ)
  unfolding vfs_normalize_path
  find_entry s path = elim (vfs_normalize_path towlower path) [
    | none ↦ none
    | some key ↦ some (T.kh_get key s.index)
  ]

  abbrev pub read_path_at : State towlower T → ℕ → Option Wide
  read_path_at s place = elim (get_elem? s.entries place) [
    | none ↦ none
    | some e ↦ vfs_entry_read_path place e
  ]

  abbrev pub uid_at : State towlower T → ℕ → Option Wide
  uid_at s place = some (uid_of place)

  -- The second part of a lookup: the answer, and its place in the cache. `memory` is whether the key
  -- can be copied and put.
  abbrev pub store_result : Bool → C.Table → Wide → Option Wide → Cached
  store_result memory cache path result = elim (C.kh_get path cache) [
    | some old ↦ record { answer = old; cache = cache }
    | none ↦ record {
      answer = result;
      cache = if memory then C.kh_put path result cache else cache;
    }
  ]

  abbrev pub result_of : (ℕ → Option Wide) → Option ℕ → Option Wide
  result_of value none = none
  result_of value (some place) = value place

  -- A lookup through a cache, which generation 0 leaves aside.
  unfoldable pub through_cache :
      Bool → ℕ → C.Table → Wide → (ℕ → Option Wide) → Option (Option ℕ) → Cached
  through_cache memory generation cache path value found =
      let fresh = elim found as (λ x. Cached) [
        | none ↦ record { answer = none; cache = cache }
        | some place ↦
            if generation == 0
            then record { answer = result_of value place; cache = cache }
            else store_result memory cache path (result_of value place)
      ] in
      let cached = elim (C.kh_get path cache) as (λ x. Cached) [
        | some old ↦ record { answer = old; cache = cache }
        | none ↦ fresh
      ] in
      if generation == 0 then fresh else cached

  unfoldable pub vfs_lookup_domain : Bool → Vfs → Wide → ℕ → Looked
  unfolding through_cache find_entry vfs_uid_to_path uid_of
  vfs_lookup_domain memory v path domain =
      let c =
        through_cache memory v.generation (v.lookup_caches domain) path (read_path_at v.files)
          (find_entry v.files path) in
      let looked = elim (vfs_uid_to_path v.files.entries path) as (λ x. Looked) [
        | some routed ↦ record { answer = some routed; vfs = v }
        | none ↦ record {
          answer = c.answer;
          vfs = record v {
            lookup_caches = λ d. if d == domain then c.cache else v.lookup_caches d;
          };
        }
      ] in
      if leb domain_count domain then record { answer = none; vfs = v } else looked

  unfoldable pub vfs_lookup : Bool → Vfs → Wide → Looked
  unfolding vfs_lookup_domain
  vfs_lookup memory v path = vfs_lookup_domain memory v path 0

  unfoldable pub vfs_virtual_to_uid : Bool → Vfs → Wide → Looked
  unfolding through_cache find_entry uid_of
  vfs_virtual_to_uid memory v path =
      let c =
        through_cache memory v.generation v.uid_cache path (uid_at v.files)
          (find_entry v.files path) in
      record { answer = c.answer; vfs = record v { uid_cache = c.cache } }

  abbrev pub clear_lookup_cache_locked : Vfs → Vfs
  clear_lookup_cache_locked v = record v { lookup_caches = λ domain. C.empty; uid_cache = C.empty }

  unfoldable pub vfs_begin_lookup_reset : Vfs → Vfs
  vfs_begin_lookup_reset v = record (clear_lookup_cache_locked v) { frozen = true; generation = 0 }

  unfoldable pub vfs_reset_lookup_caches : Vfs → Vfs
  vfs_reset_lookup_caches v = record (clear_lookup_cache_locked v) {
    frozen = true;
    generation_sequence = v.generation_sequence + 1;
    generation = v.generation_sequence + 1;
  }

  -- `vfs_add_package`, once the files of the package are known: nothing is added to a frozen index.
  unfoldable pub vfs_add_package : Bool → (ℕ → Memory) → Vfs → List File → Bool × Vfs
  unfolding vfs_insert_package
  vfs_add_package arrays memory v files =
      let (good, files') = vfs_insert_package towlower T arrays memory v.files files in
      if v.frozen then (false, v) else (good, record v { files = files' })

  -- GENERIC_WRITE | DELETE
  abbrev pub write_access : ℕ
  write_access = 0x40010000

  -- CREATE_NEW, CREATE_ALWAYS, TRUNCATE_EXISTING
  abbrev pub creates : ℕ → Bool
  creates disposition = disposition == 1 || disposition == 2 || disposition == 5

  unfoldable pub vfs_route_read_path : Bool → ℕ → Vfs → Wide → ℕ → ℕ → Looked
  unfolding vfs_lookup_domain
  vfs_route_read_path memory depth v path desired_access disposition =
      let looked = vfs_lookup_domain memory v path disk_wide in
      if not (depth == 0)
      then record { answer = none; vfs = v }
      else if not (bit_and desired_access write_access == 0) || creates disposition
      then record { answer = none; vfs = v }
      else looked

  unfoldable pub vfs_route_read_path_prefixed :
      (ℕ → ℕ → Bool) → Bool → ℕ → Vfs → Wide → Wide → ℕ → ℕ → Looked
  unfolding vfs_route_read_path vfs_strip_path_prefix
  vfs_route_read_path_prefixed ordinal memory depth v path root desired_access disposition =
      elim (vfs_strip_path_prefix ordinal (some path) (some root)) [
        | none ↦ record { answer = none; vfs = v }
        | some relative ↦ vfs_route_read_path memory depth v relative desired_access disposition
      ]

  unfoldable pub vfs_virtual_to_uid_prefixed : (ℕ → ℕ → Bool) → Bool → Vfs → Wide → Wide → Looked
  unfolding vfs_virtual_to_uid vfs_strip_path_prefix
  vfs_virtual_to_uid_prefixed ordinal memory v path root =
      elim (vfs_strip_path_prefix ordinal (some path) (some root)) [
        | none ↦ record { answer = none; vfs = v }
        | some relative ↦ vfs_virtual_to_uid memory v relative
      ]

  unfoldable pub vfs_lookup_prefixed_domain : (ℕ → ℕ → Bool) → Bool → Vfs → Wide → Wide → ℕ → Looked
  unfolding vfs_lookup_domain vfs_strip_path_prefix
  vfs_lookup_prefixed_domain ordinal memory v path root domain =
      elim (vfs_strip_path_prefix ordinal (some path) (some root)) [
        | none ↦ record { answer = none; vfs = v }
        | some relative ↦ vfs_lookup_domain memory v relative domain
      ]
