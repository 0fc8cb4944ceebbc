-- ===== src/Modloader/Vfs/Writable.antt =====
-- src/modloader/vfs.c: the paths that are written elsewhere. `ordinal_equal` is CompareStringOrdinal on
-- whole strings, without regard to case.
use yafsml.Prelude.{
  ℕ, Bool, true, false, not, ◌&&◌, ◌||◌, Option, none, some, List, [], ◌∷◌, ◌++◌, ◌==◌,
  if◌then◌else◌, length,
}
use yafsml.Common.Path.{Wide}
use yafsml.Modloader.Vfs.Table.{HashTable}
use yafsml.Modloader.Vfs.Normalize.{vfs_normalize_path, vfs_last_segment}

pub record WritableEntry : Type 0 where
  pub key : Wide
  pub path : Wide

unfoldable pub wide_equal : Wide → Wide → Bool
wide_equal [] [] = true
wide_equal [] (d ∷ ds) = false
wide_equal (c ∷ cs) [] = false
wide_equal (c ∷ cs) (d ∷ ds) = c == d && wide_equal cs ds

unfoldable pub find_writable : List WritableEntry → Wide → Option Wide
unfolding wide_equal
find_writable [] key = none
find_writable (w ∷ ws) key =
    let more = find_writable ws key in if wide_equal key w.key then some w.path else more

unfoldable pub segment_matches : (Wide → Wide → Bool) → Wide → List WritableEntry → Bool
unfolding vfs_last_segment
segment_matches ordinal_equal segment [] = false
segment_matches ordinal_equal segment (w ∷ ws) =
    let more = segment_matches ordinal_equal segment ws in
    elim (vfs_last_segment w.key) [
      | none ↦ true
      | some key_segment ↦ if ordinal_equal segment key_segment then true else more
    ]

unfoldable pub vfs_writable_segment_may_match :
    (Wide → Wide → Bool) → List WritableEntry → Wide → Bool
unfolding segment_matches vfs_last_segment
vfs_writable_segment_may_match ordinal_equal ws path = elim (vfs_last_segment path) [
  | none ↦ true
  | some segment ↦ segment_matches ordinal_equal segment ws
]

module _ (towlower : ℕ → ℕ) (ordinal_equal : Wide → Wide → Bool) (C : HashTable (Option Wide)) where
  pub record Writable : Type 0 where
    pub entries : List WritableEntry
    pub cache : C.Table

  pub record Answer (A : Type 0) : Type 0 where
    pub answer : A
    pub state : Writable

  -- A key that is registered again must have the same path. `memory` is for the copy of the path and
  -- for the array.
  unfoldable pub vfs_register_writable_path : Bool → Writable → Wide → Wide → Answer Bool
  unfolding vfs_normalize_path find_writable
  vfs_register_writable_path memory w virtual_path physical_path =
      let registered = elim (vfs_normalize_path towlower virtual_path) as (λ x. Answer Bool) [
        | none ↦ record { answer = false; state = w }
        | some [] ↦ record { answer = false; state = w }
        | some (c ∷ cs) ↦ elim (find_writable w.entries (c ∷ cs)) [
          | some old ↦ record { answer = ordinal_equal physical_path old; state = w }
          | none ↦
              if memory
              then record {
                answer = true;
                state = record {
                  entries = w.entries ++ (record { key = c ∷ cs; path = physical_path } ∷ []);
                  cache = C.empty;
                };
              }
              else record { answer = false; state = w }
        ]
      ] in
      if length physical_path == 0 then record { answer = false; state = w } else registered

  -- From the miss in the cache on.
  abbrev pub route_fresh : Bool → Writable → Wide → Answer (Option Wide)
  route_fresh memory w path = elim (vfs_normalize_path towlower path) [
    | none ↦ record { answer = none; state = w }
    | some key ↦
        let found = find_writable w.entries key in
        record {
          answer = found;
          state = record w { cache = if memory then C.kh_put path found w.cache else w.cache };
        }
  ]

  -- `copied` is whether the path can be copied for the cache; without it there is no answer.
  unfoldable pub vfs_route_writable_path : Bool → Bool → ℕ → Writable → Wide → Answer (Option Wide)
  unfolding vfs_writable_segment_may_match vfs_normalize_path find_writable
  vfs_route_writable_path copied memory depth w path =
      let nothing : Answer (Option Wide) = record { answer = none; state = w } in
      let fresh = if copied then route_fresh memory w path else nothing in
      let routed = elim (C.kh_get path w.cache) as (λ x. Answer (Option Wide)) [
        | some old ↦ record { answer = old; state = w }
        | none ↦
            if vfs_writable_segment_may_match ordinal_equal w.entries path then fresh else nothing
      ] in
      if not (depth == 0) || length w.entries == 0 then nothing else routed
