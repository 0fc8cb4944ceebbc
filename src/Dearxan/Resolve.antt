-- ===== src/Dearxan/Resolve.antt =====
-- src/dearxan/encryption.c: dearxan_resolve_encrypted_region_lists chooses among the lists of encrypted
-- regions of an image those that belong to it.
pub mod Apart
pub mod Overlaps
pub mod Eliminated
pub mod Copies
pub mod Moved
pub mod Cloned
pub mod Picked
pub mod Kept
pub mod Chosen
use yafsml.Prelude.{
  ℕ, zero, suc, ◌+◌, ◌-◌, ◌*◌, ◌/◌, ◌%◌, ◌^◌, Bool, true, false, not, ◌&&◌, ◌||◌, Option, none,
  some, List, [], ◌∷◌, ◌++◌, Bytes, map, ltb, leb, ◌==◌, if◌then◌else◌, length, get_elem?, set,
  take, drop, replicate, Run, done, ◌>>=◌,
}
use Prim.Native.Nat.{Ordering, lt, eq, gt, compare}
use yafsml.Dearxan.Encryption.{EncryptedRegion, size_max, regions_intersect}
use yafsml.Dearxan.Image.{Image, dearxan_image_read}
use yafsml.Dearxan.ImageTables.{Called, dearxan_image_for_each_relocation64}
use yafsml.Dearxan.Vm.Decoded.{word_of, bytes_of}
use yafsml.Dearxan.Vm.Memory.{splice}
use yafsml.Dearxan.Entropy.{Doubles, dearxan_shannon_entropy, image_region_entropy}
use yafsml.Dearxan.RegionLists.{
  EncryptedRegionList, RelocationList, collect_relocation, clone_lists, references, relocate_loop,
  Reference, RegionCopy, references, update,
}

-- Where the walk over the references stands: the last region that is kept, and the flags.
pub record Walk : Type 0 where
  pub best : Reference
  pub eliminated : ℕ → Bool

-- `above` is whether the entropy of the first list is above that of the second one.
unfoldable pub overlap_step : (ℕ → ℕ → Bool) → Walk → Reference → Walk
unfolding regions_intersect
overlap_step above w r =
    if r.list_index == w.best.list_index
    then record w { best = r }
    else if w.eliminated r.list_index
    then w
    else if not (regions_intersect w.best.region r.region)
    then record w { best = r }
    else if above w.best.list_index r.list_index
    then record { best = r; eliminated = update w.eliminated w.best.list_index true }
    else record w { eliminated = update w.eliminated r.list_index true }

unfoldable pub overlap_loop : (ℕ → ℕ → Bool) → Walk → List Reference → ℕ → Bool
unfolding overlap_step
overlap_loop above w [] = w.eliminated
overlap_loop above w (r ∷ refs) = overlap_loop above (overlap_step above w r) refs

-- From the first region of a list that is kept on.
unfoldable pub eliminate_overlaps : (ℕ → ℕ → Bool) → (ℕ → Bool) → List Reference → ℕ → Bool
unfolding overlap_loop
eliminate_overlaps above eliminated [] = eliminated
eliminate_overlaps above eliminated (r ∷ refs) =
    let later = eliminate_overlaps above eliminated refs in
    let walked = overlap_loop above (record { best = r; eliminated = eliminated }) refs in
    if eliminated r.list_index then later else walked

-- The lists that are kept, list `i` first.
unfoldable pub keep_lists : ℕ → (ℕ → Bool) → List RegionCopy → List RegionCopy
keep_lists i eliminated [] = []
keep_lists i eliminated (copy ∷ copies) =
    let rest = keep_lists (suc i) eliminated copies in if eliminated i then rest else copy ∷ rest

-- The outcome, and the lists that are returned.
pub record Resolved : Type 0 where
  pub result : Bool
  pub lists : List RegionCopy

abbrev pub failed : Resolved
failed = record { result = false; lists = [] }

-- `qsort_relocations` and `qsort_references` are qsort, by compare_u32 and by compare_region_references.
module _ (d : Doubles) (memory reserve : ℕ → Bool) (qsort_relocations : List ℕ → List ℕ)
    (qsort_references : List Reference → List Reference) where
  abbrev pub list_entropy : List RegionCopy → ℕ → d.Double
  list_entropy copies i = elim (get_elem? copies i) [
    | none ↦ d.nan
    | some copy ↦ dearxan_shannon_entropy d (some copy.decrypted_stream)
  ]

  -- A list whose stream is no more ordered than the bytes of the image is eliminated.
  unfoldable pub entropy_loop : Image → ℕ → List RegionCopy → (ℕ → Bool) → ℕ → Bool
  unfolding dearxan_shannon_entropy image_region_entropy
  entropy_loop image i [] eliminated = eliminated
  entropy_loop image i (copy ∷ copies) eliminated = entropy_loop image (suc i) copies (
      if eliminated i
      then eliminated
      else update eliminated i (
          d.is_at_least (dearxan_shannon_entropy d (some copy.decrypted_stream))
            (image_region_entropy d image copy.regions)))

  -- The three passes over the copies.
  unfoldable pub choose_lists : Image → List ℕ → List RegionCopy → List RegionCopy
  unfolding references relocate_loop entropy_loop eliminate_overlaps keep_lists
  choose_lists image relocations copies =
      let refs = qsort_references (references 0 copies) in
      let c =
        relocate_loop image refs relocations
          (record { copies = copies; eliminated = λ i. false }) in
      let flags = entropy_loop image 0 c.copies c.eliminated in
      let above = λ (i j : ℕ). d.is_above (list_entropy c.copies i) (list_entropy c.copies j) in
      keep_lists 0 (eliminate_overlaps above flags refs) c.copies

  -- An array of no items is not allocated.
  unfoldable pub finish_lists : List RegionCopy → Resolved
  finish_lists lists =
      if not (length lists == 0) && not (memory (length lists * 40))
      then failed
      else record { result = true; lists = lists }

  unfoldable pub resolve_copies :
      Image → ℕ → List (Option EncryptedRegionList) → Called RelocationList → Resolved
  unfolding clone_lists choose_lists finish_lists
  resolve_copies image list_count lists relocated =
      let resolved : Resolved = elim (clone_lists memory reserve 0 lists) [
        | none ↦ failed
        | some copies ↦
            finish_lists (choose_lists image (qsort_relocations relocated.state.items) copies)
      ] in
      if not relocated.result || not relocated.state.valid
      then failed
      else if not (memory (list_count * 40))
          || not (memory (list_count * 8))
          || not (memory list_count)
      then failed
      else resolved

  -- `lists` is `none` for NULL.
  unfoldable pub dearxan_resolve_encrypted_region_lists :
      Option Image → Option (List (Option EncryptedRegionList)) → ℕ → Run Resolved
  unfolding resolve_copies collect_relocation dearxan_image_for_each_relocation64
  dearxan_resolve_encrypted_region_lists none lists list_count = done failed
  dearxan_resolve_encrypted_region_lists (some image) none list_count =
      done (record { result = list_count == 0; lists = [] })
  dearxan_resolve_encrypted_region_lists (some image) (some lists) list_count =
      let resolved = (do
        relocated ←
            dearxan_image_for_each_relocation64 (some image) (collect_relocation reserve)
              (record { items = []; valid = true })
        done (resolve_copies image list_count (take list_count lists) relocated)) in
      if list_count == 0 then done (record { result = true; lists = [] }) else resolved
