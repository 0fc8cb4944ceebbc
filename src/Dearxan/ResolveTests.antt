-- ===== src/Dearxan/ResolveTests.antt =====
-- Runs of dearxan_resolve_encrypted_region_lists, src/dearxan/encryption.c, with two lists that overlap.
mod Sorted
use yafsml.Prelude.{
  ℕ, zero, suc, ◌+◌, ◌-◌, ◌*◌, ◌/◌, ◌≤◌, ◌<◌, ◌≡◌, ◌≢◌, refl, ap, sym, subst, ◌∙◌, ◌⊎◌, inl, inr,
  Bool, true, false, not, ◌&&◌, ◌||◌, Option, none, some, List, [], ◌∷◌, ◌++◌, Bytes, ltb, leb,
  ◌==◌, if◌then◌else◌, length, replicate, arith, All, All-get, read16, read32, if_lem, Bool-cases,
  Run, done, Returns,
}
use Prim.Native.Nat.{Ordering, lt, eq, gt, compare}
use Prim.Native.Nat.compare
use yafsml.Dearxan.Encryption.{EncryptedRegion, uint32_max}
use yafsml.Dearxan.Encryption.Regions.{Follow}
use yafsml.Dearxan.Image.{Image}
use yafsml.Dearxan.Image.Safety.{IsLoaded}
use yafsml.Dearxan.Entropy.{Doubles}
use yafsml.Dearxan.RegionLists.{
  DecryptionKind, EncryptedRegionList, RegionCopy, Reference, compare_region_references, references,
}
use yafsml.Dearxan.Resolve.{Resolved, eliminate_overlaps, dearxan_resolve_encrypted_region_lists}
use yafsml.Dearxan.Resolve.Apart.{In, IsUsable}
use yafsml.Dearxan.Resolve.Overlaps.{IsAscending}
use yafsml.Dearxan.Resolve.Eliminated.{Eliminates, eliminate_overlaps-Eliminates}
use yafsml.Dearxan.Resolve.Copies.{IsParsed, AllParsed, references-IsUsable}
use yafsml.Dearxan.Resolve.Cloned.{IsParsedItem, IsParsedList}
use yafsml.Dearxan.Resolve.Kept.{IsOrdered, Sorts}
use yafsml.Dearxan.Resolve.Chosen.{IsResolved, dearxan_resolve_encrypted_region_lists-IsResolved}
use yafsml.Dearxan.ResolveTests.Sorted.{sort_references, insert_reference, sort_references-Sorts}

-- Whole numbers in the place of doubles.
abbrev whole : Doubles
whole = record {
  Double = ℕ;
  zero_double = 0;
  nan = 100;
  of_size = λ n. n;
  log2 = λ n. if leb 8 n then 3 else if leb 4 n then 2 else if leb 2 n then 1 else 0;
  add = λ a b. a + b;
  subtract = λ a b. a - b;
  multiply = λ a b. a * b;
  divide = λ a b. a / b;
  is_above = λ a b. ltb b a;
  is_at_least = λ a b. leb b a;
}

-- An image with eight different bytes behind its first two, and without relocations.
abbrev varied : Image
varied = record {
  base =
      (0x4d ∷ 0x5a ∷ 1 ∷ 2 ∷ 3 ∷ 4 ∷ 5 ∷ 6 ∷ 7 ∷ 8 ∷ replicate 50 0)
      ++ (64 ∷ 0 ∷ 0 ∷ 0 ∷ [])
      ++ (0x50 ∷ 0x45 ∷ 0 ∷ 0 ∷ 0 ∷ 0 ∷ 1 ∷ 0 ∷ replicate 12 0)
      ++ (240 ∷ 0 ∷ 0 ∷ 0 ∷ 0x0b ∷ 0x02 ∷ replicate 300 0);
  size = 390;
  base_va = 0x140000000;
  preferred_base = 0x140000000;
  entrypoint_rva = 0;
}

varied-IsLoaded : IsLoaded varied
varied-IsLoaded = record { room = omega arith; nonempty = omega arith }

abbrev region_at : ℕ → EncryptedRegion
region_at rva = record { stream_offset = 0; size = 4; rva = rva }

abbrev list_at : ℕ → Bytes → EncryptedRegionList
list_at rva stream = record {
  kind = DecryptionKind.tea;
  regions = some (region_at rva ∷ []);
  region_count = 1;
  decrypted_stream = some stream;
  decrypted_size = 4;
}

-- The second list has a byte of the first one, and its stream is less ordered; the third one is apart.
abbrev two_overlap : List (Option EncryptedRegionList)
two_overlap =
    some (list_at 2 (1 ∷ 1 ∷ 1 ∷ 1 ∷ []))
    ∷ some (list_at 4 (1 ∷ 1 ∷ 2 ∷ 2 ∷ []))
    ∷ none
    ∷ some (list_at 6 (3 ∷ 3 ∷ 3 ∷ 3 ∷ []))
    ∷ []

abbrev copy_at : ℕ → Bytes → RegionCopy
copy_at rva stream = record {
  kind = DecryptionKind.tea;
  regions = region_at rva ∷ [];
  decrypted_stream = stream;
}

abbrev all_memory : ℕ → Bool
all_memory n = true

abbrev same_order : List ℕ → List ℕ
same_order items = items

two_overlap_run :
    dearxan_resolve_encrypted_region_lists whole all_memory all_memory same_order sort_references
      (some varied)
      (some two_overlap)
      4
    ≡ done (record {
      result = true;
      lists = copy_at 2 (1 ∷ 1 ∷ 1 ∷ 1 ∷ []) ∷ copy_at 6 (3 ∷ 3 ∷ 3 ∷ 3 ∷ []) ∷ [];
    })
unfolding dearxan_resolve_encrypted_region_lists read16 read32 sort_references
two_overlap_run = refl

one_region-IsParsed : (rva : ℕ) → rva + 4 ≤ uint32_max → IsParsed (region_at rva ∷ [])
unfolding Follow
one_region-IsParsed rva h = record {
  stream_size = 4;
  follow = (omega arith, omega arith, refl, (h, refl));
}

list_at-IsParsedList :
    (rva : ℕ) (stream : Bytes) → rva + 4 ≤ uint32_max → IsParsedList (list_at rva stream)
list_at-IsParsedList rva stream h = record {
  given = region_at rva ∷ [];
  present = refl;
  counted = refl;
  parsed = one_region-IsParsed rva h;
}

dearxan_resolve_encrypted_region_lists-IsResolved_example : Returns (IsResolved two_overlap) (
    dearxan_resolve_encrypted_region_lists whole all_memory all_memory same_order sort_references
      (some varied)
      (some two_overlap)
      4)
dearxan_resolve_encrypted_region_lists-IsResolved_example =
    dearxan_resolve_encrypted_region_lists-IsResolved whole all_memory all_memory same_order
      sort_references sort_references-Sorts varied two_overlap 4 varied-IsLoaded
      (
        list_at-IsParsedList 2 _ (omega arith),
        (
          list_at-IsParsedList 4 _ (omega arith),
          (tt, (list_at-IsParsedList 6 _ (omega arith), tt)),
        ),
      )

abbrev two_copies : List RegionCopy
two_copies = copy_at 2 (1 ∷ 1 ∷ 1 ∷ 1 ∷ []) ∷ copy_at 4 (1 ∷ 1 ∷ 2 ∷ 2 ∷ []) ∷ []

two_copies-AllParsed : AllParsed two_copies
two_copies-AllParsed k c found =
    All-get (λ (c : RegionCopy). IsParsed c.regions) two_copies k c
      (one_region-IsParsed 2 (omega arith), (one_region-IsParsed 4 (omega arith), tt)) found

abbrev two_references : List Reference
two_references =
    record { list_index = 0; region = region_at 2 }
    ∷ record { list_index = 1; region = region_at 4 }
    ∷ []

two_references-IsUsable : IsUsable two_references
unfolding references
two_references-IsUsable = references-IsUsable two_copies two_copies-AllParsed

eliminate_overlaps-Eliminates_example :
    Eliminates two_references
      (λ i. false)
      (eliminate_overlaps (λ i j. leb j i) (λ i. false) two_references)
eliminate_overlaps-Eliminates_example =
    eliminate_overlaps-Eliminates (λ i j. leb j i) two_references two_references-IsUsable
      (λ i. false) ((omega arith, tt), (tt, tt))
