-- ===== src/Dearxan/RegionLists.antt =====
-- src/dearxan/encryption.c: lists of encrypted regions are copied, and relocated to where the image is loaded.
-- `memory` is what malloc and calloc answer for a number of bytes, and `reserve` what dearxan_reserve_array
-- answers for a number of items.
use yafsml.Prelude.{
  ℕ, suc, ◌+◌, ◌-◌, ◌*◌, ◌/◌, ◌%◌, ◌^◌, Bool, true, false, not, ◌||◌, Option, none, some, List, [],
  ◌∷◌, ◌++◌, Bytes, map, ltb, ◌==◌, if◌then◌else◌, length, get_elem?, set, take, drop,
}
use Prim.Native.Nat.{Ordering, eq, compare}
use yafsml.Dearxan.Encryption.{EncryptedRegion, size_max}
use yafsml.Dearxan.Image.{Image, dearxan_image_read}
use yafsml.Dearxan.ImageTables.{Called}
use yafsml.Dearxan.Vm.Decoded.{word_of, bytes_of}
use yafsml.Dearxan.Vm.Memory.{splice}

pub data DecryptionKind : Type 0 where
  tea rmx sub : DecryptionKind

-- dearxan_encrypted_region_list_t; a NULL pointer is `none`.
pub record EncryptedRegionList : Type 0 where
  pub kind : DecryptionKind
  pub regions : Option (List EncryptedRegion)
  pub region_count : ℕ
  pub decrypted_stream : Option Bytes
  pub decrypted_size : ℕ

-- A list that has been copied: its counts are the lengths.
pub record RegionCopy : Type 0 where
  pub kind : DecryptionKind
  pub regions : List EncryptedRegion
  pub decrypted_stream : Bytes

pub record RelocationList : Type 0 where
  pub items : List ℕ
  pub valid : Bool

unfoldable pub collect_relocation : (ℕ → Bool) → RelocationList → ℕ → Called RelocationList
collect_relocation reserve list rva =
    if reserve (length list.items + 1)
    then record { result = true; state = record list { items = list.items ++ (rva ∷ []) } }
    else record { result = false; state = record list { valid = false } }

abbrev pub compare_u32 : ℕ → ℕ → Ordering
compare_u32 left right = compare left right

-- region_reference_t
pub record Reference : Type 0 where
  pub list_index : ℕ
  pub region : EncryptedRegion

unfoldable pub compare_region_references : Reference → Reference → Ordering
compare_region_references left right = elim (compare left.region.rva right.region.rva) [
  | eq ↦ compare left.region.size right.region.size
  | other ↦ other
]

-- Without regions there is nothing to copy; neither is there without a stream. An item has 24 bytes.
unfoldable pub copy_regions : (ℕ → Bool) → EncryptedRegionList → Option (List EncryptedRegion)
copy_regions memory source = if source.region_count == 0 then some [] else elim source.regions [
  | none ↦ none
  | some regions ↦
      if ltb (size_max / 24) source.region_count || not (memory (source.region_count * 24))
      then none
      else some (take source.region_count regions)
]

unfoldable pub copy_stream : (ℕ → Bool) → EncryptedRegionList → Option Bytes
copy_stream memory source =
    if source.decrypted_size == 0 then some [] else elim source.decrypted_stream [
      | none ↦ none
      | some stream ↦
          if memory source.decrypted_size then some (take source.decrypted_size stream) else none
    ]

unfoldable pub clone_region_list : (ℕ → Bool) → EncryptedRegionList → Option RegionCopy
unfolding copy_regions copy_stream
clone_region_list memory source = elim (copy_regions memory source) [
  | none ↦ none
  | some regions ↦ elim (copy_stream memory source) [
    | none ↦ none
    | some stream ↦
        some (record { kind = source.kind; regions = regions; decrypted_stream = stream })
  ]
]

-- The loop that copies the lists, with the regions of those before it counted. An empty list is left out.
unfoldable pub clone_lists :
    (memory reserve : ℕ → Bool) → ℕ → List (Option EncryptedRegionList) → Option (List RegionCopy)
unfolding clone_region_list
clone_lists memory reserve region_count [] = some []
clone_lists memory reserve region_count (none ∷ lists) =
    clone_lists memory reserve region_count lists
clone_lists memory reserve region_count (some source ∷ lists) =
    let skipped = clone_lists memory reserve region_count lists in
    let copied : Option (List RegionCopy) = elim (clone_region_list memory source) [
      | none ↦ none
      | some copy ↦
          let rest = clone_lists memory reserve (region_count + source.region_count) lists in
          let added : Option (List RegionCopy) = elim rest [
            | none ↦ none
            | some copies ↦ some (copy ∷ copies)
          ] in
          if ltb (size_max - region_count) source.region_count
            || not (reserve (region_count + source.region_count))
          then none
          else added
    ] in
    if source.region_count == 0 then skipped else copied

abbrev pub referred : ℕ → List EncryptedRegion → List Reference
referred i regions = map (λ r. record { list_index = i; region = r }) regions

-- The regions of all lists, those of list `i` first.
unfoldable pub references : ℕ → List RegionCopy → List Reference
references i [] = []
references i (copy ∷ copies) = referred i copy.regions ++ references (suc i) copies

-- The flags of the lists.
abbrev pub update : (ℕ → Bool) → ℕ → Bool → ℕ → Bool
update flags i b = λ j. if j == i then b else flags j

-- The stream of a list, and whether all its relocations were applied.
pub record Relocated : Type 0 where
  pub stream : Bytes
  pub applied : Bool

unfoldable pub drop_below : ℕ → List ℕ → List ℕ
drop_below rva [] = []
drop_below rva (item ∷ items) =
    let rest = drop_below rva items in if ltb item rva then rest else item ∷ items

-- The address in the stream at `offset`, as it is where the image is loaded.
abbrev pub moved_address : Image → Bytes → ℕ → ℕ
moved_address image stream offset =
    (word_of (take 8 (drop offset stream))
      + (image.base_va + (2 ^ 64 - image.preferred_base % 2 ^ 64)) % 2 ^ 64)
    % 2 ^ 64

unfoldable pub relocate_region : Image → EncryptedRegion → Bytes → List ℕ → Relocated
unfolding dearxan_image_read
relocate_region image region stream [] = record { stream = stream; applied = true }
relocate_region image region stream (rva ∷ items) =
    let offset = (region.stream_offset + (rva - region.rva)) % 2 ^ 64 in
    let value = moved_address image stream offset in
    let more = relocate_region image region (splice stream offset (bytes_of 8 value)) items in
    let moved = elim (dearxan_image_read (some image) value 1) as (λ x. Relocated) [
      | none ↦ record { stream = stream; applied = false }
      | some read ↦ more
    ] in
    if ltb (region.rva + region.size) (rva + 8)
    then record { stream = stream; applied = true }
    else if ltb (length stream) offset || ltb (length stream - offset) 8
    then record { stream = stream; applied = false }
    else moved

-- The copies, and which of them are eliminated.
pub record Candidates : Type 0 where
  pub copies : List RegionCopy
  pub eliminated : ℕ → Bool

-- A region of a list has been relocated.
abbrev pub with_stream : Candidates → Reference → RegionCopy → Relocated → Candidates
with_stream c r copy relocated = record {
  copies = set c.copies r.list_index (record copy { decrypted_stream = relocated.stream });
  eliminated = if relocated.applied then c.eliminated else update c.eliminated r.list_index true;
}

unfoldable pub relocate_reference : Image → Reference → List ℕ → Candidates → Candidates
unfolding relocate_region
relocate_reference image r items c = elim (get_elem? c.copies r.list_index) [
  | none ↦ c
  | some copy ↦ with_stream c r copy (relocate_region image r.region copy.decrypted_stream items)
]

-- The references that are left, and the relocations that are not below the last of them.
unfoldable pub relocate_loop : Image → List Reference → List ℕ → Candidates → Candidates
unfolding drop_below relocate_reference
relocate_loop image [] items c = c
relocate_loop image (r ∷ refs) items c =
    let skipped = relocate_loop image refs items c in
    let items' = drop_below r.region.rva items in
    let rest = relocate_loop image refs items' (relocate_reference image r items' c) in
    let tried : Candidates = elim items' [ [] ↦ c | item ∷ more ↦ rest ] in
    if c.eliminated r.list_index then skipped else tried
