-- ===== src/Dearxan/Resolve/Chosen.antt =====
-- src/dearxan/encryption.c: the lists that dearxan_resolve_encrypted_region_lists returns have no byte in
-- common.
use yafsml.Prelude.{
  ℕ, zero, suc, ◌+◌, ◌*◌, ◌≡◌, refl, ap, sym, subst, inl, inr, Bool, false, not, ◌&&◌, ◌||◌, Option,
  none, some, List, [], ◌∷◌, ◌++◌, ◌==◌, get_elem?, take, length, arith, All, All-map, All-take,
  if_lem, Returns, returned, Returns-bind, Returns-if,
}
use mathlib.Core.Option.{some-injective}
use yafsml.Dearxan.Encryption.{EncryptedRegion}
use yafsml.Dearxan.Image.{Image}
use yafsml.Dearxan.Image.Safety.{IsLoaded, dearxan_image_for_each_relocation64_ends}
use yafsml.Dearxan.ImageTables.{Called}
use yafsml.Dearxan.Entropy.{Doubles}
use yafsml.Dearxan.RegionLists.{
  EncryptedRegionList, RegionCopy, Reference, RelocationList, references, referred,
  collect_relocation, clone_lists,
}
use yafsml.Dearxan.Resolve.{
  Resolved, failed, keep_lists, choose_lists, finish_lists, resolve_copies,
  dearxan_resolve_encrypted_region_lists,
}
use yafsml.Dearxan.Resolve.Apart.{In, IsUsable, PairsApart}
use yafsml.Dearxan.Resolve.Overlaps.{IsAscending}
use yafsml.Dearxan.Resolve.Eliminated.{eliminate_overlaps-Eliminates}
use yafsml.Dearxan.Resolve.Copies.{AllParsed, references-IsUsable}
use yafsml.Dearxan.Resolve.Moved.{SameLists, SameLists-get, relocate_loop-SameLists}
use yafsml.Dearxan.Resolve.Cloned.{IsParsedItem, Picks, clone_lists-Picks, Picks-AllParsed}
use yafsml.Dearxan.Resolve.Picked.{SameLists-Picks, keep_lists-Picks, no-Picks, take-Picks}
use yafsml.Dearxan.Resolve.Kept.{Sorts, IsOrdered, not_above, ListsApart, keep_lists-ListsApart}

IsOrdered-IsAscending : (refs : List Reference) → IsOrdered refs → IsAscending refs
IsOrdered-IsAscending [] h = tt
IsOrdered-IsAscending (r ∷ refs) h =
    (All-map _ _ (not_above r) refs h.0, IsOrdered-IsAscending refs h.1)

In-append_left : {A : Type 0} (x : A) (xs ys : List A) → In x xs → In x (xs ++ ys)
In-append_left x [] ys m = absurd m
In-append_left x (y ∷ xs) ys (inl e) = inl e
In-append_left x (y ∷ xs) ys (inr m) = inr (In-append_left x xs ys m)

In-append_right : {A : Type 0} (x : A) (xs ys : List A) → In x ys → In x (xs ++ ys)
In-append_right x [] ys m = m
In-append_right x (y ∷ xs) ys m = inr (In-append_right x xs ys m)

referred-In :
    (i : ℕ) (r : EncryptedRegion) (rs : List EncryptedRegion)
    → In r rs
    → In (record { list_index = i; region = r }) (referred i rs)
referred-In i r [] m = absurd m
referred-In i r (x ∷ rs) (inl e) = inl (ap (λ t. record { list_index = i; region = t }) e)
referred-In i r (x ∷ rs) (inr m) = inr (referred-In i r rs m)

-- Every region of every copy has its reference.
references-In :
    (i k : ℕ) (copies : List RegionCopy) (c : RegionCopy) (r : EncryptedRegion)
    → get_elem? copies k ≡ some c
    → In r c.regions
    → In (record { list_index = i + k; region = r }) (references i copies)
unfolding references
references-In i k [] c r found m = absurd (ground arith)
references-In i zero (x ∷ copies) c r found m =
    In-append_left _ (referred i x.regions) (references (suc i) copies) (
      subst (λ n. In (record { list_index = n; region = r }) (referred i x.regions)) (omega arith)
        (referred-In i r x.regions
          (subst (λ (t : RegionCopy). In r t.regions) (sym (some-injective x c found)) m)))
references-In i (suc k) (x ∷ copies) c r found m =
    In-append_right _ (referred i x.regions) (references (suc i) copies) (
      subst (λ n. In (record { list_index = n; region = r }) (references (suc i) copies))
        (omega arith) (references-In (suc i) k copies c r found m))

kept_apart :
    (copies new : List RegionCopy) (refs : List Reference) (flags : ℕ → Bool)
    → ((p : Reference) → In p (references 0 copies) → In p refs)
    → SameLists copies new
    → PairsApart flags refs
    → ListsApart (keep_lists 0 flags new)
kept_apart copies new refs flags more same apart =
    keep_lists-ListsApart flags 0 new λ j k c d at_j at_k kept_j kept_k ne a b a_in b_in.
      let (c', old_j, regions_j) = SameLists-get copies new j c same at_j in
      let (d', old_k, regions_k) = SameLists-get copies new k d same at_k in
      let found_a = references-In 0 j copies c' a old_j (subst (In a) (sym regions_j) a_in) in
      let found_b = references-In 0 k copies d' b old_k (subst (In b) (sym regions_k) b_in) in
      apart _ _ (more _ found_a) (more _ found_b) kept_j kept_k (λ e. ne (omega (arith, e)))

-- What is promised of the outcome.
pub record IsResolved (lists : List (Option EncryptedRegionList)) (r : Resolved) : Type 0 where
  pub picks : Picks lists r.lists
  pub apart : ListsApart r.lists
  pub nothing : r.result ≡ false → r.lists ≡ []

failed-IsResolved : (lists : List (Option EncryptedRegionList)) → IsResolved lists failed
failed-IsResolved lists = record { picks = no-Picks lists; apart = tt; nothing = λ e. refl }

module _ (d : Doubles) (memory reserve : ℕ → Bool) (qsort_relocations : List ℕ → List ℕ)
    (qsort_references : List Reference → List Reference) (sorts : Sorts qsort_references) where
  choose_lists-ListsApart :
      (image : Image) (relocations : List ℕ) (copies : List RegionCopy)
      → AllParsed copies
      → ListsApart (
          choose_lists d memory reserve qsort_relocations qsort_references image relocations copies)
  unfolding choose_lists
  choose_lists-ListsApart image relocations copies parsed =
      let refs = qsort_references (references 0 copies) in
      let of_copies = references-IsUsable copies parsed in
      let fewer = sorts.fewer (references 0 copies) in
      let usable : IsUsable refs = record {
        some_bytes = λ p m. of_copies.some_bytes p (fewer p m);
        alone = λ p q m n. of_copies.alone p q (fewer p m) (fewer q n);
      } in
      let ascending = IsOrdered-IsAscending refs (sorts.ordered (references 0 copies)) in
      kept_apart copies _ refs _ (sorts.more (references 0 copies))
        (relocate_loop-SameLists image refs relocations _)
        (eliminate_overlaps-Eliminates _ refs usable _ ascending).apart

  choose_lists-Picks :
      (image : Image) (relocations : List ℕ) (lists : List (Option EncryptedRegionList))
      (copies : List RegionCopy)
      → Picks lists copies
      → Picks lists (
          choose_lists d memory reserve qsort_relocations qsort_references image relocations copies)
  unfolding choose_lists
  choose_lists-Picks image relocations lists copies picks = keep_lists-Picks _ 0 (
      SameLists-Picks picks _
        (relocate_loop-SameLists image (qsort_references (references 0 copies)) relocations _))

  finish_lists-IsResolved :
      (lists : List (Option EncryptedRegionList)) (chosen : List RegionCopy)
      → Picks lists chosen
      → ListsApart chosen
      → IsResolved lists (finish_lists d memory reserve qsort_relocations qsort_references chosen)
  unfolding finish_lists
  finish_lists-IsResolved lists chosen picks apart =
      if_lem (IsResolved lists) (not (length chosen == 0) && not (memory (length chosen * 40))) _ _
        (λ e. failed-IsResolved lists)
        (λ e. record { picks = picks; apart = apart; nothing = λ f. absurd (ground arith) })

  resolve_copies-IsResolved :
      (image : Image) (list_count : ℕ) (lists : List (Option EncryptedRegionList))
      (relocated : Called RelocationList)
      → All IsParsedItem lists
      → IsResolved lists (
          resolve_copies d memory reserve qsort_relocations qsort_references image list_count lists
            relocated)
  unfolding resolve_copies
  resolve_copies-IsResolved image list_count lists relocated parsed =
      if_lem (IsResolved lists) (not relocated.result || not relocated.state.valid) _ _
        (λ e. failed-IsResolved lists)
        (λ e.
          if_lem (IsResolved lists)
            (not (memory (list_count * 40))
              || not (memory (list_count * 8))
              || not (memory list_count))
            _ _ (λ e. failed-IsResolved lists)
            (λ e. resolved (clone_lists memory reserve 0 lists) refl))
    where
      resolved :
          (o : Option (List RegionCopy))
          → clone_lists memory reserve 0 lists ≡ o
          → IsResolved lists (elim o as (λ x. Resolved) [
            | none ↦ failed
            | some copies ↦ finish_lists d memory reserve qsort_relocations qsort_references (
                choose_lists d memory reserve qsort_relocations qsort_references image
                  (qsort_relocations relocated.state.items)
                  copies)
          ])
      resolved none e = failed-IsResolved lists
      resolved (some copies) e =
          let relocations = qsort_relocations relocated.state.items in
          let picks = clone_lists-Picks memory reserve 0 lists copies parsed e in
          finish_lists-IsResolved lists _ (choose_lists-Picks image relocations lists copies picks)
            (choose_lists-ListsApart image relocations copies (Picks-AllParsed parsed picks))

  -- With lists of regions as the parser gives them and an image that is loaded and not empty, and
  -- with a qsort that returns the same references in an order where none compares above a later
  -- one, the choice among the lists ends, reads no byte outside of the headers and relocations of
  -- the image, and returns copies of some of the lists, in their order and with their kinds and
  -- regions, of which no two have a region with a common byte; where it fails it returns none.
  -- Neither what memory can be had, nor the relocations and bytes of the image, nor how numbers
  -- of type double compare makes a difference.
  pub dearxan_resolve_encrypted_region_lists-IsResolved :
      (image : Image) (lists : List (Option EncryptedRegionList)) (list_count : ℕ)
      → IsLoaded image
      → All IsParsedItem lists
      → Returns (IsResolved lists) (
          dearxan_resolve_encrypted_region_lists d memory reserve qsort_relocations qsort_references
            (some image)
            (some lists)
            list_count)
  unfolding dearxan_resolve_encrypted_region_lists
  dearxan_resolve_encrypted_region_lists-IsResolved image lists list_count loaded parsed =
      Returns-if (list_count == 0)
        (λ e. returned _ (record { picks = no-Picks lists; apart = tt; nothing = λ f. refl }))
        λ e.
          Returns-bind
            (dearxan_image_for_each_relocation64_ends image (collect_relocation reserve) _ loaded)
            λ relocated _.
              let taken = take list_count lists in
              let done_well =
                resolve_copies-IsResolved image list_count taken relocated
                  (All-take IsParsedItem list_count lists parsed) in
              returned _ (record {
                picks = take-Picks list_count lists done_well.picks;
                apart = done_well.apart;
                nothing = done_well.nothing;
              })
