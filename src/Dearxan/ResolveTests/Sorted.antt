-- ===== src/Dearxan/ResolveTests/Sorted.antt =====
-- A sort that does what src/dearxan/encryption.c relies on of qsort.
use yafsml.Prelude.{
  ℕ, zero, suc, ◌≤◌, ◌<◌, ◌≡◌, ◌≢◌, refl, ap, sym, subst, ◌∙◌, inl, inr, Bool, true, false, ◌&&◌,
  ◌||◌, List, [], ◌∷◌, ltb, leb, ◌==◌, if◌then◌else◌, arith, All, if_lem, Bool-cases, turn_then,
  turn_else,
}
use Prim.Native.Nat.{Ordering, lt, eq, gt, compare}
use Prim.Native.Nat.compare
use yafsml.Dearxan.RegionLists.{Reference, compare_region_references}
use yafsml.Dearxan.Resolve.Apart.{In}
use yafsml.Dearxan.Resolve.Kept.{IsOrdered, Sorts}

-- A sort by insertion.
abbrev up : Reference → Reference → Bool
up a b =
    ltb a.region.rva b.region.rva
    || (a.region.rva == b.region.rva && leb a.region.size b.region.size)

unfoldable pub insert_reference : Reference → List Reference → List Reference
insert_reference r [] = r ∷ []
insert_reference r (x ∷ refs) =
    let rest = insert_reference r refs in if up r x then r ∷ x ∷ refs else x ∷ rest

unfoldable pub sort_references : List Reference → List Reference
unfolding insert_reference
sort_references [] = []
sort_references (r ∷ refs) = insert_reference r (sort_references refs)

compare-lt : (m n : ℕ) → m < n → compare m n ≡ lt
compare-lt zero zero h = absurd (omega arith)
compare-lt zero (suc n) h = λ i. compare.zero-suc n i
compare-lt (suc m) zero h = absurd (omega arith)
compare-lt (suc m) (suc n) h = (λ i. compare.suc-suc m n i) ∙ compare-lt m n (omega (arith, h))

compare-eq : (n : ℕ) → compare n n ≡ eq
compare-eq zero = λ i. compare.zero-zero i
compare-eq (suc n) = (λ i. compare.suc-suc n n i) ∙ compare-eq n

-- By the second comparison where the first one leaves it open.
abbrev then_by : Ordering → Ordering → Ordering
then_by lt other = lt
then_by eq other = other
then_by gt other = gt

abbrev is_gt : Ordering → Bool
is_gt lt = false
is_gt eq = false
is_gt gt = true

le-compare : (m n : ℕ) → m ≤ n → is_gt (compare m n) ≡ false
le-compare m n h = elim (Bool-cases (ltb m n)) [
  | inl less ↦ ap is_gt (compare-lt m n (ground arith))
  | inr other ↦ let same : n ≡ m = ground arith in ap is_gt (ap (compare m) same ∙ compare-eq m)
]

then_by-lt : (o p : Ordering) → o ≡ lt → is_gt (then_by o p) ≡ false
then_by-lt o p e = ap (λ q. is_gt (then_by q p)) e

then_by-eq : (o p : Ordering) → o ≡ eq → is_gt p ≡ false → is_gt (then_by o p) ≡ false
then_by-eq o p e h = ap (λ q. is_gt (then_by q p)) e ∙ h

compare_region_references-then_by :
    (a b : Reference)
    → compare_region_references a b
      ≡ then_by (compare a.region.rva b.region.rva) (compare a.region.size b.region.size)
unfolding compare_region_references
compare_region_references-then_by a b =
    split (compare a.region.rva b.region.rva) (compare a.region.size b.region.size)
  where
    split : (o p : Ordering) → elim o as (λ x. Ordering) [ eq ↦ p | other ↦ other ] ≡ then_by o p
    split lt p = refl
    split eq p = refl
    split gt p = refl

up-ordered : (a b : Reference) → up a b ≡ true → is_gt (compare_region_references a b) ≡ false
up-ordered a b h =
    ap is_gt (compare_region_references-then_by a b)
    ∙ elim (Bool-cases (ltb a.region.rva b.region.rva)) [
      | inl before ↦ then_by-lt _ _ (compare-lt a.region.rva b.region.rva (ground arith))
      | inr other ↦
          let same : b.region.rva ≡ a.region.rva = ground arith in
          then_by-eq _ _ (ap (compare a.region.rva) same ∙ compare-eq a.region.rva)
            (le-compare a.region.size b.region.size (ground arith))
    ]

not_gt : (o : Ordering) → is_gt o ≡ false → o ≢ gt
not_gt o h e = absurd (ground (arith, ap is_gt e))

up_trans : (a b c : Reference) → up a b ≡ true → up b c ≡ true → up a c ≡ true
up_trans a b c h k = ground arith

up_total : (a b : Reference) → up a b ≡ false → up b a ≡ true
up_total a b h = ground arith

insert_reference-fewer :
    (r : Reference) (refs : List Reference) (p : Reference)
    → In p (insert_reference r refs)
    → In p (r ∷ refs)
unfolding insert_reference
insert_reference-fewer r [] p m = m
insert_reference-fewer r (x ∷ refs) p m = elim (Bool-cases (up r x)) [
  | inl first ↦ subst (In p) (turn_then (up r x) _ _ first) m
  | inr later ↦ elim (subst (In p) (turn_else (up r x) _ _ later) m) [
    | inl e ↦ inr (inl e)
    | inr n ↦ elim (insert_reference-fewer r refs p n) [ inl e ↦ inl e | inr k ↦ inr (inr k) ]
  ]
]

insert_reference-more :
    (r : Reference) (refs : List Reference) (p : Reference)
    → In p (r ∷ refs)
    → In p (insert_reference r refs)
unfolding insert_reference
insert_reference-more r [] p m = m
insert_reference-more r (x ∷ refs) p m =
    if_lem (In p) (up r x) _ _ (λ first. m)
      (λ later. elim m [
        | inl e ↦ inr (insert_reference-more r refs p (inl e))
        | inr n ↦ elim n [ inl e ↦ inl e | inr k ↦ inr (insert_reference-more r refs p (inr k)) ]
      ])

abbrev Up : List Reference → Type 0
Up [] = Unit {0}
Up (r ∷ refs) = ((t : Reference) → In t refs → up r t ≡ true) × Up refs

insert_reference-Up :
    (r : Reference) (refs : List Reference) → Up refs → Up (insert_reference r refs)
unfolding insert_reference
insert_reference-Up r [] h = (λ t m. absurd m, tt)
insert_reference-Up r (x ∷ refs) h =
    if_lem Up (up r x) _ _
      (λ first. (
        λ t m. elim m [
          | inl e ↦ subst (λ u. up r u ≡ true) (sym e) first
          | inr n ↦ up_trans r x t first (h.0 t n)
        ],
        h,
      ))
      (λ later. (
        λ t m. elim (insert_reference-fewer r refs t m) [
          | inl e ↦ subst (λ u. up x u ≡ true) (sym e) (up_total r x later)
          | inr n ↦ h.0 t n
        ],
        insert_reference-Up r refs h.1,
      ))

Up-IsOrdered : (refs : List Reference) → Up refs → IsOrdered refs
Up-IsOrdered [] h = tt
Up-IsOrdered (r ∷ refs) h = (each refs h.0, Up-IsOrdered refs h.1)
  where
    each :
        (ts : List Reference)
        → ((t : Reference) → In t ts → up r t ≡ true)
        → All (λ t. compare_region_references r t ≢ gt) ts
    each [] k = tt
    each (t ∷ ts) k = (
      not_gt (compare_region_references r t) (up-ordered r t (k t (inl refl))),
      each ts (λ u m. k u (inr m)),
    )

sort_references-Up : (refs : List Reference) → Up (sort_references refs)
unfolding sort_references
sort_references-Up [] = tt
sort_references-Up (r ∷ refs) =
    insert_reference-Up r (sort_references refs) (sort_references-Up refs)

sort_references-fewer :
    (refs : List Reference) (p : Reference) → In p (sort_references refs) → In p refs
unfolding sort_references
sort_references-fewer [] p m = m
sort_references-fewer (r ∷ refs) p m = elim (insert_reference-fewer r (sort_references refs) p m) [
  | inl e ↦ inl e
  | inr n ↦ inr (sort_references-fewer refs p n)
]

sort_references-more :
    (refs : List Reference) (p : Reference) → In p refs → In p (sort_references refs)
unfolding sort_references
sort_references-more [] p m = m
sort_references-more (r ∷ refs) p (inl e) = insert_reference-more r (sort_references refs) p (inl e)
sort_references-more (r ∷ refs) p (inr m) =
    insert_reference-more r (sort_references refs) p (inr (sort_references-more refs p m))

pub sort_references-Sorts : Sorts sort_references
sort_references-Sorts = record {
  fewer = sort_references-fewer;
  more = sort_references-more;
  ordered = λ refs. Up-IsOrdered (sort_references refs) (sort_references-Up refs);
}
