-- ===== src/Dearxan/Resolve/Kept.antt =====
-- src/dearxan/encryption.c: the lists that are kept, and the order of the references.
use yafsml.Prelude.{
  ℕ, zero, suc, ◌+◌, ◌≤◌, ◌<◌, ltb, ◌≡◌, ◌≢◌, refl, ap, subst, ◌∙◌, inl, inr, Bool, false, some,
  List, [], ◌∷◌, get_elem?, arith, All, if_lem, Bool-cases,
}
use Prim.Native.Nat.compare
use Prim.Native.Nat.{Ordering, eq, gt, compare}
use yafsml.Dearxan.Encryption.{EncryptedRegion, regions_intersect}
use yafsml.Dearxan.RegionLists.{RegionCopy, Reference, compare_region_references}
use yafsml.Dearxan.Resolve.{keep_lists}
use yafsml.Dearxan.Resolve.Apart.{In}

-- In the order that qsort promises.
abbrev pub IsOrdered : List Reference → Type 0
IsOrdered [] = Unit {0}
IsOrdered (r ∷ refs) = All (λ t. compare_region_references r t ≢ gt) refs × IsOrdered refs

-- What is relied on of qsort.
pub record Sorts (qsort : List Reference → List Reference) : Type 0 where
  pub fewer : (refs : List Reference) (p : Reference) → In p (qsort refs) → In p refs
  pub more : (refs : List Reference) (p : Reference) → In p refs → In p (qsort refs)
  pub ordered : (refs : List Reference) → IsOrdered (qsort refs)

compare-gt : (m n : ℕ) → n < m → compare m n ≡ gt
compare-gt zero n h = absurd (omega arith)
compare-gt (suc m) zero h = λ i. compare.suc-zero m i
compare-gt (suc m) (suc n) h = (λ i. compare.suc-suc m n i) ∙ compare-gt m n (omega (arith, h))

pub not_above : (a b : Reference) → compare_region_references a b ≢ gt → a.region.rva ≤ b.region.rva
unfolding compare_region_references
not_above a b h = elim (Bool-cases (ltb b.region.rva a.region.rva)) [
  | inl above ↦ absurd (
      h (
        ap
          (λ o. elim o as (λ x. Ordering) [
            | eq ↦ compare a.region.size b.region.size
            | other ↦ other
          ])
          (compare-gt a.region.rva b.region.rva (ground arith))))
  | inr up ↦ ground arith
]

-- Two lists with no byte in common.
abbrev pub CopiesApart : RegionCopy → RegionCopy → Type 0
CopiesApart c d =
    (a b : EncryptedRegion) → In a c.regions → In b d.regions → regions_intersect a b ≡ false

-- No two of the lists have a byte in common.
abbrev pub ListsApart : List RegionCopy → Type 0
ListsApart [] = Unit {0}
ListsApart (c ∷ copies) = All (CopiesApart c) copies × ListsApart copies

module _ (eliminated : ℕ → Bool) where
  keep_lists-All :
      (P : RegionCopy → Type 0) (i : ℕ) (copies : List RegionCopy)
      → ((k : ℕ) (c : RegionCopy) → get_elem? copies k ≡ some c → eliminated (i + k) ≡ false → P c)
      → All P (keep_lists i eliminated copies)
  unfolding keep_lists
  keep_lists-All P i [] good = tt
  keep_lists-All P i (c ∷ copies) good =
      let rest = keep_lists-All P (suc i) copies (λ k d found kept.
        good (suc k) d found (subst (λ n. eliminated n ≡ false) (omega arith) kept)) in
      if_lem (All P) (eliminated i) _ _ (λ gone. rest)
        (λ kept. (good zero c refl (subst (λ n. eliminated n ≡ false) (omega arith) kept), rest))

  pub keep_lists-ListsApart :
      (i : ℕ) (copies : List RegionCopy)
      → ((j k : ℕ) (c d : RegionCopy)
          → get_elem? copies j ≡ some c
          → get_elem? copies k ≡ some d
          → eliminated (i + j) ≡ false
          → eliminated (i + k) ≡ false
          → j ≢ k
          → CopiesApart c d)
      → ListsApart (keep_lists i eliminated copies)
  unfolding keep_lists
  keep_lists-ListsApart i [] good = tt
  keep_lists-ListsApart i (c ∷ copies) good =
      let later : (n : ℕ) → eliminated (suc i + n) ≡ false → eliminated (i + suc n) ≡ false =
        λ n h. subst (λ m. eliminated m ≡ false) (omega arith) h in
      let rest = keep_lists-ListsApart (suc i) copies (λ j k c d at at' hj hk ne.
        good (suc j) (suc k) c d at at' (later j hj) (later k hk) (λ e. ne (omega (arith, e)))) in
      if_lem ListsApart (eliminated i) _ _ (λ gone. rest)
        (λ kept. (
          keep_lists-All (CopiesApart c) (suc i) copies (λ k d at hk.
              good zero (suc k) c d refl at (subst (λ n. eliminated n ≡ false) (omega arith) kept)
                (later k hk) (λ e. absurd (omega (arith, e)))),
          rest,
        ))
