-- ===== src/Dearxan/Resolve/Eliminated.antt =====
-- src/dearxan/encryption.c: what is true of the flags when the walk over all references has ended.
use yafsml.Prelude.{
  ℕ, ◌≤◌, ◌≡◌, refl, ap, ◌∙◌, sym, subst, ◌⊎◌, inl, inr, Bool, true, false, not, List, [], ◌∷◌,
  ◌==◌, arith, All, if_lem,
}
use yafsml.Dearxan.Encryption.{regions_intersect}
use yafsml.Dearxan.RegionLists.{Reference}
use yafsml.Dearxan.Resolve.{Walk, overlap_step, overlap_loop, eliminate_overlaps}
use yafsml.Dearxan.Resolve.Apart.{In, PairsApart, IsUsable, end_of-cons}
use yafsml.Dearxan.Resolve.Overlaps.{IsAscending, Overlaps, Walked, overlap_step-Walked}

-- The flags of the lists afterwards, from those of before.
pub record Eliminates (refs : List Reference) (before after : ℕ → Bool) : Type 0 where
  pub apart : PairsApart after refs
  pub fewer : (i : ℕ) → after i ≡ false → before i ≡ false
  pub reasons : (i : ℕ) → after i ≡ true → (before i ≡ true) ⊎ Overlaps refs i

cons_within :
    (refs seen : List Reference) (r : Reference)
    → In r refs
    → ((p : Reference) → In p seen → In p refs)
    → (p : Reference) → In p (r ∷ seen)
    → In p refs
cons_within refs seen r r_in within p (inl e) = subst (λ t. In t refs) (sym e) r_in
cons_within refs seen r r_in within p (inr m) = within p m

-- A reference is of a list that had been eliminated, or behind or before the walk.
abbrev Placed : (ℕ → Bool) → List Reference → List Reference → Reference → Type 0
Placed start seen rest p = (start p.list_index ≡ true) ⊎ (In p seen ⊎ In p rest)

Placed-next :
    (start : ℕ → Bool) (seen rest : List Reference) (r p : Reference)
    → Placed start seen (r ∷ rest) p
    → Placed start (r ∷ seen) rest p
Placed-next start seen rest r p (inl gone) = inl gone
Placed-next start seen rest r p (inr (inl m)) = inr (inl (inr m))
Placed-next start seen rest r p (inr (inr (inl e))) = inr (inl (inl e))
Placed-next start seen rest r p (inr (inr (inr m))) = inr (inr m)

kept_seen :
    (start after : ℕ → Bool) (seen : List Reference) (p : Reference)
    → ((i : ℕ) → after i ≡ false → start i ≡ false)
    → Placed start seen [] p
    → after p.list_index ≡ false
    → In p seen
kept_seen start after seen p fewer (inl gone) h = absurd (ground (arith, fewer p.list_index h))
kept_seen start after seen p fewer (inr (inl m)) h = m
kept_seen start after seen p fewer (inr (inr m)) h = absurd m

still_placed :
    (start : ℕ → Bool) (rest : List Reference) (r p : Reference)
    → start r.list_index ≡ true
    → (start p.list_index ≡ true) ⊎ In p (r ∷ rest)
    → (start p.list_index ≡ true) ⊎ In p rest
still_placed start rest r p gone (inl h) = inl h
still_placed start rest r p gone (inr (inl e)) =
    inl (subst (λ (t : Reference). start t.list_index ≡ true) (sym e) gone)
still_placed start rest r p gone (inr (inr m)) = inr m

first-Placed :
    (start : ℕ → Bool) (rest : List Reference) (r p : Reference)
    → (start p.list_index ≡ true) ⊎ In p (r ∷ rest)
    → Placed start (r ∷ []) rest p
first-Placed start rest r p (inl h) = inl h
first-Placed start rest r p (inr (inl e)) = inr (inl (inl e))
first-Placed start rest r p (inr (inr m)) = inr (inr m)

-- Before the walk only its first region is seen.
first_Walked :
    (refs : List Reference) (start : ℕ → Bool) (r : Reference)
    → start r.list_index ≡ false
    → Walked refs (r ∷ []) start (record { best = r; eliminated = start })
first_Walked refs start r kept = record {
  best_kept = kept;
  best_seen = inl refl;
  ends = end_of-cons start [] r (λ p m h. absurd m);
  apart = alone;
  fewer = λ i h. h;
  reasons = λ i h. inl h;
}
  where
    alone : PairsApart start (r ∷ [])
    alone p q (inl e) (inl f) hp hq ne =
        absurd (ne (ap (λ (t : Reference). t.list_index) (e ∙ sym f)))
    alone p q (inl e) (inr m) hp hq ne = absurd m
    alone p q (inr m) n hp hq ne = absurd m

module _ (above : ℕ → ℕ → Bool) (refs : List Reference) (usable : IsUsable refs)
    (start : ℕ → Bool) where
  -- What holds of both candidates holds of the best one.
  step_best :
      (P : Reference → Type 0) (w : Walk) (r : Reference)
      → P w.best
      → P r
      → P (overlap_step above w r).best
  unfolding overlap_step
  step_best P w r old new =
      if_lem (λ (t : Walk). P t.best) (r.list_index == w.best.list_index) _ _ (λ e. new)
        (λ e.
          if_lem (λ (t : Walk). P t.best) (w.eliminated r.list_index) _ _ (λ e. old)
            (λ e.
              if_lem (λ (t : Walk). P t.best) (not (regions_intersect w.best.region r.region)) _ _
                (λ e. new)
                (λ e.
                  if_lem (λ (t : Walk). P t.best) (above w.best.list_index r.list_index) _ _
                    (λ e. new) (λ e. old))))

  overlap_loop-Eliminates :
      (rest seen : List Reference) (w : Walk)
      → ((p : Reference) → In p seen → In p refs)
      → ((p : Reference) → In p rest → In p refs)
      → ((p : Reference) → In p refs → Placed start seen rest p)
      → All (λ t. w.best.region.rva ≤ t.region.rva) rest
      → IsAscending rest
      → Walked refs seen start w
      → Eliminates refs start (overlap_loop above w rest)
  unfolding overlap_loop
  overlap_loop-Eliminates [] seen w within rest_in all later ascending k = record {
    apart = λ p q mp mq hp hq ne.
        k.apart p q (kept_seen start w.eliminated seen p k.fewer (all p mp) hp)
          (kept_seen start w.eliminated seen q k.fewer (all q mq) hq) hp hq ne;
    fewer = k.fewer;
    reasons = k.reasons;
  }
  overlap_loop-Eliminates (r ∷ rest) seen w within rest_in all later ascending k =
      overlap_loop-Eliminates rest (r ∷ seen) (overlap_step above w r)
        (cons_within refs seen r (rest_in r (inl refl)) within) (λ p m. rest_in p (inr m))
        (λ p m. Placed-next start seen rest r p (all p m))
        (step_best (λ b. All (λ t. b.region.rva ≤ t.region.rva) rest) w r later.1 ascending.0)
        ascending.1
        (overlap_step-Walked above refs usable start seen within w k r (rest_in r (inl refl))
          later.0)

  later_Eliminates :
      (rest : List Reference)
      → ((p : Reference) → In p rest → In p refs)
      → ((p : Reference) → In p refs → (start p.list_index ≡ true) ⊎ In p rest)
      → IsAscending rest
      → Eliminates refs start (eliminate_overlaps above start rest)
  unfolding eliminate_overlaps
  later_Eliminates [] rest_in all ascending = record {
    apart = λ p q mp mq hp hq ne. elim (all p mp) [
      | inl gone ↦ absurd (ground arith)
      | inr m ↦ absurd m
    ];
    fewer = λ i h. h;
    reasons = λ i h. inl h;
  }
  later_Eliminates (r ∷ rest) rest_in all ascending =
      if_lem (Eliminates refs start) (start r.list_index) _ _
        (λ gone.
          later_Eliminates rest (λ p m. rest_in p (inr m))
            (λ p m. still_placed start rest r p gone (all p m)) ascending.1)
        (λ kept.
          overlap_loop-Eliminates rest (r ∷ []) (record { best = r; eliminated = start })
            (cons_within refs [] r (rest_in r (inl refl)) (λ p m. absurd m))
            (λ p m. rest_in p (inr m)) (λ p m. first-Placed start rest r p (all p m)) ascending.0
            ascending.1 (first_Walked refs start r kept))

  -- Of references in the order of their addresses, to regions that are not empty and that in one
  -- list are equal or apart, the walk leaves no two of different lists that are both kept and
  -- have a common byte; a list that had been eliminated stays so, and each list that the walk
  -- eliminates has a region with a byte of a region of another list.
  pub eliminate_overlaps-Eliminates :
      IsAscending refs → Eliminates refs start (eliminate_overlaps above start refs)
  eliminate_overlaps-Eliminates ascending =
      later_Eliminates refs (λ p m. m) (λ p m. inr m) ascending
