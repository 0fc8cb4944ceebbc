-- ===== src/Dearxan/Resolve/Overlaps.antt =====
-- src/dearxan/encryption.c: the walk over the references leaves no two lists with a common byte, and
-- eliminates only lists that have one.
use yafsml.Prelude.{
  ℕ, ◌≤◌, ◌<◌, ◌≡◌, ◌≢◌, refl, ap, sym, subst, ◌∙◌, ◌⊎◌, inl, inr, Bool, true, false, not, List, [],
  ◌∷◌, ◌==◌, arith, All, if_lem,
}
use yafsml.Dearxan.Encryption.{EncryptedRegion, regions_intersect}
use yafsml.Dearxan.RegionLists.{Reference, update}
use yafsml.Dearxan.Resolve.{Walk, overlap_step}
use yafsml.Dearxan.Resolve.Apart.{
  In, end_of, Apart, before-Apart, Apart-before, Apart-before_end, PairsApart, PairsApart-cons,
  IsUsable, end_of-cons, kept_before, kept_after, gone_before, meet_symm,
}

-- References in the order of their addresses.
abbrev pub IsAscending : List Reference → Type 0
IsAscending [] = Unit {0}
IsAscending (r ∷ refs) =
    All (λ (t : Reference). r.region.rva ≤ t.region.rva) refs × IsAscending refs

-- A list with a region that meets a region of another list.
pub record Overlaps (refs : List Reference) (i : ℕ) : Type 0 where
  pub one : Reference
  pub other : Reference
  pub one_in : In one refs
  pub other_in : In other refs
  pub own : one.list_index ≡ i
  pub foreign : other.list_index ≢ i
  pub meet : regions_intersect one.region other.region ≡ true

-- The walk behind the references `seen`.
pub record Walked (refs seen : List Reference) (start : ℕ → Bool) (w : Walk) : Type 0 where
  pub best_kept : w.eliminated w.best.list_index ≡ false
  pub best_seen : In w.best seen
  pub ends :
      (p : Reference) → In p seen → w.eliminated p.list_index ≡ false → end_of p ≤ end_of w.best
  pub apart : PairsApart w.eliminated seen
  pub fewer : (i : ℕ) → w.eliminated i ≡ false → start i ≡ false
  pub reasons : (i : ℕ) → w.eliminated i ≡ true → (start i ≡ true) ⊎ Overlaps refs i

module _ (above : ℕ → ℕ → Bool) (refs : List Reference) (usable : IsUsable refs) (start : ℕ → Bool)
    (seen : List Reference) (within : (p : Reference) → In p seen → In p refs) (w : Walk)
    (k : Walked refs seen start w) (r : Reference) (r_in : In r refs)
    (later : w.best.region.rva ≤ r.region.rva) where
  sized : (p : Reference) → In p (r ∷ seen) → 0 < p.region.size
  sized p (inl e) = subst (λ (t : Reference). 0 < t.region.size) (sym e) (usable.some_bytes r r_in)
  sized p (inr m) = usable.some_bytes p (within p m)

  best_sized : 0 < w.best.region.size
  best_sized = sized w.best (inr k.best_seen)

  -- The reference goes on behind everything that is kept.
  go_on :
      Apart w.best r
      → w.eliminated r.list_index ≡ false
      → Walked refs (r ∷ seen) start (record w { best = r })
  go_on apart kept =
      let behind = Apart-before w.best r best_sized (sized r (inl refl)) apart later in
      record {
        best_kept = kept;
        best_seen = inl refl;
        ends = end_of-cons w.eliminated seen r (λ p m h. omega (arith, k.ends p m h));
        apart =
            PairsApart-cons w.eliminated w.eliminated seen r sized (λ i h. h)
              (λ p m hp hr ne.
                before-Apart p r (sized p (inr m)) (sized r (inl refl))
                  (omega (arith, k.ends p m hp)))
              k.apart;
        fewer = k.fewer;
        reasons = k.reasons;
      }

  same_list :
      r.list_index ≡ w.best.list_index → Walked refs (r ∷ seen) start (record w { best = r })
  same_list e =
      let kept : w.eliminated r.list_index ≡ false = ap w.eliminated e ∙ k.best_kept in
      elim (usable.alone w.best r (within w.best k.best_seen) r_in (sym e)) [
        | inr apart ↦ go_on apart kept
        | inl region ↦ record {
          best_kept = kept;
          best_seen = inl refl;
          ends = end_of-cons w.eliminated seen r (λ p m h. omega (
            arith,
            k.ends p m h,
            ap (λ (t : EncryptedRegion). t.rva) region,
            ap (λ (t : EncryptedRegion). t.size) region,
          ));
          apart =
              PairsApart-cons w.eliminated w.eliminated seen r sized (λ i h. h)
                (λ p m hp hr ne.
                  subst (λ t. regions_intersect p.region t ≡ false) region
                    (k.apart p w.best m k.best_seen hp k.best_kept (λ f. ne (f ∙ sym e))))
                k.apart;
          fewer = k.fewer;
          reasons = k.reasons;
        }
      ]

  skip : w.eliminated r.list_index ≡ true → Walked refs (r ∷ seen) start w
  skip gone = record {
    best_kept = k.best_kept;
    best_seen = inr k.best_seen;
    ends = λ p m h. skipped p m h;
    apart =
        PairsApart-cons w.eliminated w.eliminated seen r sized (λ i h. h)
          (λ p m hp hr ne. absurd (ground arith)) k.apart;
    fewer = k.fewer;
    reasons = k.reasons;
  }
    where
      skipped :
          (p : Reference)
          → In p (r ∷ seen)
          → w.eliminated p.list_index ≡ false
          → end_of p ≤ end_of w.best
      skipped p (inl e) h =
          absurd (ground (arith, ap (λ (t : Reference). w.eliminated t.list_index) e))
      skipped p (inr m) h = k.ends p m h

  best_loses :
      regions_intersect w.best.region r.region ≡ true
      → r.list_index ≢ w.best.list_index
      → w.eliminated r.list_index ≡ false
      → Walked refs
          (r ∷ seen)
          start
          (record { best = r; eliminated = update w.eliminated w.best.list_index true })
  best_loses meet ne kept =
      let i = w.best.list_index in
      let behind : (p : Reference)
          → In p seen
          → update w.eliminated i true p.list_index ≡ false
          → end_of p ≤ w.best.region.rva =
        λ p m h.
          let (before, other) = kept_before w.eliminated i p.list_index h in
          Apart-before_end p w.best (sized p (inr m)) best_sized
            (k.apart p w.best m k.best_seen before k.best_kept other) (k.ends p m before) in
      record {
        best_kept = kept_after w.eliminated i r.list_index kept ne;
        best_seen = inl refl;
        ends =
            end_of-cons (update w.eliminated i true) seen r (λ p m h. omega (arith, behind p m h));
        apart =
            PairsApart-cons w.eliminated (update w.eliminated i true) seen r sized
              (λ j h. (kept_before w.eliminated i j h).0)
              (λ p m hp hr ne.
                before-Apart p r (sized p (inr m)) (sized r (inl refl))
                  (omega (arith, behind p m hp)))
              k.apart;
        fewer = λ j h. k.fewer j (kept_before w.eliminated i j h).0;
        reasons = λ j h. elim (gone_before w.eliminated i j h) [
          | inl same ↦ inr (record {
            one = w.best;
            other = r;
            one_in = within w.best k.best_seen;
            other_in = r_in;
            own = sym same;
            foreign = λ f. ne (f ∙ same);
            meet = meet;
          })
          | inr old ↦ k.reasons j old
        ];
      }

  new_loses :
      regions_intersect w.best.region r.region ≡ true
      → r.list_index ≢ w.best.list_index
      → Walked refs
          (r ∷ seen)
          start
          (record w { eliminated = update w.eliminated r.list_index true })
  new_loses meet ne =
      let i = r.list_index in
      record {
        best_kept = kept_after w.eliminated i w.best.list_index k.best_kept (λ f. ne (sym f));
        best_seen = inr k.best_seen;
        ends = λ p m h. lost p m h;
        apart =
            PairsApart-cons w.eliminated (update w.eliminated i true) seen r sized
              (λ j h. (kept_before w.eliminated i j h).0)
              (λ p m hp hr ne. absurd ((kept_before w.eliminated i i hr).1 refl)) k.apart;
        fewer = λ j h. k.fewer j (kept_before w.eliminated i j h).0;
        reasons = λ j h. elim (gone_before w.eliminated i j h) [
          | inl same ↦ inr (record {
            one = r;
            other = w.best;
            one_in = r_in;
            other_in = within w.best k.best_seen;
            own = sym same;
            foreign = λ f. ne (sym (f ∙ same));
            meet = meet_symm w.best r best_sized (sized r (inl refl)) meet;
          })
          | inr old ↦ k.reasons j old
        ];
      }
    where
      lost :
          (p : Reference)
          → In p (r ∷ seen)
          → update w.eliminated r.list_index true p.list_index ≡ false
          → end_of p ≤ end_of w.best
      lost p (inl e) h = absurd (
          (kept_before w.eliminated r.list_index p.list_index h).1
            (ap (λ (t : Reference). t.list_index) e))
      lost p (inr m) h = k.ends p m (kept_before w.eliminated r.list_index p.list_index h).0

  pub overlap_step-Walked : Walked refs (r ∷ seen) start (overlap_step above w r)
  unfolding overlap_step
  overlap_step-Walked =
      if_lem (Walked refs (r ∷ seen) start) (r.list_index == w.best.list_index) _ _
        (λ same. same_list (ground arith))
        (λ other.
          let ne : r.list_index ≢ w.best.list_index = ground arith in
          if_lem (Walked refs (r ∷ seen) start) (w.eliminated r.list_index) _ _ skip (λ kept.
            if_lem (Walked refs (r ∷ seen) start) (not (regions_intersect w.best.region r.region)) _
              _ (λ apart. go_on (ground arith) kept)
              (λ meet.
                if_lem (Walked refs (r ∷ seen) start) (above w.best.list_index r.list_index) _ _
                  (λ e. best_loses (ground arith) ne kept) (λ e. new_loses (ground arith) ne))))
