-- ===== src/Process/CpuSets/Lowest.antt =====
-- What the search for a logical CPU finds.
use yafsml.Prelude.{
  ℕ, suc, ◌≡◌, refl, sym, ◌∙◌, Bool, true, false, ◌&&◌, Option, none, some, List, [], ◌∷◌, All,
  get_elem?, subst, arith, Bool-cases, inl, inr, ◌⊎◌,
}
use mathlib.Core.Option.{some-injective}
use yafsml.Process.CpuSets.{
  CpuSet, is_lower_logical_cpu, is_candidate, is_better, first_loop, find_first_matching_cpu_set,
}

-- No candidate is below what the search has found, and it is found if there is a candidate.
pub AtMost : (CpuSet → Bool) → Option CpuSet → CpuSet → Type 0
AtMost candidate none s = candidate s ≡ false
AtMost candidate (some e) s = candidate s ≡ true → is_lower_logical_cpu s e ≡ false

not_candidate :
    (candidate : CpuSet → Bool) (r : Option CpuSet) (s : CpuSet)
    → candidate s ≡ false
    → AtMost candidate r s
unfolding AtMost
not_candidate candidate none s h = h
not_candidate candidate (some e) s h = λ c. absurd (ground arith)

lower_trans :
    (a b c : CpuSet)
    → is_lower_logical_cpu a b ≡ false
    → is_lower_logical_cpu b c ≡ false
    → is_lower_logical_cpu a c ≡ false
lower_trans a b c h k = ground arith

lower_asym : (a b : CpuSet) → is_lower_logical_cpu a b ≡ true → is_lower_logical_cpu b a ≡ false
lower_asym a b h = ground arith

module _ (m : Bool) (c : ℕ) where
  step_better :
      (f : Option CpuSet) (s : CpuSet) (ss : List CpuSet)
      → (is_candidate m c s && is_better s f) ≡ true
      → first_loop m c (some s) ss ≡ first_loop m c f (s ∷ ss)
  unfolding first_loop
  step_better f s ss h = rw (h, first_loop)

  step_kept :
      (f : Option CpuSet) (s : CpuSet) (ss : List CpuSet)
      → (is_candidate m c s && is_better s f) ≡ false
      → first_loop m c f ss ≡ first_loop m c f (s ∷ ss)
  unfolding first_loop
  step_kept f s ss h = rw (h, first_loop)

  -- A search only goes down.
  first_loop-lower :
      (e : CpuSet) (ss : List CpuSet)
      → (e' : CpuSet) × (first_loop m c (some e) ss ≡ some e') × (is_lower_logical_cpu e e' ≡ false)
  unfolding first_loop
  first_loop-lower e [] = (e, refl, ground arith)
  first_loop-lower e (s ∷ ss) = elim (Bool-cases (is_candidate m c s && is_better s (some e))) [
    | inl better ↦
        let (e', found, low) = first_loop-lower s ss in
        let down : is_lower_logical_cpu s e ≡ true = ground arith in
        (
          e',
          sym (step_better (some e) s ss better) ∙ found,
          lower_trans e s e' (lower_asym s e down) low,
        )
    | inr kept ↦
        let (e', found, low) = first_loop-lower e ss in
        (e', sym (step_kept (some e) s ss kept) ∙ found, low)
  ]

  AtMost-from :
      (s e : CpuSet) (ss : List CpuSet)
      → is_lower_logical_cpu s e ≡ false
      → AtMost (is_candidate m c) (first_loop m c (some e) ss) s
  unfolding AtMost
  AtMost-from s e ss h =
      let (e', found, low) = first_loop-lower e ss in
      subst (λ r. AtMost (is_candidate m c) r s) (sym found) (λ k. lower_trans s e e' h low)

  kept_head :
      (f : Option CpuSet) (s : CpuSet) (ss : List CpuSet)
      → (is_candidate m c s && is_better s f) ≡ false
      → AtMost (is_candidate m c) (first_loop m c f ss) s
  kept_head none s ss kept =
      not_candidate (is_candidate m c) (first_loop m c none ss) s (ground arith)
  kept_head (some e) s ss kept = elim (Bool-cases (is_candidate m c s)) [
    | inl fits ↦ AtMost-from s e ss (ground arith)
    | inr other ↦ not_candidate (is_candidate m c) (first_loop m c (some e) ss) s other
  ]

  first_loop-AtMost :
      (f : Option CpuSet) (ss : List CpuSet)
      → All (AtMost (is_candidate m c) (first_loop m c f ss)) ss
  first_loop-AtMost f [] = tt
  first_loop-AtMost f (s ∷ ss) = elim (Bool-cases (is_candidate m c s && is_better s f)) [
    | inl better ↦
        subst (λ r. All (AtMost (is_candidate m c) r) (s ∷ ss)) (step_better f s ss better)
          (AtMost-from s s ss (ground arith), first_loop-AtMost (some s) ss)
    | inr kept ↦
        subst (λ r. All (AtMost (is_candidate m c) r) (s ∷ ss)) (step_kept f s ss kept)
          (kept_head f s ss kept, first_loop-AtMost f ss)
  ]

  -- What is found was there before, or is a candidate of the list.
  first_loop-found :
      (f : Option CpuSet) (ss : List CpuSet) (e : CpuSet)
      → first_loop m c f ss ≡ some e
      → (f ≡ some e) ⊎ ((is_candidate m c e ≡ true) × ((i : ℕ) × (get_elem? ss i ≡ some e)))
  unfolding first_loop
  first_loop-found f [] e h = inl h
  first_loop-found f (s ∷ ss) e h = elim (Bool-cases (is_candidate m c s && is_better s f)) [
    | inl better ↦ elim (first_loop-found (some s) ss e (step_better f s ss better ∙ h)) [
      | inl same ↦
          let fits : is_candidate m c s ≡ true = ground arith in
          inr (subst (λ x. is_candidate m c x ≡ true) (some-injective s e same) fits, (0, same))
      | inr (fits, (i, there)) ↦ inr (fits, (suc i, there))
    ]
    | inr kept ↦ elim (first_loop-found f ss e (step_kept f s ss kept ∙ h)) [
      | inl same ↦ inl same
      | inr (fits, (i, there)) ↦ inr (fits, (suc i, there))
    ]
  ]

-- The logical CPU that is found is one of the entries and a candidate, and no candidate stands
-- below it in the order by group, index and id. If none is found, no entry is a candidate.
pub find_first_matching_cpu_set-AtMost :
    (sets : List CpuSet) (match_class : Bool) (selected_class : ℕ)
    → All
        (AtMost
          (is_candidate match_class selected_class)
          (find_first_matching_cpu_set sets match_class selected_class))
        sets
      × ((e : CpuSet)
          → find_first_matching_cpu_set sets match_class selected_class ≡ some e
          → (is_candidate match_class selected_class e ≡ true)
            × ((i : ℕ) × (get_elem? sets i ≡ some e)))
find_first_matching_cpu_set-AtMost sets match_class selected_class = (
  first_loop-AtMost match_class selected_class none sets,
  λ e h. elim (first_loop-found match_class selected_class none sets e h) [
    | inl never ↦ absurd (ground arith)
    | inr found ↦ found
  ],
)
