-- ===== src/Dearxan/Resolve/Apart.antt =====
-- src/dearxan/encryption.c: regions that have no byte in common, and the references to the regions of
-- several lists.
use yafsml.Prelude.{
  ℕ, ◌+◌, ◌≤◌, ◌<◌, ◌≡◌, ◌≢◌, refl, ap, sym, subst, ◌∙◌, ◌⊎◌, inl, inr, Bool, true, false, List, [],
  ◌∷◌, arith, Bool-cases, ◌==◌,
}
use yafsml.Dearxan.Encryption.{regions_intersect}
use yafsml.Dearxan.RegionLists.{Reference, update}

-- Membership, with the place.
abbrev pub In : {A : Type 0} → A → List A → Type 0
In x [] = ⊥
In x (y ∷ ys) = (x ≡ y) ⊎ In x ys

abbrev pub end_of : Reference → ℕ
end_of r = r.region.rva + r.region.size

abbrev pub Apart : Reference → Reference → Type 0
Apart a b = regions_intersect a.region b.region ≡ false

module _ (a b : Reference) (some_a : 0 < a.region.size) (some_b : 0 < b.region.size) where
  pub Apart-symm : Apart a b → Apart b a
  unfolding regions_intersect
  Apart-symm h = ground arith

  pub meet_symm :
      regions_intersect a.region b.region ≡ true → regions_intersect b.region a.region ≡ true
  unfolding regions_intersect
  meet_symm h = ground arith

  pub before-Apart : end_of a ≤ b.region.rva → Apart a b
  unfolding regions_intersect
  before-Apart h = ground arith

  -- What is apart and does not start later stands before.
  pub Apart-before : Apart a b → a.region.rva ≤ b.region.rva → end_of a ≤ b.region.rva
  unfolding regions_intersect
  Apart-before h le = ground arith

  -- So does what does not end later.
  pub Apart-before_end : Apart a b → end_of a ≤ end_of b → end_of a ≤ b.region.rva
  unfolding regions_intersect
  Apart-before_end h le = ground arith

-- Kept references of different lists have no byte in common.
abbrev pub PairsApart : (ℕ → Bool) → List Reference → Type 0
PairsApart eliminated refs =
    (p q : Reference)
    → In p refs
    → In q refs
    → eliminated p.list_index ≡ false
    → eliminated q.list_index ≡ false
    → p.list_index ≢ q.list_index
    → Apart p q

-- Regions that are not empty, and of one list equal or apart.
pub record IsUsable (refs : List Reference) : Type 0 where
  pub some_bytes : (p : Reference) → In p refs → 0 < p.region.size
  pub alone :
      (p q : Reference)
      → In p refs
      → In q refs
      → p.list_index ≡ q.list_index
      → (p.region ≡ q.region) ⊎ Apart p q

-- One more reference, and flags that keep no more.
pub PairsApart-cons :
    (flags flags' : ℕ → Bool) (seen : List Reference) (r : Reference)
    → ((p : Reference) → In p (r ∷ seen) → 0 < p.region.size)
    → ((i : ℕ) → flags' i ≡ false → flags i ≡ false)
    → ((p : Reference)
        → In p seen
        → flags' p.list_index ≡ false
        → flags' r.list_index ≡ false
        → p.list_index ≢ r.list_index
        → Apart p r)
    → PairsApart flags seen
    → PairsApart flags' (r ∷ seen)
PairsApart-cons flags flags' seen r sized fewer fresh old p q (inl e) (inl f) hp hq ne =
    absurd (ne (ap (λ (t : Reference). t.list_index) (e ∙ sym f)))
PairsApart-cons flags flags' seen r sized fewer fresh old p q (inl e) (inr mq) hp hq ne =
    subst (λ t. Apart t q) (sym e)
      (Apart-symm q r (sized q (inr mq)) (sized r (inl refl)) (
        fresh q mq hq (subst (λ (t : Reference). flags' t.list_index ≡ false) e hp)
          (λ same. ne (ap (λ (t : Reference). t.list_index) e ∙ sym same))))
PairsApart-cons flags flags' seen r sized fewer fresh old p q (inr mp) (inl f) hp hq ne =
    subst (λ t. Apart p t) (sym f)
      (fresh p mp hp (subst (λ (t : Reference). flags' t.list_index ≡ false) f hq)
        (λ same. ne (same ∙ ap (λ (t : Reference). t.list_index) (sym f))))
PairsApart-cons flags flags' seen r sized fewer fresh old p q (inr mp) (inr mq) hp hq ne =
    old p q mp mq (fewer _ hp) (fewer _ hq) ne

-- What a flag says after one more list has been eliminated.
pub kept_before :
    (flags : ℕ → Bool) (i j : ℕ) → update flags i true j ≡ false → (flags j ≡ false) × (j ≢ i)
kept_before flags i j h = ground arith

pub kept_after :
    (flags : ℕ → Bool) (i j : ℕ) → flags j ≡ false → j ≢ i → update flags i true j ≡ false
kept_after flags i j h ne = ground arith

pub gone_before :
    (flags : ℕ → Bool) (i j : ℕ) → update flags i true j ≡ true → (j ≡ i) ⊎ (flags j ≡ true)
gone_before flags i j h = elim (Bool-cases (j == i)) [
  | inl same ↦ inl (ground arith)
  | inr other ↦ inr (ground arith)
]

pub end_of-cons :
    (flags : ℕ → Bool) (seen : List Reference) (r : Reference)
    → ((p : Reference) → In p seen → flags p.list_index ≡ false → end_of p ≤ end_of r)
    → (p : Reference) → In p (r ∷ seen)
    → flags p.list_index ≡ false
    → end_of p ≤ end_of r
end_of-cons flags seen r old p (inl e) h = subst (λ t. end_of t ≤ end_of r) (sym e) (omega arith)
end_of-cons flags seen r old p (inr m) h = old p m h
