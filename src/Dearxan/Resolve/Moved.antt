-- ===== src/Dearxan/Resolve/Moved.antt =====
-- src/dearxan/encryption.c: the relocation of the copies changes nothing but their streams.
use yafsml.Prelude.{
  ℕ, zero, suc, ◌≡◌, refl, ap, sym, subst, ◌∙◌, Option, none, some, List, [], ◌∷◌, get_elem?, set,
  if_lem, arith,
}
use mathlib.Core.Option.{some-injective}
use yafsml.Dearxan.Image.{Image}
use yafsml.Dearxan.RegionLists.{
  RegionCopy, Reference, Candidates, relocate_loop, relocate_reference, relocate_region,
  with_stream, drop_below,
}

-- The same list, but for its stream.
pub record IsSameList (c d : RegionCopy) : Type 0 where
  pub kind : c.kind ≡ d.kind
  pub regions : c.regions ≡ d.regions

abbrev pub SameLists : List RegionCopy → List RegionCopy → Type 0
SameLists [] [] = Unit {0}
SameLists [] (d ∷ ds) = ⊥
SameLists (c ∷ cs) [] = ⊥
SameLists (c ∷ cs) (d ∷ ds) = IsSameList c d × SameLists cs ds

SameLists-refl : (cs : List RegionCopy) → SameLists cs cs
SameLists-refl [] = tt
SameLists-refl (c ∷ cs) = (record { kind = refl; regions = refl }, SameLists-refl cs)

SameLists-trans : (xs ys zs : List RegionCopy) → SameLists xs ys → SameLists ys zs → SameLists xs zs
SameLists-trans [] [] [] h k = tt
SameLists-trans [] [] (z ∷ zs) h k = absurd k
SameLists-trans [] (y ∷ ys) zs h k = absurd h
SameLists-trans (x ∷ xs) [] zs h k = absurd h
SameLists-trans (x ∷ xs) (y ∷ ys) [] h k = absurd k
SameLists-trans (x ∷ xs) (y ∷ ys) (z ∷ zs) h k = (
  record { kind = h.0.kind ∙ k.0.kind; regions = h.0.regions ∙ k.0.regions },
  SameLists-trans xs ys zs h.1 k.1,
)

-- A place of the later lists is the same place of the earlier ones.
pub SameLists-get :
    (cs ds : List RegionCopy) (k : ℕ) (d : RegionCopy)
    → SameLists cs ds
    → get_elem? ds k ≡ some d
    → (c : RegionCopy) × (get_elem? cs k ≡ some c) × (c.regions ≡ d.regions)
SameLists-get [] [] k d h at = absurd (ground arith)
SameLists-get [] (e ∷ ds) k d h at = absurd h
SameLists-get (c ∷ cs) [] k d h at = absurd h
SameLists-get (c ∷ cs) (e ∷ ds) zero d h at =
    (c, refl, h.0.regions ∙ ap (λ (t : RegionCopy). t.regions) (some-injective e d at))
SameLists-get (c ∷ cs) (e ∷ ds) (suc k) d h at = SameLists-get cs ds k d h.1 at

set-SameLists :
    (cs : List RegionCopy) (i : ℕ) (c d : RegionCopy)
    → get_elem? cs i ≡ some c
    → IsSameList c d
    → SameLists cs (set cs i d)
set-SameLists [] i c d at same = tt
set-SameLists (x ∷ cs) zero c d at same =
    (subst (λ t. IsSameList t d) (sym (some-injective x c at)) same, SameLists-refl cs)
set-SameLists (x ∷ cs) (suc i) c d at same =
    (record { kind = refl; regions = refl }, set-SameLists cs i c d at same)

relocate_reference-SameLists :
    (image : Image) (r : Reference) (items : List ℕ) (c : Candidates)
    → SameLists c.copies (relocate_reference image r items c).copies
unfolding relocate_reference
relocate_reference-SameLists image r items c = moved (get_elem? c.copies r.list_index) refl
  where
    moved :
        (o : Option RegionCopy)
        → get_elem? c.copies r.list_index ≡ o
        → SameLists c.copies
            (elim o as (λ x. Candidates) [
              | none ↦ c
              | some copy ↦
                  with_stream c r copy (relocate_region image r.region copy.decrypted_stream items)
            ]).copies
    moved none found = SameLists-refl c.copies
    moved (some copy) found =
        set-SameLists c.copies r.list_index copy _ found (record { kind = refl; regions = refl })

tried-SameLists :
    (c : Candidates) (items : List ℕ) (rest : Candidates)
    → SameLists c.copies rest.copies
    → SameLists c.copies (elim items as (λ x. Candidates) [ [] ↦ c | item ∷ more ↦ rest ]).copies
tried-SameLists c [] rest h = SameLists-refl c.copies
tried-SameLists c (item ∷ more) rest h = h

pub relocate_loop-SameLists :
    (image : Image) (refs : List Reference) (items : List ℕ) (c : Candidates)
    → SameLists c.copies (relocate_loop image refs items c).copies
unfolding relocate_loop
relocate_loop-SameLists image [] items c = SameLists-refl c.copies
relocate_loop-SameLists image (r ∷ refs) items c =
    if_lem (λ (t : Candidates). SameLists c.copies t.copies) (c.eliminated r.list_index) _ _
      (λ e. relocate_loop-SameLists image refs items c)
      (λ e.
        let items' = drop_below r.region.rva items in
        let moved = relocate_reference image r items' c in
        tried-SameLists c items' (relocate_loop image refs items' moved) (
          SameLists-trans c.copies moved.copies _ (relocate_reference-SameLists image r items' c)
            (relocate_loop-SameLists image refs items' moved)))
