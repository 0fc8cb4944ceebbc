-- ===== src/Dearxan/Resolve/Copies.antt =====
-- src/dearxan/encryption.c: the references are to regions that the parser of region lists gave, before and
-- behind the relocation.
use yafsml.Prelude.{
  ℕ, suc, ◌+◌, ◌≤◌, ◌<◌, ◌≡◌, refl, ap, sym, subst, ◌∙◌, ◌⊎◌, inl, inr, false, some, List, [], ◌∷◌,
  ◌++◌, get_elem?, arith,
}
use yafsml.Dearxan.Encryption.{EncryptedRegion, regions_intersect, uint32_max}
use yafsml.Dearxan.Encryption.Regions.{Follow}
use yafsml.Dearxan.RegionLists.{RegionCopy, Reference, referred, references}
use yafsml.Dearxan.Resolve.Apart.{In, IsUsable}

-- Regions as the parser gives them.
pub record IsParsed (regions : List EncryptedRegion) : Type 0 where
  pub stream_size : ℕ
  pub follow : Follow 0 0 regions uint32_max stream_size

Follow-In :
    (rva start : ℕ) (rs : List EncryptedRegion) (rva' end : ℕ) (r : EncryptedRegion)
    → Follow rva start rs rva' end
    → In r rs
    → (rva ≤ r.rva) × (0 < r.size)
unfolding Follow
Follow-In rva start [] rva' end r h m = absurd m
Follow-In rva start (x ∷ rs) rva' end r h (inl e) =
    subst (λ (t : EncryptedRegion). (rva ≤ t.rva) × (0 < t.size)) (sym e) (h.0, h.1)
Follow-In rva start (x ∷ rs) rva' end r h (inr m) =
    let later = Follow-In (x.rva + x.size) (start + x.size) rs rva' end r h.3 m in
    (omega (arith, h.0, h.1), later.1)

behind_apart :
    (a b : EncryptedRegion)
    → a.rva + a.size ≤ b.rva
    → 0 < a.size
    → 0 < b.size
    → (regions_intersect a b ≡ false) × (regions_intersect b a ≡ false)
unfolding regions_intersect
behind_apart a b h p q = (ground arith, ground arith)

-- Two regions of a list are one, or apart.
Follow-alone :
    (rva start : ℕ) (rs : List EncryptedRegion) (rva' end : ℕ) (a b : EncryptedRegion)
    → Follow rva start rs rva' end
    → In a rs
    → In b rs
    → (a ≡ b) ⊎ (regions_intersect a b ≡ false)
unfolding Follow
Follow-alone rva start [] rva' end a b h m n = absurd m
Follow-alone rva start (x ∷ rs) rva' end a b h (inl e) (inl f) = inl (e ∙ sym f)
Follow-alone rva start (x ∷ rs) rva' end a b h (inl e) (inr n) =
    let later = Follow-In (x.rva + x.size) (start + x.size) rs rva' end b h.3 n in
    inr
      (subst (λ t. regions_intersect t b ≡ false) (sym e) (behind_apart x b later.0 h.1 later.1).0)
Follow-alone rva start (x ∷ rs) rva' end a b h (inr m) (inl f) =
    let later = Follow-In (x.rva + x.size) (start + x.size) rs rva' end a h.3 m in
    inr
      (subst (λ t. regions_intersect a t ≡ false) (sym f) (behind_apart x a later.0 h.1 later.1).1)
Follow-alone rva start (x ∷ rs) rva' end a b h (inr m) (inr n) =
    Follow-alone (x.rva + x.size) (start + x.size) rs rva' end a b h.3 m n

-- The list that a reference is to.
record RefersTo (copies : List RegionCopy) (i : ℕ) (p : Reference) : Type 0 where
  place : ℕ
  copy : RegionCopy
  found : get_elem? copies place ≡ some copy
  index : p.list_index ≡ i + place
  region_in : In p.region copy.regions

In-referred :
    (i : ℕ) (rs : List EncryptedRegion) (rest : List Reference) (p : Reference)
    → In p (referred i rs ++ rest)
    → ((p.list_index ≡ i) × In p.region rs) ⊎ In p rest
In-referred i [] rest p m = inr m
In-referred i (r ∷ rs) rest p (inl e) =
    inl (ap (λ (t : Reference). t.list_index) e, inl (ap (λ (t : Reference). t.region) e))
In-referred i (r ∷ rs) rest p (inr m) = elim (In-referred i rs rest p m) [
  | inl h ↦ inl (h.0, inr h.1)
  | inr n ↦ inr n
]

references-RefersTo :
    (i : ℕ) (copies : List RegionCopy) (p : Reference)
    → In p (references i copies)
    → RefersTo copies i p
unfolding references
references-RefersTo i [] p m = absurd m
references-RefersTo i (c ∷ copies) p m =
    elim (In-referred i c.regions (references (suc i) copies) p m) [
      | inl h ↦ record {
        place = 0;
        copy = c;
        found = refl;
        index = omega (arith, h.0);
        region_in = h.1;
      }
      | inr n ↦
          let t = references-RefersTo (suc i) copies p n in
          record {
            place = suc t.place;
            copy = t.copy;
            found = t.found;
            index = omega (arith, t.index);
            region_in = t.region_in;
          }
    ]

same_item :
    (copies : List RegionCopy) (i j : ℕ) (a b : RegionCopy)
    → get_elem? copies i ≡ some a
    → get_elem? copies j ≡ some b
    → i ≡ j
    → a ≡ b
same_item copies i j a b found again same = cc

abbrev pub AllParsed : List RegionCopy → Type 0
AllParsed copies = (k : ℕ) (c : RegionCopy) → get_elem? copies k ≡ some c → IsParsed c.regions

pub references-IsUsable :
    (copies : List RegionCopy) → AllParsed copies → IsUsable (references 0 copies)
references-IsUsable copies parsed = record {
  some_bytes = λ p m.
      let t = references-RefersTo 0 copies p m in
      let good = parsed t.place t.copy t.found in
      (Follow-In 0 0 t.copy.regions uint32_max good.stream_size p.region good.follow t.region_in).1;
  alone = λ p q m n same.
      let t = references-RefersTo 0 copies p m in
      let u = references-RefersTo 0 copies q n in
      let place : u.place ≡ t.place = omega (arith, t.index, u.index, same) in
      let copy : u.copy ≡ t.copy =
        same_item copies u.place t.place u.copy t.copy u.found t.found place in
      let good = parsed t.place t.copy t.found in
      Follow-alone 0 0 t.copy.regions uint32_max good.stream_size p.region q.region good.follow
        t.region_in (subst (λ (c : RegionCopy). In q.region c.regions) copy u.region_in);
}
