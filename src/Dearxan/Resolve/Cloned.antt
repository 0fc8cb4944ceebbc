-- ===== src/Dearxan/Resolve/Cloned.antt =====
-- src/dearxan/encryption.c: the copies of lists that the parser gave hold the regions that the parser gave.
use yafsml.Prelude.{
  zero, suc, arith, ℕ, ◌+◌, ◌-◌, ◌*◌, ◌/◌, ◌≡◌, ap, sym, subst, ◌∙◌, inl, inr, Bool, false, not,
  ◌||◌, Option, none, some, List, [], ◌∷◌, ltb, ◌==◌, length, take, All, else_some, chain_some,
  Bool-cases, take-length, value_then, value_else,
}
use mathlib.Core.Option.{some-injective}
use yafsml.Dearxan.Encryption.{EncryptedRegion, size_max}
use yafsml.Dearxan.RegionLists.{
  EncryptedRegionList, RegionCopy, clone_lists, clone_region_list, copy_regions, copy_stream,
}
use yafsml.Dearxan.Resolve.Copies.{IsParsed, AllParsed}

-- A list with as many regions as it says, as the parser gives them.
pub record IsParsedList (l : EncryptedRegionList) : Type 0 where
  pub given : List EncryptedRegion
  pub present : l.regions ≡ some given
  pub counted : l.region_count ≡ length given
  pub parsed : IsParsed given

-- A NULL among the lists is left out.
abbrev pub IsParsedItem : Option EncryptedRegionList → Type 0
IsParsedItem none = Unit {0}
IsParsedItem (some l) = IsParsedList l

-- The kind and the regions of a list are copied.
pub record IsCopy (l : EncryptedRegionList) (c : RegionCopy) : Type 0 where
  pub kind : c.kind ≡ l.kind
  pub regions : l.regions ≡ some c.regions

-- Copies of some of the lists, in their order.
pub data Picks : List (Option EncryptedRegionList) → List RegionCopy → Type 0 where
  all : Picks [] []
  left_out :
      {x : Option EncryptedRegionList} {lists : List (Option EncryptedRegionList)}
      {copies : List RegionCopy}
      → Picks lists copies
      → Picks (x ∷ lists) copies
  picked :
      {l : EncryptedRegionList} {c : RegionCopy} {lists : List (Option EncryptedRegionList)}
      {copies : List RegionCopy}
      → IsCopy l c
      → Picks lists copies
      → Picks (some l ∷ lists) (c ∷ copies)

copy_regions_given :
    (memory : ℕ → Bool) (l : EncryptedRegionList) (good : IsParsedList l)
    (rs : List EncryptedRegion)
    → l.region_count == 0 ≡ false
    → copy_regions memory l ≡ some rs
    → rs ≡ good.given
unfolding copy_regions
copy_regions_given memory l good rs some_regions e =
    let (regions, at, e1) =
      chain_some l.regions _ rs (value_else (l.region_count == 0) _ _ _ some_regions e) in
    let (room, e2) =
      else_some (ltb (size_max / 24) l.region_count || not (memory (l.region_count * 24)))
        (some (take l.region_count regions)) rs e1 in
    let same : regions ≡ good.given = some-injective regions good.given (sym at ∙ good.present) in
    let all : take l.region_count regions ≡ good.given =
      ap (λ n. take n regions) good.counted
      ∙ ap (take (length good.given)) same
      ∙ take-length good.given in
    some-injective rs good.given (sym e2 ∙ ap some all)

clone_region_list-IsCopy :
    (memory : ℕ → Bool) (l : EncryptedRegionList) (copy : RegionCopy)
    → IsParsedList l
    → l.region_count == 0 ≡ false
    → clone_region_list memory l ≡ some copy
    → IsCopy l copy
unfolding clone_region_list
clone_region_list-IsCopy memory l copy good some_regions e =
    let (regions, at, e1) = chain_some (copy_regions memory l) _ copy e in
    let (stream, read, e2) = chain_some (copy_stream memory l) _ copy e1 in
    let made : RegionCopy = record {
      kind = l.kind;
      regions = regions;
      decrypted_stream = stream;
    } in
    let same : made ≡ copy = some-injective made copy e2 in
    record {
      kind = ap (λ (t : RegionCopy). t.kind) (sym same);
      regions =
          good.present
          ∙ ap some (
              sym (copy_regions_given memory l good regions some_regions at)
              ∙ ap (λ (t : RegionCopy). t.regions) same);
    }

pub clone_lists-Picks :
    (memory reserve : ℕ → Bool) (count : ℕ) (lists : List (Option EncryptedRegionList))
    (copies : List RegionCopy)
    → All IsParsedItem lists
    → clone_lists memory reserve count lists ≡ some copies
    → Picks lists copies
unfolding clone_lists
clone_lists-Picks memory reserve count [] copies good e =
    subst (Picks []) (some-injective [] copies e) all
clone_lists-Picks memory reserve count (none ∷ lists) copies good e =
    left_out (clone_lists-Picks memory reserve count lists copies good.1 e)
clone_lists-Picks memory reserve count (some l ∷ lists) copies good e =
    elim (Bool-cases (l.region_count == 0)) [
      | inl empty ↦ left_out (
          clone_lists-Picks memory reserve count lists copies good.1
            (value_then (l.region_count == 0) _ _ _ empty e))
      | inr some_regions ↦
          let (copy, made, e1) =
            chain_some (clone_region_list memory l) _ copies
              (value_else (l.region_count == 0) _ _ _ some_regions e) in
          let (room, e2) =
            else_some
              (ltb (size_max - count) l.region_count || not (reserve (count + l.region_count))) _
              copies e1 in
          let (rest, cloned, e3) =
            chain_some (clone_lists memory reserve (count + l.region_count) lists) _ copies e2 in
          subst (Picks (some l ∷ lists)) (some-injective (copy ∷ rest) copies e3) (
            picked (clone_region_list-IsCopy memory l copy good.0 some_regions made)
              (clone_lists-Picks memory reserve (count + l.region_count) lists rest good.1 cloned))
    ]

-- Copies of lists that the parser gave hold what the parser gave.
pub Picks-AllParsed :
    {lists : List (Option EncryptedRegionList)} {copies : List RegionCopy}
    → All IsParsedItem lists
    → Picks lists copies
    → AllParsed copies
Picks-AllParsed good all k c found = absurd (ground arith)
Picks-AllParsed good (left_out more) k c found = Picks-AllParsed good.1 more k c found
Picks-AllParsed good (picked {l = l} {c = d} copy more) zero c found =
    let same : d ≡ c = some-injective d c found in
    subst IsParsed
      (some-injective good.0.given d.regions (sym good.0.present ∙ copy.regions)
        ∙ ap (λ (t : RegionCopy). t.regions) same)
      good.0.parsed
Picks-AllParsed good (picked copy more) (suc k) c found = Picks-AllParsed good.1 more k c found
