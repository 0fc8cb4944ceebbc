-- ===== src/Dearxan/Vm/Update.antt =====
-- src/dearxan/vm.c: a block that changes in its slot keeps its place, and the others what they are.
use yafsml.Prelude.{
  ℕ, zero, suc, ◌+◌, ◌-◌, ◌≡◌, ◌≢◌, refl, sym, ap, ◌∙◌, ◌⊎◌, inl, inr, some, List, [], ◌∷◌, ◌==◌,
  if◌then◌else◌, arith, get_elem?, set, bit_and, Bool-cases, Option-cases, get_elem?-set_self,
  get_elem?-set_other, get_elem?-eq_some, length-set,
}
use yafsml.Dearxan.Vm.Blocks.{Block, Vm, stops, probe_loop, probe_block}
use yafsml.Dearxan.Vm.Holds.{stored, occupied, IsSound, IsTable, Unique}
use yafsml.Dearxan.Vm.Grow.{IsVm, IsVm-Unique}

-- A slot reads as `new` where it was changed.
pub get_elem?-set :
    (blocks : List Block) (t s : ℕ) (old new b : Block)
    → get_elem? blocks t ≡ some old
    → get_elem? (set blocks t new) s ≡ some b
    → ((s ≡ t) × (new ≡ b)) ⊎ ((s ≢ t) × (get_elem? blocks s ≡ some b))
get_elem?-set blocks t s old new b there at = elim (Bool-cases (s == t)) [
  | inl same ↦
      let q : s ≡ t = ground arith in
      let mine : some b ≡ some new =
        sym at
        ∙ ap (get_elem? (set blocks t new)) q
        ∙ get_elem?-set_self blocks t new (get_elem?-eq_some blocks t there) in
      inl (q, cc)
  | inr other ↦
      inr (λ q. ground arith, sym (get_elem?-set_other blocks t s new (λ q. ground arith)) ∙ at)
]

module _ (blocks : List Block) (t : ℕ) (old new : Block) (there : get_elem? blocks t ≡ some old)
    (key : new.index_plus_one ≡ old.index_plus_one) where
  probe_loop-update :
      (fuel capacity index slot : ℕ)
      → probe_loop fuel (set blocks t new) capacity index slot
        ≡ probe_loop fuel blocks capacity index slot
  unfolding probe_loop
  probe_loop-update zero capacity index slot = refl
  probe_loop-update (suc fuel) capacity index slot =
      let rest = probe_loop-update fuel capacity index (bit_and (slot + 1) (capacity - 1)) in
      elim (Bool-cases (slot == t)) [
        | inl same ↦
            let q : slot ≡ t = ground arith in
            let mine =
              ap (get_elem? (set blocks t new)) q
              ∙ get_elem?-set_self blocks t new (get_elem?-eq_some blocks t there) in
            let before = ap (get_elem? blocks) q ∙ there in
            rw (mine, before, probe_loop)
              (rw rest (let k : stops index new ≡ stops index old = ground arith in rw k))
        | inr other ↦
            let e = get_elem?-set_other blocks t slot new (λ q. ground arith) in
            elim (Option-cases (get_elem? blocks slot)) [
              | inl out ↦ let e' = e ∙ out in rw (e', out, probe_loop)
              | inr (b, at) ↦ let e' = e ∙ at in rw (e', at, probe_loop) (rw rest)
            ]
      ]

  update-IsTable :
      (capacity : ℕ)
      → IsTable capacity blocks
      → IsSound new
      → old.index_plus_one ≢ 0
      → occupied (set blocks t new) ≡ occupied blocks
      → IsTable capacity (set blocks t new)
  unfolding probe_block
  update-IsTable capacity table good used count = record {
    width = length-set blocks t new ∙ table.width;
    exponent = table.exponent;
    power = table.power;
    placed = λ s b at taken.
        probe_loop-update capacity capacity (b.index_plus_one - 1) _
        ∙ elim (get_elem?-set blocks t s old new b there at) [
          | inl (q, mine) ↦
              let same : old.index_plus_one ≡ b.index_plus_one =
                sym key ∙ ap (λ (x : Block). x.index_plus_one) mine in
              rw (q, ← same) (table.placed t old there used)
          | inr (off, at') ↦ table.placed s b at' taken
        ];
    room = omega (arith, count, table.room);
    sound = λ s b at. elim (get_elem?-set blocks t s old new b there at) [
      | inl (q, mine) ↦ rw (← mine) good
      | inr (off, at') ↦ table.sound s b at'
    ];
  }

pub occupied-update :
    (blocks : List Block) (t : ℕ) (old new : Block)
    → get_elem? blocks t ≡ some old
    → new.index_plus_one ≡ old.index_plus_one
    → occupied (set blocks t new) ≡ occupied blocks
unfolding occupied
occupied-update [] t old new there key = refl
occupied-update (b ∷ bs) zero old new there key = ground arith
occupied-update (b ∷ bs) (suc t) old new there key =
    ground (arith, occupied-update bs t old new there key)

stored-update :
    (blocks : List Block) (t : ℕ) (old new : Block) (z : ℕ)
    → Unique blocks
    → get_elem? blocks t ≡ some old
    → new.index_plus_one ≡ old.index_plus_one
    → old.index_plus_one ≢ 0
    → stored (set blocks t new) z ≡ (if new.index_plus_one == z then some new else stored blocks z)
unfolding stored
stored-update [] t old new z unique there key used = absurd (cc)
stored-update (b ∷ bs) zero old new z unique there key used = ground arith
stored-update (b ∷ bs) (suc t) old new z unique there key used =
    let differ : b.index_plus_one ≢ old.index_plus_one =
      λ q. omega (arith, unique 0 (suc t) b old refl there q (λ e. used (sym q ∙ e))) in
    let rest =
      stored-update bs t old new z
        (λ s u c d at at' same taken. omega (arith, unique (suc s) (suc u) c d at at' same taken))
        there key used in
    ground (arith, differ)

-- A change of a block that keeps its key.
module _ (vm : Vm) (v : IsVm vm) (t : ℕ) (old new : Block)
    (there : get_elem? vm.blocks t ≡ some old) (key : new.index_plus_one ≡ old.index_plus_one)
    (used : old.index_plus_one ≢ 0) (good : IsSound new) where
  pub update-IsVm : IsVm (record vm { blocks = set vm.blocks t new })
  update-IsVm =
      let count = occupied-update vm.blocks t old new there key in
      record {
        table = elim v.table [
          | inl (bare, empty) ↦ absurd (
              let e : get_elem? [] t ≡ some old = ap (λ bs. get_elem? bs t) (sym empty) ∙ there in
              cc)
          | inr table ↦
              inr (
                update-IsTable vm.blocks t old new there key vm.block_capacity table good used
                  count)
        ];
        counted = count ∙ v.counted;
        half = v.half;
        bound = v.bound;
      }

  pub update-stored :
      (z : ℕ)
      → stored (set vm.blocks t new) z
        ≡ (if new.index_plus_one == z then some new else stored vm.blocks z)
  update-stored z = stored-update vm.blocks t old new z (IsVm-Unique vm v) there key used
