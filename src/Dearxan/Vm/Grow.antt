-- ===== src/Dearxan/Vm/Grow.antt =====
-- src/dearxan/vm.c: grow_blocks moves every block to the new table and loses none.
use yafsml.Prelude.{
  ℕ, suc, ◌+◌, ◌-◌, ◌*◌, ◌/◌, ◌^◌, ◌≤◌, ◌<◌, ◌≡◌, ◌≢◌, refl, sym, ap, ◌∙◌, Bool, not, ◌||◌, ◌⊎◌,
  inl, inr, Option, none, some, List, [], ◌∷◌, ◌==◌, ltb, if◌then◌else◌, arith, get_elem?, set,
  ◌>>=◌, Returns, returned, Returns-bind, Returns-mono, Returns-if, Bool-cases, Option-cases,
  replicate,
}
use yafsml.Dearxan.Vm.Blocks.{
  Block, Vm, uint64, block_size, move_blocks, grow_blocks, next_capacity, unused,
}
use yafsml.Dearxan.Vm.Holds.{
  stored, occupied, AllSound, IsTable, Unique, IsTable-Unique, stored-set, occupied-set,
  stored-replicate, occupied-replicate, empty-IsTable,
}
use yafsml.Dearxan.Vm.Probed.{probe_block-Probed, set-IsTable}

-- The table holds what `fresh` and `rest` hold together.
pub record Moved (capacity : ℕ) (rest fresh moved : List Block) : Type 0 where
  pub table : IsTable capacity moved
  pub count : occupied moved ≡ occupied fresh + occupied rest
  pub holds :
      (z : ℕ)
      → z ≢ 0
      → stored moved z
        ≡ elim (stored fresh z) as (λ _. Option Block) [ none ↦ stored rest z | some b ↦ some b ]

-- Blocks that are still to be moved are not in the new table.
abbrev Apart : List Block → List Block → Type 0
Apart rest fresh =
    (s : ℕ) (b : Block)
    → get_elem? rest s ≡ some b
    → b.index_plus_one ≢ 0
    → stored fresh b.index_plus_one ≡ none

-- A free slot is passed over.
skip-Moved :
    (capacity : ℕ) (b : Block) (bs fresh moved : List Block)
    → b.index_plus_one ≡ 0
    → Moved capacity bs fresh moved
    → Moved capacity (b ∷ bs) fresh moved
unfolding stored occupied
skip-Moved capacity b bs fresh moved empty m = record {
  table = m.table;
  count = ground (arith, m.count);
  holds = λ z h. ground (arith, m.holds z h);
}

-- A block that has gone to the new table.
put-Moved :
    (capacity : ℕ) (b : Block) (bs fresh fresh' moved : List Block)
    → b.index_plus_one ≢ 0
    → stored fresh b.index_plus_one ≡ none
    → ((z : ℕ)
        → z ≢ 0
        → stored fresh' z ≡ (if b.index_plus_one == z then some b else stored fresh z))
    → occupied fresh' ≡ suc (occupied fresh)
    → Moved capacity bs fresh' moved
    → Moved capacity (b ∷ bs) fresh moved
put-Moved capacity b bs fresh fresh' moved used absent put more m = record {
  table = m.table;
  count = unfold occupied in ground (arith, m.count);
  holds = λ z h. elim (Bool-cases (b.index_plus_one == z)) [
    | inl same ↦
        let q : b.index_plus_one ≡ z = ground arith in
        let none_yet : stored fresh z ≡ none = ap (stored fresh) (sym q) ∙ absent in
        let here : stored fresh' z ≡ some b = put z h ∙ rw same in
        m.holds z h ∙ rw (here, none_yet) (unfold stored in rw same)
    | inr other ↦
        let here : stored fresh' z ≡ stored fresh z = put z h ∙ rw other in
        let skip : stored bs z ≡ stored (b ∷ bs) z = unfold stored in rw other in
        m.holds z h
        ∙ rw here (
            ap (λ o. elim (stored fresh z) as (λ _. Option Block) [ none ↦ o | some d ↦ some d ])
              skip)
  ];
}

move_blocks-Moved :
    (capacity : ℕ) (rest fresh : List Block)
    → IsTable capacity fresh
    → Unique rest
    → AllSound rest
    → Apart rest fresh
    → occupied fresh + occupied rest < capacity
    → Returns (Moved capacity rest fresh) (move_blocks capacity rest fresh)
unfolding move_blocks
move_blocks-Moved capacity [] fresh table unique sound apart room = returned fresh (record {
  table = table;
  count = unfold occupied in omega arith;
  holds = λ z h.
      unfold stored in (elim (Option-cases (stored fresh z)) [ inl e ↦ rw e | inr (b, e) ↦ rw e ]);
})
move_blocks-Moved capacity (b ∷ bs) fresh table unique sound apart room =
    let unique' : Unique bs = λ s t c d here there same used.
      omega (arith, unique (suc s) (suc t) c d here there same used) in
    let sound' : AllSound bs = λ s c here. sound (suc s) c here in
    Returns-if (b.index_plus_one == 0)
      (λ free.
        let empty : b.index_plus_one ≡ 0 = ground arith in
        Returns-mono
          (move_blocks-Moved capacity bs fresh table unique' sound'
            (λ s c here used. apart (suc s) c here used) (unfold occupied in ground (arith, room)))
          (λ moved m. skip-Moved capacity b bs fresh moved empty m))
      (λ taken.
        let used : b.index_plus_one ≢ 0 = λ e. ground arith in
        let index = b.index_plus_one - 1 in
        let key : b.index_plus_one ≡ index + 1 = omega arith in
        let good = sound 0 b refl in
        let p = probe_block-Probed capacity fresh table index (omega (arith, good.key)) in
        let absent = apart 0 b refl used in
        let absent' : stored fresh (index + 1) ≡ none = ap (stored fresh) (sym key) ∙ absent in
        let free : p.block.index_plus_one ≡ 0 = elim p.found [
          | inl (e, n) ↦ e
          | inr (e, n) ↦ absurd (let q = sym absent' ∙ n in cc)
        ] in
        let more = occupied-set fresh p.slot p.block b p.there free used in
        let space : suc (occupied fresh + occupied bs) < capacity =
          unfold occupied in ground (arith, room) in
        rw (p.ends, ◌>>=◌)
          (Returns-mono
            (move_blocks-Moved capacity bs (set fresh p.slot b)
              (set-IsTable capacity fresh table index (omega (arith, good.key)) p.slot p.block b
                p.ends p.there free key good (omega arith))
              unique' sound'
              (λ s c here inside.
                let differ : b.index_plus_one ≢ c.index_plus_one =
                  λ same. omega (arith, unique 0 (suc s) b c refl here same used) in
                stored-set fresh p.slot p.block b c.index_plus_one p.there free inside absent
                ∙ ground (arith, differ, apart (suc s) c here inside))
              (omega arith))
            (λ moved m.
              put-Moved capacity b bs fresh (set fresh p.slot b) moved used absent
                (λ z h. stored-set fresh p.slot p.block b z p.there free h absent) more m)))

-- What growing leaves as it is: all but the order of the slots.
pub record Grown (old new : Vm) : Type 0 where
  pub table : IsTable new.block_capacity new.blocks
  pub count : occupied new.blocks ≡ occupied old.blocks
  pub holds : (z : ℕ) → z ≢ 0 → stored new.blocks z ≡ stored old.blocks z
  pub capacity : new.block_capacity ≡ next_capacity old.block_capacity
  pub bound : new.block_capacity ≤ (uint64 - 1) / block_size
  pub rest : new ≡ record old { blocks = new.blocks; block_capacity = new.block_capacity }

-- A machine's table: none at all, or one that is half full at most.
pub record IsVm (vm : Vm) : Type 0 where
  pub table : (vm.block_capacity ≡ 0 × vm.blocks ≡ []) ⊎ IsTable vm.block_capacity vm.blocks
  pub counted : occupied vm.blocks ≡ vm.block_count
  pub half : vm.block_count ≤ vm.block_capacity / 2
  pub bound : vm.block_capacity ≤ (uint64 - 1) / block_size

abbrev pub GrownOr : Vm → Option Vm → Type 0
GrownOr old none = Unit {0}
GrownOr old (some new) = Grown old new

-- The tables that there are have unique and sound blocks; no table has none.
pub IsVm-Unique : (vm : Vm) → IsVm vm → Unique vm.blocks
IsVm-Unique vm v = elim v.table [
  | inl (zero_, empty) ↦ rw empty (λ s t b c here there same used. absurd (cc))
  | inr table ↦ IsTable-Unique vm.block_capacity vm.blocks table
]

pub IsVm-AllSound : (vm : Vm) → IsVm vm → AllSound vm.blocks
IsVm-AllSound vm v = elim v.table [
  | inl (zero_, empty) ↦ rw empty (λ s b here. absurd (cc))
  | inr table ↦ table.sound
]

next_capacity_lem :
    (vm : Vm)
    → IsVm vm
    → next_capacity vm.block_capacity ≤ (uint64 - 1) / block_size
    → (k : ℕ) × (next_capacity vm.block_capacity ≡ 2 ^ k)
      × (vm.block_count < next_capacity vm.block_capacity)
next_capacity_lem vm v bound = elim v.table [
  | inl (none_yet, empty) ↦ (4, ground arith, ground (arith, v.half))
  | inr table ↦
      let positive : 0 < vm.block_capacity = omega (arith, table.room) in
      let double : next_capacity vm.block_capacity ≡ vm.block_capacity * 2 =
        ground (arith, v.bound) in
      (suc table.exponent, omega (arith, double, table.power), omega (arith, double, v.half))
]

pub grow_blocks-Grown :
    (memory : ℕ → Bool) (vm : Vm) → IsVm vm → Returns (GrownOr vm) (grow_blocks memory vm)
unfolding grow_blocks
grow_blocks-Grown memory vm v =
    let capacity = next_capacity vm.block_capacity in
    Returns-if
      (ltb capacity vm.block_capacity
        || ltb ((uint64 - 1) / block_size) capacity
        || not (memory capacity))
      (λ _. returned none tt)
      (λ allowed.
        let bound : capacity ≤ (uint64 - 1) / block_size = ground arith in
        let (k, power, more) = next_capacity_lem vm v bound in
        let zero_count = occupied-replicate capacity in
        Returns-bind
          (move_blocks-Moved capacity vm.blocks (replicate capacity unused)
            (empty-IsTable capacity k power (omega arith)) (IsVm-Unique vm v) (IsVm-AllSound vm v)
            (λ s b here used. stored-replicate capacity b.index_plus_one used)
            (omega (arith, v.counted)))
          (λ blocks m.
            returned (some (record vm { blocks = blocks; block_capacity = capacity })) (record {
              table = m.table;
              count = omega (arith, m.count);
              holds = λ z h. m.holds z h ∙ rw (stored-replicate capacity z h);
              capacity = refl;
              bound = bound;
              rest = refl;
            })))
