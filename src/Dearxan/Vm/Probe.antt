-- ===== src/Dearxan/Vm/Probe.antt =====
-- src/dearxan/vm.c: probe_block ends at the block of an index or at a free slot, and a write to a free
-- slot does not lead it astray.
use yafsml.Prelude.{
  ℕ, zero, suc, ◌+◌, ◌-◌, ◌%◌, ◌^◌, ◌<◌, ◌≡◌, ◌≢◌, sym, ap, ◌∙◌, true, inl, inr, some, List, ◌==◌,
  leb, if◌then◌else◌, arith, length, get_elem?, set, bit_and, done, Bool-cases, Option-cases,
  get_elem?_of_lt, get_elem?-set_self, get_elem?-set_other, get_elem?-eq_some,
}
use yafsml.Prelude.Bits.{bit_and-ones}
use native.Mathlib.Nat.{mod-eq_of_lt, mod_self}
use yafsml.Dearxan.Vm.Blocks.{Block, uint64, stops, probe_loop}

-- What a stop says: a block with the key of the index, or a free slot.
pub probe_loop-stops :
    (fuel : ℕ) (blocks : List Block) (capacity index slot t : ℕ)
    → probe_loop fuel blocks capacity index slot ≡ done t
    → (b : Block) × (get_elem? blocks t ≡ some b) × (stops index b ≡ true)
unfolding probe_loop
probe_loop-stops zero blocks capacity index slot t e = absurd (cc)
probe_loop-stops (suc fuel) blocks capacity index slot t e =
    elim (Option-cases (get_elem? blocks slot)) [
      | inl out ↦ absurd (ground arith)
      | inr (b, here) ↦ elim (Bool-cases (stops index b)) [
        | inl stop ↦ (b, ground arith, stop)
        | inr go ↦
            probe_loop-stops fuel blocks capacity index (bit_and (slot + 1) (capacity - 1)) t
              (ground arith)
      ]
    ]

-- The rounds from a slot to the slot `free`, around the end of the table.
abbrev distance : ℕ → ℕ → ℕ → ℕ
distance capacity slot free = if leb slot free then free - slot else free + capacity - slot

wrap_lem :
    (k capacity slot : ℕ)
    → capacity ≡ 2 ^ k
    → slot < capacity
    → bit_and (slot + 1) (capacity - 1) ≡ (if slot + 1 == capacity then 0 else slot + 1)
wrap_lem k capacity slot power h =
    let e : bit_and (slot + 1) (capacity - 1) ≡ (slot + 1) % capacity =
      rw power (bit_and-ones k (slot + 1)) in
    elim (Bool-cases (slot + 1 == capacity)) [
      | inl end ↦
          rw end (e ∙ (let s : slot + 1 ≡ capacity = ground arith in rw s (mod_self capacity)))
      | inr inside ↦ rw inside (e ∙ mod-eq_of_lt (ground arith))
    ]

pub probe_loop_ends :
    (k fuel : ℕ) (blocks : List Block) (capacity index slot free : ℕ) (b : Block)
    → capacity ≡ 2 ^ k
    → length blocks ≡ capacity
    → slot < capacity
    → get_elem? blocks free ≡ some b
    → b.index_plus_one ≡ 0
    → distance capacity slot free < fuel
    → (t : ℕ) × (probe_loop fuel blocks capacity index slot ≡ done t)
unfolding probe_loop
probe_loop_ends k zero blocks capacity index slot free b power width inside there empty near =
    absurd (omega arith)
probe_loop_ends k (suc fuel) blocks capacity index slot free b power width inside there empty near =
    let (c, here) = get_elem?_of_lt blocks slot (omega arith) in
    let next = bit_and (slot + 1) (capacity - 1) in
    elim (Bool-cases (stops index c)) [
      | inl stop ↦ (slot, rw (here, probe_loop) (rw stop))
      | inr go ↦
          let e = wrap_lem k capacity slot power inside in
          let bound : free < capacity = omega (arith, get_elem?-eq_some blocks free there) in
          let apart : slot ≢ free = λ same. ground arith in
          let (t, f) =
            probe_loop_ends k fuel blocks capacity index next free b power width (ground arith)
              there empty (ground (arith, apart)) in
          (t, rw (here, probe_loop) (rw go f))
    ]

-- A write to a free slot off the path.
pub probe_loop-set_other :
    (fuel : ℕ) (blocks : List Block) (capacity index slot s t : ℕ) (b new : Block)
    → probe_loop fuel blocks capacity index slot ≡ done s
    → get_elem? blocks t ≡ some b
    → b.index_plus_one ≡ 0
    → s ≢ t
    → probe_loop fuel (set blocks t new) capacity index slot ≡ done s
unfolding probe_loop
probe_loop-set_other zero blocks capacity index slot s t b new e there empty apart = absurd (cc)
probe_loop-set_other (suc fuel) blocks capacity index slot s t b new e there empty apart =
    elim (Option-cases (get_elem? blocks slot)) [
      | inl out ↦ absurd (ground arith)
      | inr (c, here) ↦ elim (Bool-cases (stops index c)) [
        | inl stop ↦
            let at : slot ≡ s = ground arith in
            let same : get_elem? (set blocks t new) slot ≡ some c =
              get_elem?-set_other blocks t slot new (λ q. apart (sym (q ∙ at))) ∙ here in
            rw (same, probe_loop) (rw stop (ap done at))
        | inr go ↦
            let off : t ≢ slot = λ q. ground arith in
            let same : get_elem? (set blocks t new) slot ≡ some c =
              get_elem?-set_other blocks t slot new off ∙ here in
            rw (same, probe_loop)
              (rw go (
                probe_loop-set_other fuel blocks capacity index (bit_and (slot + 1) (capacity - 1))
                  s t b new (ground arith) there empty apart))
      ]
    ]

-- The block of the index at the end of its own path.
pub probe_loop-set_self :
    (fuel : ℕ) (blocks : List Block) (capacity index slot t : ℕ) (new : Block)
    → probe_loop fuel blocks capacity index slot ≡ done t
    → new.index_plus_one ≡ (index + 1) % uint64
    → probe_loop fuel (set blocks t new) capacity index slot ≡ done t
unfolding probe_loop
probe_loop-set_self zero blocks capacity index slot t new e key = absurd (cc)
probe_loop-set_self (suc fuel) blocks capacity index slot t new e key =
    elim (Option-cases (get_elem? blocks slot)) [
      | inl out ↦ absurd (ground arith)
      | inr (c, here) ↦ elim (Bool-cases (slot == t)) [
        | inl at ↦
            let q : slot ≡ t = ground arith in
            let same : get_elem? (set blocks t new) slot ≡ some new =
              ap (get_elem? (set blocks t new)) q
              ∙ get_elem?-set_self blocks t new (rw q at (get_elem?-eq_some blocks slot here)) in
            let stop : stops index new ≡ true = ground arith in
            rw (same, probe_loop) (rw stop (ap done q))
        | inr off ↦
            let same : get_elem? (set blocks t new) slot ≡ some c =
              get_elem?-set_other blocks t slot new (ground arith) ∙ here in
            elim (Bool-cases (stops index c)) [
              | inl stop ↦ absurd (ground arith)
              | inr go ↦
                  rw (same, probe_loop)
                    (rw go (
                      probe_loop-set_self fuel blocks capacity index
                        (bit_and (slot + 1) (capacity - 1)) t new (ground arith) key))
            ]
      ]
    ]
