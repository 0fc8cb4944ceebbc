-- ===== src/Dearxan/Vm/Probed.antt =====
-- src/dearxan/vm.c: probe_block finds a block in a table in order, or the place where it goes.
use yafsml.Prelude.{
  ℕ, suc, ◌+◌, ◌-◌, ◌^◌, ◌<◌, ◌≡◌, ◌≢◌, sym, ap, ◌∙◌, true, ◌⊎◌, inl, inr, none, some, List, ◌==◌,
  arith, get_elem?, set, bit_and, done, Bool-cases, Option-cases, get_elem?-set_self,
  get_elem?-set_other, get_elem?-eq_some, length-set,
}
use yafsml.Prelude.Bits.{bit_and-ones}
use native.Mathlib.Nat.{mod-lt, mod-eq_of_lt}
use yafsml.Dearxan.Vm.Blocks.{Block, uint64, stops, probe_block, dearxan_hash_u64}
use yafsml.Dearxan.Vm.Probe.{
  probe_loop-stops, probe_loop_ends, probe_loop-set_other, probe_loop-set_self,
}
use yafsml.Dearxan.Vm.Holds.{
  IsSound, IsTable, done_inj, free_slot, occupied, occupied-set, stored, stored-get, stored-some,
}

-- Where a probe for an index ends.
pub record Probed (blocks : List Block) (capacity index : ℕ) : Type 0 where
  pub slot : ℕ
  pub block : Block
  pub ends : probe_block blocks capacity index ≡ done slot
  pub there : get_elem? blocks slot ≡ some block
  pub found :
      ((block.index_plus_one ≡ 0) × (stored blocks (index + 1) ≡ none))
      ⊎ ((block.index_plus_one ≡ index + 1) × (stored blocks (index + 1) ≡ some block))

module _ (capacity : ℕ) (blocks : List Block) (table : IsTable capacity blocks) (index : ℕ)
    (small : index + 1 < uint64) where
  -- The only block with the key of the index stands where the probe ends.
  stored_at :
      (t : ℕ) (b c : Block)
      → probe_block blocks capacity index ≡ done t
      → get_elem? blocks t ≡ some b
      → stored blocks (index + 1) ≡ some c
      → b ≡ c
  stored_at t b c ends there e =
      let (s, at, key) = stored-some blocks (index + 1) c e in
      let shift : c.index_plus_one - 1 ≡ index = omega arith in
      let same : t ≡ s = done_inj (
        sym ends
        ∙ ap (probe_block blocks capacity) (sym shift)
        ∙ table.placed s c at (omega arith)) in
      let both : some b ≡ some c = sym there ∙ ap (get_elem? blocks) same ∙ at in cc

  -- At a free slot the index has no block, and else the block is the one of the index.
  probed_block :
      (t : ℕ) (c : Block)
      → probe_block blocks capacity index ≡ done t
      → get_elem? blocks t ≡ some c
      → stops index c ≡ true
      → ((c.index_plus_one ≡ 0) × (stored blocks (index + 1) ≡ none))
        ⊎ ((c.index_plus_one ≡ index + 1) × (stored blocks (index + 1) ≡ some c))
  probed_block t c ends at stop = elim (Bool-cases (c.index_plus_one == 0)) [
    | inl clear ↦ inl (
      ground arith,
      elim (Option-cases (stored blocks (index + 1))) [
        | inl e ↦ e
        | inr (d, e) ↦ absurd (
            let same = stored_at t c d ends at e in
            let (s, place, key) = stored-some blocks (index + 1) d e in
            let copy = ap (λ (x : Block). x.index_plus_one) same in ground arith)
      ],
    )
    | inr used ↦
        let key : c.index_plus_one ≡ index + 1 = ground arith in
        let (d, e) = stored-get blocks t c at in
        let e' : stored blocks (index + 1) ≡ some d = ap (stored blocks) (sym key) ∙ e in
        inr (key, e' ∙ ap some (sym (stored_at t c d ends at e')))
  ]

  probe_ends : (t : ℕ) × (probe_block blocks capacity index ≡ done t)
  unfolding probe_block
  probe_ends =
      let (free, b, there, empty) = free_slot blocks (omega (arith, table.width, table.room)) in
      let k = table.exponent in
      let positive : 0 < 2 ^ k = omega (arith, table.power, table.room) in
      let start : bit_and (dearxan_hash_u64 index) (capacity - 1) < capacity =
        rw table.power (rw bit_and-ones (mod-lt (dearxan_hash_u64 index) positive)) in
      let bound : free < capacity =
        omega (arith, table.width, get_elem?-eq_some blocks free there) in
      probe_loop_ends k capacity blocks capacity index
        (bit_and (dearxan_hash_u64 index) (capacity - 1)) free b table.power table.width start there
        empty (ground arith)

  probe_stops :
      (t : ℕ)
      → probe_block blocks capacity index ≡ done t
      → (b : Block) × (get_elem? blocks t ≡ some b) × (stops index b ≡ true)
  unfolding probe_block
  probe_stops t ends = probe_loop-stops capacity blocks capacity index _ t ends

  pub probe_block-Probed : Probed blocks capacity index
  probe_block-Probed =
      let (t, ends) = probe_ends in
      let (c, at, stop) = probe_stops t ends in
      record { slot = t; block = c; ends = ends; there = at; found = probed_block t c ends at stop }

  -- A new block in the free slot where the probe for its index ends.
  pub set-IsTable :
      (t : ℕ) (old new : Block)
      → probe_block blocks capacity index ≡ done t
      → get_elem? blocks t ≡ some old
      → old.index_plus_one ≡ 0
      → new.index_plus_one ≡ index + 1
      → IsSound new
      → suc (occupied blocks) < capacity
      → IsTable capacity (set blocks t new)
  unfolding probe_block
  set-IsTable t old new ends there empty key good room = record {
    width = length-set blocks t new ∙ table.width;
    exponent = table.exponent;
    power = table.power;
    placed = λ s b at used. elim (Bool-cases (s == t)) [
      | inl same ↦
          let q : s ≡ t = ground arith in
          let mine : some b ≡ some new =
            sym at
            ∙ ap (get_elem? (set blocks t new)) q
            ∙ get_elem?-set_self blocks t new (get_elem?-eq_some blocks t there) in
          let mine' : b ≡ new = cc in
          let shift : b.index_plus_one - 1 ≡ index =
            omega (arith, ap (λ (x : Block). x.index_plus_one) mine') in
          rw (shift, q)
            (probe_loop-set_self capacity blocks capacity index _ t new ends
              (key ∙ sym (mod-eq_of_lt small)))
      | inr other ↦
          let off : t ≢ s = λ q. ground arith in
          let old_at : get_elem? blocks s ≡ some b =
            sym (get_elem?-set_other blocks t s new off) ∙ at in
          probe_loop-set_other capacity blocks capacity (b.index_plus_one - 1) _ s t old new
            (table.placed s b old_at used) there empty (λ q. off (sym q))
    ];
    room = omega (arith, occupied-set blocks t old new there empty (omega arith));
    sound = λ s b at. elim (Bool-cases (s == t)) [
      | inl same ↦
          let q : s ≡ t = ground arith in
          let mine : some b ≡ some new =
            sym at
            ∙ ap (get_elem? (set blocks t new)) q
            ∙ get_elem?-set_self blocks t new (get_elem?-eq_some blocks t there) in
          let mine' : new ≡ b = cc in rw (← mine') good
      | inr other ↦
          table.sound s b (sym (get_elem?-set_other blocks t s new (λ q. ground arith)) ∙ at)
    ];
  }
