-- ===== src/Dearxan/Vm/Table.antt =====
-- src/dearxan/vm.c: find_block finds the block of an index, whether it was in the table, or has just
-- been added, with or without growing.
use yafsml.Prelude.{
  ℕ, ◌+◌, ◌<◌, ◌≡◌, ◌≢◌, refl, sym, ap, ◌∙◌, Bool, true, false, inl, inr, Option, none, some, ◌==◌,
  arith, get_elem?, set, Run, done, ◌>>=◌, Returns, returned, Returns-bind, get_elem?-set_self,
  get_elem?-eq_some,
}
use yafsml.Dearxan.Vm.Blocks.{
  Block, Vm, Found, uint64, probe_block, insert_block, fill_block, add_block, find_existing_block,
  find_block,
}
use yafsml.Dearxan.Vm.Holds.{stored, stored-set, occupied-set}
use yafsml.Dearxan.Vm.Probed.{probe_block-Probed, set-IsTable}
use yafsml.Dearxan.Vm.Machine.{
  Finds, HasRoom, Holds, IsMachine, RoomOr, SameHeld, fill_block-IsSound, make_room-RoomOr,
}

module _ (old : Vm) (index : ℕ) (small : index + 1 < uint64) (m : IsMachine old)
    (absent : stored old.blocks (index + 1) ≡ none) where
  -- The machine with the new block in the free slot `slot`.
  abbrev inserted : Vm → ℕ → Block → Vm
  inserted vm slot free = record vm {
    blocks = set vm.blocks slot (fill_block vm.image index free);
    block_count = vm.block_count + 1;
  }

  abbrev result : Vm → ℕ → Block → Found
  result vm slot free = record { block = some slot; vm = inserted vm slot free }

  insert_Finds :
      (vm : Vm) (slot : ℕ) (free : Block)
      → HasRoom vm
      → SameHeld old vm
      → probe_block vm.blocks vm.block_capacity index ≡ done slot
      → get_elem? vm.blocks slot ≡ some free
      → free.index_plus_one ≡ 0
      → Finds old index (result vm slot free)
  insert_Finds vm slot free room same ends there empty =
      let image : vm.image ≡ old.image = ap (λ (v : Vm). v.image) same.rest in
      let new = fill_block vm.image index free in
      let clean = room.table.sound slot free there in
      let (good, key) = fill_block-IsSound vm.image index free (rw image m.image) small clean in
      let used : new.index_plus_one ≢ 0 = λ e. omega (arith, key) in
      let absent' : stored vm.blocks new.index_plus_one ≡ none =
        ap (stored vm.blocks) key ∙ same.holds (index + 1) (omega arith) ∙ absent in
      let more = occupied-set vm.blocks slot free new there empty used in
      let put = λ (z : ℕ) (h : z ≢ 0). stored-set vm.blocks slot free new z there empty h absent' in
      record {
        machine = record {
          blocks = record {
            table = inr (
                set-IsTable vm.block_capacity vm.blocks room.table index small slot free new ends
                  there empty key good (omega (arith, room.counted, room.room)));
            counted = omega (arith, more, room.counted);
            half = room.room;
            bound = room.bound;
          };
          image = rw image m.image;
        };
        others = λ z h off.
            put z h
            ∙ (let miss : (new.index_plus_one == z) ≡ false = ground (arith, key) in
                rw miss (same.holds z h));
        rest =
            ap
              (λ (v : Vm). record v {
                blocks = set vm.blocks slot new;
                block_count = vm.block_count + 1;
              })
              same.rest;
        outcome = inr (
          slot,
          new,
          refl,
          record {
            there = get_elem?-set_self vm.blocks slot new (get_elem?-eq_some vm.blocks slot there);
            stored_there =
                put (index + 1) (omega arith)
                ∙ (let hit : (new.index_plus_one == index + 1) ≡ true = ground (arith, key) in
                    rw hit);
          },
          inr (
            absent,
            record {
              free = free;
              empty = clean.free empty;
              filled = ap (λ i. fill_block i index free) image;
            },
          ),
        );
      }

  insert_block-Finds :
      (vm : Vm) → HasRoom vm → SameHeld old vm → Returns (Finds old index) (insert_block vm index)
  unfolding insert_block
  insert_block-Finds vm room same =
      let p = probe_block-Probed vm.block_capacity vm.blocks room.table index small in
      let absent' = same.holds (index + 1) (omega arith) ∙ absent in
      let empty : p.block.index_plus_one ≡ 0 = elim p.found [
        | inl (e, n) ↦ e
        | inr (e, n) ↦ absurd (let q = sym absent' ∙ n in cc)
      ] in
      rw (p.ends, ◌>>=◌)
        (rw p.there (
          returned (result vm p.slot p.block)
            (insert_Finds vm p.slot p.block room same p.ends p.there empty)))

  unchanged : Finds old index (record { block = none; vm = old })
  unchanged = record {
    machine = m;
    others = λ z h off. refl;
    rest = refl;
    outcome = inl (refl, refl, absent);
  }

  add_block-Finds : (memory : ℕ → Bool) → Returns (Finds old index) (add_block memory old index)
  unfolding add_block
  add_block-Finds memory = Returns-bind (make_room-RoomOr memory old m.blocks) λ o.
      elim o
        as (λ o.
          RoomOr old o
          → Returns (Finds old index) (elim o as (λ _. Run Found) [
            | none ↦ done (record { block = none; vm = old })
            | some grown ↦ insert_block grown index
          ])) [
            | none ↦ λ _. returned _ unchanged
            | some grown ↦ λ (room, same). insert_block-Finds grown room same
          ]

module _ (vm : Vm) (index : ℕ) (small : index + 1 < uint64) (m : IsMachine vm) where
  -- The answer of find_existing_block.
  abbrev pub Existing : Option ℕ → Type 0
  Existing none = stored vm.blocks (index + 1) ≡ none
  Existing (some slot) = (block : Block) × Holds vm index slot block

  pub find_existing_block-Existing : Returns Existing (find_existing_block vm index)
  unfolding find_existing_block
  find_existing_block-Existing = elim m.blocks.table [
    | inl (none_yet, empty) ↦
        let bare : (vm.block_capacity == 0) ≡ true = ground arith in
        rw (bare, find_existing_block)
          (returned none (unfold stored in ap (λ bs. stored bs (index + 1)) empty))
    | inr table ↦
        let p = probe_block-Probed vm.block_capacity vm.blocks table index small in
        let some_slots : (vm.block_capacity == 0) ≡ false = ground (arith, table.room) in
        rw (some_slots, find_existing_block)
          (rw (p.ends, ◌>>=◌)
            (rw p.there (elim p.found [
              | inl (free, absent) ↦
                  let hit : (p.block.index_plus_one == 0) ≡ true = ground arith in
                  rw hit (returned none absent)
              | inr (key, held) ↦
                  let miss : (p.block.index_plus_one == 0) ≡ false = ground arith in
                  rw miss (
                    returned (some p.slot)
                      (p.block, record { there = p.there; stored_there = held }))
            ])))
  ]

  -- In a machine whose tables are in order, find_block with create ends with the slot of the one
  -- block of the index: the block that was there, or a new one filled from the image. Every other
  -- index has the block that it had, although the table may have grown and moved them all.
  -- Without a slot the machine is unchanged and the block was missing.
  pub find_block-Finds :
      (memory : ℕ → Bool) → Returns (Finds vm index) (find_block memory vm index true)
  unfolding find_block
  find_block-Finds memory = Returns-bind find_existing_block-Existing λ o.
      elim o
        as (λ o.
          Existing o
          → Returns (Finds vm index) (elim o as (λ _. Run Found) [
            | some slot ↦ done (record { block = some slot; vm = vm })
            | none ↦ add_block memory vm index
          ])) [
            | none ↦ λ absent. add_block-Finds vm index small m absent memory
            | some slot ↦ λ (block, held). returned _ (record {
              machine = m;
              others = λ z h off. refl;
              rest = refl;
              outcome = inr (slot, block, refl, held, inl held.stored_there);
            })
          ]
