-- ===== src/Dearxan/Vm/Machine.antt =====
-- src/dearxan/vm.c: a machine whose tables are in order, and what find_block promises of it.
use yafsml.Prelude.{
  ℕ, ◌+◌, ◌-◌, ◌*◌, ◌/◌, ◌%◌, ◌≤◌, ◌<◌, ◌≡◌, ◌≢◌, refl, sym, ap, ◌∙◌, Bool, ◌||◌, ◌⊎◌, inl, inr,
  Option, none, some, ◌==◌, ltb, arith, length, get_elem?, take, Returns, returned, Returns-if,
  Returns-mono, Option-cases, length-take, length-drop,
}
use native.Mathlib.Nat.{mod-eq_of_lt}
use yafsml.Dearxan.Image.{Image, Available, dearxan_image_read}
use yafsml.Dearxan.Vm.Blocks.{Block, Vm, Found, uint64, block_size, make_room, fill_block}
use yafsml.Dearxan.Vm.Holds.{stored, occupied, IsSound, IsTable}
use yafsml.Dearxan.Vm.Grow.{IsVm, Grown, GrownOr, grow_blocks-Grown}

-- An image whose memory is there, or none.
abbrev pub Fits : Option Image → Type 0
Fits none = Unit {0}
Fits (some image) = image.size ≤ length image.base

read_all :
    (image : Image) (va : ℕ) (r : Available)
    → image.size ≤ length image.base
    → dearxan_image_read (some image) va 64 ≡ some r
    → length (take 64 r.bytes) ≡ 64
unfolding dearxan_image_read
read_all image va r fits e =
    let room : 64 ≤ length r.bytes = ground (arith, length-drop (va - image.base_va) image.base) in
    omega (arith, length-take 64 r.bytes)

pub fill_block-IsSound :
    (image : Option Image) (index : ℕ) (old : Block)
    → Fits image
    → index + 1 < uint64
    → IsSound old
    → (IsSound (fill_block image index old))
      × ((fill_block image index old).index_plus_one ≡ index + 1)
unfolding fill_block
fill_block-IsSound none index old fits small good = (
  record { key = omega arith; bytes = good.bytes; free = λ e. absurd (omega arith) },
  mod-eq_of_lt small,
)
fill_block-IsSound (some image) index old fits small good =
    elim (Option-cases (dearxan_image_read (some image) (index * 64 % uint64) 64)) [
      | inl e ↦
          rw (e, fill_block)
            (
              record { key = omega arith; bytes = good.bytes; free = λ e. absurd (omega arith) },
              mod-eq_of_lt small,
            )
      | inr (r, e) ↦
          rw (e, fill_block)
            (
              record {
                key = omega arith;
                bytes = read_all image (index * 64 % uint64) r fits e;
                free = λ e. absurd (omega arith);
              },
              mod-eq_of_lt small,
            )
    ]

-- What every operation keeps: the table and the memory of the image.
pub record IsMachine (vm : Vm) : Type 0 where
  pub blocks : IsVm vm
  pub image : Fits vm.image

-- Room for one more block in a table.
pub record HasRoom (vm : Vm) : Type 0 where
  pub table : IsTable vm.block_capacity vm.blocks
  pub counted : occupied vm.blocks ≡ vm.block_count
  pub room : vm.block_count + 1 ≤ vm.block_capacity / 2
  pub bound : vm.block_capacity ≤ (uint64 - 1) / block_size

-- A machine whose table holds what that of `old` holds, and the other fields of it.
pub record SameHeld (old new : Vm) : Type 0 where
  pub holds : (z : ℕ) → z ≢ 0 → stored new.blocks z ≡ stored old.blocks z
  pub rest : new ≡ record old { blocks = new.blocks; block_capacity = new.block_capacity }

abbrev pub RoomOr : Vm → Option Vm → Type 0
RoomOr old none = Unit {0}
RoomOr old (some new) = HasRoom new × SameHeld old new

Grown-room : (vm new : Vm) → IsVm vm → Grown vm new → HasRoom new
Grown-room vm new v g = record {
  table = g.table;
  counted = let count = ap (λ (m : Vm). m.block_count) g.rest in g.count ∙ v.counted ∙ sym count;
  room =
      let count = ap (λ (m : Vm). m.block_count) g.rest in
      let positive = g.table.room in ground (arith, g.capacity, v.half, g.bound, v.bound);
  bound = g.bound;
}

pub make_room-RoomOr :
    (memory : ℕ → Bool) (vm : Vm) → IsVm vm → Returns (RoomOr vm) (make_room memory vm)
unfolding make_room
make_room-RoomOr memory vm v =
    Returns-if (vm.block_capacity == 0 || ltb (vm.block_capacity / 2) (vm.block_count + 1))
      (λ _. Returns-mono (grow_blocks-Grown memory vm v) λ o.
        elim o as (λ o. GrownOr vm o → RoomOr vm o) [
          | none ↦ λ _. tt
          | some new ↦ λ g. (Grown-room vm new v g, record { holds = g.holds; rest = g.rest })
        ])
      (λ enough. returned (some vm) (
        record {
          table = elim v.table [
            | inl (none_yet, empty) ↦ absurd (ground arith)
            | inr table ↦ table
          ];
          counted = v.counted;
          room = ground arith;
          bound = v.bound;
        },
        record { holds = λ z h. refl; rest = refl },
      ))

-- The block of the index stands in the slot that was found.
pub record Holds (vm : Vm) (index slot : ℕ) (block : Block) : Type 0 where
  pub there : get_elem? vm.blocks slot ≡ some block
  pub stored_there : stored vm.blocks (index + 1) ≡ some block

-- A block that was not in the table: what the image says of it, in a slot that knew nothing.
pub record Added (old : Vm) (index : ℕ) (block : Block) : Type 0 where
  pub free : Block
  pub empty : free.known ≡ 0
  pub filled : block ≡ fill_block old.image index free

-- What a search that may add a block has found.
pub record Finds (old : Vm) (index : ℕ) (found : Found) : Type 0 where
  pub machine : IsMachine found.vm
  pub others : (z : ℕ) → z ≢ 0 → z ≢ index + 1 → stored found.vm.blocks z ≡ stored old.blocks z
  pub rest : found.vm ≡ record old {
    blocks = found.vm.blocks;
    block_capacity = found.vm.block_capacity;
    block_count = found.vm.block_count;
  }
  pub outcome :
      ((found.block ≡ none) × (found.vm ≡ old) × (stored old.blocks (index + 1) ≡ none))
      ⊎ ((slot : ℕ) × (block : Block) × (found.block ≡ some slot)
          × Holds found.vm index slot block
          × ((stored old.blocks (index + 1) ≡ some block)
              ⊎ ((stored old.blocks (index + 1) ≡ none) × Added old index block)))
