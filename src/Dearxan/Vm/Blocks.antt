-- ===== src/Dearxan/Vm/Blocks.antt =====
-- src/dearxan/vm.c: the table of the blocks of memory, open-addressed with linear probing, and
-- dearxan_hash_u64 of src/dearxan/util.h. A table is the list of its slots, a pointer to a block its slot,
-- and `memory` what calloc answers for a number of slots.
use yafsml.Prelude.{
  ℕ, zero, suc, ◌+◌, ◌-◌, ◌*◌, ◌/◌, ◌%◌, ◌^◌, Bool, not, ◌||◌, Option, none, some, List, [], ◌∷◌,
  Bytes, ltb, ◌==◌, if◌then◌else◌, get_elem?, set, take, bit_and, bit_xor, Run, done, fault, stuck,
  ◌>>=◌, replicate,
}
use yafsml.Dearxan.Image.{Image, dearxan_image_read}

abbrev pub uint64 : ℕ
uint64 = 2 ^ 64

-- dearxan_vm_memory_block: bit i of `known` is about byte i.
pub record Block : Type 0 where
  pub index_plus_one : ℕ
  pub known : ℕ
  pub bytes : Bytes

-- dearxan_vm_registers_t
pub record Registers : Type 0 where
  pub values : List ℕ
  pub known : ℕ

-- dearxan_vm_t
pub record Vm : Type 0 where
  pub image : Option Image
  pub rip : ℕ
  pub rip_known : Bool
  pub registers : Registers
  pub blocks : List Block
  pub block_capacity : ℕ
  pub block_count : ℕ

unfoldable pub dearxan_hash_u64 : ℕ → ℕ
dearxan_hash_u64 value =
    let a = bit_xor value (value / 2 ^ 30) in
    let b = a * 0xbf58476d1ce4e5b9 % uint64 in
    let c = bit_xor b (b / 2 ^ 27) in
    let d = c * 0x94d049bb133111eb % uint64 in bit_xor d (d / 2 ^ 31)

-- VM_MEMORY_MIN_CAPACITY and sizeof(dearxan_vm_memory_block_t)
abbrev pub min_capacity : ℕ
min_capacity = 16

abbrev pub block_size : ℕ
block_size = 80

-- What calloc leaves in a slot.
abbrev pub unused : Block
unused = record { index_plus_one = 0; known = 0; bytes = replicate 64 0 }

-- The block of an index, or a free slot.
abbrev pub stops : ℕ → Block → Bool
stops index block = block.index_plus_one == 0 || block.index_plus_one == (index + 1) % uint64

-- The loop of probe_block; it takes a round for each slot at most.
unfoldable pub probe_loop : ℕ → List Block → ℕ → ℕ → ℕ → Run ℕ
probe_loop zero blocks capacity index slot = stuck
probe_loop (suc fuel) blocks capacity index slot = elim (get_elem? blocks slot) [
  | none ↦ fault
  | some block ↦
      let next = probe_loop fuel blocks capacity index (bit_and (slot + 1) (capacity - 1)) in
      if stops index block then done slot else next
]

unfoldable pub probe_block : List Block → ℕ → ℕ → Run ℕ
unfolding probe_loop dearxan_hash_u64
probe_block blocks capacity index =
    probe_loop capacity blocks capacity index (bit_and (dearxan_hash_u64 index) (capacity - 1))

-- The loop of grow_blocks over the old slots.
unfoldable pub move_blocks : ℕ → List Block → List Block → Run (List Block)
unfolding probe_block
move_blocks capacity [] fresh = done fresh
move_blocks capacity (block ∷ rest) fresh =
    let skipped = move_blocks capacity rest fresh in
    let moved = probe_block fresh capacity (block.index_plus_one - 1) >>= λ slot.
    move_blocks capacity rest (set fresh slot block) in
    if block.index_plus_one == 0 then skipped else moved

abbrev pub next_capacity : ℕ → ℕ
next_capacity capacity = if capacity == 0 then min_capacity else capacity * 2 % uint64

-- `none` is false.
unfoldable pub grow_blocks : (ℕ → Bool) → Vm → Run (Option Vm)
unfolding move_blocks
grow_blocks memory vm =
    let capacity = next_capacity vm.block_capacity in
    if ltb capacity vm.block_capacity
      || ltb ((uint64 - 1) / block_size) capacity
      || not (memory capacity)
    then done none
    else (do
      blocks ← move_blocks capacity vm.blocks (replicate capacity unused)
      done (some (record vm { blocks = blocks; block_capacity = capacity })))

-- The slot of a block that is in the table.
unfoldable pub find_existing_block : Vm → ℕ → Run (Option ℕ)
unfolding probe_block
find_existing_block vm index = if vm.block_capacity == 0 then done none else (do
  slot ← probe_block vm.blocks vm.block_capacity index
  elim (get_elem? vm.blocks slot) [
    | none ↦ fault
    | some block ↦ done (if block.index_plus_one == 0 then none else some slot)
  ])

-- The slot of the block, if there is one, and the machine afterwards.
pub record Found : Type 0 where
  pub block : Option ℕ
  pub vm : Vm

-- A free slot becomes the block `index`, with the bytes of the image where the image has all 64.
unfoldable pub fill_block : Option Image → ℕ → Block → Block
unfolding dearxan_image_read
fill_block image index block = elim (dearxan_image_read image (index * 64 % uint64) 64) [
  | none ↦ record block { index_plus_one = (index + 1) % uint64 }
  | some read ↦ record {
    index_plus_one = (index + 1) % uint64;
    known = uint64 - 1;
    bytes = take 64 read.bytes;
  }
]

unfoldable pub insert_block : Vm → ℕ → Run Found
unfolding probe_block fill_block
insert_block vm index = do
  slot ← probe_block vm.blocks vm.block_capacity index
  elim (get_elem? vm.blocks slot) [
    | none ↦ fault
    | some block ↦ done (record {
      block = some slot;
      vm = record vm {
        blocks = set vm.blocks slot (fill_block vm.image index block);
        block_count = vm.block_count + 1;
      };
    })
  ]

-- Growing before an insertion, where the table would be more than half full.
unfoldable pub make_room : (ℕ → Bool) → Vm → Run (Option Vm)
unfolding grow_blocks
make_room memory vm =
    if vm.block_capacity == 0 || ltb (vm.block_capacity / 2) (vm.block_count + 1)
    then grow_blocks memory vm
    else done (some vm)

unfoldable pub add_block : (ℕ → Bool) → Vm → ℕ → Run Found
unfolding make_room insert_block
add_block memory vm index = do
  room ← make_room memory vm
  elim room [
    | none ↦ done (record { block = none; vm = vm })
    | some grown ↦ insert_block grown index
  ]

unfoldable pub find_block : (ℕ → Bool) → Vm → ℕ → Bool → Run Found
unfolding find_existing_block add_block
find_block memory vm index create = do
  old ← find_existing_block vm index
  elim old [
    | some slot ↦ done (record { block = some slot; vm = vm })
    | none ↦ if create then add_block memory vm index else done (record { block = none; vm = vm })
  ]
