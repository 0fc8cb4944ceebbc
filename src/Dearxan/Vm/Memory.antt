-- ===== src/Dearxan/Vm/Memory.antt =====
-- src/dearxan/vm.c: reads and writes of the emulated memory, chunk by chunk within its blocks. An address
-- wraps around at 2 ^ 64.
use yafsml.Prelude.{
  ℕ, zero, suc, ◌+◌, ◌-◌, ◌*◌, ◌/◌, ◌%◌, ◌^◌, Bool, true, false, not, ◌&&◌, Option, none, some, [],
  ◌∷◌, ◌++◌, Bytes, ltb, ◌==◌, if◌then◌else◌, length, get_elem?, set, take, drop, bit_and, bit_or,
  Run, done, fault, stuck, ◌>>=◌,
}
use yafsml.Dearxan.Image.{Image, dearxan_image_read}
use yafsml.Dearxan.Vm.Blocks.{Block, Vm, uint64, find_existing_block, find_block}

-- How many bytes of `size` lie in the block of the address.
abbrev pub chunk_size : ℕ → ℕ → ℕ
chunk_size address size = let chunk = 64 - address % 64 in if ltb size chunk then size else chunk

-- The bits of `chunk` bytes from `offset` on.
unfoldable pub span : ℕ → ℕ → ℕ
span offset chunk =
    if chunk == 64 then uint64 - 1 else ((2 ^ chunk % uint64 - 1) * 2 ^ offset) % uint64

-- What is written over the bytes from `offset` on.
unfoldable pub splice : Bytes → ℕ → Bytes → Bytes
splice bytes offset input = take offset bytes ++ (input ++ drop (offset + length input) bytes)

unfoldable pub write_block : ℕ → Bytes → Block → Block
unfolding span splice
write_block offset input block = record block {
  bytes = splice block.bytes offset input;
  known = bit_or block.known (span offset (length input));
}

unfoldable pub forget_block : ℕ → ℕ → Block → Block
unfolding span
forget_block offset chunk block = record block {
  known = bit_and block.known (uint64 - 1 - span offset chunk);
}

-- The bytes of a chunk in a block, where they are known.
unfoldable pub read_block : ℕ → ℕ → Block → Option Bytes
unfolding span
read_block offset chunk block =
    if not (bit_and block.known (span offset chunk) == span offset chunk)
    then none
    else some (take chunk (drop offset block.bytes))

-- A chunk that no block holds comes from the image.
unfoldable pub read_image : Option Image → ℕ → ℕ → Option Bytes
unfolding dearxan_image_read
read_image image address chunk = elim (dearxan_image_read image address chunk) [
  | none ↦ none
  | some read ↦ some (take chunk read.bytes)
]

unfoldable pub read_chunk : Vm → ℕ → ℕ → Run (Option Bytes)
unfolding find_existing_block read_block read_image
read_chunk vm address chunk = do
  found ← find_existing_block vm (address / 64)
  elim found [
    | none ↦ done (read_image vm.image address chunk)
    | some slot ↦ elim (get_elem? vm.blocks slot) [
      | none ↦ fault
      | some block ↦ done (read_block (address % 64) chunk block)
    ]
  ]

-- A round takes a byte at least.
unfoldable pub read_loop : ℕ → Vm → ℕ → ℕ → Run (Option Bytes)
unfolding read_chunk
read_loop fuel vm address zero = done (some [])
read_loop zero vm address (suc size) = stuck
read_loop (suc fuel) vm address (suc size) =
    let chunk = chunk_size address (suc size) in
    read_chunk vm address chunk >>= λ read. elim read [
      | none ↦ done none
      | some bytes ↦ read_loop fuel vm ((address + chunk) % uint64) (suc size - chunk) >>= λ rest.
          done (elim rest [ none ↦ none | some more ↦ some (bytes ++ more) ])
    ]

-- `output` is whether there is a buffer.
unfoldable pub dearxan_vm_read_memory : Vm → ℕ → Bool → ℕ → Run (Option Bytes)
unfolding read_loop
dearxan_vm_read_memory vm address output size =
    if not (size == 0) && not output then done none else read_loop size vm address size

-- The machine afterwards; a failure leaves what was done before it.
pub record Stored : Type 0 where
  pub result : Bool
  pub vm : Vm

-- A change of the block of an address, which is added where it is missing.
unfoldable pub change_block : (ℕ → Bool) → Vm → ℕ → (Block → Block) → Run Stored
unfolding find_block
change_block memory vm address change = do
  found ← find_block memory vm (address / 64) true
  elim found.block [
    | none ↦ done (record { result = false; vm = found.vm })
    | some slot ↦ elim (get_elem? found.vm.blocks slot) [
      | none ↦ fault
      | some block ↦ done (record {
        result = true;
        vm = record found.vm { blocks = set found.vm.blocks slot (change block) };
      })
    ]
  ]

unfoldable pub write_loop : ℕ → (ℕ → Bool) → Vm → ℕ → Bytes → Run Stored
unfolding change_block write_block
write_loop fuel memory vm address [] = done (record { result = true; vm = vm })
write_loop zero memory vm address (b ∷ bs) = stuck
write_loop (suc fuel) memory vm address (b ∷ bs) =
    let chunk = chunk_size address (length (b ∷ bs)) in
    change_block memory vm address (write_block (address % 64) (take chunk (b ∷ bs))) >>= λ stored.
    let rest =
      write_loop fuel memory stored.vm ((address + chunk) % uint64) (drop chunk (b ∷ bs)) in
    if stored.result then rest else done stored

unfoldable pub dearxan_vm_write_memory : (ℕ → Bool) → Vm → ℕ → Option Bytes → ℕ → Run Stored
unfolding write_loop
dearxan_vm_write_memory memory vm address none size = done (record { result = size == 0; vm = vm })
dearxan_vm_write_memory memory vm address (some bytes) size =
    write_loop size memory vm address (take size bytes)

unfoldable pub invalidate_loop : ℕ → (ℕ → Bool) → Vm → ℕ → ℕ → Run Stored
unfolding change_block forget_block
invalidate_loop fuel memory vm address zero = done (record { result = true; vm = vm })
invalidate_loop zero memory vm address (suc size) = stuck
invalidate_loop (suc fuel) memory vm address (suc size) =
    let chunk = chunk_size address (suc size) in
    change_block memory vm address (forget_block (address % 64) chunk) >>= λ stored.
    let rest =
      invalidate_loop fuel memory stored.vm ((address + chunk) % uint64) (suc size - chunk) in
    if stored.result then rest else done stored

unfoldable pub dearxan_vm_invalidate_memory : (ℕ → Bool) → Vm → ℕ → ℕ → Run Stored
unfolding invalidate_loop
dearxan_vm_invalidate_memory memory vm address size = invalidate_loop size memory vm address size
