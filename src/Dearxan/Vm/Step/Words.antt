-- ===== src/Dearxan/Vm/Step/Words.antt =====
-- src/dearxan/vm.c: reads, writes and registers keep the tables in order at every address, also around
-- the end of the address space.
use yafsml.Prelude.{
  ℕ, zero, suc, ◌+◌, ◌-◌, ◌*◌, ◌/◌, ◌%◌, ◌^◌, ◌≤◌, ◌<◌, ◌≡◌, sym, ◌∙◌, Bool, true, not, ◌&&◌, inl,
  inr, Option, none, some, [], ◌∷◌, ◌++◌, Bytes, ◌==◌, arith, length, take, drop, Option-cases, Run,
  done, ◌>>=◌, Returns, returned, Returns-bind, Returns-if, length-take, length-drop,
}
use yafsml.Prelude.Bits.{bit_and-le_right}
use native.Mathlib.Nat.{mod-lt}
use yafsml.Dearxan.Vm.Blocks.{Vm, Registers, uint64}
use yafsml.Dearxan.Vm.Machine.{IsMachine}
use yafsml.Dearxan.Vm.Memory.{
  Stored, chunk_size, read_loop, write_loop, invalidate_loop, write_block, forget_block,
  dearxan_vm_read_memory, dearxan_vm_write_memory, dearxan_vm_invalidate_memory,
}
use yafsml.Dearxan.Vm.Read.{read_chunk-ReadsChunk}
use yafsml.Dearxan.Vm.Change.{change_block-Changed}
use yafsml.Dearxan.Vm.Rounds.{write_block-KeepsKeys, forget_block-KeepsKeys, chunk_facts}
use yafsml.Dearxan.Vm.Registers.{
  Zydis, dearxan_vm_read_register, dearxan_vm_write_register, read_at, part_of, size_mask,
  register_index, register_bit_offset, width_of, value_at,
}
use yafsml.Dearxan.Vm.Registers.Parts.{read_register_at}

abbrev pub Anything {ℓ} : {A : Type ℓ} → A → Type 0
Anything a = Unit {0}

abbrev pub Kept : Stored → Type 0
Kept s = IsMachine s.vm

pub wrapped : (a : ℕ) → a % uint64 < uint64
wrapped a = mod-lt a (omega arith)

-- Reads and writes anywhere, also around the end of the address space.
module _ (vm : Vm) (m : IsMachine vm) where
  read_loop_ends :
      (fuel address size : ℕ)
      → address < uint64
      → size ≤ fuel
      → Returns Anything (read_loop fuel vm address size)
  unfolding read_loop
  read_loop_ends fuel address zero low enough = returned _ tt
  read_loop_ends zero address (suc size) low enough = absurd (omega arith)
  read_loop_ends (suc fuel) address (suc size) low enough =
      let (some_bytes, part, fits) = chunk_facts address size in
      let chunk = chunk_size address (suc size) in
      Returns-bind (read_chunk-ReadsChunk vm m address chunk low some_bytes fits) λ o r.
        elim o
          as (λ o. Returns Anything (elim o as (λ _. Run (Option Bytes)) [
            | none ↦ done none
            | some bytes ↦
                read_loop fuel vm ((address + chunk) % uint64) (suc size - chunk) >>= (λ rest.
                  done (elim rest as (λ _. Option Bytes) [
                    | none ↦ none
                    | some more ↦ some (bytes ++ more)
                  ]))
          ])) [
            | none ↦ returned _ tt
            | some bs ↦
                Returns-bind
                  (read_loop_ends fuel ((address + chunk) % uint64) (suc size - chunk)
                    (wrapped (address + chunk)) (omega arith))
                  λ more _. returned _ tt
          ]

  pub dearxan_vm_read_memory_ends :
      (address size : ℕ)
      → address < uint64
      → Returns Anything (dearxan_vm_read_memory vm address true size)
  unfolding dearxan_vm_read_memory
  dearxan_vm_read_memory_ends address size low =
      Returns-if (not (size == 0) && not true) (λ _. returned _ tt)
        (λ _. read_loop_ends size address size low (omega arith))

module _ (memory : ℕ → Bool) where
  write_loop-Kept :
      (fuel : ℕ) (vm : Vm) (address : ℕ) (input : Bytes)
      → IsMachine vm
      → address < uint64
      → length input ≤ fuel
      → Returns Kept (write_loop fuel memory vm address input)
  unfolding write_loop
  write_loop-Kept fuel vm address [] m low enough = returned _ m
  write_loop-Kept zero vm address (b ∷ bs) m low enough = absurd (omega arith)
  write_loop-Kept (suc fuel) vm address (b ∷ bs) m low enough =
      let input = b ∷ bs in
      let chunk = chunk_size address (length input) in
      let (some_bytes, part, fits) = chunk_facts address (length bs) in
      let cut : length (take chunk input) ≡ chunk = omega (arith, length-take chunk input) in
      Returns-bind
        (change_block-Changed vm address low (write_block (address % 64) (take chunk input))
          (write_block-KeepsKeys (address % 64) (take chunk input) (omega arith)) memory m)
        λ s c.
          Returns-if s.result
            (λ _.
              write_loop-Kept fuel s.vm ((address + chunk) % uint64) (drop chunk input) c.machine
                (wrapped (address + chunk)) (omega (arith, length-drop chunk input)))
            (λ _. returned s c.machine)

  invalidate_loop-Kept :
      (fuel : ℕ) (vm : Vm) (address size : ℕ)
      → IsMachine vm
      → address < uint64
      → size ≤ fuel
      → Returns Kept (invalidate_loop fuel memory vm address size)
  unfolding invalidate_loop
  invalidate_loop-Kept fuel vm address zero m low enough = returned _ m
  invalidate_loop-Kept zero vm address (suc size) m low enough = absurd (omega arith)
  invalidate_loop-Kept (suc fuel) vm address (suc size) m low enough =
      let chunk = chunk_size address (suc size) in
      let (some_bytes, part, fits) = chunk_facts address size in
      Returns-bind
        (change_block-Changed vm address low (forget_block (address % 64) chunk)
          (forget_block-KeepsKeys (address % 64) chunk) memory m)
        λ s c.
          Returns-if s.result
            (λ _.
              invalidate_loop-Kept fuel s.vm ((address + chunk) % uint64) (suc size - chunk)
                c.machine (wrapped (address + chunk)) (omega arith))
            (λ _. returned s c.machine)

  pub dearxan_vm_write_memory-Kept :
      (vm : Vm) (address size : ℕ) (input : Bytes)
      → IsMachine vm
      → address < uint64
      → Returns Kept (dearxan_vm_write_memory memory vm address (some input) size)
  unfolding dearxan_vm_write_memory
  dearxan_vm_write_memory-Kept vm address size input m low =
      write_loop-Kept size vm address (take size input) m low
        (omega (arith, length-take size input))

  pub dearxan_vm_invalidate_memory-Kept :
      (vm : Vm) (address size : ℕ)
      → IsMachine vm
      → address < uint64
      → Returns Kept (dearxan_vm_invalidate_memory memory vm address size)
  unfolding dearxan_vm_invalidate_memory
  dearxan_vm_invalidate_memory-Kept vm address size m low =
      invalidate_loop-Kept size vm address size m low (omega arith)

-- Only the table and the image matter.
pub reshape :
    (vm : Vm) (rip : ℕ) (known : Bool) (registers : Registers)
    → IsMachine vm
    → IsMachine (record vm { rip = rip; rip_known = known; registers = registers })
reshape vm rip known registers m = record {
  blocks = record {
    table = m.blocks.table;
    counted = m.blocks.counted;
    half = m.blocks.half;
    bound = m.blocks.bound;
  };
  image = m.image;
}

pub write_register-IsMachine :
    (z : Zydis) (vm : Vm) (reg : ℕ) (known : Bool) (value : ℕ)
    → IsMachine vm
    → IsMachine (dearxan_vm_write_register z vm reg known value)
unfolding dearxan_vm_write_register
write_register-IsMachine z vm reg known value m = elim (Option-cases (register_index z reg)) [
  | inl e ↦ rw (e, dearxan_vm_write_register) m
  | inr (index, e) ↦ rw (e, dearxan_vm_write_register) (reshape vm vm.rip vm.rip_known _ m)
]

size_mask-lt : (width : ℕ) → size_mask width < uint64
unfolding size_mask
size_mask-lt width = ground (arith, wrapped (2 ^ (width * 8)))

part_of-lt : (offset width value : ℕ) → part_of offset width value < uint64
unfolding part_of
part_of-lt offset width value = omega (
  arith,
  bit_and-le_right (size_mask width) (value / 2 ^ offset) (size_mask width),
  size_mask-lt width,
)

no_register :
    (z : Zydis) (vm : Vm) (reg : ℕ)
    → register_index z reg ≡ none
    → dearxan_vm_read_register z vm reg ≡ none
unfolding dearxan_vm_read_register
no_register z vm reg e = rw (e, dearxan_vm_read_register)

read_at-lt :
    (z : Zydis) (registers : Registers) (reg index value : ℕ)
    → read_at z registers reg index ≡ some value
    → value < uint64
unfolding read_at
read_at-lt z registers reg index value e =
    ground
      (arith, part_of-lt (register_bit_offset z reg) (width_of z reg) (value_at registers index))

-- What a register reads is a word.
pub read_register-lt :
    (z : Zydis) (vm : Vm) (reg value : ℕ)
    → dearxan_vm_read_register z vm reg ≡ some value
    → value < uint64
read_register-lt z vm reg value e = elim (Option-cases (register_index z reg)) [
  | inl none_there ↦ absurd (let q = sym (no_register z vm reg none_there) ∙ e in cc)
  | inr (index, found) ↦
      read_at-lt z vm.registers reg index value (sym (read_register_at z vm reg index found) ∙ e)
]
