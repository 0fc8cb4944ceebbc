-- ===== src/Dearxan/VmTests.antt =====
-- Runs of the emulator and of the image reader, and the theorems at inputs that meet their hypotheses.
use yafsml.Prelude.{
  ℕ, ◌+◌, ◌-◌, ◌≡◌, ◌≤◌, refl, Bool, true, Option, none, some, [], ◌∷◌, ◌++◌, Bytes, leb,
  if◌then◌else◌, arith, inl, inr, length, get_elem?, replicate, done, Returns, ◌>>=◌, read16,
  read32,
}
use yafsml.Dearxan.Image.{Image}
use yafsml.Dearxan.ImageTables.{
  Section, Called, dearxan_image_for_each_section, dearxan_image_for_each_relocation64,
}
use yafsml.Dearxan.Image.Safety.{IsLoaded}
use yafsml.Dearxan.Image.Bounds.{IsInside, dearxan_image_for_each_section-Kept}
use yafsml.Dearxan.Vm.Blocks.{Vm, find_block}
use yafsml.Dearxan.Vm.Holds.{occupied}
use yafsml.Dearxan.Vm.Machine.{IsMachine, Finds}
use yafsml.Dearxan.Vm.Table.{find_block-Finds}
use yafsml.Dearxan.Vm.Memory.{
  Stored, dearxan_vm_read_memory, dearxan_vm_write_memory, dearxan_vm_invalidate_memory,
}
use yafsml.Dearxan.Vm.View.{view, ReadsChunk}
use yafsml.Dearxan.Vm.Read.{dearxan_vm_read_memory-ReadsChunk}
use yafsml.Dearxan.Vm.Wrote.{Wrote}
use yafsml.Dearxan.Vm.Write.{
  dearxan_vm_write_memory-Wrote, dearxan_vm_invalidate_memory-Wrote,
  dearxan_vm_read_memory-write_memory,
}
use yafsml.Dearxan.Vm.Registers.{Zydis, register_index, register_bit_offset}
use yafsml.Dearxan.Vm.Registers.Merge.{IsPart}
use yafsml.Dearxan.Vm.Registers.Parts.{Writes, dearxan_vm_write_register-Writes}
use yafsml.Dearxan.Vm.Decoded.{
  Operand, Instruction, push, other_category, register_operand, blank, dearxan_vm_init,
}
use yafsml.Dearxan.Vm.Step.{dearxan_vm_step}
use yafsml.Dearxan.Vm.Step.Forks.{KeptStep}
use yafsml.Dearxan.Vm.Step.Reached.{started, Reached-KeptStep}

-- The numbers of registers, where 9 is AH, 53 is RAX and 57 is RSP.
abbrev zydis : Zydis
zydis = record {
  register_none = 0;
  register_rax = 53;
  register_rsp = 57;
  register_r15 = 68;
  register_ah = 9;
  register_bh = 12;
  register_rip = 197;
  largest_enclosing = λ reg. if leb 53 reg then reg else 53;
  register_id = λ reg. some (reg - 53);
  register_width = λ reg. if leb 53 reg then 64 else 8;
}

abbrev calc : Instruction → Operand → ℕ → Option ℕ
calc instruction operand rip = none

abbrev memory : ℕ → Bool
memory n = true

-- A machine with RAX known and the memory of an image of four bytes.
abbrev machine : Vm
machine = record {
  image = some (record {
    base = 1 ∷ 2 ∷ 3 ∷ 4 ∷ [];
    size = 4;
    base_va = 0x1000;
    preferred_base = 0;
    entrypoint_rva = 0;
  });
  rip = 0x1000;
  rip_known = true;
  registers = record { values = 0x1122 ∷ replicate 15 0; known = 1 };
  blocks = [];
  block_capacity = 0;
  block_count = 0;
}

machine-IsMachine : IsMachine machine
unfolding occupied
machine-IsMachine = record {
  blocks = record {
    table = inl (refl, refl);
    counted = refl;
    half = omega arith;
    bound = omega arith;
  };
  image = omega arith;
}

-- Headers at 64, one section of eight bytes at 344.
abbrev headers : Bytes
headers =
    (0x4d ∷ 0x5a ∷ replicate 58 0)
    ++ (64 ∷ 0 ∷ 0 ∷ 0 ∷ [])
    ++ (0x50 ∷ 0x45 ∷ 0 ∷ 0 ∷ 0 ∷ 0 ∷ 1 ∷ 0 ∷ replicate 12 0)
    ++ (240 ∷ 0 ∷ 0 ∷ 0 ∷ 0x0b ∷ 0x02 ∷ replicate 238 0)
    ++ (replicate 8 0 ++ 8 ∷ 0 ∷ 0 ∷ 0 ∷ 100 ∷ 1 ∷ 0 ∷ 0 ∷ replicate 40 0)

abbrev loaded : Image
loaded = record {
  base = headers;
  size = length headers;
  base_va = 0x140000000;
  preferred_base = 0;
  entrypoint_rva = 0;
}

loaded-IsLoaded : IsLoaded loaded
loaded-IsLoaded = record { room = omega arith; nonempty = omega arith }

-- A callback that counts the bytes of the sections.
abbrev count_bytes : ℕ → Section → Called ℕ
count_bytes total section = record { result = true; state = total + section.size }

sections_run :
    dearxan_image_for_each_section (some loaded) count_bytes 0
    ≡ done (record { result = true; state = 8 })
unfolding dearxan_image_for_each_section read16 read32
sections_run = refl

-- A callback that keeps the size of the last section.
abbrev last_size : ℕ → Section → Called ℕ
last_size state section = record { result = true; state = section.size }

last_size_fits :
    (s : ℕ) (section : Section)
    → IsInside loaded section
    → s ≤ loaded.size
    → (last_size s section).state ≤ loaded.size
last_size_fits s section inside h = omega (arith, inside.within)

abbrev count_one : ℕ → ℕ → Called ℕ
count_one total rva = record { result = true; state = total + 1 }

relocations_run :
    dearxan_image_for_each_relocation64 (some loaded) count_one 0
    ≡ done (record { result = true; state = 0 })
unfolding dearxan_image_for_each_relocation64 read16 read32
relocations_run = refl

-- Three bytes across the border of two blocks.
write_read_run :
    (dearxan_vm_write_memory memory machine 126 (some (7 ∷ 8 ∷ 9 ∷ [])) 3 >>= λ s.
    dearxan_vm_read_memory s.vm 126 true 3)
    ≡ done (some (7 ∷ 8 ∷ 9 ∷ []))
unfolding dearxan_vm_write_memory dearxan_vm_read_memory
write_read_run = refl

abbrev push_rax : Instruction
push_rax = record {
  mnemonic = push;
  category = other_category;
  byte_length = 1;
  operand_width = 64;
  operand_count = 3;
  operand_count_visible = 1;
}

abbrev rax : Operand
rax = record blank { kind = register_operand; size = 64; reg = 53 }

dearxan_image_for_each_section-Kept_example :
    Returns
      (λ (called : Called ℕ). called.state ≤ loaded.size)
      (dearxan_image_for_each_section (some loaded) last_size 0)
dearxan_image_for_each_section-Kept_example =
    dearxan_image_for_each_section-Kept (λ (n : ℕ). n ≤ loaded.size) loaded loaded-IsLoaded
      last_size last_size_fits 0 (omega arith)

find_block-Finds_example : Returns (Finds machine 64) (find_block memory machine 64 true)
find_block-Finds_example = find_block-Finds machine 64 (omega arith) machine-IsMachine memory

dearxan_vm_read_memory-ReadsChunk_example :
    Returns
      (ReadsChunk (λ i. view machine (0x1001 + i)) 2)
      (dearxan_vm_read_memory machine 0x1001 true 2)
dearxan_vm_read_memory-ReadsChunk_example =
    dearxan_vm_read_memory-ReadsChunk machine machine-IsMachine 0x1001 2 (omega arith)

dearxan_vm_write_memory-Wrote_example :
    Returns
      (Wrote machine 126 3 (get_elem? (7 ∷ 8 ∷ 9 ∷ [])))
      (dearxan_vm_write_memory memory machine 126 (some (7 ∷ 8 ∷ 9 ∷ [])) 3)
dearxan_vm_write_memory-Wrote_example =
    dearxan_vm_write_memory-Wrote memory machine 126 (7 ∷ 8 ∷ 9 ∷ []) machine-IsMachine
      (omega arith)

dearxan_vm_invalidate_memory-Wrote_example :
    Returns
      (Wrote machine 0x1002 100 (λ _. none))
      (dearxan_vm_invalidate_memory memory machine 0x1002 100)
dearxan_vm_invalidate_memory-Wrote_example =
    dearxan_vm_invalidate_memory-Wrote memory machine 0x1002 100 machine-IsMachine (omega arith)

dearxan_vm_read_memory-write_memory_example :
    Returns
      (λ (s : Stored).
        s.result ≡ true → dearxan_vm_read_memory s.vm 126 true 3 ≡ done (some (7 ∷ 8 ∷ 9 ∷ [])))
      (dearxan_vm_write_memory memory machine 126 (some (7 ∷ 8 ∷ 9 ∷ [])) 3)
dearxan_vm_read_memory-write_memory_example =
    dearxan_vm_read_memory-write_memory memory machine 126 (7 ∷ 8 ∷ 9 ∷ []) machine-IsMachine
      (omega arith)

ah-IsPart : IsPart zydis 9 0
unfolding register_index register_bit_offset
ah-IsPart = record { found = refl; shape = inr (refl, refl) }

dearxan_vm_write_register-Writes_example : Writes zydis machine 9 0 0x55
dearxan_vm_write_register-Writes_example =
    dearxan_vm_write_register-Writes zydis machine 9 0 0x55 ah-IsPart refl

Reached-KeptStep_example : Returns KeptStep (
    dearxan_vm_step zydis calc memory
      (dearxan_vm_init zydis machine.image 0x1000 0x8000)
      push_rax
      (rax ∷ []))
Reached-KeptStep_example =
    Reached-KeptStep zydis calc memory machine.image
      (dearxan_vm_init zydis machine.image 0x1000 0x8000) push_rax (rax ∷ []) (omega arith)
      (started 0x1000 0x8000)
