-- ===== src/Dearxan/Vm/Access.antt =====
-- src/dearxan/vm.c: operands are resolved, read and stored.
use yafsml.Prelude.{
  ℕ, ◌+◌, ◌*◌, ◌/◌, Bool, true, ◌||◌, Option, none, some, List, [], ◌∷◌, ltb, leb, ◌==◌,
  if◌then◌else◌, Run, done, ◌>>=◌,
}
use yafsml.Dearxan.Vm.Blocks.{Vm}
use yafsml.Dearxan.Vm.Registers.{Zydis, dearxan_vm_read_register, dearxan_vm_write_register}
use yafsml.Dearxan.Vm.Memory.{
  Stored, dearxan_vm_read_memory, dearxan_vm_write_memory, dearxan_vm_invalidate_memory,
}
use yafsml.Dearxan.Vm.Decoded.{
  OperandType, Operand, Instruction, operand_at, bytes_of, add64, word_of_read, is_some, or_zero,
  unused_operand, register_operand, memory_operand, immediate_operand,
}

-- `calc_absolute_address` is ZydisCalcAbsoluteAddress at an address, `none` where it fails, and `memory`
-- answers calloc and malloc.
module _ (z : Zydis) (calc_absolute_address : Instruction → Operand → ℕ → Option ℕ)
    (memory : ℕ → Bool) where
  -- The base of an address.
  unfoldable pub base_value : Vm → Instruction → Operand → Option ℕ
  unfolding dearxan_vm_read_register
  base_value vm instruction operand =
      if operand.base == z.register_rip
      then some (add64 vm.rip instruction.byte_length)
      else if operand.base == z.register_none
      then some 0
      else dearxan_vm_read_register z vm operand.base

  unfoldable pub index_value : Vm → Operand → Option ℕ
  unfolding dearxan_vm_read_register
  index_value vm operand =
      if operand.index == z.register_none
      then some 0
      else elim (dearxan_vm_read_register z vm operand.index) [
        | none ↦ none
        | some value ↦ some (value * operand.scale)
      ]

  unfoldable pub dearxan_vm_operand_address : Vm → Instruction → Operand → Option ℕ
  unfolding base_value index_value
  dearxan_vm_operand_address vm instruction operand = elim operand.kind [
    | memory_operand ↦ elim (base_value vm instruction operand) [
      | none ↦ none
      | some base ↦ elim (index_value vm operand) [
        | none ↦ none
        | some scaled ↦
            some
              (add64 (base + scaled) (if operand.has_displacement then operand.displacement else 0))
      ]
    ]
    | _ ↦ none
  ]

  unfoldable pub read_word : Vm → ℕ → ℕ → Run (Option ℕ)
  unfolding dearxan_vm_read_memory
  read_word vm address size = do
    read ← dearxan_vm_read_memory vm address true size
    done (word_of_read read)

  unfoldable pub read_place : Vm → ℕ → Option ℕ → Run (Option ℕ)
  unfolding read_word
  read_place vm size none = done none
  read_place vm size (some address) = read_word vm address size

  unfoldable pub value_by_kind : OperandType → Vm → Instruction → Operand → Run (Option ℕ)
  unfolding dearxan_vm_operand_address read_place
  value_by_kind register_operand vm instruction operand =
      done (dearxan_vm_read_register z vm operand.reg)
  value_by_kind memory_operand vm instruction operand =
      if operand.size / 8 == 0 || ltb 8 (operand.size / 8)
      then done none
      else read_place vm (operand.size / 8) (dearxan_vm_operand_address vm instruction operand)
  value_by_kind immediate_operand vm instruction operand = done (
      if operand.is_relative
      then calc_absolute_address instruction operand vm.rip
      else some operand.immediate)
  value_by_kind unused_operand vm instruction operand = done none

  unfoldable pub dearxan_vm_operand_value : Vm → Instruction → Operand → Run (Option ℕ)
  unfolding value_by_kind
  dearxan_vm_operand_value vm instruction operand =
      value_by_kind operand.kind vm instruction operand

  -- A known word is written, and an unknown one forgets what was there.
  unfoldable pub store_word : Vm → ℕ → ℕ → Option ℕ → Run Stored
  unfolding dearxan_vm_write_memory dearxan_vm_invalidate_memory
  store_word vm address size none = dearxan_vm_invalidate_memory memory vm address size
  store_word vm address size (some v) =
      if leb size 8
      then dearxan_vm_write_memory memory vm address (some (bytes_of size v)) size
      else dearxan_vm_invalidate_memory memory vm address size

  unfoldable pub store_place : Vm → ℕ → Option ℕ → Option ℕ → Run Stored
  unfolding store_word
  store_place vm size none value = done (record { result = true; vm = vm })
  store_place vm size (some address) value =
      if size == 0
      then done (record { result = true; vm = vm })
      else store_word vm address size value

  unfoldable pub store_by_kind : OperandType → Vm → Operand → Option ℕ → Option ℕ → Run Stored
  unfolding store_place dearxan_vm_write_register
  store_by_kind register_operand vm operand address value = done (record {
    result = true;
    vm = dearxan_vm_write_register z vm operand.reg (is_some value) (or_zero value);
  })
  store_by_kind memory_operand vm operand address value =
      store_place vm (operand.size / 8) address value
  store_by_kind immediate_operand vm operand address value =
      done (record { result = true; vm = vm })
  store_by_kind unused_operand vm operand address value = done (record { result = true; vm = vm })

  unfoldable pub store_operand : Vm → Operand → Option ℕ → Option ℕ → Run Stored
  unfolding store_by_kind
  store_operand vm operand address value = store_by_kind operand.kind vm operand address value

  unfoldable pub set_operand : Vm → Instruction → Operand → Option ℕ → Run Stored
  unfolding dearxan_vm_operand_address store_operand
  set_operand vm instruction operand value =
      store_operand vm operand (dearxan_vm_operand_address vm instruction operand) value

  unfoldable pub visible_operand_value : Vm → Instruction → List Operand → ℕ → Run (Option ℕ)
  unfolding dearxan_vm_operand_value
  visible_operand_value vm instruction operands index =
      if ltb index instruction.operand_count_visible
      then dearxan_vm_operand_value vm instruction (operand_at operands index)
      else done none

  unfoldable pub handle_generic : Vm → Instruction → List Operand → Run Stored
  unfolding set_operand
  handle_generic vm instruction [] = done (record { result = true; vm = vm })
  handle_generic vm instruction (operand ∷ operands) =
      let skipped = handle_generic vm instruction operands in
      let written = set_operand vm instruction operand none >>= λ s.
      let rest = handle_generic s.vm instruction operands in if s.result then rest else done s in
      if operand.writes then written else skipped
