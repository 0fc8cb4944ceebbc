-- ===== src/Dearxan/Vm/Step/Operands.antt =====
-- src/dearxan/vm.c: the operands of an instruction are read and stored with the tables kept in order.
use yafsml.Prelude.{
  ℕ, ◌/◌, ◌<◌, ◌≡◌, refl, Bool, ◌||◌, Option, none, some, List, [], ◌∷◌, ◌==◌, ltb, leb, arith,
  Returns, returned, Returns-bind, Returns-if,
}
use yafsml.Dearxan.Vm.Blocks.{Vm, uint64}
use yafsml.Dearxan.Vm.Machine.{IsMachine}
use yafsml.Dearxan.Vm.Registers.{Zydis}
use yafsml.Dearxan.Vm.Access
use yafsml.Dearxan.Vm.Decoded.{
  Operand, OperandType, unused_operand, register_operand, memory_operand, immediate_operand,
  Instruction, bytes_of, operand_at,
}
use yafsml.Dearxan.Vm.Step.Words.{
  Anything, Kept, dearxan_vm_read_memory_ends, dearxan_vm_write_memory-Kept,
  dearxan_vm_invalidate_memory-Kept, write_register-IsMachine,
}

module _ (z : Zydis) (calc_absolute_address : Instruction → Operand → ℕ → Option ℕ)
    (memory : ℕ → Bool) where
  pub operand_address-lt :
      (vm : Vm) (instruction : Instruction) (operand : Operand) (address : ℕ)
      → Access.dearxan_vm_operand_address z calc_absolute_address memory vm instruction operand
        ≡ some address
      → address < uint64
  unfolding Access.dearxan_vm_operand_address
  operand_address-lt vm instruction operand address e = ground arith

  pub store_word-Kept :
      (vm : Vm) (address size : ℕ) (value : Option ℕ)
      → IsMachine vm
      → address < uint64
      → Returns Kept (Access.store_word z calc_absolute_address memory vm address size value)
  unfolding Access.store_word
  store_word-Kept vm address size none m low =
      dearxan_vm_invalidate_memory-Kept memory vm address size m low
  store_word-Kept vm address size (some v) m low =
      Returns-if (leb size 8)
        (λ _. dearxan_vm_write_memory-Kept memory vm address size (bytes_of size v) m low)
        (λ _. dearxan_vm_invalidate_memory-Kept memory vm address size m low)

  store_place-Kept :
      (vm : Vm) (size : ℕ) (address value : Option ℕ)
      → IsMachine vm
      → ((a : ℕ) → address ≡ some a → a < uint64)
      → Returns Kept (Access.store_place z calc_absolute_address memory vm size address value)
  unfolding Access.store_place
  store_place-Kept vm size none value m low = returned _ m
  store_place-Kept vm size (some place) value m low =
      Returns-if (size == 0) (λ _. returned _ m)
        (λ _. store_word-Kept vm place size value m (low place refl))

  store_by_kind-Kept :
      (kind : OperandType) (vm : Vm) (operand : Operand) (address value : Option ℕ)
      → IsMachine vm
      → ((a : ℕ) → address ≡ some a → a < uint64)
      → Returns Kept
          (Access.store_by_kind z calc_absolute_address memory kind vm operand address value)
  unfolding Access.store_by_kind
  store_by_kind-Kept register_operand vm operand address value m low =
      returned _ (write_register-IsMachine z vm operand.reg _ _ m)
  store_by_kind-Kept memory_operand vm operand address value m low =
      store_place-Kept vm (operand.size / 8) address value m low
  store_by_kind-Kept immediate_operand vm operand address value m low = returned _ m
  store_by_kind-Kept unused_operand vm operand address value m low = returned _ m

  pub store_operand-Kept :
      (vm : Vm) (operand : Operand) (address value : Option ℕ)
      → IsMachine vm
      → ((a : ℕ) → address ≡ some a → a < uint64)
      → Returns Kept (Access.store_operand z calc_absolute_address memory vm operand address value)
  unfolding Access.store_operand
  store_operand-Kept vm operand address value m low =
      store_by_kind-Kept operand.kind vm operand address value m low

  pub set_operand-Kept :
      (vm : Vm) (instruction : Instruction) (operand : Operand) (value : Option ℕ)
      → IsMachine vm
      → Returns Kept
          (Access.set_operand z calc_absolute_address memory vm instruction operand value)
  unfolding Access.set_operand
  set_operand-Kept vm instruction operand value m =
      store_operand-Kept vm operand _ value m (operand_address-lt vm instruction operand)

  pub read_word_ends :
      (vm : Vm) (address size : ℕ)
      → IsMachine vm
      → address < uint64
      → Returns Anything (Access.read_word z calc_absolute_address memory vm address size)
  unfolding Access.read_word
  read_word_ends vm address size m low =
      Returns-bind (dearxan_vm_read_memory_ends vm m address size low) λ read _. returned _ tt

  read_place_ends :
      (vm : Vm) (size : ℕ) (address : Option ℕ)
      → IsMachine vm
      → ((a : ℕ) → address ≡ some a → a < uint64)
      → Returns Anything (Access.read_place z calc_absolute_address memory vm size address)
  unfolding Access.read_place
  read_place_ends vm size none m low = returned _ tt
  read_place_ends vm size (some address) m low = read_word_ends vm address size m (low address refl)

  value_by_kind_ends :
      (kind : OperandType) (vm : Vm) (instruction : Instruction) (operand : Operand)
      → IsMachine vm
      → Returns Anything
          (Access.value_by_kind z calc_absolute_address memory kind vm instruction operand)
  unfolding Access.value_by_kind
  value_by_kind_ends register_operand vm instruction operand m = returned _ tt
  value_by_kind_ends memory_operand vm instruction operand m =
      Returns-if (operand.size / 8 == 0 || ltb 8 (operand.size / 8)) (λ _. returned _ tt)
        (λ _. read_place_ends vm (operand.size / 8) _ m (operand_address-lt vm instruction operand))
  value_by_kind_ends immediate_operand vm instruction operand m = returned _ tt
  value_by_kind_ends unused_operand vm instruction operand m = returned _ tt

  pub visible_operand_value_ends :
      (vm : Vm) (instruction : Instruction) (operands : List Operand) (index : ℕ)
      → IsMachine vm
      → Returns Anything (
          Access.visible_operand_value z calc_absolute_address memory vm instruction operands index)
  unfolding Access.visible_operand_value Access.dearxan_vm_operand_value
  visible_operand_value_ends vm instruction operands index m =
      Returns-if (ltb index instruction.operand_count_visible)
        (λ _.
          value_by_kind_ends (operand_at operands index).kind vm instruction
            (operand_at operands index) m)
        (λ _. returned _ tt)

  pub handle_generic-Kept :
      (vm : Vm) (instruction : Instruction) (operands : List Operand)
      → IsMachine vm
      → Returns Kept (Access.handle_generic z calc_absolute_address memory vm instruction operands)
  unfolding Access.handle_generic
  handle_generic-Kept vm instruction [] m = returned _ m
  handle_generic-Kept vm instruction (operand ∷ operands) m =
      Returns-if operand.writes
        (λ _. Returns-bind (set_operand-Kept vm instruction operand none m) λ s k.
          Returns-if s.result (λ _. handle_generic-Kept s.vm instruction operands k)
            (λ _. returned s k))
        (λ _. handle_generic-Kept vm instruction operands m)
