-- ===== src/Dearxan/Vm/Cases.antt =====
-- src/dearxan/vm.c: the cases of dearxan_vm_step.
use yafsml.Prelude.{
  ℕ, ◌/◌, Bool, true, false, ◌||◌, Option, none, some, List, if◌then◌else◌, take, Run, done, ◌>>=◌,
}
use yafsml.Dearxan.Vm.Blocks.{Vm}
use yafsml.Dearxan.Vm.Registers.{Zydis, dearxan_vm_read_register, dearxan_vm_write_register}
use yafsml.Dearxan.Vm.Memory.{Stored}
use yafsml.Dearxan.Vm.Decoded.{
  Operand, Instruction, operand_at, add64, sub64, is_cond_br, is_uncond_br,
  dearxan_vm_ret_increment, dearxan_vm_clone, Case, case_of, sign_extend, both, Stepped, jump_to,
  advance,
}
use yafsml.Dearxan.Vm.Access

-- `calc_absolute_address` is ZydisCalcAbsoluteAddress at an address, `none` where it fails, and `memory`
-- answers calloc and malloc.
module _ (z : Zydis) (calc_absolute_address : Instruction → Operand → ℕ → Option ℕ)
    (memory : ℕ → Bool) where
  unfoldable pub step_mov : Vm → Instruction → List Operand → Run Case
  unfolding Access.visible_operand_value Access.set_operand
  step_mov vm instruction operands = do
    rhs ← Access.visible_operand_value z calc_absolute_address memory vm instruction operands 1
    s ← Access.set_operand z calc_absolute_address memory vm instruction (operand_at operands 0) rhs
    done (case_of none s)

  unfoldable pub step_movsx : Vm → Instruction → List Operand → Run Case
  unfolding Access.visible_operand_value Access.set_operand sign_extend
  step_movsx vm instruction operands = do
    rhs ← Access.visible_operand_value z calc_absolute_address memory vm instruction operands 1
    s ←
        Access.set_operand z calc_absolute_address memory vm instruction (operand_at operands 0)
          (elim rhs [ none ↦ none | some v ↦ some (sign_extend (operand_at operands 1).size v) ])
    done (case_of none s)

  unfoldable pub step_lea : Vm → Instruction → List Operand → Run Case
  unfolding Access.dearxan_vm_operand_address Access.set_operand
  step_lea vm instruction operands = do
    s ← Access.set_operand z calc_absolute_address memory vm instruction (operand_at operands 0) (
        Access.dearxan_vm_operand_address z calc_absolute_address memory vm instruction
          (operand_at operands 1))
    done (case_of none s)

  -- ADD and SUB.
  unfoldable pub step_arithmetic : (ℕ → ℕ → ℕ) → Vm → Instruction → List Operand → Run Case
  unfolding Access.visible_operand_value Access.set_operand
  step_arithmetic f vm instruction operands = do
    lhs ← Access.visible_operand_value z calc_absolute_address memory vm instruction operands 0
    rhs ← Access.visible_operand_value z calc_absolute_address memory vm instruction operands 1
    s ←
        Access.set_operand z calc_absolute_address memory vm instruction (operand_at operands 0)
          (both f lhs rhs)
    done (case_of lhs s)

  -- Both addresses are resolved before either operand is stored.
  unfoldable pub step_xchg : Vm → Instruction → List Operand → Run Case
  unfolding Access.visible_operand_value Access.dearxan_vm_operand_address Access.store_operand
  step_xchg vm instruction operands = do
    lhs ← Access.visible_operand_value z calc_absolute_address memory vm instruction operands 0
    rhs ← Access.visible_operand_value z calc_absolute_address memory vm instruction operands 1
    let address0 =
        Access.dearxan_vm_operand_address z calc_absolute_address memory vm instruction
          (operand_at operands 0)
    let address1 =
        Access.dearxan_vm_operand_address z calc_absolute_address memory vm instruction
          (operand_at operands 1)
    first ←
        Access.store_operand z calc_absolute_address memory vm (operand_at operands 0) address0 rhs
    let second =
        Access.store_operand z calc_absolute_address memory first.vm (operand_at operands 1)
          address1 lhs
    if first.result then (do s ← second; done (case_of lhs s)) else done (case_of lhs first)

  -- RSP moved down, and a word of `size` bytes there; nothing where RSP is unknown.
  unfoldable pub push_at : Vm → ℕ → Option ℕ → Option ℕ → Run Stored
  unfolding dearxan_vm_write_register Access.store_word
  push_at vm size value none = done (record { result = true; vm = vm })
  push_at vm size value (some rsp) =
      Access.store_word z calc_absolute_address memory
        (dearxan_vm_write_register z vm z.register_rsp true (sub64 rsp size)) (sub64 rsp size) size
        value

  unfoldable pub push_word : Vm → ℕ → Option ℕ → Run Stored
  unfolding push_at
  push_word vm size value = push_at vm size value (dearxan_vm_read_register z vm z.register_rsp)

  unfoldable pub step_push : Vm → Instruction → List Operand → Run Case
  unfolding Access.visible_operand_value push_word
  step_push vm instruction operands = do
    lhs ← Access.visible_operand_value z calc_absolute_address memory vm instruction operands 0
    s ← push_word vm 8 lhs
    done (case_of lhs s)

  -- The source reads into a local of eight bytes without a test of the size; Zydis gives POP an operand of
  -- 64 bits at most.
  unfoldable pub pop_at : Vm → Instruction → Operand → Option ℕ → Run Case
  unfolding Access.read_word dearxan_vm_write_register Access.set_operand
  pop_at vm instruction operand none = done (record { result = true; vm = vm; lhs = none })
  pop_at vm instruction operand (some rsp) = do
    lhs ← Access.read_word z calc_absolute_address memory vm rsp (operand.size / 8)
    s ←
        Access.set_operand z calc_absolute_address memory
          (dearxan_vm_write_register z vm z.register_rsp true (add64 rsp 8)) instruction operand lhs
    done (case_of lhs s)

  unfoldable pub step_pop : Vm → Instruction → List Operand → Run Case
  unfolding pop_at
  step_pop vm instruction operands =
      pop_at vm instruction (operand_at operands 0) (dearxan_vm_read_register z vm z.register_rsp)

  unfoldable pub step_pushf : Vm → Instruction → Run Case
  unfolding push_word
  step_pushf vm instruction = do
    s ← push_word vm (instruction.operand_width / 8) none
    done (case_of none s)

  -- RSP moved up by `size`, where it is known.
  unfoldable pub pop_bytes : Vm → ℕ → Option ℕ → Vm
  unfolding dearxan_vm_write_register
  pop_bytes vm size none = vm
  pop_bytes vm size (some rsp) = dearxan_vm_write_register z vm z.register_rsp true (add64 rsp size)

  unfoldable pub step_popf : Vm → Instruction → Run Case
  unfolding pop_bytes
  step_popf vm instruction = done (record {
    result = true;
    vm =
        pop_bytes vm (instruction.operand_width / 8) (dearxan_vm_read_register z vm z.register_rsp);
    lhs = none;
  })

  unfoldable pub step_generic : Vm → Instruction → List Operand → Run Case
  unfolding Access.visible_operand_value Access.handle_generic
  step_generic vm instruction operands = do
    lhs ←
        if is_cond_br instruction || is_uncond_br instruction
        then Access.visible_operand_value z calc_absolute_address memory vm instruction operands 0
        else done none
    s ←
        Access.handle_generic z calc_absolute_address memory vm instruction
          (take instruction.operand_count operands)
    done (case_of lhs s)

  unfoldable pub step_call : Vm → Instruction → List Operand → Run Stepped
  unfolding Access.visible_operand_value push_word
  step_call vm instruction operands = do
    lhs ← Access.visible_operand_value z calc_absolute_address memory vm instruction operands 0
    s ← push_word vm 8 (some (add64 vm.rip instruction.byte_length))
    done (record {
      result = s.result;
      vm = if s.result then jump_to s.vm lhs else s.vm;
      forked = none;
    })

  unfoldable pub ret_at : Vm → ℕ → Option ℕ → Run Stepped
  unfolding Access.read_word dearxan_vm_write_register
  ret_at vm increment none =
      done (record { result = true; vm = record vm { rip_known = false }; forked = none })
  ret_at vm increment (some rsp) = do
    target ← Access.read_word z calc_absolute_address memory vm rsp 8
    let popped = dearxan_vm_write_register z vm z.register_rsp true (add64 rsp increment)
    done (record { result = true; vm = jump_to popped target; forked = none })

  unfoldable pub step_ret : Vm → Instruction → List Operand → Run Stepped
  unfolding ret_at dearxan_vm_ret_increment
  step_ret vm instruction operands =
      ret_at vm (dearxan_vm_ret_increment instruction operands)
        (dearxan_vm_read_register z vm z.register_rsp)

  -- The state in which the move has happened, beside the one in which it has not.
  unfoldable pub fork_cmov : Vm → Instruction → Operand → ℕ → Option Vm → Run Stepped
  unfolding Access.set_operand
  fork_cmov vm instruction operand rhs none =
      done (record { result = false; vm = vm; forked = none })
  fork_cmov vm instruction operand rhs (some forked) = do
    s ← Access.set_operand z calc_absolute_address memory forked instruction operand (some rhs)
    done (record { result = true; vm = vm; forked = some s.vm })

  unfoldable pub cmov_values : Vm → Instruction → Operand → Option ℕ → Option ℕ → Run Stepped
  unfolding fork_cmov dearxan_vm_clone
  cmov_values vm instruction operand lhs none =
      done (record { result = true; vm = vm; forked = none })
  cmov_values vm instruction operand none (some rhs) = do
    s ← Access.set_operand z calc_absolute_address memory vm instruction operand (some rhs)
    done (record { result = true; vm = s.vm; forked = none })
  cmov_values vm instruction operand (some lhs) (some rhs) =
      fork_cmov vm instruction operand rhs (dearxan_vm_clone memory vm)

  unfoldable pub step_cmov : Vm → Instruction → List Operand → Run Stepped
  unfolding Access.visible_operand_value cmov_values
  step_cmov vm instruction operands = do
    lhs ← Access.visible_operand_value z calc_absolute_address memory vm instruction operands 0
    rhs ← Access.visible_operand_value z calc_absolute_address memory vm instruction operands 1
    cmov_values (advance vm instruction) instruction (operand_at operands 0) lhs rhs
