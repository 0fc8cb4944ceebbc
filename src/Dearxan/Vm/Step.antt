-- ===== src/Dearxan/Vm/Step.antt =====
-- src/dearxan/vm.c: the effect of one instruction.
pub mod Words
pub mod Operands
pub mod Forks
pub mod Keeps
pub mod Reached
use yafsml.Prelude.{
  ℕ, zero, suc, ◌+◌, ◌-◌, ◌*◌, ◌/◌, ◌%◌, ◌^◌, Bool, true, false, not, ◌&&◌, ◌||◌, Option, none,
  some, List, [], ◌∷◌, Bytes, ltb, leb, ◌==◌, if◌then◌else◌, length, get_elem?, take, bit_and,
  bit_xor, Run, done, fault, stuck, ◌>>=◌, replicate,
}
use yafsml.Dearxan.Image.{Image}
use yafsml.Dearxan.Vm.Blocks.{Vm, Registers, uint64}
use yafsml.Dearxan.Vm.Registers.{Zydis, dearxan_vm_read_register, dearxan_vm_write_register}
use yafsml.Dearxan.Vm.Memory.{
  Stored, dearxan_vm_read_memory, dearxan_vm_write_memory, dearxan_vm_invalidate_memory,
}
use yafsml.Dearxan.Vm.Decoded.{
  OperandType, Operand, Mnemonic, Category, Instruction, blank, operand_at, word_of, bytes_of,
  add64, sub64, ends_execution_path, dearxan_vm_is_cmov, is_cond_br, is_uncond_br,
  dearxan_vm_ret_increment, dearxan_vm_clone, dearxan_vm_init, word_of_read, is_some, or_zero, Case,
  case_of, sign_extend, both, Stepped, jump_to, advance, next_rip, fork_branch, dearxan_vm_uninit,
  unused_operand, register_operand, memory_operand, immediate_operand, mov, movzx, movsx, movsxd,
  lea, add, sub, xchg, push, pop, pushf, pushfq, popf, popfq, call, ret, ud0, ud1, ud2, xbegin,
  xabort, xend, iret, iretd, iretq, other_mnemonic, interrupt, cmov, cond_br, uncond_br,
  other_category,
}
use yafsml.Dearxan.Vm.Access
use yafsml.Dearxan.Vm.Cases

-- `calc_absolute_address` is ZydisCalcAbsoluteAddress at an address, `none` where it fails, and `memory`
-- answers calloc and malloc.
module _ (z : Zydis) (calc_absolute_address : Instruction → Operand → ℕ → Option ℕ)
    (memory : ℕ → Bool) where
  unfoldable pub take_branch : Instruction → Case → Stepped
  unfolding dearxan_vm_clone next_rip fork_branch
  take_branch instruction c =
      let next = next_rip c.vm instruction c.lhs in
      if is_cond_br instruction && instruction.operand_count_visible == 1 && is_some c.lhs
      then fork_branch c.vm next (or_zero c.lhs) (dearxan_vm_clone memory c.vm)
      else record { result = true; vm = next; forked = none }

  unfoldable pub after_case : Instruction → Run Case → Run Stepped
  unfolding take_branch
  after_case instruction run = do
    c ← run
    done (
        if c.result
        then take_branch instruction c
        else record { result = false; vm = c.vm; forked = none })

  unfoldable pub step_default : Vm → Instruction → List Operand → Run Stepped
  unfolding dearxan_vm_is_cmov Cases.step_cmov after_case Cases.step_generic
  step_default vm instruction operands =
      if dearxan_vm_is_cmov instruction
      then Cases.step_cmov z calc_absolute_address memory vm instruction operands
      else after_case instruction
          (Cases.step_generic z calc_absolute_address memory vm instruction operands)

  unfoldable pub step_by_mnemonic : Mnemonic → Vm → Instruction → List Operand → Run Stepped
  unfolding after_case Cases.step_mov Cases.step_movsx Cases.step_lea Cases.step_arithmetic
      Cases.step_xchg Cases.step_push Cases.step_pop Cases.step_pushf Cases.step_popf
      Cases.step_call Cases.step_ret step_default
  step_by_mnemonic mov vm instruction operands =
      after_case instruction (Cases.step_mov z calc_absolute_address memory vm instruction operands)
  step_by_mnemonic movzx vm instruction operands =
      after_case instruction (Cases.step_mov z calc_absolute_address memory vm instruction operands)
  step_by_mnemonic movsx vm instruction operands =
      after_case instruction
        (Cases.step_movsx z calc_absolute_address memory vm instruction operands)
  step_by_mnemonic movsxd vm instruction operands =
      after_case instruction
        (Cases.step_movsx z calc_absolute_address memory vm instruction operands)
  step_by_mnemonic lea vm instruction operands =
      after_case instruction (Cases.step_lea z calc_absolute_address memory vm instruction operands)
  step_by_mnemonic add vm instruction operands =
      after_case instruction
        (Cases.step_arithmetic z calc_absolute_address memory add64 vm instruction operands)
  step_by_mnemonic sub vm instruction operands =
      after_case instruction
        (Cases.step_arithmetic z calc_absolute_address memory sub64 vm instruction operands)
  step_by_mnemonic xchg vm instruction operands =
      after_case instruction
        (Cases.step_xchg z calc_absolute_address memory vm instruction operands)
  step_by_mnemonic push vm instruction operands =
      after_case instruction
        (Cases.step_push z calc_absolute_address memory vm instruction operands)
  step_by_mnemonic pop vm instruction operands =
      after_case instruction (Cases.step_pop z calc_absolute_address memory vm instruction operands)
  step_by_mnemonic pushf vm instruction operands =
      after_case instruction (Cases.step_pushf z calc_absolute_address memory vm instruction)
  step_by_mnemonic pushfq vm instruction operands =
      after_case instruction (Cases.step_pushf z calc_absolute_address memory vm instruction)
  step_by_mnemonic popf vm instruction operands =
      after_case instruction (Cases.step_popf z calc_absolute_address memory vm instruction)
  step_by_mnemonic popfq vm instruction operands =
      after_case instruction (Cases.step_popf z calc_absolute_address memory vm instruction)
  step_by_mnemonic call vm instruction operands =
      Cases.step_call z calc_absolute_address memory vm instruction operands
  step_by_mnemonic ret vm instruction operands =
      Cases.step_ret z calc_absolute_address memory vm instruction operands
  step_by_mnemonic _ vm instruction operands = step_default vm instruction operands

  unfoldable pub dearxan_vm_step : Vm → Instruction → List Operand → Run Stepped
  unfolding ends_execution_path step_by_mnemonic
  dearxan_vm_step vm instruction operands =
      if ends_execution_path instruction
      then done (record { result = true; vm = record vm { rip_known = false }; forked = none })
      else step_by_mnemonic instruction.mnemonic vm instruction operands
