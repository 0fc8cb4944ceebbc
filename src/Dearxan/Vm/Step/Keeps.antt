-- ===== src/Dearxan/Vm/Step/Keeps.antt =====
-- src/dearxan/vm.c: whatever the instruction, dearxan_vm_step ends, reads nothing outside its tables and
-- keeps them in order, in the machine and in the one that it forks.
use yafsml.Prelude.{
  ℕ, Bool, true, false, ◌||◌, Option, none, some, List, if◌then◌else◌, take, Bool-cases, inl, inr,
  Returns, returned, Returns-bind, Returns-if,
}
use yafsml.Dearxan.Vm.Blocks.{Vm}
use yafsml.Dearxan.Vm.Machine.{IsMachine}
use yafsml.Dearxan.Vm.Registers.{Zydis}
use yafsml.Dearxan.Vm.Access
use yafsml.Dearxan.Vm.Cases
use yafsml.Dearxan.Vm.Step
use yafsml.Dearxan.Vm.Decoded.{
  Operand, Instruction, Mnemonic, mov, movzx, movsx, movsxd, lea, add, sub, xchg, push, pop, pushf,
  pushfq, popf, popfq, call, ret, ud0, ud1, ud2, xbegin, xabort, xend, iret, iretd, iretq,
  other_mnemonic, add64, sub64, operand_at, jump_to, ends_execution_path, dearxan_vm_is_cmov,
  advance, is_cond_br, is_uncond_br,
}
use yafsml.Dearxan.Vm.Step.Words.{Anything, Kept, reshape, read_register-lt}
use yafsml.Dearxan.Vm.Step.Operands.{
  store_operand-Kept, set_operand-Kept, visible_operand_value_ends, handle_generic-Kept,
  operand_address-lt,
}
use yafsml.Dearxan.Vm.Step.Forks.{
  KeptCase, KeptStep, no_fork, after_case-KeptStep, push_word-Kept, pop_at-KeptCase,
  pop_bytes-IsMachine, ret_at-KeptStep, cmov_values-KeptStep, jump_to-IsMachine,
}

module _ (z : Zydis) (calc_absolute_address : Instruction → Operand → ℕ → Option ℕ)
    (memory : ℕ → Bool) (vm : Vm) (m : IsMachine vm) (instruction : Instruction)
    (operands : List Operand) where
  value_ends :
      (i : ℕ)
      → Returns Anything
          (Access.visible_operand_value z calc_absolute_address memory vm instruction operands i)
  value_ends i =
      visible_operand_value_ends z calc_absolute_address memory vm instruction operands i m

  set_first :
      (value : Option ℕ)
      → Returns Kept (
          Access.set_operand z calc_absolute_address memory vm instruction
            (operand_at operands 0)
            value)
  set_first value =
      set_operand-Kept z calc_absolute_address memory vm instruction (operand_at operands 0) value m

  step_mov-KeptCase :
      Returns KeptCase (Cases.step_mov z calc_absolute_address memory vm instruction operands)
  unfolding Cases.step_mov
  step_mov-KeptCase =
      Returns-bind (value_ends 1) λ rhs _. Returns-bind (set_first rhs) λ s k. returned _ k

  step_movsx-KeptCase :
      Returns KeptCase (Cases.step_movsx z calc_absolute_address memory vm instruction operands)
  unfolding Cases.step_movsx
  step_movsx-KeptCase =
      Returns-bind (value_ends 1) λ rhs _. Returns-bind (set_first _) λ s k. returned _ k

  step_lea-KeptCase :
      Returns KeptCase (Cases.step_lea z calc_absolute_address memory vm instruction operands)
  unfolding Cases.step_lea
  step_lea-KeptCase = Returns-bind (set_first _) λ s k. returned _ k

  step_arithmetic-KeptCase :
      (f : ℕ → ℕ → ℕ)
      → Returns KeptCase
          (Cases.step_arithmetic z calc_absolute_address memory f vm instruction operands)
  unfolding Cases.step_arithmetic
  step_arithmetic-KeptCase f =
      Returns-bind (value_ends 0)
        λ lhs _. Returns-bind (value_ends 1) λ rhs _. Returns-bind (set_first _) λ s k. returned _ k

  step_xchg-KeptCase :
      Returns KeptCase (Cases.step_xchg z calc_absolute_address memory vm instruction operands)
  unfolding Cases.step_xchg
  step_xchg-KeptCase =
      let low = λ (i : ℕ).
        operand_address-lt z calc_absolute_address memory vm instruction (operand_at operands i) in
      Returns-bind (value_ends 0) λ lhs _. Returns-bind (value_ends 1) λ rhs _.
        Returns-bind
          (store_operand-Kept z calc_absolute_address memory vm (operand_at operands 0) _ rhs m
            (low 0))
          λ first k.
            Returns-if first.result
              (λ _.
                Returns-bind
                  (store_operand-Kept z calc_absolute_address memory first.vm
                    (operand_at operands 1) _ lhs k (low 1))
                  λ s ks. returned _ ks)
              (λ _. returned _ k)

  step_push-KeptCase :
      Returns KeptCase (Cases.step_push z calc_absolute_address memory vm instruction operands)
  unfolding Cases.step_push
  step_push-KeptCase = Returns-bind (value_ends 0) λ lhs _.
      Returns-bind (push_word-Kept z calc_absolute_address memory vm 8 lhs m) λ s k. returned _ k

  step_pop-KeptCase :
      Returns KeptCase (Cases.step_pop z calc_absolute_address memory vm instruction operands)
  unfolding Cases.step_pop
  step_pop-KeptCase =
      pop_at-KeptCase z calc_absolute_address memory vm instruction (operand_at operands 0) _ m
        (read_register-lt z vm z.register_rsp)

  step_pushf-KeptCase :
      Returns KeptCase (Cases.step_pushf z calc_absolute_address memory vm instruction)
  unfolding Cases.step_pushf
  step_pushf-KeptCase =
      Returns-bind (push_word-Kept z calc_absolute_address memory vm _ none m) λ s k. returned _ k

  step_popf-KeptCase :
      Returns KeptCase (Cases.step_popf z calc_absolute_address memory vm instruction)
  unfolding Cases.step_popf
  step_popf-KeptCase = returned _ (pop_bytes-IsMachine z calc_absolute_address memory vm _ _ m)

  step_generic-KeptCase :
      Returns KeptCase (Cases.step_generic z calc_absolute_address memory vm instruction operands)
  unfolding Cases.step_generic
  step_generic-KeptCase =
      Returns-bind
        (Returns-if (is_cond_br instruction || is_uncond_br instruction) (λ _. value_ends 0)
          (λ _. returned none tt))
        λ lhs _.
          Returns-bind
            (handle_generic-Kept z calc_absolute_address memory vm instruction
              (take instruction.operand_count operands) m)
            λ s k. returned _ k

  step_call-KeptStep :
      Returns KeptStep (Cases.step_call z calc_absolute_address memory vm instruction operands)
  unfolding Cases.step_call
  step_call-KeptStep = Returns-bind (value_ends 0) λ lhs _.
      Returns-bind
        (push_word-Kept z calc_absolute_address memory vm 8
          (some (add64 vm.rip instruction.byte_length)) m)
        λ s k.
          returned
            (record {
              result = s.result;
              vm = if s.result then jump_to s.vm lhs else s.vm;
              forked = none;
            })
            (elim (Bool-cases s.result) [
              | inl e ↦ rw e (no_fork true _ (jump_to-IsMachine s.vm lhs k))
              | inr e ↦ rw e (no_fork false s.vm k)
            ])

  step_ret-KeptStep :
      Returns KeptStep (Cases.step_ret z calc_absolute_address memory vm instruction operands)
  unfolding Cases.step_ret
  step_ret-KeptStep =
      ret_at-KeptStep z calc_absolute_address memory vm _ _ m (read_register-lt z vm z.register_rsp)

  step_cmov-KeptStep :
      Returns KeptStep (Cases.step_cmov z calc_absolute_address memory vm instruction operands)
  unfolding Cases.step_cmov
  step_cmov-KeptStep = Returns-bind (value_ends 0) λ lhs _. Returns-bind (value_ends 1) λ rhs _.
      cmov_values-KeptStep z calc_absolute_address memory (advance vm instruction) instruction
        (operand_at operands 0) lhs rhs (reshape vm _ vm.rip_known vm.registers m)

  step_default-KeptStep :
      Returns KeptStep (Step.step_default z calc_absolute_address memory vm instruction operands)
  unfolding Step.step_default
  step_default-KeptStep =
      Returns-if (dearxan_vm_is_cmov instruction) (λ _. step_cmov-KeptStep)
        (λ _.
          after_case-KeptStep z calc_absolute_address memory instruction _ step_generic-KeptCase)

  step_by_mnemonic-KeptStep :
      (mnemonic : Mnemonic)
      → Returns KeptStep
          (Step.step_by_mnemonic z calc_absolute_address memory mnemonic vm instruction operands)
  unfolding Step.step_by_mnemonic
  step_by_mnemonic-KeptStep mov =
      after_case-KeptStep z calc_absolute_address memory instruction _ step_mov-KeptCase
  step_by_mnemonic-KeptStep movzx =
      after_case-KeptStep z calc_absolute_address memory instruction _ step_mov-KeptCase
  step_by_mnemonic-KeptStep movsx =
      after_case-KeptStep z calc_absolute_address memory instruction _ step_movsx-KeptCase
  step_by_mnemonic-KeptStep movsxd =
      after_case-KeptStep z calc_absolute_address memory instruction _ step_movsx-KeptCase
  step_by_mnemonic-KeptStep lea =
      after_case-KeptStep z calc_absolute_address memory instruction _ step_lea-KeptCase
  step_by_mnemonic-KeptStep add =
      after_case-KeptStep z calc_absolute_address memory instruction _
        (step_arithmetic-KeptCase add64)
  step_by_mnemonic-KeptStep sub =
      after_case-KeptStep z calc_absolute_address memory instruction _
        (step_arithmetic-KeptCase sub64)
  step_by_mnemonic-KeptStep xchg =
      after_case-KeptStep z calc_absolute_address memory instruction _ step_xchg-KeptCase
  step_by_mnemonic-KeptStep push =
      after_case-KeptStep z calc_absolute_address memory instruction _ step_push-KeptCase
  step_by_mnemonic-KeptStep pop =
      after_case-KeptStep z calc_absolute_address memory instruction _ step_pop-KeptCase
  step_by_mnemonic-KeptStep pushf =
      after_case-KeptStep z calc_absolute_address memory instruction _ step_pushf-KeptCase
  step_by_mnemonic-KeptStep pushfq =
      after_case-KeptStep z calc_absolute_address memory instruction _ step_pushf-KeptCase
  step_by_mnemonic-KeptStep popf =
      after_case-KeptStep z calc_absolute_address memory instruction _ step_popf-KeptCase
  step_by_mnemonic-KeptStep popfq =
      after_case-KeptStep z calc_absolute_address memory instruction _ step_popf-KeptCase
  step_by_mnemonic-KeptStep call = step_call-KeptStep
  step_by_mnemonic-KeptStep ret = step_ret-KeptStep
  step_by_mnemonic-KeptStep ud0 = step_default-KeptStep
  step_by_mnemonic-KeptStep ud1 = step_default-KeptStep
  step_by_mnemonic-KeptStep ud2 = step_default-KeptStep
  step_by_mnemonic-KeptStep xbegin = step_default-KeptStep
  step_by_mnemonic-KeptStep xabort = step_default-KeptStep
  step_by_mnemonic-KeptStep xend = step_default-KeptStep
  step_by_mnemonic-KeptStep iret = step_default-KeptStep
  step_by_mnemonic-KeptStep iretd = step_default-KeptStep
  step_by_mnemonic-KeptStep iretq = step_default-KeptStep
  step_by_mnemonic-KeptStep other_mnemonic = step_default-KeptStep

  pub dearxan_vm_step-KeptStep :
      Returns KeptStep (Step.dearxan_vm_step z calc_absolute_address memory vm instruction operands)
  unfolding Step.dearxan_vm_step
  dearxan_vm_step-KeptStep =
      Returns-if (ends_execution_path instruction)
        (λ _. returned _ (no_fork true _ (reshape vm vm.rip false vm.registers m)))
        (λ _. step_by_mnemonic-KeptStep instruction.mnemonic)
