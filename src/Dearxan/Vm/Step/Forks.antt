-- ===== src/Dearxan/Vm/Step/Forks.antt =====
-- src/dearxan/vm.c: the stack, the jumps and the forks of an instruction keep the tables in order.
use yafsml.Prelude.{
  ℕ, ◌/◌, ◌<◌, ◌≡◌, refl, sym, subst, ◌∙◌, Bool, true, false, ◌&&◌, inl, inr, Option, none, some,
  [], ◌==◌, arith, Bool-cases, Option-cases, Run, Returns, returned, Returns-bind,
}
use yafsml.Dearxan.Vm.Blocks.{Vm, uint64}
use yafsml.Dearxan.Vm.Holds.{occupied}
use yafsml.Dearxan.Vm.Machine.{IsMachine}
use yafsml.Dearxan.Vm.Registers.{Zydis, dearxan_vm_read_register}
use yafsml.Dearxan.Vm.Cases
use yafsml.Dearxan.Vm.Step
use yafsml.Dearxan.Vm.Decoded.{
  Operand, Instruction, Case, Stepped, add64, sub64, dearxan_vm_clone, jump_to, is_some, next_rip,
  fork_branch, is_cond_br, is_uncond_br,
}
use yafsml.Dearxan.Vm.Step.Words.{Kept, wrapped, reshape, write_register-IsMachine}
use yafsml.Dearxan.Vm.Step.Operands.{store_word-Kept, set_operand-Kept, read_word_ends}

clone-IsMachine :
    (memory : ℕ → Bool) (vm copy : Vm)
    → IsMachine vm
    → dearxan_vm_clone memory vm ≡ some copy
    → IsMachine copy
unfolding dearxan_vm_clone
clone-IsMachine memory vm copy m e = elim (Bool-cases (vm.block_capacity == 0)) [
  | inl bare ↦
      let copied : some (record vm { blocks = []; block_capacity = 0; block_count = 0 })
          ≡ some copy =
        sym (rw bare) ∙ e in
      let same : record vm { blocks = []; block_capacity = 0; block_count = 0 } ≡ copy = cc in
      subst IsMachine same (record {
        blocks = record {
          table = inl (refl, refl);
          counted = unfold occupied in refl;
          half = omega arith;
          bound = omega arith;
        };
        image = m.image;
      })
  | inr table ↦ let same : vm ≡ copy = ground arith in subst IsMachine same m
]

abbrev OptionMachine : Option Vm → Type 0
OptionMachine none = Unit {0}
OptionMachine (some vm) = IsMachine vm

abbrev pub KeptCase : Case → Type 0
KeptCase c = IsMachine c.vm

-- The machine and its fork.
pub record KeptStep (r : Stepped) : Type 0 where
  pub machine : IsMachine r.vm
  pub fork : (forked : Vm) → r.forked ≡ some forked → IsMachine forked

pub no_fork :
    (r : Bool) (vm : Vm) → IsMachine vm → KeptStep (record { result = r; vm = vm; forked = none })
no_fork r vm m = record { machine = m; fork = λ forked e. absurd (cc) }

one_fork :
    (r : Bool) (vm copy : Vm)
    → IsMachine vm
    → IsMachine copy
    → KeptStep (record { result = r; vm = vm; forked = some copy })
one_fork r vm copy m k = record {
  machine = m;
  fork = λ forked e. let same : copy ≡ forked = cc in subst IsMachine same k;
}

pub jump_to-IsMachine : (vm : Vm) (target : Option ℕ) → IsMachine vm → IsMachine (jump_to vm target)
jump_to-IsMachine vm none m = reshape vm vm.rip false vm.registers m
jump_to-IsMachine vm (some place) m = reshape vm place vm.rip_known vm.registers m

next_rip-IsMachine :
    (vm : Vm) (instruction : Instruction) (lhs : Option ℕ)
    → IsMachine vm
    → IsMachine (next_rip vm instruction lhs)
unfolding next_rip
next_rip-IsMachine vm instruction lhs m = elim (Bool-cases (is_uncond_br instruction)) [
  | inl e ↦ rw (e, next_rip) (jump_to-IsMachine vm lhs m)
  | inr e ↦ rw (e, next_rip) (reshape vm _ vm.rip_known vm.registers m)
]

fork_branch-KeptStep :
    (vm next : Vm) (target : ℕ) (copy : Option Vm)
    → IsMachine vm
    → IsMachine next
    → OptionMachine copy
    → KeptStep (fork_branch vm next target copy)
unfolding fork_branch
fork_branch-KeptStep vm next target none m n k = no_fork false vm m
fork_branch-KeptStep vm next target (some copy) m n k =
    one_fork true next _ n (reshape copy target true copy.registers k)

clone-OptionMachine :
    (memory : ℕ → Bool) (vm : Vm) → IsMachine vm → OptionMachine (dearxan_vm_clone memory vm)
clone-OptionMachine memory vm m = elim (Option-cases (dearxan_vm_clone memory vm)) [
  | inl e ↦ rw e tt
  | inr (copy, e) ↦ rw e (clone-IsMachine memory vm copy m e)
]

module _ (z : Zydis) (calc_absolute_address : Instruction → Operand → ℕ → Option ℕ)
    (memory : ℕ → Bool) where
  take_branch-KeptStep :
      (instruction : Instruction) (c : Case)
      → IsMachine c.vm
      → KeptStep (Step.take_branch z calc_absolute_address memory instruction c)
  unfolding Step.take_branch
  take_branch-KeptStep instruction c m =
      let n = next_rip-IsMachine c.vm instruction c.lhs m in
      elim (Bool-cases
        (is_cond_br instruction && instruction.operand_count_visible == 1 && is_some c.lhs)) [
          | inl e ↦
              rw (e, Step.take_branch)
                (fork_branch-KeptStep c.vm _ _ _ m n (clone-OptionMachine memory c.vm m))
          | inr e ↦ rw (e, Step.take_branch) (no_fork true _ n)
        ]

  pub after_case-KeptStep :
      (instruction : Instruction) (run : Run Case)
      → Returns KeptCase run
      → Returns KeptStep (Step.after_case z calc_absolute_address memory instruction run)
  unfolding Step.after_case
  after_case-KeptStep instruction run kept = Returns-bind kept λ c m.
      returned _ (elim (Bool-cases c.result) [
        | inl e ↦ rw e (take_branch-KeptStep instruction c m)
        | inr e ↦ rw e (no_fork false c.vm m)
      ])

  push_at-Kept :
      (vm : Vm) (size : ℕ) (value rsp : Option ℕ)
      → IsMachine vm
      → Returns Kept (Cases.push_at z calc_absolute_address memory vm size value rsp)
  unfolding Cases.push_at
  push_at-Kept vm size value none m = returned _ m
  push_at-Kept vm size value (some rsp) m =
      store_word-Kept z calc_absolute_address memory _ (sub64 rsp size) size value
        (write_register-IsMachine z vm z.register_rsp true (sub64 rsp size) m) (wrapped _)

  pub push_word-Kept :
      (vm : Vm) (size : ℕ) (value : Option ℕ)
      → IsMachine vm
      → Returns Kept (Cases.push_word z calc_absolute_address memory vm size value)
  unfolding Cases.push_word
  push_word-Kept vm size value m =
      push_at-Kept vm size value (dearxan_vm_read_register z vm z.register_rsp) m

  pub pop_at-KeptCase :
      (vm : Vm) (instruction : Instruction) (operand : Operand) (rsp : Option ℕ)
      → IsMachine vm
      → ((a : ℕ) → rsp ≡ some a → a < uint64)
      → Returns KeptCase (Cases.pop_at z calc_absolute_address memory vm instruction operand rsp)
  unfolding Cases.pop_at
  pop_at-KeptCase vm instruction operand none m low = returned _ m
  pop_at-KeptCase vm instruction operand (some rsp) m low =
      Returns-bind
        (read_word_ends z calc_absolute_address memory vm rsp (operand.size / 8) m (low rsp refl))
        λ lhs _.
          Returns-bind
            (set_operand-Kept z calc_absolute_address memory _ instruction operand lhs
              (write_register-IsMachine z vm z.register_rsp true (add64 rsp 8) m))
            λ s k. returned _ k

  pub pop_bytes-IsMachine :
      (vm : Vm) (size : ℕ) (rsp : Option ℕ)
      → IsMachine vm
      → IsMachine (Cases.pop_bytes z calc_absolute_address memory vm size rsp)
  unfolding Cases.pop_bytes
  pop_bytes-IsMachine vm size none m = m
  pop_bytes-IsMachine vm size (some rsp) m =
      write_register-IsMachine z vm z.register_rsp true (add64 rsp size) m

  pub ret_at-KeptStep :
      (vm : Vm) (increment : ℕ) (rsp : Option ℕ)
      → IsMachine vm
      → ((a : ℕ) → rsp ≡ some a → a < uint64)
      → Returns KeptStep (Cases.ret_at z calc_absolute_address memory vm increment rsp)
  unfolding Cases.ret_at
  ret_at-KeptStep vm increment none m low =
      returned _ (no_fork true _ (reshape vm vm.rip false vm.registers m))
  ret_at-KeptStep vm increment (some rsp) m low =
      Returns-bind (read_word_ends z calc_absolute_address memory vm rsp 8 m (low rsp refl))
        λ target _. returned _ (
          no_fork true _ (
            jump_to-IsMachine _ target
              (write_register-IsMachine z vm z.register_rsp true (add64 rsp increment) m)))

  fork_cmov-KeptStep :
      (vm : Vm) (instruction : Instruction) (operand : Operand) (rhs : ℕ) (copy : Option Vm)
      → IsMachine vm
      → OptionMachine copy
      → Returns KeptStep
          (Cases.fork_cmov z calc_absolute_address memory vm instruction operand rhs copy)
  unfolding Cases.fork_cmov
  fork_cmov-KeptStep vm instruction operand rhs none m k = returned _ (no_fork false vm m)
  fork_cmov-KeptStep vm instruction operand rhs (some copy) m k =
      Returns-bind
        (set_operand-Kept z calc_absolute_address memory copy instruction operand (some rhs) k)
        λ s ks. returned _ (one_fork true vm s.vm m ks)

  pub cmov_values-KeptStep :
      (vm : Vm) (instruction : Instruction) (operand : Operand) (lhs rhs : Option ℕ)
      → IsMachine vm
      → Returns KeptStep
          (Cases.cmov_values z calc_absolute_address memory vm instruction operand lhs rhs)
  unfolding Cases.cmov_values
  cmov_values-KeptStep vm instruction operand lhs none m = returned _ (no_fork true vm m)
  cmov_values-KeptStep vm instruction operand none (some rhs) m =
      Returns-bind
        (set_operand-Kept z calc_absolute_address memory vm instruction operand (some rhs) m)
        λ s k. returned _ (no_fork true s.vm k)
  cmov_values-KeptStep vm instruction operand (some lhs) (some rhs) m =
      fork_cmov-KeptStep vm instruction operand rhs (dearxan_vm_clone memory vm) m
        (clone-OptionMachine memory vm m)
