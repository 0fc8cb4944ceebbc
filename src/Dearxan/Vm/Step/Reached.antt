-- ===== src/Dearxan/Vm/Step/Reached.antt =====
-- src/dearxan/vm.c: the states that the emulator comes to from a fresh machine, by steps and into forks.
use yafsml.Prelude.{
  ℕ, ◌≡◌, refl, subst, Bool, true, Option, some, List, inl, arith, Run, done, Returns, returned,
}
use yafsml.Dearxan.Image.{Image}
use yafsml.Dearxan.Vm.Blocks.{Vm}
use yafsml.Dearxan.Vm.Holds.{occupied}
use yafsml.Dearxan.Vm.Machine.{IsMachine, Fits}
use yafsml.Dearxan.Vm.Registers.{Zydis}
use yafsml.Dearxan.Vm.Step
use yafsml.Dearxan.Vm.Decoded.{Operand, Instruction, Stepped, dearxan_vm_init}
use yafsml.Dearxan.Vm.Step.Words.{write_register-IsMachine}
use yafsml.Dearxan.Vm.Step.Forks.{KeptStep}
use yafsml.Dearxan.Vm.Step.Keeps.{dearxan_vm_step-KeptStep}

module _ (z : Zydis) (calc_absolute_address : Instruction → Operand → ℕ → Option ℕ)
    (memory : ℕ → Bool) (image : Option Image) where
  pub data Reached : Vm → Type 0 where
    started : (rip rsp : ℕ) → Reached (dearxan_vm_init z image rip rsp)
    stepped :
        {vm : Vm} (instruction : Instruction) (operands : List Operand) (r : Stepped)
        → Reached vm
        → Step.dearxan_vm_step z calc_absolute_address memory vm instruction operands ≡ done r
        → Reached r.vm
    forked :
        {vm : Vm} (instruction : Instruction) (operands : List Operand) (r : Stepped) (other : Vm)
        → Reached vm
        → Step.dearxan_vm_step z calc_absolute_address memory vm instruction operands ≡ done r
        → r.forked ≡ some other
        → Reached other

  init-IsMachine : (rip rsp : ℕ) → Fits image → IsMachine (dearxan_vm_init z image rip rsp)
  unfolding dearxan_vm_init
  init-IsMachine rip rsp fits = write_register-IsMachine z _ z.register_rsp true rsp (record {
    blocks = record {
      table = inl (refl, refl);
      counted = unfold occupied in refl;
      half = omega arith;
      bound = omega arith;
    };
    image = fits;
  })

  after : (run : Run Stepped) (r : Stepped) → Returns KeptStep run → run ≡ done r → KeptStep r
  after run r (returned a k) e = let same : a ≡ r = cc in subst KeptStep same k

  Reached-IsMachine : (vm : Vm) → Fits image → Reached vm → IsMachine vm
  Reached-IsMachine vm fits (started rip rsp) = init-IsMachine rip rsp fits
  Reached-IsMachine vm fits (stepped instruction operands r before e) =
      (after _ r
        (dearxan_vm_step-KeptStep z calc_absolute_address memory _ (Reached-IsMachine _ fits before)
          instruction operands)
        e).machine
  Reached-IsMachine vm fits (forked instruction operands r other before e f) =
      (after _ r
          (dearxan_vm_step-KeptStep z calc_absolute_address memory _
            (Reached-IsMachine _ fits before) instruction operands)
          e).fork
        vm f

  -- In every state that the emulator comes to from a fresh machine, by steps and into forks, the
  -- step of any instruction with any operands ends, reads no slot outside a table, and leaves
  -- machine and fork with a table that finds each of its blocks and is half full at most. The
  -- memory of the image is there.
  pub Reached-KeptStep :
      (vm : Vm) (instruction : Instruction) (operands : List Operand)
      → Fits image
      → Reached vm
      → Returns KeptStep
          (Step.dearxan_vm_step z calc_absolute_address memory vm instruction operands)
  Reached-KeptStep vm instruction operands fits reached =
      dearxan_vm_step-KeptStep z calc_absolute_address memory vm (Reached-IsMachine vm fits reached)
        instruction operands
