-- ===== src/Dearxan/Vm/Decoded.antt =====
-- src/dearxan/vm.c and vm.h: instructions as Zydis decodes them, with the fields that the emulator reads, and
-- the parts of a step that need no operand.
use yafsml.Prelude.{
  ℕ, zero, suc, ◌+◌, ◌-◌, ◌*◌, ◌/◌, ◌%◌, ◌^◌, Bool, true, false, not, ◌&&◌, Option, none, some,
  List, [], ◌∷◌, Bytes, ltb, ◌==◌, if◌then◌else◌, get_elem?, bit_and, bit_xor, replicate,
}
use yafsml.Dearxan.Image.{Image}
use yafsml.Dearxan.Vm.Blocks.{Vm, uint64}
use yafsml.Dearxan.Vm.Registers.{Zydis, dearxan_vm_write_register}
use yafsml.Dearxan.Vm.Memory.{Stored}

pub data OperandType : Type 0 where
  unused_operand : OperandType
  register_operand : OperandType
  memory_operand : OperandType
  immediate_operand : OperandType

-- ZydisDecodedOperand. Displacements and immediates are words of 64 bits in two's complement.
pub record Operand : Type 0 where
  pub kind : OperandType
  pub size : ℕ
  pub writes : Bool
  pub reg : ℕ
  pub base : ℕ
  pub index : ℕ
  pub scale : ℕ
  pub has_displacement : Bool
  pub displacement : ℕ
  pub is_relative : Bool
  pub immediate : ℕ

-- The mnemonics that the emulator tells apart.
pub data Mnemonic : Type 0 where
  mov movzx movsx movsxd lea add sub xchg push pop pushf pushfq popf popfq call ret : Mnemonic
  ud0 ud1 ud2 xbegin xabort xend iret iretd iretq : Mnemonic
  other_mnemonic : Mnemonic

pub data Category : Type 0 where
  interrupt cmov cond_br uncond_br other_category : Category

-- ZydisDecodedInstruction
pub record Instruction : Type 0 where
  pub mnemonic : Mnemonic
  pub category : Category
  pub byte_length : ℕ
  pub operand_width : ℕ
  pub operand_count : ℕ
  pub operand_count_visible : ℕ

-- What lies behind the operands in their array.
abbrev pub blank : Operand
blank = record {
  kind = unused_operand;
  size = 0;
  writes = false;
  reg = 0;
  base = 0;
  index = 0;
  scale = 0;
  has_displacement = false;
  displacement = 0;
  is_relative = false;
  immediate = 0;
}

abbrev pub operand_at : List Operand → ℕ → Operand
operand_at operands i = elim (get_elem? operands i) [ none ↦ blank | some o ↦ o ]

-- The low byte first, as in memory.
unfoldable pub word_of : Bytes → ℕ
word_of [] = 0
word_of (b ∷ bs) = b + 2 ^ 8 * word_of bs

unfoldable pub bytes_of : ℕ → ℕ → Bytes
bytes_of zero value = []
bytes_of (suc n) value = value % 2 ^ 8 ∷ bytes_of n (value / 2 ^ 8)

abbrev pub add64 : ℕ → ℕ → ℕ
add64 a b = (a + b) % uint64

abbrev pub sub64 : ℕ → ℕ → ℕ
sub64 a b = (a + (uint64 - b % uint64)) % uint64

unfoldable pub ends_execution_path : Instruction → Bool
ends_execution_path instruction = elim instruction.mnemonic [
  | ud0 ↦ true
  | ud1 ↦ true
  | ud2 ↦ true
  | xbegin ↦ true
  | xabort ↦ true
  | xend ↦ true
  | iret ↦ true
  | iretd ↦ true
  | iretq ↦ true
  | _ ↦ elim instruction.category [ interrupt ↦ true | _ ↦ false ]
]

unfoldable pub dearxan_vm_is_cmov : Instruction → Bool
dearxan_vm_is_cmov instruction = elim instruction.category [ cmov ↦ true | _ ↦ false ]

abbrev pub is_cond_br : Instruction → Bool
is_cond_br instruction = elim instruction.category [ cond_br ↦ true | _ ↦ false ]

abbrev pub is_uncond_br : Instruction → Bool
is_uncond_br instruction = elim instruction.category [ uncond_br ↦ true | _ ↦ false ]

unfoldable pub dearxan_vm_ret_increment : Instruction → List Operand → ℕ
dearxan_vm_ret_increment instruction operands =
    if not (instruction.operand_count_visible == 0)
    then elim (operand_at operands 0).kind [
      | immediate_operand ↦ add64 8 (operand_at operands 0).immediate
      | _ ↦ 8
    ]
    else 8

-- A flat copy of the table; `memory` answers malloc.
unfoldable pub dearxan_vm_clone : (ℕ → Bool) → Vm → Option Vm
dearxan_vm_clone memory source =
    if source.block_capacity == 0
    then some (record source { blocks = []; block_capacity = 0; block_count = 0 })
    else if memory source.block_capacity
    then some source
    else none

unfoldable pub dearxan_vm_init : Zydis → Option Image → ℕ → ℕ → Vm
unfolding dearxan_vm_write_register
dearxan_vm_init z image rip rsp =
    dearxan_vm_write_register z
      (record {
        image = image;
        rip = rip;
        rip_known = true;
        registers = record { values = replicate 16 0; known = 0 };
        blocks = [];
        block_capacity = 0;
        block_count = 0;
      })
      z.register_rsp true rsp

-- The word that was read, if it was.
abbrev pub word_of_read : Option Bytes → Option ℕ
word_of_read read = elim read [ none ↦ none | some bytes ↦ some (word_of bytes) ]

abbrev pub is_some : Option ℕ → Bool
is_some o = elim o [ none ↦ false | some v ↦ true ]

abbrev pub or_zero : Option ℕ → ℕ
or_zero o = elim o [ none ↦ 0 | some v ↦ v ]

-- The machine after the case of an instruction, and `lhs` where it is known.
pub record Case : Type 0 where
  pub result : Bool
  pub vm : Vm
  pub lhs : Option ℕ

abbrev pub case_of : Option ℕ → Stored → Case
case_of lhs s = record { result = s.result; vm = s.vm; lhs = lhs }

-- `(rhs ^ sign) - sign` on the low bits.
unfoldable pub sign_extend : ℕ → ℕ → ℕ
sign_extend size value =
    if not (size == 0) && ltb size 64
    then sub64 (bit_xor (bit_and value (2 ^ size % uint64 - 1)) (2 ^ (size - 1))) (2 ^ (size - 1))
    else value

abbrev pub both : (ℕ → ℕ → ℕ) → Option ℕ → Option ℕ → Option ℕ
both f lhs rhs = elim lhs [
  | none ↦ none
  | some a ↦ elim rhs [ none ↦ none | some b ↦ some (f a b) ]
]

-- What dearxan_vm_step reports.
pub record Stepped : Type 0 where
  pub result : Bool
  pub vm : Vm
  pub forked : Option Vm

-- A jump to a known place, or to an unknown one.
abbrev pub jump_to : Vm → Option ℕ → Vm
jump_to vm target = elim target [
  | none ↦ record vm { rip_known = false }
  | some place ↦ record vm { rip = place }
]

abbrev pub advance : Vm → Instruction → Vm
advance vm instruction = record vm { rip = add64 vm.rip instruction.byte_length }

-- Where the machine goes on, behind the case of an instruction.
unfoldable pub next_rip : Vm → Instruction → Option ℕ → Vm
next_rip vm instruction lhs =
    if is_uncond_br instruction then jump_to vm lhs else advance vm instruction

-- The state that takes the branch, beside the one that goes on.
unfoldable pub fork_branch : Vm → Vm → ℕ → Option Vm → Stepped
fork_branch vm next target none = record { result = false; vm = vm; forked = none }
fork_branch vm next target (some forked) = record {
  result = true;
  vm = next;
  forked = some (record forked { rip = target; rip_known = true });
}

unfoldable pub dearxan_vm_uninit : Vm → Vm
dearxan_vm_uninit vm = record {
  image = none;
  rip = 0;
  rip_known = false;
  registers = record { values = replicate 16 0; known = 0 };
  blocks = [];
  block_capacity = 0;
  block_count = 0;
}
