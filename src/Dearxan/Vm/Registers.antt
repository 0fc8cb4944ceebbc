-- ===== src/Dearxan/Vm/Registers.antt =====
-- src/dearxan/vm.c: the sixteen registers, their parts, and which of them are known. The decoder Zydis
-- is a parameter: its numbers of registers and its functions on them.
pub mod Merge
pub mod Parts
use yafsml.Prelude.{
  ℕ, zero, suc, ◌+◌, ◌-◌, ◌*◌, ◌/◌, ◌%◌, ◌^◌, Bool, true, false, not, ◌&&◌, ◌||◌, Option, none,
  some, List, ltb, leb, ◌==◌, if◌then◌else◌, get_elem?, set, bit_and, bit_or,
}
use yafsml.Dearxan.Vm.Blocks.{Vm, Registers, uint64}

-- ZydisRegister is an enumeration, here its numbers. ZydisRegisterGetId is negative, here `none`, for
-- what is no register; ZydisRegisterGetWidth counts bits; both functions are those of 64-bit mode.
pub record Zydis : Type 0 where
  pub register_none : ℕ
  pub register_rax : ℕ
  pub register_rsp : ℕ
  pub register_r15 : ℕ
  pub register_ah : ℕ
  pub register_bh : ℕ
  pub register_rip : ℕ
  pub largest_enclosing : ℕ → ℕ
  pub register_id : ℕ → Option ℕ
  pub register_width : ℕ → ℕ

unfoldable pub register_index : Zydis → ℕ → Option ℕ
register_index z reg =
    let enclosing = z.largest_enclosing reg in
    if ltb enclosing z.register_rax || ltb z.register_r15 enclosing
    then none
    else elim (z.register_id enclosing) [
      | none ↦ none
      | some id ↦ if leb 16 id then none else some id
    ]

-- The bytes of a register.
abbrev pub width_of : Zydis → ℕ → ℕ
width_of z reg = z.register_width reg / 8

unfoldable pub register_bit_offset : Zydis → ℕ → ℕ
register_bit_offset z reg = if leb z.register_ah reg && leb reg z.register_bh then 8 else 0

unfoldable pub size_mask : ℕ → ℕ
size_mask size =
    if size == 0 then 0 else if leb 8 size then uint64 - 1 else 2 ^ (size * 8) % uint64 - 1

abbrev pub is_known : Registers → ℕ → Bool
is_known registers index = not (bit_and registers.known (2 ^ index) == 0)

-- The value of register `index`; there are sixteen.
abbrev pub value_at : Registers → ℕ → ℕ
value_at registers index = elim (get_elem? registers.values index) [ none ↦ 0 | some v ↦ v ]

-- The part of a value that a register names.
unfoldable pub part_of : ℕ → ℕ → ℕ → ℕ
unfolding size_mask
part_of offset width value = bit_and (value / 2 ^ offset) (size_mask width)

unfoldable pub read_at : Zydis → Registers → ℕ → ℕ → Option ℕ
unfolding part_of register_bit_offset
read_at z registers reg index =
    if is_known registers index
    then some (part_of (register_bit_offset z reg) (width_of z reg) (value_at registers index))
    else none

unfoldable pub dearxan_vm_read_register : Zydis → Vm → ℕ → Option ℕ
unfolding register_index read_at
dearxan_vm_read_register z vm reg = elim (register_index z reg) [
  | none ↦ none
  | some index ↦ read_at z vm.registers reg index
]

-- A value with another part.
unfoldable pub merge_part : ℕ → ℕ → ℕ → ℕ → ℕ
unfolding size_mask
merge_part offset width old value =
    let mask = size_mask width * 2 ^ offset % uint64 in
    bit_or (bit_and old (uint64 - 1 - mask)) (bit_and (value * 2 ^ offset % uint64) mask)

abbrev pub with_value : Registers → ℕ → ℕ → Registers
with_value registers index value = record {
  values = set registers.values index value;
  known = bit_or registers.known (2 ^ index);
}

unfoldable pub write_at : Zydis → Registers → ℕ → ℕ → Bool → ℕ → Registers
unfolding merge_part register_bit_offset
write_at z registers reg index known value =
    let width = width_of z reg in
    if not known
    then record registers { known = bit_and registers.known (2 ^ 16 - 1 - 2 ^ index) }
    else if width == 8
    then with_value registers index value
    else if width == 4
    then with_value registers index (value % 2 ^ 32)
    else if is_known registers index
    then with_value registers index
        (merge_part (register_bit_offset z reg) width (value_at registers index) value)
    else registers

unfoldable pub dearxan_vm_write_register : Zydis → Vm → ℕ → Bool → ℕ → Vm
unfolding register_index write_at
dearxan_vm_write_register z vm reg known value = elim (register_index z reg) [
  | none ↦ vm
  | some index ↦ record vm { registers = write_at z vm.registers reg index known value }
]
