-- ===== src/Dearxan/Vm/Registers/Parts.antt =====
-- src/dearxan/vm.c: a register that was written reads back, and the others read as before.
use yafsml.Prelude.{
  ℕ, ◌+◌, ◌-◌, ◌*◌, ◌%◌, ◌^◌, ◌≤◌, ◌<◌, ◌≡◌, ◌≢◌, sym, ap, ◌∙◌, Bool, true, false, inl, inr, none,
  some, ◌==◌, arith, length, bit_and, bit_or, get_elem?-set_other,
}
use yafsml.Prelude.Bits.{testbit}
use yafsml.Dearxan.Vm.Blocks.{Vm, Registers}
use yafsml.Dearxan.Vm.Registers.{
  Zydis, register_index, register_bit_offset, width_of, is_known, value_at, part_of, merge_part,
  read_at, write_at, with_value, dearxan_vm_read_register, dearxan_vm_write_register,
}
use yafsml.Dearxan.Vm.Registers.Merge.{
  IsPart, is_known_bit, known-cleared, known-set, part_of-full, part_of-half, part_of-merge_part,
  value_at-set_self,
}

module _ (z : Zydis) (registers : Registers) (file : length registers.values ≡ 16) where
  -- A register that is written is known.
  read_at-with_value :
      (reg index value : ℕ)
      → index < 16
      → read_at z (with_value registers index value) reg index
        ≡ some (part_of (register_bit_offset z reg) (width_of z reg) value)
  unfolding read_at
  read_at-with_value reg index value h =
      let bit : testbit index (bit_or registers.known (2 ^ index)) ≡ 1 =
        known-set registers.known index index ∙ ground arith in
      let known : is_known (with_value registers index value) index ≡ true =
        is_known_bit (bit_or registers.known (2 ^ index)) index ∙ rw bit in
      rw (known, value_at-set_self registers index value (omega (arith, file)))

  -- A part of two bytes or of one goes into a value that is known.
  merge-read_at :
      (reg index value : ℕ)
      → index < 16
      → is_known registers index ≡ true
      → register_bit_offset z reg + width_of z reg * 8 ≤ 64
      → 0 < width_of z reg
      → width_of z reg < 4
      → read_at z (write_at z registers reg index true value) reg index
        ≡ some (value % 2 ^ (width_of z reg * 8))
  unfolding write_at
  merge-read_at reg index value h known fits some_bytes small =
      let not8 : (width_of z reg == 8) ≡ false = ground arith in
      let not4 : (width_of z reg == 4) ≡ false = ground arith in
      let merged =
        merge_part (register_bit_offset z reg) (width_of z reg) (value_at registers index) value in
      rw (not8, not4, known)
        (read_at-with_value reg index merged h
          ∙ ap some (
              part_of-merge_part (register_bit_offset z reg) (width_of z reg)
                (value_at registers index) value fits some_bytes (omega arith)))

  full-read_at :
      (reg index value : ℕ)
      → index < 16
      → register_bit_offset z reg ≡ 0
      → width_of z reg ≡ 8
      → read_at z (write_at z registers reg index true value) reg index
        ≡ some (value % 2 ^ (width_of z reg * 8))
  unfolding write_at
  full-read_at reg index value h offset width =
      let is8 : (width_of z reg == 8) ≡ true = ground arith in
      rw is8
        (read_at-with_value reg index value h ∙ rw (offset, width) (ap some (part_of-full value)))

  half-read_at :
      (reg index value : ℕ)
      → index < 16
      → register_bit_offset z reg ≡ 0
      → width_of z reg ≡ 4
      → read_at z (write_at z registers reg index true value) reg index
        ≡ some (value % 2 ^ (width_of z reg * 8))
  unfolding write_at
  half-read_at reg index value h offset width =
      let not8 : (width_of z reg == 8) ≡ false = ground arith in
      let is4 : (width_of z reg == 4) ≡ true = ground arith in
      rw (not8, is4)
        (read_at-with_value reg index (value % 2 ^ 32) h
          ∙ rw (offset, width) (ap some (part_of-half value)))

  write_at-read_at :
      (reg index value : ℕ)
      → IsPart z reg index
      → index < 16
      → (width_of z reg < 4 → is_known registers index ≡ true)
      → read_at z (write_at z registers reg index true value) reg index
        ≡ some (value % 2 ^ (width_of z reg * 8))
  write_at-read_at reg index value p h known = elim p.shape [
    | inl (low, inl w) ↦ full-read_at reg index value h low w
    | inl (low, inr (inl w)) ↦ half-read_at reg index value h low w
    | inl (low, inr (inr (inl w))) ↦
        merge-read_at reg index value h (known (omega arith)) (omega arith) (omega arith)
          (omega arith)
    | inl (low, inr (inr (inr w))) ↦
        merge-read_at reg index value h (known (omega arith)) (omega arith) (omega arith)
          (omega arith)
    | inr (second, w) ↦
        merge-read_at reg index value h (known (omega arith)) (omega arith) (omega arith)
          (omega arith)
  ]

  -- Another register reads as before, whatever is written.
  write_at-other :
      (reg index reg' other value : ℕ) (set_ : Bool)
      → index < 16
      → other < 16
      → index ≢ other
      → read_at z (write_at z registers reg index set_ value) reg' other
        ≡ read_at z registers reg' other
  unfolding write_at read_at
  write_at-other reg index reg' other value set_ h h' apart = ground (
    arith,
    is_known_bit registers.known other,
    is_known_bit (bit_or registers.known (2 ^ index)) other,
    is_known_bit (bit_and registers.known (2 ^ 16 - 1 - 2 ^ index)) other,
    known-set registers.known index other,
    known-cleared registers.known index other h h',
    apart,
    get_elem?-set_other registers.values index other value apart,
    get_elem?-set_other registers.values index other (value % 2 ^ 32) apart,
    get_elem?-set_other registers.values index other
        (merge_part (register_bit_offset z reg) (width_of z reg) (value_at registers index) value)
        apart,
  )

  write_at-unknown :
      (reg index value : ℕ)
      → index < 16
      → read_at z (write_at z registers reg index false value) reg index ≡ none
  unfolding write_at read_at
  write_at-unknown reg index value h =
      let bit = known-cleared registers.known index index h h in
      ground (arith, is_known_bit (bit_and registers.known (2 ^ 16 - 1 - 2 ^ index)) index)

register_index-lt : (z : Zydis) (reg index : ℕ) → register_index z reg ≡ some index → index < 16
unfolding register_index
register_index-lt z reg index e = ground arith

-- What a write to a register does to the registers that are read.
pub record Writes (z : Zydis) (vm : Vm) (reg index : ℕ) (value : ℕ) : Type 0 where
  pub written :
      (width_of z reg < 4 → is_known vm.registers index ≡ true)
      → dearxan_vm_read_register z (dearxan_vm_write_register z vm reg true value) reg
        ≡ some (value % 2 ^ (width_of z reg * 8))
  pub unknown :
      dearxan_vm_read_register z (dearxan_vm_write_register z vm reg false value) reg ≡ none
  pub others :
      (known : Bool) (reg' other : ℕ)
      → register_index z reg' ≡ some other
      → index ≢ other
      → dearxan_vm_read_register z (dearxan_vm_write_register z vm reg known value) reg'
        ≡ dearxan_vm_read_register z vm reg'

pub read_register_at :
    (z : Zydis) (vm : Vm) (reg index : ℕ)
    → register_index z reg ≡ some index
    → dearxan_vm_read_register z vm reg ≡ read_at z vm.registers reg index
unfolding dearxan_vm_read_register
read_register_at z vm reg index e = rw (e, dearxan_vm_read_register)

write_register_at :
    (z : Zydis) (vm : Vm) (reg index value : ℕ) (known : Bool)
    → register_index z reg ≡ some index
    → dearxan_vm_write_register z vm reg known value
      ≡ record vm { registers = write_at z vm.registers reg index known value }
unfolding dearxan_vm_write_register
write_register_at z vm reg index value known e = rw (e, dearxan_vm_write_register)

-- A known value written to a register of one to eight bytes reads back cut to its width, where a
-- register of one or two bytes belongs to one that is known; an unknown one reads as unknown; and
-- every register with another number reads as before. The decoder places the parts at the bottom
-- or, for one byte, at the second byte.
pub dearxan_vm_write_register-Writes :
    (z : Zydis) (vm : Vm) (reg index value : ℕ)
    → IsPart z reg index
    → length vm.registers.values ≡ 16
    → Writes z vm reg index value
dearxan_vm_write_register-Writes z vm reg index value p file =
    let found = p.found in
    let h = register_index-lt z reg index found in
    let after = λ (known : Bool) (reg' other : ℕ) (e : register_index z reg' ≡ some other).
      read_register_at z (dearxan_vm_write_register z vm reg known value) reg' other e
      ∙ ap (λ (v : Vm). read_at z v.registers reg' other)
          (write_register_at z vm reg index value known found) in
    record {
      written = λ known.
          after true reg index found
          ∙ write_at-read_at z vm.registers file reg index value p h known;
      unknown =
          after false reg index found ∙ write_at-unknown z vm.registers file reg index value h;
      others = λ known reg' other e apart.
          after known reg' other e
          ∙ write_at-other z vm.registers file reg index reg' other value known h
              (register_index-lt z reg' other e) apart
          ∙ sym (read_register_at z vm reg' other e);
    }
