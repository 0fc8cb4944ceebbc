-- ===== src/Dearxan/Vm/Registers/Merge.antt =====
-- src/dearxan/vm.c: the bits that say which registers are known, and the bytes of a merged part.
use yafsml.Prelude.{
  ℕ, zero, suc, ◌+◌, ◌-◌, ◌*◌, ◌/◌, ◌%◌, ◌^◌, ◌≤◌, ◌<◌, ◌≡◌, ◌≢◌, sym, ap, ◌∙◌, false, not, ◌⊎◌,
  inl, inr, some, ltb, ◌==◌, if◌then◌else◌, arith, length, bit_and, bit_or, Bool-cases,
  get_elem?-set_self, get_elem?-set_other,
}
use yafsml.Prelude.Bits.{
  testbit, testbit-le, testbit-bit_and, testbit-bit_or, testbit-mod, testbit-shift, testbit-ones,
  testbit-complement, testbit_ext, bit_and-le_right, bit_and-ones, two_pow-lt, testbit-zero,
}
use native.Mathlib.Nat.{mod-eq_of_lt, mod-lt, mod-mod, div-div-eq-div-mul}
use yafsml.Dearxan.Vm.Blocks.{Registers, uint64}
use yafsml.Dearxan.Vm.Registers.{
  Zydis, register_index, register_bit_offset, size_mask, width_of, value_at, part_of, merge_part,
  with_value,
}

testbit-two_pow : (k i : ℕ) → testbit k (2 ^ i) ≡ (if k == i then 1 else 0)
testbit-two_pow k i =
    let e : 2 ^ i ≡ 1 * 2 ^ i = omega arith in
    ap (testbit k) e ∙ testbit-shift k i 1 ∙ ground (arith, testbit-ones (k - i) 1)

testbit-shift_down : (k o x : ℕ) → testbit k (x / 2 ^ o) ≡ testbit (k + o) x
unfolding testbit
testbit-shift_down k zero x =
    let e : x / 1 ≡ x = omega arith in let e' : k + 0 ≡ k = omega arith in rw (e, e')
testbit-shift_down k (suc o) x =
    let e : x / 2 ^ suc o ≡ x / 2 / 2 ^ o =
      (let t : 2 ^ suc o ≡ 2 * 2 ^ o = omega arith in
        ap (λ n. x / n) t ∙ sym (div-div-eq-div-mul x 2 (2 ^ o))) in
    let e' : k + suc o ≡ suc (k + o) = omega arith in rw (e, e') (testbit-shift_down k o (x / 2))

pub is_known_bit : (known i : ℕ) → not (bit_and known (2 ^ i) == 0) ≡ (testbit i known == 1)
is_known_bit known i =
    let both = testbit-bit_and i known (2 ^ i) in
    let own = testbit-two_pow i i in
    elim (Bool-cases (testbit i known == 1)) [
      | inl set_ ↦ rw set_ (
          let apart : bit_and known (2 ^ i) ≢ 0 =
            λ e. (let q = sym (ap (testbit i) e) ∙ both in ground (arith, testbit-zero i)) in
          ground (arith, apart))
      | inr clear ↦ rw clear (
          let none_set : bit_and known (2 ^ i) ≡ 0 =
            testbit_ext (suc i) (bit_and known (2 ^ i)) 0
              (omega (arith, bit_and-le_right (2 ^ i) known (2 ^ i), two_pow-lt i (suc i)))
              (omega (arith, two_pow-lt i (suc i)))
              (λ k h.
                testbit-bit_and k known (2 ^ i)
                ∙ ground (
                  arith,
                  testbit-two_pow k i,
                  testbit-zero k,
                  testbit-le k known,
                  testbit-le i known,
                )) in
          ground arith)
    ]

-- A part that was merged is the lower bytes of the value.
pub part_of-merge_part :
    (offset width old value : ℕ)
    → offset + width * 8 ≤ 64
    → 0 < width
    → width < 8
    → part_of offset width (merge_part offset width old value) ≡ value % 2 ^ (width * 8)
unfolding part_of merge_part
part_of-merge_part offset width old value fits some_bytes part =
    let bits = width * 8 in
    let small : 2 ^ bits % uint64 ≡ 2 ^ bits = mod-eq_of_lt (two_pow-lt bits 64 (omega arith)) in
    let mask_size : size_mask width ≡ 2 ^ bits - 1 = ground arith in
    let mask = size_mask width * 2 ^ offset % uint64 in
    let mask_lt : mask < uint64 = mod-lt (size_mask width * 2 ^ offset) (omega arith) in
    let merged =
      bit_or (bit_and old (uint64 - 1 - mask)) (bit_and (value * 2 ^ offset % uint64) mask) in
    let power : 0 < 2 ^ bits = omega (arith, two_pow-lt 0 bits) in
    ap (bit_and (merged / 2 ^ offset)) mask_size
    ∙ bit_and-ones bits (merged / 2 ^ offset)
    ∙ testbit_ext bits (merged / 2 ^ offset % 2 ^ bits) (value % 2 ^ bits)
        (mod-lt (merged / 2 ^ offset) power) (mod-lt value power)
        (λ k h.
          let in_mask : testbit (k + offset) mask ≡ 1 =
            testbit-mod (k + offset) 64 (size_mask width * 2 ^ offset) (omega arith)
            ∙ testbit-shift (k + offset) offset (size_mask width)
            ∙ (let s : k + offset - offset ≡ k = omega arith in
                let lt : ltb (k + offset) offset ≡ false = ground arith in
                rw (lt, s, mask_size) (testbit-ones k bits ∙ ground arith)) in
          let shifted : testbit (k + offset) (value * 2 ^ offset % uint64) ≡ testbit k value =
            testbit-mod (k + offset) 64 (value * 2 ^ offset) (omega arith)
            ∙ testbit-shift (k + offset) offset value
            ∙ (let s : k + offset - offset ≡ k = omega arith in
                let lt : ltb (k + offset) offset ≡ false = ground arith in rw (lt, s)) in
          testbit-mod k bits (merged / 2 ^ offset) h
          ∙ testbit-shift_down k offset merged
          ∙ testbit-bit_or (k + offset) (bit_and old (uint64 - 1 - mask))
              (bit_and (value * 2 ^ offset % uint64) mask)
          ∙ omega (
            arith,
            in_mask,
            shifted,
            testbit-le k value,
            testbit-bit_and (k + offset) old (uint64 - 1 - mask),
            testbit-bit_and (k + offset) (value * 2 ^ offset % uint64) mask,
            testbit-complement (k + offset) 64 mask (omega arith) mask_lt,
            testbit-mod k bits value h,
          ))

-- A part of a register as the decoder describes them: the lower bytes, or the second byte.
pub record IsPart (z : Zydis) (reg index : ℕ) : Type 0 where
  pub found : register_index z reg ≡ some index
  pub shape :
      ((register_bit_offset z reg ≡ 0)
        × ((width_of z reg ≡ 8)
            ⊎ ((width_of z reg ≡ 4) ⊎ ((width_of z reg ≡ 2) ⊎ (width_of z reg ≡ 1)))))
      ⊎ ((register_bit_offset z reg ≡ 8) × (width_of z reg ≡ 1))

-- The bits of `known` after a register has become known or unknown.
pub known-set :
    (known i j : ℕ) → testbit j (bit_or known (2 ^ i)) ≡ (if j == i then 1 else testbit j known)
known-set known i j =
    testbit-bit_or j known (2 ^ i) ∙ ground (arith, testbit-two_pow j i, testbit-le j known)

pub known-cleared :
    (known i j : ℕ)
    → i < 16
    → j < 16
    → testbit j (bit_and known (2 ^ 16 - 1 - 2 ^ i)) ≡ (if j == i then 0 else testbit j known)
known-cleared known i j hi hj =
    testbit-bit_and j known (2 ^ 16 - 1 - 2 ^ i)
    ∙ ground (
      arith,
      testbit-complement j 16 (2 ^ i) hj (two_pow-lt i 16 hi),
      testbit-two_pow j i,
      testbit-le j known,
    )

pub value_at-set_self :
    (registers : Registers) (i value : ℕ)
    → i < length registers.values
    → value_at (with_value registers i value) i ≡ value
value_at-set_self registers i value h = rw (get_elem?-set_self registers.values i value h, value_at)

value_at-set_other :
    (registers : Registers) (i j value : ℕ)
    → i ≢ j
    → value_at (with_value registers i value) j ≡ value_at registers j
value_at-set_other registers i j value h =
    rw (get_elem?-set_other registers.values i j value h, value_at)

pub part_of-full : (value : ℕ) → part_of 0 8 value ≡ value % 2 ^ (8 * 8)
unfolding part_of size_mask
part_of-full value = let e : value / 1 ≡ value = omega arith in rw e (bit_and-ones 64 value)

pub part_of-half : (value : ℕ) → part_of 0 4 (value % 2 ^ 32) ≡ value % 2 ^ (4 * 8)
unfolding part_of size_mask
part_of-half value =
    let e : value % 2 ^ 32 / 1 ≡ value % 2 ^ 32 = omega arith in
    rw e (bit_and-ones 32 (value % 2 ^ 32) ∙ mod-mod value (2 ^ 32))
