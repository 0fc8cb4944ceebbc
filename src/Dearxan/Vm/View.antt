-- ===== src/Dearxan/Vm/View.antt =====
-- src/dearxan/vm.c: the memory as a function from addresses to the bytes that are known, and what the
-- chunks in one block do to it.
use yafsml.Prelude.{
  ℕ, ◌+◌, ◌-◌, ◌*◌, ◌/◌, ◌%◌, ◌^◌, ◌≤◌, ◌<◌, ◌≡◌, ◌≢◌, sym, ap, ◌∙◌, Bool, true, ◌&&◌, ◌⊎◌, inl,
  inr, Option, none, some, ◌++◌, Bytes, ◌==◌, ltb, leb, if◌then◌else◌, arith, length, get_elem?,
  take, drop, bit_and, Bool-cases, get_elem?-append, get_elem?-take, get_elem?-drop, length-append,
  length-take, length-drop, ==_iff,
}
use yafsml.Prelude.Bits.{
  testbit, testbit-le, testbit-bit_and, testbit-bit_or, testbit-mod, testbit-shift, testbit-ones,
  testbit-complement, testbit_ext, bit_and-le_right, two_pow-lt,
}
use native.Mathlib.Nat.{mod-lt, mod-eq_of_lt}
use yafsml.Dearxan.Image.{Image, dearxan_image_read}
use yafsml.Dearxan.Vm.Blocks.{Block, Vm, uint64}
use yafsml.Dearxan.Vm.Holds.{stored}
use yafsml.Dearxan.Vm.Memory.{span, splice, write_block, forget_block, read_block}

-- The byte of a block, where it is known.
unfoldable pub block_view : Block → ℕ → Option ℕ
block_view b i = if testbit i b.known == 1 then get_elem? b.bytes i else none

unfoldable pub image_view : Option Image → ℕ → Option ℕ
image_view image address = elim (dearxan_image_read image address 1) [
  | none ↦ none
  | some read ↦ get_elem? read.bytes 0
]

-- The byte at an address: in its block, or in the image where there is no block.
unfoldable pub view : Vm → ℕ → Option ℕ
unfolding image_view block_view
view vm address = elim (stored vm.blocks (address / 64 + 1)) [
  | none ↦ image_view vm.image address
  | some b ↦ block_view b (address % 64)
]

-- What is known is known no more, or as it was.
abbrev pub Under : Option ℕ → Option ℕ → Type 0
Under x y = (x ≡ y) ⊎ (x ≡ none)

-- Whether byte `i` is one of `chunk` bytes from `offset` on.
abbrev pub covers : ℕ → ℕ → ℕ → Bool
covers offset chunk i = leb offset i && ltb i (offset + chunk)

module _ (offset chunk : ℕ) (fits : offset + chunk ≤ 64) where
  testbit-span :
      (i : ℕ) → i < 64 → testbit i (span offset chunk) ≡ (if covers offset chunk i then 1 else 0)
  unfolding span
  testbit-span i h = elim (Bool-cases (chunk == 64)) [
    | inl full ↦ rw full (ground (arith, testbit-ones i 64))
    | inr part ↦
        let small : 2 ^ chunk % uint64 ≡ 2 ^ chunk =
          mod-eq_of_lt (two_pow-lt chunk 64 (ground arith)) in
        rw (part, small)
          (testbit-mod i 64 ((2 ^ chunk - 1) * 2 ^ offset) h
            ∙ testbit-shift i offset (2 ^ chunk - 1)
            ∙ ground (arith, testbit-ones (i - offset) chunk))
  ]

  span-lt : span offset chunk < uint64
  unfolding span
  span-lt = elim (Bool-cases (chunk == 64)) [
    | inl full ↦ rw full (omega arith)
    | inr part ↦ rw part (mod-lt ((2 ^ chunk % uint64 - 1) * 2 ^ offset) (omega arith))
  ]

pub length-splice :
    (bytes : Bytes) (offset : ℕ) (input : Bytes)
    → offset + length input ≤ length bytes
    → length (splice bytes offset input) ≡ length bytes
unfolding splice
length-splice bytes offset input h = omega (
  arith,
  length-append (take offset bytes) (input ++ drop (offset + length input) bytes),
  length-append input (drop (offset + length input) bytes),
  length-take offset bytes,
  length-drop (offset + length input) bytes,
)

get_elem?-splice :
    (bytes : Bytes) (offset : ℕ) (input : Bytes) (i : ℕ)
    → offset + length input ≤ length bytes
    → get_elem? (splice bytes offset input) i
      ≡ (if covers offset (length input) i then get_elem? input (i - offset) else get_elem? bytes i)
unfolding splice
get_elem?-splice bytes offset input i h =
    let front = length-take offset bytes in
    let cut : length (take offset bytes) ≡ offset = omega arith in
    let outer =
      get_elem?-append (take offset bytes) (input ++ drop (offset + length input) bytes) i in
    let inner = get_elem?-append input (drop (offset + length input) bytes) (i - offset) in
    let back = get_elem?-drop (offset + length input) (i - offset - length input) bytes in
    elim (Bool-cases (ltb i offset)) [
      | inl before ↦
          outer ∙ rw (cut, before) (get_elem?-take offset i bytes (ground arith) ∙ ground arith)
      | inr after ↦
          outer
          ∙ rw (cut, after)
              (inner ∙ (elim (Bool-cases (ltb (i - offset) (length input))) [
                | inl within ↦ rw within (ground arith)
                | inr behind ↦ rw behind (
                    back
                    ∙ (let q : offset + length input + (i - offset - length input) ≡ i =
                          ground arith in
                        rw q (ground arith)))
              ]))
    ]

-- A chunk that is written is known, and the rest of the block is as it was.
pub write_block-view :
    (offset : ℕ) (input : Bytes) (b : Block) (i : ℕ)
    → offset + length input ≤ 64
    → length b.bytes ≡ 64
    → i < 64
    → block_view (write_block offset input b) i
      ≡ (if covers offset (length input) i then get_elem? input (i - offset) else block_view b i)
unfolding write_block block_view
write_block-view offset input b i fits whole h = ground (
  arith,
  get_elem?-splice b.bytes offset input i,
  testbit-bit_or i b.known (span offset (length input)),
  testbit-span offset (length input) fits i h,
  testbit-le i b.known,
)

pub forget_block-view :
    (offset chunk : ℕ) (b : Block) (i : ℕ)
    → offset + chunk ≤ 64
    → i < 64
    → block_view (forget_block offset chunk b) i
      ≡ (if covers offset chunk i then none else block_view b i)
unfolding forget_block block_view
forget_block-view offset chunk b i fits h = ground (
  arith,
  testbit-bit_and i b.known (uint64 - 1 - span offset chunk),
  testbit-complement i 64 (span offset chunk) h (span-lt offset chunk fits),
  testbit-span offset chunk fits i h,
  testbit-le i b.known,
)

-- A chunk that is read is what is known of its bytes, and it is read where all of them are known.
pub record ReadsChunk (view : ℕ → Option ℕ) (chunk : ℕ) (read : Option Bytes) : Type 0 where
  pub bytes :
      (bs : Bytes)
      → read ≡ some bs
      → (length bs ≡ chunk) × ((i : ℕ) → i < chunk → get_elem? bs i ≡ view i)
  pub known : ((i : ℕ) → i < chunk → view i ≢ none) → read ≢ none

pub read_block-ReadsChunk :
    (offset chunk : ℕ) (b : Block)
    → offset + chunk ≤ 64
    → length b.bytes ≡ 64
    → ReadsChunk (λ i. block_view b (offset + i)) chunk (read_block offset chunk b)
unfolding read_block block_view
read_block-ReadsChunk offset chunk b fits whole =
    let mask = span offset chunk in
    let both = λ (i : ℕ). testbit-bit_and i b.known mask in
    record {
      bytes = λ bs e.
          let same : bit_and b.known mask ≡ mask = ground arith in
          let content : take chunk (drop offset b.bytes) ≡ bs = ground arith in
          (
            ap length (sym content)
                ∙ omega
                    (arith, length-take chunk (drop offset b.bytes), length-drop offset b.bytes),
            λ i h.
                let bit = sym (ap (testbit (offset + i)) same) ∙ both (offset + i) in
                let set : testbit (offset + i) b.known ≡ 1 = ground (
                  arith,
                  testbit-span offset chunk fits (offset + i) (omega arith),
                  testbit-le (offset + i) b.known,
                ) in
                ap (λ l. get_elem? l i) (sym content)
                ∙ get_elem?-take chunk i (drop offset b.bytes) h
                ∙ get_elem?-drop offset i b.bytes
                ∙ (let one : (testbit (offset + i) b.known == 1) ≡ true = ground arith in rw one),
          );
      known = λ all none_read.
          let same : bit_and b.known mask ≡ mask =
            testbit_ext 64 (bit_and b.known mask) mask
              (omega (arith, bit_and-le_right mask b.known mask, span-lt offset chunk fits))
              (span-lt offset chunk fits)
              (λ k h. both k ∙ (elim (Bool-cases (covers offset chunk k)) [
                | inl inside ↦
                    let shift : offset + (k - offset) ≡ k = ground arith in
                    let seen = all (k - offset) (ground arith) in
                    let one : testbit k b.known ≡ 1 =
                      rw shift at
                        (elim (Bool-cases (testbit (offset + (k - offset)) b.known == 1))
                          as (λ _. testbit (offset + (k - offset)) b.known ≡ 1) [
                            | inl e ↦ (==_iff _ _).0 e
                            | inr e ↦ absurd (seen (rw e))
                          ]) in
                    ground (arith, testbit-span offset chunk fits k h)
                | inr outside ↦ ground (arith, testbit-span offset chunk fits k h)
              ])) in
          ground arith;
    }
