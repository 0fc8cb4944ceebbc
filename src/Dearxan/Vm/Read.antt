-- ===== src/Dearxan/Vm/Read.antt =====
-- src/dearxan/vm.c: dearxan_vm_read_memory reads what is known, across the borders of blocks.
use yafsml.Prelude.{
  ℕ, zero, suc, ◌+◌, ◌-◌, ◌/◌, ◌%◌, ◌≤◌, ◌<◌, ◌≡◌, refl, sym, ap, subst, ◌∙◌, true, false, not,
  ◌&&◌, inl, inr, Option, none, some, [], ◌++◌, Bytes, ◌==◌, ltb, arith, length, get_elem?,
  Bool-cases, get_elem?-append, length-append, Run, done, ◌>>=◌, Returns, returned, Returns-bind,
  fault,
}
use native.Mathlib.Nat.{mod-eq_of_lt}
use yafsml.Dearxan.Image.{Image}
use yafsml.Dearxan.Vm.Blocks.{Block, Vm, uint64}
use yafsml.Dearxan.Vm.Holds.{stored}
use yafsml.Dearxan.Vm.Grow.{IsVm-AllSound}
use yafsml.Dearxan.Vm.Machine.{IsMachine, Holds}
use yafsml.Dearxan.Vm.Table.{Existing, find_existing_block-Existing}
use yafsml.Dearxan.Vm.Memory.{
  chunk_size, read_block, read_image, read_chunk, read_loop, dearxan_vm_read_memory,
}
use yafsml.Dearxan.Vm.View.{view, block_view, image_view, ReadsChunk, read_block-ReadsChunk}
use yafsml.Dearxan.Vm.ImageView.{read_image-ReadsChunk}

pub view_block :
    (vm : Vm) (address : ℕ) (b : Block)
    → stored vm.blocks (address / 64 + 1) ≡ some b
    → view vm address ≡ block_view b (address % 64)
unfolding view
view_block vm address b e = rw (e, view)

pub view_image :
    (vm : Vm) (address : ℕ)
    → stored vm.blocks (address / 64 + 1) ≡ none
    → view vm address ≡ image_view vm.image address
unfolding view
view_image vm address e = rw (e, view)

-- A reading for a view is one for another that says the same of its bytes.
ReadsChunk-congr :
    (f g : ℕ → Option ℕ) (chunk : ℕ) (read : Option Bytes)
    → ((i : ℕ) → i < chunk → f i ≡ g i)
    → ReadsChunk f chunk read
    → ReadsChunk g chunk read
ReadsChunk-congr f g chunk read same r = record {
  bytes = λ bs e. let (size, content) = r.bytes bs e in (size, λ i h. content i h ∙ same i h);
  known = λ all. r.known (λ i h e. all i h (sym (same i h) ∙ e));
}

module _ (vm : Vm) (m : IsMachine vm) where
  -- The place of byte `i` of a chunk in the block of its address.
  place_lem :
      (address i : ℕ)
      → address % 64 + i < 64
      → ((address + i) / 64 ≡ address / 64) × ((address + i) % 64 ≡ address % 64 + i)
  place_lem address i h = (omega arith, omega arith)

  image_chunk :
      (image : Option Image) (address chunk : ℕ)
      → image ≡ vm.image
      → 0 < chunk
      → address % 64 + chunk ≤ 64
      → stored vm.blocks (address / 64 + 1) ≡ none
      → ReadsChunk (λ i. view vm (address + i)) chunk (read_image image address chunk)
  image_chunk image address chunk same some_bytes fits absent =
      ReadsChunk-congr (λ i. image_view image (address + i)) (λ i. view vm (address + i)) chunk
        (read_image image address chunk)
        (λ i h.
          let (block, place) = place_lem address i (omega arith) in
          sym (
            view_image vm (address + i) (rw block absent)
            ∙ ap (λ o. image_view o (address + i)) (sym same)))
        (elim image
            as (λ o.
              o ≡ vm.image
              → ReadsChunk (λ i. image_view o (address + i)) chunk (read_image o address chunk)) [
                | none ↦ λ _.
                    unfold read_image image_view in
                    (record { bytes = λ bs e. absurd (cc); known = λ all e. all 0 some_bytes refl })
                | some loaded ↦
                    λ q. read_image-ReadsChunk loaded address chunk (rw (← q) at m.image) some_bytes
              ]
          same)

  block_chunk :
      (address chunk slot : ℕ) (b : Block)
      → address % 64 + chunk ≤ 64
      → Holds vm (address / 64) slot b
      → ReadsChunk (λ i. view vm (address + i)) chunk (read_block (address % 64) chunk b)
  block_chunk address chunk slot b fits held =
      ReadsChunk-congr (λ i. block_view b (address % 64 + i)) (λ i. view vm (address + i)) chunk
        (read_block (address % 64) chunk b)
        (λ i h.
          let (block, place) = place_lem address i (omega arith) in
          sym
            (view_block vm (address + i) b (rw block held.stored_there) ∙ ap (block_view b) place))
        (read_block-ReadsChunk (address % 64) chunk b fits
          (IsVm-AllSound vm m.blocks slot b held.there).bytes)

  pub read_chunk-ReadsChunk :
      (address chunk : ℕ)
      → address < uint64
      → 0 < chunk
      → address % 64 + chunk ≤ 64
      → Returns (ReadsChunk (λ i. view vm (address + i)) chunk) (read_chunk vm address chunk)
  unfolding read_chunk
  read_chunk-ReadsChunk address chunk low some_bytes fits =
      Returns-bind (find_existing_block-Existing vm (address / 64) (omega arith) m) λ o.
        elim o
          as (λ o.
            Existing vm (address / 64) (omega arith) m o
            → Returns (ReadsChunk (λ i. view vm (address + i)) chunk)
                (elim o as (λ _. Run (Option Bytes)) [
                  | none ↦ done (read_image vm.image address chunk)
                  | some slot ↦ elim (get_elem? vm.blocks slot) as (λ _. Run (Option Bytes)) [
                    | none ↦ fault
                    | some block ↦ done (read_block (address % 64) chunk block)
                  ]
                ])) [
                  | none ↦ λ absent.
                      returned _ (image_chunk vm.image address chunk refl some_bytes fits absent)
                  | some slot ↦ λ (b, held).
                      rw held.there (returned _ (block_chunk address chunk slot b fits held))
                ]

  -- One chunk and what follows it.
  joined :
      (address chunk rest : ℕ) (bs : Bytes) (more : Option Bytes)
      → ReadsChunk (λ i. view vm (address + i)) chunk (some bs)
      → ReadsChunk (λ i. view vm (address + chunk + i)) rest more
      → ReadsChunk
          (λ i. view vm (address + i))
          (chunk + rest)
          (elim more as (λ _. Option Bytes) [ none ↦ none | some ys ↦ some (bs ++ ys) ])
  joined address chunk rest bs none first second = record {
    bytes = λ cs e. absurd (cc);
    known = λ all _.
        second.known
          (λ i h e.
            all (chunk + i) (omega arith)
              (let q : address + (chunk + i) ≡ address + chunk + i = omega arith in rw q e))
          refl;
  }
  joined address chunk rest bs (some ys) first second = record {
    bytes = λ cs e.
        let content : bs ++ ys ≡ cs = cc in
        let (size, front) = first.bytes bs refl in
        let (size', back) = second.bytes ys refl in
        (
          ap length (sym content) ∙ omega (arith, length-append bs ys),
          λ i h.
              ap (λ l. get_elem? l i) (sym content)
              ∙ get_elem?-append bs ys i
              ∙ elim (Bool-cases (ltb i (length bs))) [
                | inl early ↦ rw early (front i (ground arith))
                | inr late ↦ rw late (
                    rw size (
                      back (i - chunk) (ground arith)
                      ∙ (let q : address + chunk + (i - chunk) ≡ address + i = ground arith in
                          ap (view vm) q)))
              ],
        );
    known = λ all e. cc;
  }

  failed :
      (address chunk size : ℕ)
      → chunk ≤ size
      → ReadsChunk (λ i. view vm (address + i)) chunk none
      → ReadsChunk (λ i. view vm (address + i)) size none
  failed address chunk size h first = record {
    bytes = λ cs e. absurd (cc);
    known = λ all _. first.known (λ i l. all i (omega arith)) refl;
  }

  -- The loop goes on at `next`, which is the address unless nothing is left.
  read_loop-ReadsChunk :
      (fuel next address size : ℕ)
      → (0 < size → next ≡ address)
      → size ≤ fuel
      → address + size ≤ uint64
      → Returns (ReadsChunk (λ i. view vm (address + i)) size) (read_loop fuel vm next size)
  unfolding read_loop
  read_loop-ReadsChunk fuel next address zero at enough low = returned (some []) (record {
    bytes = λ bs e.
        let none_left : [] ≡ bs = cc in (ap length (sym none_left), λ i h. absurd (omega arith));
    known = λ all e. cc;
  })
  read_loop-ReadsChunk zero next address (suc size) at enough low = absurd (omega arith)
  read_loop-ReadsChunk (suc fuel) next address (suc size) at enough low =
      let chunk = chunk_size address (suc size) in
      let sizes : (0 < chunk) × (chunk ≤ suc size) × (address % 64 + chunk ≤ 64) =
        (ground arith, ground arith, ground arith) in
      let left = suc size - chunk in
      let whole : chunk + left ≡ suc size = omega (arith, sizes.1) in
      subst
        (λ n.
          Returns (ReadsChunk (λ i. view vm (address + i)) (suc size))
            (read_loop (suc fuel) vm n (suc size)))
        (sym (at (omega arith)))
        (Returns-bind (read_chunk-ReadsChunk address chunk (omega arith) sizes.0 sizes.2) λ o.
          elim o
            as (λ o.
              ReadsChunk (λ i. view vm (address + i)) chunk o
              → Returns (ReadsChunk (λ i. view vm (address + i)) (suc size))
                  (elim o as (λ _. Run (Option Bytes)) [
                    | none ↦ done none
                    | some bytes ↦ read_loop fuel vm ((address + chunk) % uint64) left >>= (λ rest.
                        done (elim rest as (λ _. Option Bytes) [
                          | none ↦ none
                          | some more ↦ some (bytes ++ more)
                        ]))
                  ])) [
                    | none ↦ λ first. returned none (failed address chunk (suc size) sizes.1 first)
                    | some bs ↦ λ first.
                        Returns-bind
                          (read_loop-ReadsChunk fuel ((address + chunk) % uint64) (address + chunk)
                            left (λ h. mod-eq_of_lt (omega (arith, sizes.1)))
                            (omega (arith, sizes.0)) (omega (arith, sizes.1)))
                          (λ more second.
                            returned _
                              (rw whole at (joined address chunk left bs more first second)))
                  ])

  -- In a machine whose tables are in order, a read of a range within the address space ends. What
  -- it returns are the known bytes of the range, and it returns something where all of them are
  -- known, in blocks or in the image.
  pub dearxan_vm_read_memory-ReadsChunk :
      (address size : ℕ)
      → address + size ≤ uint64
      → Returns
          (ReadsChunk (λ i. view vm (address + i)) size)
          (dearxan_vm_read_memory vm address true size)
  unfolding dearxan_vm_read_memory
  dearxan_vm_read_memory-ReadsChunk address size low =
      let given : (not (size == 0) && not true) ≡ false = ground arith in
      rw (given, dearxan_vm_read_memory)
        (read_loop-ReadsChunk size address address size (λ h. refl) (omega arith) low)
