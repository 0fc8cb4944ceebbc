-- ===== src/Dearxan/Vm/Write.antt =====
-- src/dearxan/vm.c: dearxan_vm_write_memory and dearxan_vm_invalidate_memory, across the borders of
-- blocks, and reading back what was written.
use yafsml.Prelude.{
  ℕ, zero, suc, ◌+◌, ◌-◌, ◌%◌, ◌≤◌, ◌<◌, ◌≡◌, refl, sym, ap, subst, ◌∙◌, Bool, true, inl, inr,
  Option, none, some, [], ◌∷◌, Bytes, ◌==◌, ltb, if◌then◌else◌, arith, length, get_elem?, take,
  drop, Bool-cases, Run, done, ◌>>=◌, Returns, returned, Returns-bind, Returns-mono, Returns-if,
  get_elem?-take, get_elem?-drop, get_elem?-none, get_elem?_ext, get_elem?_of_lt, length-take,
  length-drop, take-length, Returns-eq,
}
use native.Mathlib.Nat.{mod-eq_of_lt}
use yafsml.Dearxan.Vm.Blocks.{Block, Vm, uint64}
use yafsml.Dearxan.Vm.Machine.{IsMachine}
use yafsml.Dearxan.Vm.Memory.{
  Stored, chunk_size, write_block, forget_block, change_block, write_loop, invalidate_loop,
  dearxan_vm_write_memory, dearxan_vm_invalidate_memory, dearxan_vm_read_memory,
}
use yafsml.Dearxan.Vm.View.{
  view, block_view, covers, write_block-view, forget_block-view, ReadsChunk,
}
use yafsml.Dearxan.Vm.Read.{dearxan_vm_read_memory-ReadsChunk}
use yafsml.Dearxan.Vm.Change.{KeepsKeys, change_block-Changed}
use yafsml.Dearxan.Vm.Wrote.{Wrote, chunk-Wrote, joined-Wrote, shorter-Wrote}
use yafsml.Dearxan.Vm.Rounds.{
  Wrote-congr, Wrote-none, border, chunk_facts, forget_block-KeepsKeys, write_block-KeepsKeys,
}

module _ (memory : ℕ → Bool) where
  -- A chunk and the rest of a loop, given what the rest does.
  round_Wrote :
      (vm : Vm) (address size : ℕ) (content : ℕ → Option ℕ) (change : Block → Block)
      (rest : Stored → Run Stored)
      → IsMachine vm
      → address + suc size ≤ uint64
      → KeepsKeys change
      → ((b : Block) (i : ℕ)
          → length b.bytes ≡ 64
          → i < 64
          → block_view (change b) i ≡ (
              if covers (address % 64) (chunk_size address (suc size)) i
              then content (i - address % 64)
              else block_view b i))
      → ((s : Stored)
          → IsMachine s.vm
          → Returns
              (Wrote s.vm
                (address + chunk_size address (suc size))
                (suc size - chunk_size address (suc size))
                (λ i. content (chunk_size address (suc size) + i)))
              (rest s))
      → ((s : Stored)
          → chunk_size address (suc size) ≡ suc size
          → s.result ≡ true
          → rest s ≡ done s)
      → Returns
          (Wrote vm address (suc size) content)
          (change_block memory vm address change >>= (λ s. if s.result then rest s else done s))
  round_Wrote vm address size content change rest m low keeps effect next last =
      let chunk = chunk_size address (suc size) in
      let (some_bytes, part, fits) = chunk_facts address size in
      let left = suc size - chunk in
      let whole : chunk + left ≡ suc size = omega arith in
      Returns-bind (change_block-Changed vm address (omega arith) change keeps memory m) λ s c.
        let first = chunk-Wrote vm address chunk content change s fits effect c in
        Returns-if s.result
          (λ ok. elim (Bool-cases (chunk == suc size)) [
            | inl all ↦
                let q : chunk ≡ suc size = ground arith in
                rw (last s q ok) (
                  returned s
                    (shorter-Wrote vm address chunk (suc size) content s part (λ _. q) first))
            | inr some_left ↦ Returns-mono (next s first.machine) λ t w. rw whole at (
                joined-Wrote vm address chunk left content s t some_bytes
                  (border address size (ground arith)) ok first w)
          ])
          (λ bad. returned s (
            shorter-Wrote vm address chunk (suc size) content s part
              (λ ok. absurd (let q = sym bad ∙ ok in cc)) first))

  -- With nothing left, a loop returns what the chunk before it has.
  stop_lem :
      (fuel : ℕ) (s : Stored) (next : ℕ) (input : Bytes)
      → length input ≡ 0
      → s.result ≡ true
      → write_loop fuel memory s.vm next input ≡ done s
  unfolding write_loop
  stop_lem fuel s next [] h ok = ap (λ r. done (record { result = r; vm = s.vm })) (sym ok)
  stop_lem fuel s next (b ∷ bs) h ok = absurd (omega arith)

  forget_stop_lem :
      (fuel : ℕ) (s : Stored) (next size : ℕ)
      → size ≡ 0
      → s.result ≡ true
      → invalidate_loop fuel memory s.vm next size ≡ done s
  unfolding invalidate_loop
  forget_stop_lem fuel s next zero h ok = ap (λ r. done (record { result = r; vm = s.vm })) (sym ok)
  forget_stop_lem fuel s next (suc size) h ok = absurd (omega arith)

  write_loop-Wrote :
      (fuel : ℕ) (vm : Vm) (next address : ℕ) (input : Bytes)
      → IsMachine vm
      → (0 < length input → next ≡ address)
      → length input ≤ fuel
      → address + length input ≤ uint64
      → Returns
          (Wrote vm address (length input) (get_elem? input))
          (write_loop fuel memory vm next input)
  unfolding write_loop
  write_loop-Wrote fuel vm next address [] m at enough low =
      returned _ (Wrote-none vm address (get_elem? []) m)
  write_loop-Wrote zero vm next address (b ∷ bs) m at enough low = absurd (omega arith)
  write_loop-Wrote (suc fuel) vm next address (b ∷ bs) m at enough low =
      let input = b ∷ bs in
      let chunk = chunk_size address (length input) in
      let (some_bytes, part, fits) = chunk_facts address (length bs) in
      let cut : length (take chunk input) ≡ chunk = omega (arith, length-take chunk input) in
      let left : length (drop chunk input) ≡ length input - chunk = length-drop chunk input in
      subst
        (λ n.
          Returns (Wrote vm address (length input) (get_elem? input))
            (write_loop (suc fuel) memory vm n input))
        (sym (at (omega arith)))
        (round_Wrote vm address (length bs) (get_elem? input)
          (write_block (address % 64) (take chunk input))
          (λ s. write_loop fuel memory s.vm ((address + chunk) % uint64) (drop chunk input)) m low
          (write_block-KeepsKeys (address % 64) (take chunk input) (omega arith))
          (λ c i size h.
            write_block-view (address % 64) (take chunk input) c i (omega arith) size h
            ∙ rw cut (elim (Bool-cases (covers (address % 64) chunk i)) [
              | inl inside ↦
                  rw inside (get_elem?-take chunk (i - address % 64) input (ground arith))
              | inr outside ↦ rw outside
            ]))
          (λ s ms. rw left at (
            Returns-mono
              (write_loop-Wrote fuel s.vm ((address + chunk) % uint64) (address + chunk)
                (drop chunk input) ms (λ h. mod-eq_of_lt (omega arith)) (omega arith) (omega arith))
              (λ t w.
                Wrote-congr s.vm (address + chunk) (length (drop chunk input))
                  (get_elem? (drop chunk input)) (λ i. get_elem? input (chunk + i)) t
                  (λ i h. get_elem?-drop chunk i input) w)))
          (λ s all ok.
            stop_lem fuel s ((address + chunk) % uint64) (drop chunk input) (omega (arith, left))
              ok))

  -- In a machine whose tables are in order, a write of bytes that end within the address space
  -- ends with the tables in order. If it succeeds, the bytes are known at their addresses; at
  -- every other address the known byte is the one of before, or none any more, and in the blocks
  -- below it is the one of before. Only the table changes.
  pub dearxan_vm_write_memory-Wrote :
      (vm : Vm) (address : ℕ) (input : Bytes)
      → IsMachine vm
      → address + length input ≤ uint64
      → Returns
          (Wrote vm address (length input) (get_elem? input))
          (dearxan_vm_write_memory memory vm address (some input) (length input))
  unfolding dearxan_vm_write_memory
  dearxan_vm_write_memory-Wrote vm address input m low =
      rw (take-length input)
        (write_loop-Wrote (length input) vm address address input m (λ h. refl) (omega arith) low)

  invalidate_loop-Wrote :
      (fuel : ℕ) (vm : Vm) (next address size : ℕ)
      → IsMachine vm
      → (0 < size → next ≡ address)
      → size ≤ fuel
      → address + size ≤ uint64
      → Returns (Wrote vm address size (λ _. none)) (invalidate_loop fuel memory vm next size)
  unfolding invalidate_loop
  invalidate_loop-Wrote fuel vm next address zero m at enough low =
      returned _ (Wrote-none vm address (λ _. none) m)
  invalidate_loop-Wrote zero vm next address (suc size) m at enough low = absurd (omega arith)
  invalidate_loop-Wrote (suc fuel) vm next address (suc size) m at enough low =
      let chunk = chunk_size address (suc size) in
      let (some_bytes, part, fits) = chunk_facts address size in
      subst
        (λ n.
          Returns (Wrote vm address (suc size) (λ _. none))
            (invalidate_loop (suc fuel) memory vm n (suc size)))
        (sym (at (omega arith)))
        (round_Wrote vm address size (λ _. none) (forget_block (address % 64) chunk)
          (λ s. invalidate_loop fuel memory s.vm ((address + chunk) % uint64) (suc size - chunk)) m
          low (forget_block-KeepsKeys (address % 64) chunk)
          (λ c i whole h. forget_block-view (address % 64) chunk c i fits h)
          (λ s ms.
            invalidate_loop-Wrote fuel s.vm ((address + chunk) % uint64) (address + chunk)
              (suc size - chunk) ms (λ h. mod-eq_of_lt (omega arith)) (omega arith) (omega arith))
          (λ s all ok.
            forget_stop_lem fuel s ((address + chunk) % uint64) (suc size - chunk) (omega arith)
              ok))

  -- In a machine whose tables are in order, the invalidation of a range within the address space
  -- ends with the tables in order. If it succeeds, no byte of the range is known; at every other
  -- address the known byte is the one of before, or none any more. Only the table changes.
  pub dearxan_vm_invalidate_memory-Wrote :
      (vm : Vm) (address size : ℕ)
      → IsMachine vm
      → address + size ≤ uint64
      → Returns
          (Wrote vm address size (λ _. none))
          (dearxan_vm_invalidate_memory memory vm address size)
  unfolding dearxan_vm_invalidate_memory
  dearxan_vm_invalidate_memory-Wrote vm address size m low =
      invalidate_loop-Wrote size vm address address size m (λ h. refl) (omega arith) low

  -- What is known to be `input` reads as `input`.
  read_back :
      (vm : Vm) (address : ℕ) (input : Bytes) (read : Option Bytes)
      → ((i : ℕ) → i < length input → view vm (address + i) ≡ get_elem? input i)
      → ReadsChunk (λ i. view vm (address + i)) (length input) read
      → read ≡ some input
  read_back vm address input none same r = absurd (
      r.known
        (λ i h e.
          let (x, there) = get_elem?_of_lt input i h in
          let q = sym there ∙ sym (same i h) ∙ e in cc)
        refl)
  read_back vm address input (some bs) same r =
      let (size, content) = r.bytes bs refl in
      ap some (
        get_elem?_ext bs input (λ i. elim (Bool-cases (ltb i (length input))) [
          | inl inside ↦ content i (ground arith) ∙ same i (ground arith)
          | inr outside ↦
              get_elem?-none bs i (ground arith) ∙ sym (get_elem?-none input i (ground arith))
        ]))

  -- In a machine whose tables are in order, bytes that are written without failure read back as
  -- they are, across the borders of blocks, where they end within the address space.
  pub dearxan_vm_read_memory-write_memory :
      (vm : Vm) (address : ℕ) (input : Bytes)
      → IsMachine vm
      → address + length input ≤ uint64
      → Returns
          (λ (s : Stored).
            s.result ≡ true
            → dearxan_vm_read_memory s.vm address true (length input) ≡ done (some input))
          (dearxan_vm_write_memory memory vm address (some input) (length input))
  dearxan_vm_read_memory-write_memory vm address input m low =
      Returns-mono (dearxan_vm_write_memory-Wrote vm address input m low) λ s w ok.
        Returns-eq (some input)
          (dearxan_vm_read_memory-ReadsChunk s.vm w.machine address (length input) low)
          (λ read r. read_back s.vm address input read (w.inside ok) r)
