-- ===== src/Dearxan/Vm/Wrote.antt =====
-- src/dearxan/vm.c: what a change of a range changes of the memory as a function, block after block.
use yafsml.Prelude.{
  ℕ, ◌+◌, ◌-◌, ◌/◌, ◌%◌, ◌≤◌, ◌<◌, ◌≡◌, sym, ap, ◌∙◌, true, false, inl, inr, Option, ◌==◌, ltb,
  if◌then◌else◌, arith, length, Bool-cases,
}
use yafsml.Dearxan.Vm.Blocks.{Block, Vm}
use yafsml.Dearxan.Vm.Machine.{IsMachine}
use yafsml.Dearxan.Vm.Memory.{Stored}
use yafsml.Dearxan.Vm.View.{view, block_view, Under, covers}
use yafsml.Dearxan.Vm.Change.{Changed, SameButTable}

-- The bytes `content` have been stored at an address, as far as there was memory.
pub record Wrote (old : Vm) (address size : ℕ) (content : ℕ → Option ℕ) (s : Stored) : Type 0 where
  pub machine : IsMachine s.vm
  pub below : (a : ℕ) → a / 64 < address / 64 → view s.vm a ≡ view old a
  pub outside : (a : ℕ) → covers address size a ≡ false → Under (view s.vm a) (view old a)
  pub inside : s.result ≡ true → (i : ℕ) → i < size → view s.vm (address + i) ≡ content i
  pub rest : SameButTable old s.vm

pub Under-trans : {x y z : Option ℕ} → Under x y → Under y z → Under x z
Under-trans (inl p) (inl q) = inl (p ∙ q)
Under-trans (inl p) (inr q) = inr (p ∙ q)
Under-trans (inr p) u = inr p

-- One chunk, by a change that stores it in its block.
pub chunk-Wrote :
    (old : Vm) (address chunk : ℕ) (content : ℕ → Option ℕ) (change : Block → Block) (s : Stored)
    → address % 64 + chunk ≤ 64
    → ((b : Block) (i : ℕ)
        → length b.bytes ≡ 64
        → i < 64
        → block_view (change b) i
          ≡ (if covers (address % 64) chunk i then content (i - address % 64) else block_view b i))
    → Changed old address change s
    → Wrote old address chunk content s
chunk-Wrote old address chunk content change s fits effect c = record {
  machine = c.machine;
  below = λ a h. c.elsewhere a (λ e. omega arith);
  outside = λ a off. elim (Bool-cases (a / 64 == address / 64)) [
    | inl same ↦ elim (Bool-cases s.result) [
      | inl ok ↦
          let (b, whole, now, then_) = c.here ok in
          let at : a / 64 ≡ address / 64 = ground arith in
          let miss : covers (address % 64) chunk (a % 64) ≡ false = ground arith in
          let seen : view s.vm a ≡ block_view b (a % 64) =
            now a at ∙ effect b (a % 64) whole (omega arith) ∙ rw miss in
          Under-trans (inl seen) (then_ a at)
      | inr bad ↦ inl (c.failed bad a)
    ]
    | inr other ↦ inl (c.elsewhere a (λ e. ground arith))
  ];
  inside = λ ok i h.
      let (b, whole, now, then_) = c.here ok in
      let place : (address + i) % 64 ≡ address % 64 + i = omega arith in
      let hit : covers (address % 64) chunk (address % 64 + i) ≡ true = ground arith in
      let shift : address % 64 + i - address % 64 ≡ i = omega arith in
      now (address + i) (omega arith)
      ∙ ap (block_view (change b)) place
      ∙ effect b (address % 64 + i) whole (omega arith)
      ∙ rw (hit, shift);
  rest = c.rest;
}

-- A chunk up to the end of its block, and more behind it.
pub joined-Wrote :
    (old : Vm) (address chunk more : ℕ) (content : ℕ → Option ℕ) (first second : Stored)
    → 0 < chunk
    → (address + chunk) % 64 ≡ 0
    → first.result ≡ true
    → Wrote old address chunk content first
    → Wrote first.vm (address + chunk) more (λ i. content (chunk + i)) second
    → Wrote old address (chunk + more) content second
joined-Wrote old address chunk more content first second some_bytes border ok a b = record {
  machine = b.machine;
  below = λ x h. b.below x (omega arith) ∙ a.below x h;
  outside = λ x off. Under-trans (b.outside x (ground arith)) (a.outside x (ground arith));
  inside = λ done_ i h. elim (Bool-cases (ltb i chunk)) [
    | inl early ↦ b.below (address + i) (ground arith) ∙ a.inside ok i (ground arith)
    | inr late ↦
        let shift : address + chunk + (i - chunk) ≡ address + i = ground arith in
        let back : chunk + (i - chunk) ≡ i = ground arith in
        ap (view second.vm) (sym shift)
        ∙ b.inside done_ (i - chunk) (ground arith)
        ∙ ap content back
  ];
  rest =
      b.rest
      ∙ ap
          (λ (v : Vm). record v {
            blocks = second.vm.blocks;
            block_capacity = second.vm.block_capacity;
            block_count = second.vm.block_count;
          })
          a.rest;
}

-- Nothing is stored where a chunk has failed, and nothing more than the chunk where it was all.
pub shorter-Wrote :
    (old : Vm) (address chunk size : ℕ) (content : ℕ → Option ℕ) (s : Stored)
    → chunk ≤ size
    → (s.result ≡ true → chunk ≡ size)
    → Wrote old address chunk content s
    → Wrote old address size content s
shorter-Wrote old address chunk size content s h full w = record {
  machine = w.machine;
  below = w.below;
  outside = λ a off. w.outside a (ground arith);
  inside = λ ok i l. w.inside ok i (omega (arith, full ok));
  rest = w.rest;
}
