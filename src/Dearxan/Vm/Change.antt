-- ===== src/Dearxan/Vm/Change.antt =====
-- src/dearxan/vm.c: what a change of one block changes of the memory as a function.
use yafsml.Prelude.{
  ℕ, ◌+◌, ◌*◌, ◌/◌, ◌%◌, ◌<◌, ◌≡◌, ◌≢◌, sym, ap, ◌∙◌, Bool, true, false, ◌⊎◌, inl, inr, Option,
  none, some, ◌==◌, arith, length, set, Returns, returned, Returns-bind,
}
use yafsml.Dearxan.Vm.Blocks.{Block, Vm, uint64}
use yafsml.Dearxan.Vm.Holds.{stored, IsSound, stored-some}
use yafsml.Dearxan.Vm.Grow.{IsVm-AllSound}
use yafsml.Dearxan.Vm.Machine.{IsMachine, Holds, Added}
use yafsml.Dearxan.Vm.Table.{find_block-Finds}
use yafsml.Dearxan.Vm.Update.{update-IsVm, update-stored}
use yafsml.Dearxan.Vm.Memory.{Stored, change_block}
use yafsml.Dearxan.Vm.View.{view, block_view, image_view, Under}
use yafsml.Dearxan.Vm.ImageView.{fill_block-view}
use yafsml.Dearxan.Vm.Read.{view_block, view_image}

-- Only the table differs.
abbrev pub SameButTable : Vm → Vm → Type 0
SameButTable old new = new ≡ record old {
  blocks = new.blocks;
  block_capacity = new.block_capacity;
  block_count = new.block_count;
}

SameButTable-image : (old new : Vm) → SameButTable old new → new.image ≡ old.image
SameButTable-image old new same = ap (λ (v : Vm). v.image) same

view_congr :
    (old new : Vm) (address : ℕ)
    → new.image ≡ old.image
    → stored new.blocks (address / 64 + 1) ≡ stored old.blocks (address / 64 + 1)
    → view new address ≡ view old address
unfolding view
view_congr old new address image same = λ i. elim (same i) as (λ _. Option ℕ) [
  | none ↦ image_view (image i) address
  | some b ↦ block_view b (address % 64)
]

-- A change of blocks that keeps their keys and is sound.
abbrev pub KeepsKeys : (Block → Block) → Type 0
KeepsKeys change =
    (b : Block)
    → IsSound b
    → b.index_plus_one ≢ 0
    → ((change b).index_plus_one ≡ b.index_plus_one) × IsSound (change b)

-- The block of an address has changed from what was known, or less; nothing else has.
pub record Changed (old : Vm) (address : ℕ) (change : Block → Block) (s : Stored) : Type 0 where
  pub machine : IsMachine s.vm
  pub failed : s.result ≡ false → (a : ℕ) → view s.vm a ≡ view old a
  pub elsewhere : (a : ℕ) → a / 64 ≢ address / 64 → view s.vm a ≡ view old a
  pub here :
      s.result ≡ true
      → (b : Block) × (length b.bytes ≡ 64)
        × ((a : ℕ) → a / 64 ≡ address / 64 → view s.vm a ≡ block_view (change b) (a % 64))
        × ((a : ℕ) → a / 64 ≡ address / 64 → Under (block_view b (a % 64)) (view old a))
  pub rest : SameButTable old s.vm

module _ (old : Vm) (address : ℕ) (low : address < uint64) (change : Block → Block)
    (keeps : KeepsKeys change) where
  abbrev key : ℕ
  key = address / 64 + 1

  -- What the block knew before it was changed.
  before :
      (b : Block)
      → (stored old.blocks key ≡ some b)
        ⊎ ((stored old.blocks key ≡ none) × Added old (address / 64) b)
      → (a : ℕ) → a / 64 ≡ address / 64
      → Under (block_view b (a % 64)) (view old a)
  before b (inl held) a same = inl (sym (view_block old a b (rw same held)))
  before b (inr (absent, added)) a same =
      let place : address / 64 * 64 + a % 64 ≡ a = omega arith in
      rw (view_image old a (rw same absent), added.filled)
        (rw place at (
          fill_block-view old.image (address / 64) (a % 64) added.free added.empty (omega arith)
            (omega arith)))

  Changed-block :
      (vm : Vm) (slot : ℕ) (b : Block)
      → IsMachine vm
      → SameButTable old vm
      → ((z : ℕ) → z ≢ 0 → z ≢ key → stored vm.blocks z ≡ stored old.blocks z)
      → Holds vm (address / 64) slot b
      → (stored old.blocks key ≡ some b)
        ⊎ ((stored old.blocks key ≡ none) × Added old (address / 64) b)
      → Changed old address change
          (record { result = true; vm = record vm { blocks = set vm.blocks slot (change b) } })
  Changed-block vm slot b m same others held source =
      let (place, found, id) = stored-some vm.blocks key b held.stored_there in
      let good = IsVm-AllSound vm m.blocks slot b held.there in
      let used : b.index_plus_one ≢ 0 = λ e. omega (arith, id) in
      let (kept, sound) = keeps b good used in
      let put = update-stored vm m.blocks slot b (change b) held.there kept used sound in
      let image : vm.image ≡ old.image = SameButTable-image old vm same in
      record {
        machine = record {
          blocks = update-IsVm vm m.blocks slot b (change b) held.there kept used sound;
          image = m.image;
        };
        failed = λ e. absurd (cc);
        elsewhere = λ a off.
            view_congr old (record vm { blocks = set vm.blocks slot (change b) }) a image
              (put (a / 64 + 1)
                ∙ (let miss : ((change b).index_plus_one == a / 64 + 1) ≡ false =
                      ground (arith, kept, id, off) in
                    rw miss (others (a / 64 + 1) (omega arith) (λ q. off (omega arith)))));
        here = λ _. (
          b,
          good.bytes,
          (λ a at.
              view_block (record vm { blocks = set vm.blocks slot (change b) }) a (change b)
                (put (a / 64 + 1)
                  ∙ (let hit : ((change b).index_plus_one == a / 64 + 1) ≡ true =
                        ground (arith, kept, id, at) in
                      rw hit))),
          before b source,
        );
        rest = ap (λ (v : Vm). record v { blocks = set vm.blocks slot (change b) }) same;
      }

  nothing_done :
      (vm : Vm)
      → IsMachine vm
      → vm ≡ old
      → SameButTable old vm
      → Changed old address change (record { result = false; vm = vm })
  nothing_done vm m same rest = record {
    machine = m;
    failed = λ _ a. ap (λ v. view v a) same;
    elsewhere = λ a _. ap (λ v. view v a) same;
    here = λ e. absurd (cc);
    rest = rest;
  }

  pub change_block-Changed :
      (memory : ℕ → Bool)
      → IsMachine old
      → Returns (Changed old address change) (change_block memory old address change)
  unfolding change_block
  change_block-Changed memory m =
      Returns-bind (find_block-Finds old (address / 64) (omega arith) m memory) λ found f.
        elim f.outcome [
          | inl (missing, same, absent) ↦
              rw missing (returned _ (nothing_done found.vm f.machine same f.rest))
          | inr (slot, b, at, held, source) ↦ rw at (
              rw held.there
                (returned _ (Changed-block found.vm slot b f.machine f.rest f.others held source)))
        ]
