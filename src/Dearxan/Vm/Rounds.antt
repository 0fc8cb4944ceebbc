-- ===== src/Dearxan/Vm/Rounds.antt =====
-- src/dearxan/vm.c: what a round of a write does to a block, and where its chunk ends.
use yafsml.Prelude.{
  ℕ, suc, ◌+◌, ◌%◌, ◌≤◌, ◌<◌, ◌≡◌, refl, ◌∙◌, true, inl, Option, Bytes, arith, length,
}
use yafsml.Dearxan.Vm.Blocks.{Vm}
use yafsml.Dearxan.Vm.Machine.{IsMachine}
use yafsml.Dearxan.Vm.Memory.{Stored, chunk_size, write_block, forget_block}
use yafsml.Dearxan.Vm.View.{length-splice}
use yafsml.Dearxan.Vm.Change.{KeepsKeys}
use yafsml.Dearxan.Vm.Wrote.{Wrote}

pub write_block-KeepsKeys :
    (offset : ℕ) (input : Bytes) → offset + length input ≤ 64 → KeepsKeys (write_block offset input)
unfolding write_block
write_block-KeepsKeys offset input fits b good used = (
  refl,
  record {
    key = good.key;
    bytes = length-splice b.bytes offset input (rw good.bytes fits) ∙ good.bytes;
    free = λ e. absurd (used e);
  },
)

pub forget_block-KeepsKeys : (offset chunk : ℕ) → KeepsKeys (forget_block offset chunk)
unfolding forget_block
forget_block-KeepsKeys offset chunk b good used =
    (refl, record { key = good.key; bytes = good.bytes; free = λ e. absurd (used e) })

pub Wrote-none :
    (vm : Vm) (address : ℕ) (content : ℕ → Option ℕ)
    → IsMachine vm
    → Wrote vm address 0 content (record { result = true; vm = vm })
Wrote-none vm address content m = record {
  machine = m;
  below = λ a h. refl;
  outside = λ a off. inl refl;
  inside = λ ok i h. absurd (omega arith);
  rest = refl;
}

pub Wrote-congr :
    (vm : Vm) (address size : ℕ) (f g : ℕ → Option ℕ) (s : Stored)
    → ((i : ℕ) → i < size → f i ≡ g i)
    → Wrote vm address size f s
    → Wrote vm address size g s
Wrote-congr vm address size f g s same w = record {
  machine = w.machine;
  below = w.below;
  outside = w.outside;
  inside = λ ok i h. w.inside ok i h ∙ same i h;
  rest = w.rest;
}

-- The three facts on the size of a chunk.
pub chunk_facts :
    (address size : ℕ)
    → (0 < chunk_size address (suc size))
      × (chunk_size address (suc size) ≤ suc size)
      × (address % 64 + chunk_size address (suc size) ≤ 64)
chunk_facts address size = (ground arith, ground arith, ground arith)

pub border :
    (address size : ℕ)
    → chunk_size address (suc size) < suc size
    → (address + chunk_size address (suc size)) % 64 ≡ 0
border address size h = ground arith
