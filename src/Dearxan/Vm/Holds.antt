-- ===== src/Dearxan/Vm/Holds.antt =====
-- src/dearxan/vm.c: what a table of blocks holds, whatever the order of its slots, and the invariant
-- under which probe_block finds it.
use yafsml.Prelude.{
  ℕ, zero, suc, ◌+◌, ◌-◌, ◌^◌, ◌<◌, ◌≡◌, ◌≢◌, refl, sym, ap, ◌∙◌, inl, inr, Option, none, some,
  List, [], ◌∷◌, ◌==◌, if◌then◌else◌, arith, length, get_elem?, set, done, Bool-cases, replicate,
  length-replicate,
}
use yafsml.Dearxan.Vm.Blocks.{Block, uint64, probe_block, unused}

-- The block with a key, which is the index of a block plus one.
unfoldable pub stored : List Block → ℕ → Option Block
stored [] key = none
stored (b ∷ bs) key = let rest = stored bs key in if b.index_plus_one == key then some b else rest

unfoldable pub occupied : List Block → ℕ
occupied [] = 0
occupied (b ∷ bs) = (if b.index_plus_one == 0 then 0 else 1) + occupied bs

pub record IsSound (b : Block) : Type 0 where
  pub key : b.index_plus_one < uint64
  pub bytes : length b.bytes ≡ 64
  pub free : b.index_plus_one ≡ 0 → b.known ≡ 0

abbrev pub AllSound : List Block → Type 0
AllSound blocks = (s : ℕ) (b : Block) → get_elem? blocks s ≡ some b → IsSound b

abbrev pub IsPlaced : ℕ → List Block → Type 0
IsPlaced capacity blocks =
    (s : ℕ) (b : Block)
    → get_elem? blocks s ≡ some b
    → b.index_plus_one ≢ 0
    → probe_block blocks capacity (b.index_plus_one - 1) ≡ done s

-- Every block is found where it stands, and a slot is free.
pub record IsTable (capacity : ℕ) (blocks : List Block) : Type 0 where
  pub width : length blocks ≡ capacity
  pub exponent : ℕ
  pub power : capacity ≡ 2 ^ exponent
  pub placed : IsPlaced capacity blocks
  pub room : occupied blocks < capacity
  pub sound : AllSound blocks

abbrev pub Unique : List Block → Type 0
Unique blocks =
    (s t : ℕ) (b c : Block)
    → get_elem? blocks s ≡ some b
    → get_elem? blocks t ≡ some c
    → b.index_plus_one ≡ c.index_plus_one
    → b.index_plus_one ≢ 0
    → s ≡ t

pub done_inj : {s t : ℕ} → done s ≡ done t → s ≡ t
done_inj e = cc

pub IsTable-Unique : (capacity : ℕ) (blocks : List Block) → IsTable capacity blocks → Unique blocks
IsTable-Unique capacity blocks table s t b c here there same used = done_inj (
    sym (table.placed s b here used)
    ∙ ap (λ k. probe_block blocks capacity (k - 1)) same
    ∙ table.placed t c there (λ q. used (same ∙ q)))

pub stored-some :
    (blocks : List Block) (key : ℕ) (b : Block)
    → stored blocks key ≡ some b
    → (s : ℕ) × (get_elem? blocks s ≡ some b) × (b.index_plus_one ≡ key)
unfolding stored
stored-some [] key b e = absurd (cc)
stored-some (c ∷ bs) key b e = elim (Bool-cases (c.index_plus_one == key)) [
  | inl hit ↦ (0, ground arith, ground arith)
  | inr miss ↦ let (s, there, k) = stored-some bs key b (ground arith) in (suc s, there, k)
]

pub stored-get :
    (blocks : List Block) (s : ℕ) (b : Block)
    → get_elem? blocks s ≡ some b
    → (c : Block) × (stored blocks b.index_plus_one ≡ some c)
unfolding stored
stored-get [] s b e = absurd (cc)
stored-get (c ∷ bs) zero b e = (c, ground arith)
stored-get (c ∷ bs) (suc s) b e = elim (Bool-cases (c.index_plus_one == b.index_plus_one)) [
  | inl hit ↦ (c, rw hit)
  | inr miss ↦ rw miss (stored-get bs s b e)
]

pub stored-set :
    (blocks : List Block) (t : ℕ) (old new : Block) (z : ℕ)
    → get_elem? blocks t ≡ some old
    → old.index_plus_one ≡ 0
    → z ≢ 0
    → stored blocks new.index_plus_one ≡ none
    → stored (set blocks t new) z ≡ (if new.index_plus_one == z then some new else stored blocks z)
unfolding stored
stored-set [] t old new z there empty used absent = absurd (cc)
stored-set (c ∷ bs) zero old new z there empty used absent = ground arith
stored-set (c ∷ bs) (suc t) old new z there empty used absent =
    ground (arith, stored-set bs t old new z)

pub occupied-set :
    (blocks : List Block) (t : ℕ) (old new : Block)
    → get_elem? blocks t ≡ some old
    → old.index_plus_one ≡ 0
    → new.index_plus_one ≢ 0
    → occupied (set blocks t new) ≡ suc (occupied blocks)
unfolding occupied
occupied-set [] t old new there empty used = absurd (cc)
occupied-set (c ∷ bs) zero old new there empty used = ground arith
occupied-set (c ∷ bs) (suc t) old new there empty used = ground (arith, occupied-set bs t old new)

pub free_slot :
    (blocks : List Block)
    → occupied blocks < length blocks
    → (s : ℕ) × (b : Block) × (get_elem? blocks s ≡ some b) × (b.index_plus_one ≡ 0)
unfolding occupied
free_slot [] h = absurd (omega arith)
free_slot (c ∷ bs) h = elim (Bool-cases (c.index_plus_one == 0)) [
  | inl free ↦ (0, c, refl, ground arith)
  | inr used ↦ let (s, b, there, empty) = free_slot bs (ground arith) in (suc s, b, there, empty)
]

pub stored-replicate : (n key : ℕ) → key ≢ 0 → stored (replicate n unused) key ≡ none
unfolding stored
stored-replicate zero key h = refl
stored-replicate (suc n) key h = ground (arith, stored-replicate n key)

pub occupied-replicate : (n : ℕ) → occupied (replicate n unused) ≡ 0
unfolding occupied
occupied-replicate zero = refl
occupied-replicate (suc n) = omega (arith, occupied-replicate n)

get_elem?-replicate_eq :
    (n s : ℕ) (b : Block) → get_elem? (replicate n unused) s ≡ some b → b ≡ unused
get_elem?-replicate_eq zero s b e = absurd (cc)
get_elem?-replicate_eq (suc n) zero b e = cc
get_elem?-replicate_eq (suc n) (suc s) b e = get_elem?-replicate_eq n s b e

pub empty-IsTable :
    (capacity k : ℕ)
    → capacity ≡ 2 ^ k
    → 0 < capacity
    → IsTable capacity (replicate capacity unused)
empty-IsTable capacity k power h = record {
  width = length-replicate capacity unused;
  exponent = k;
  power = power;
  placed = λ s b there used.
      absurd
        (used (ap (λ (c : Block). c.index_plus_one) (get_elem?-replicate_eq capacity s b there)));
  room = omega (arith, occupied-replicate capacity);
  sound = λ s b there.
      rw (get_elem?-replicate_eq capacity s b there)
        (record { key = omega arith; bytes = refl; free = λ _. refl });
}
