-- ===== src/Process/Pattern/Cells.antt =====
-- The cells that the parser of pattern texts leaves.
use yafsml.Prelude.{
  ℕ, ◌<◌, bit_and, ◌≡◌, refl, ◌⊎◌, inl, inr, Bool, true, ◌&&◌, Option, none, some, List, [], ◌∷◌,
  ◌++◌, Bytes, ltb, ◌==◌, arith, All, All-append, all_below, all_below_sound, subst, sym,
}
use yafsml.Process.Scanner.{Cell}
use yafsml.Process.Scanner.Spec.{IsCell}
use yafsml.Process.Pattern.{
  CharClass, invalid, space, wildcard, digit, classify, Build, parsed, Step, go, stop_long,
  stop_malformed, close_cell, wild_second, digit_second, build_step, after_step, build_loop,
  sig_build_pattern_with_mask,
}

-- A cell whose second character has not been read.
abbrev IsPending : Option Cell → Type 0
IsPending none = Unit
IsPending (some c) = ((c.mask ≡ 0xf) × (c.value < 16)) ⊎ ((c.mask ≡ 0) × (c.value ≡ 0))

-- `IsCell` as a test.
abbrev is_cell : Cell → Bool
is_cell c = ltb c.value 256 && ltb c.mask 256 && bit_and c.value c.mask == c.value

test-IsCell : (c : Cell) → is_cell c ≡ true → IsCell c
test-IsCell c h = ground arith

abbrev first_digit : ℕ → Cell
first_digit v = record { value = v; mask = 0xf }

abbrev first_wild : Cell
first_wild = record { value = 0; mask = 0 }

close_table : all_below 16 (λ v. is_cell (close_cell (first_digit v))) ≡ true
unfolding all_below
close_table = refl

wild_table : all_below 16 (λ v. is_cell (wild_second (first_digit v))) ≡ true
unfolding all_below
wild_table = refl

digit_table :
    all_below 16 (λ d. all_below 16 (λ v. is_cell (digit_second d (first_digit v)))) ≡ true
unfolding all_below
digit_table = refl

wild_digit_table : all_below 16 (λ d. is_cell (digit_second d first_wild)) ≡ true
unfolding all_below
wild_digit_table = refl

pending_eq :
    (P : Cell → Type 0) (c : Cell)
    → IsPending (some c)
    → ((v : ℕ) → v < 16 → P (first_digit v))
    → P first_wild
    → P c
pending_eq P c (inl (m, v)) fd fw =
    subst P (λ i. record { value = c.value; mask = sym m i }) (fd c.value v)
pending_eq P c (inr (m, v)) fd fw = subst P (λ i. record { value = sym v i; mask = sym m i }) fw

close_cell-IsCell : (c : Cell) → IsPending (some c) → IsCell (close_cell c)
close_cell-IsCell c h =
    pending_eq (λ c. IsCell (close_cell c)) c h
      (λ v lt. test-IsCell _ (all_below_sound 16 _ v close_table lt)) (test-IsCell _ refl)

wild_second-IsCell : (c : Cell) → IsPending (some c) → IsCell (wild_second c)
wild_second-IsCell c h =
    pending_eq (λ c. IsCell (wild_second c)) c h
      (λ v lt. test-IsCell _ (all_below_sound 16 _ v wild_table lt)) (test-IsCell _ refl)

digit_second-IsCell : (d : ℕ) (c : Cell) → d < 16 → IsPending (some c) → IsCell (digit_second d c)
digit_second-IsCell d c hd h =
    pending_eq (λ c. IsCell (digit_second d c)) c h
      (λ v lt. test-IsCell _ (
        all_below_sound 16 (λ v. is_cell (digit_second d (first_digit v))) v
          (all_below_sound 16 _ d digit_table hd) lt))
      (test-IsCell _ (all_below_sound 16 _ d wild_digit_table hd))

abbrev IsDigitClass : CharClass → Type 0
IsDigitClass (digit d) = d < 16
IsDigitClass _ = Unit

classify-IsDigitClass : (c : ℕ) → IsDigitClass (classify c)
unfolding classify
classify-IsDigitClass c = ground arith

abbrev Inv : Step → Type 0
Inv (go out pending) = All IsCell out × IsPending pending
Inv _ = Unit

add_cell : (out : List Cell) (c : Cell) → All IsCell out → IsCell c → All IsCell (out ++ (c ∷ []))
add_cell out c h k = All-append IsCell out (c ∷ []) h (k, tt)

build_step-Inv :
    (n : ℕ) (k : CharClass) (out : List Cell) (pending : Option Cell)
    → IsDigitClass k
    → All IsCell out
    → IsPending pending
    → Inv (build_step n k out pending)
unfolding build_step
build_step-Inv n invalid out pending d h p = tt
build_step-Inv n space out none d h p = (h, tt)
build_step-Inv n space out (some c) d h p = (add_cell out _ h (close_cell-IsCell c p), tt)
build_step-Inv n wildcard out none d h p = ground arith
build_step-Inv n wildcard out (some c) d h p = (add_cell out _ h (wild_second-IsCell c p), tt)
build_step-Inv n (digit v) out none d h p = ground arith
build_step-Inv n (digit v) out (some c) d h p = (add_cell out _ h (digit_second-IsCell v c d p), tt)

abbrev pub Cells : Build → Type 0
Cells (parsed cells) = All IsCell cells
Cells _ = Unit

build_loop-Cells :
    (n : ℕ) (text : Bytes) (out : List Cell) (pending : Option Cell)
    → All IsCell out
    → IsPending pending
    → Cells (build_loop n text out pending)
unfolding build_loop
build_loop-Cells n [] out none h p = h
build_loop-Cells n [] out (some c) h p = add_cell out _ h (close_cell-IsCell c p)
build_loop-Cells n (c ∷ cs) out pending h p =
    after (build_loop-Cells n cs) (build_step n (classify c) out pending)
      (build_step-Inv n (classify c) out pending (classify-IsDigitClass c) h p)
  where
    after :
        ((o : List Cell) (q : Option Cell)
          → All IsCell o
          → IsPending q
          → Cells (build_loop n cs o q))
        → (s : Step) → Inv s
        → Cells (after_step (build_loop n cs) s)
    after again (go out' pending') (h', p') = again out' pending' h' p'
    after again stop_long i = tt
    after again stop_malformed i = tt

-- Whatever the text and the buffer size, every cell that the parser returns is a pair of bytes
-- whose value has zeros in the wildcard bits of its mask, as the masked comparison needs.
pub sig_build_pattern_with_mask-Cells :
    (out_size : ℕ) (pattern : Bytes) → Cells (sig_build_pattern_with_mask out_size pattern)
unfolding sig_build_pattern_with_mask
sig_build_pattern_with_mask-Cells n pattern = build_loop-Cells n pattern [] none tt tt
