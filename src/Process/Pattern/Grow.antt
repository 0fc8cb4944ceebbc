-- ===== src/Process/Pattern/Grow.antt =====
-- The buffers of `sig_scan` grow until the pattern fits, and the size never changes the parse.
use yafsml.Prelude.{
  ℕ, zero, suc, ◌+◌, ◌*◌, ◌%◌, ◌^◌, ◌≤◌, ◌<◌, ◌≡◌, ◌≢◌, refl, ◌⊎◌, inl, inr, Bool, true, Option,
  none, some, List, [], ◌∷◌, Bytes, IsByte, arith, All, length, length-append, Run, done, dec_lt,
  sym,
}
use yafsml.Process.Scanner.{Cell}
use yafsml.Process.Scanner.Loop.{FirstFound}
use yafsml.Process.Scanner.First.{sig_scan_pattern-FirstFound, sig_scan_pattern-nil}
use yafsml.Process.Pattern.{
  CharClass, invalid, space, wildcard, digit, classify, Build, parsed, too_long, malformed, Step,
  go, stop_long, stop_malformed, build_step, after_step, build_loop, outcome_of, conclude,
  sig_build_pattern_with_mask, sig_scan_loop, sig_scan,
}
use yafsml.Process.Pattern.Cells.{Cells, sig_build_pattern_with_mask-Cells}

-- The parse with room for every character.
abbrev pub full_parse : Bytes → Build
full_parse pattern = sig_build_pattern_with_mask (length pattern) pattern

-- A cell takes a character at least, so room for the characters left is enough.
abbrev Fits : ℕ → ℕ → Step → Type 0
Fits n left (go out none) = length out + left ≤ n
Fits n left (go out (some c)) = length out + 1 + left ≤ n
Fits n left stop_long = ⊥
Fits n left stop_malformed = Unit

build_step-Fits :
    (n left : ℕ) (k : CharClass) (out : List Cell) (pending : Option Cell)
    → Fits n (suc left) (go out pending)
    → Fits n left (build_step n k out pending)
unfolding build_step
build_step-Fits n left invalid out pending h = tt
build_step-Fits n left space out none h = omega arith
build_step-Fits n left space out (some c) h = omega (arith, length-append {0})
build_step-Fits n left wildcard out none h = ground arith
build_step-Fits n left wildcard out (some c) h = omega (arith, length-append {0})
build_step-Fits n left (digit d) out none h = ground arith
build_step-Fits n left (digit d) out (some c) h = omega (arith, length-append {0})

build_step_mono :
    (n m : ℕ) (k : CharClass) (out : List Cell) (pending : Option Cell)
    → n ≤ m
    → (build_step n k out pending ≡ stop_long)
      ⊎ (build_step m k out pending ≡ build_step n k out pending)
unfolding build_step
build_step_mono n m invalid out pending h = inr refl
build_step_mono n m space out none h = inr refl
build_step_mono n m space out (some c) h = inr refl
build_step_mono n m wildcard out none h = ground arith
build_step_mono n m wildcard out (some c) h = inr refl
build_step_mono n m (digit d) out none h = ground arith
build_step_mono n m (digit d) out (some c) h = inr refl

-- A parse that fits gives the same in larger buffers.
build_loop_mono :
    (n m : ℕ) (text : Bytes) (out : List Cell) (pending : Option Cell)
    → n ≤ m
    → (build_loop n text out pending ≡ too_long)
      ⊎ (build_loop m text out pending ≡ build_loop n text out pending)
unfolding build_loop
build_loop_mono n m [] out pending h = inr refl
build_loop_mono n m (c ∷ cs) out pending h = elim (build_step_mono n m (classify c) out pending h) [
  | inl long ↦ inl (rw long)
  | inr same ↦
      rw same (after (λ o q. build_loop_mono n m cs o q h) (build_step n (classify c) out pending))
]
  where
    after :
        ((o : List Cell) (q : Option Cell)
          → (build_loop n cs o q ≡ too_long) ⊎ (build_loop m cs o q ≡ build_loop n cs o q))
        → (s : Step)
        → (after_step (build_loop n cs) s ≡ too_long)
          ⊎ (after_step (build_loop m cs) s ≡ after_step (build_loop n cs) s)
    after again (go o q) = again o q
    after again stop_long = inl refl
    after again stop_malformed = inr refl

build_loop-ne-too_long :
    (n : ℕ) (text : Bytes) (out : List Cell) (pending : Option Cell)
    → Fits n (length text) (go out pending)
    → build_loop n text out pending ≢ too_long
unfolding build_loop
build_loop-ne-too_long n [] out pending h = λ e. cc
build_loop-ne-too_long n (c ∷ cs) out pending h =
    after (build_loop-ne-too_long n cs) (build_step n (classify c) out pending)
      (build_step-Fits n (length cs) (classify c) out pending h)
  where
    after :
        ((o : List Cell) (q : Option Cell)
          → Fits n (length cs) (go o q)
          → build_loop n cs o q ≢ too_long)
        → (s : Step) → Fits n (length cs) s
        → after_step (build_loop n cs) s ≢ too_long
    after again (go o q) f = again o q f
    after again stop_long f = absurd f
    after again stop_malformed f = λ e. cc

full_parse-ne-too_long : (pattern : Bytes) → full_parse pattern ≢ too_long
unfolding sig_build_pattern_with_mask
full_parse-ne-too_long pattern =
    build_loop-ne-too_long (length pattern) pattern [] none (omega arith)

-- At any size the parse is the full one, or asks for more; and then there were more characters.
parse_cases :
    (n : ℕ) (pattern : Bytes)
    → (sig_build_pattern_with_mask n pattern ≡ full_parse pattern)
      ⊎ ((sig_build_pattern_with_mask n pattern ≡ too_long) × (n < length pattern))
unfolding sig_build_pattern_with_mask
parse_cases n pattern = elim (dec_lt n (length pattern)) [
  | yes p ↦ elim (build_loop_mono n (length pattern) pattern [] none (omega arith)) [
    | inl long ↦ inr (long, p)
    | inr same ↦ inl (sym same)
  ]
  | no p ↦ elim (build_loop_mono (length pattern) n pattern [] none (omega arith)) [
    | inl long ↦ absurd (full_parse-ne-too_long pattern long)
    | inr same ↦ inl same
  ]
]

-- What a scan over the data is to return, by the full parse of its pattern.
abbrev pub Answers : Bytes → Build → Run (Option ℕ) → Type 0
Answers text (parsed []) m = m ≡ done none
Answers text (parsed (c ∷ cs)) m = FirstFound text (c ∷ cs) m
Answers text malformed m = m ≡ done none
Answers text too_long m = ⊥

module _ (alloc : ℕ → Bool) (text pattern : Bytes) (all_bytes : All IsByte text)
    (memory : (n : ℕ) → alloc n ≡ true) (size_fits : length pattern < 2 ^ 62) where
  conclude-Answers :
      (again : Run (Option ℕ)) (b : Build)
      → Cells b
      → b ≢ too_long
      → Answers text b (conclude again (some text) (outcome_of b))
  conclude-Answers again (parsed []) cells h = sig_scan_pattern-nil (some text)
  conclude-Answers again (parsed (c ∷ cs)) cells h =
      sig_scan_pattern-FirstFound text (c ∷ cs) all_bytes cells (omega arith)
  conclude-Answers again malformed cells h = refl
  conclude-Answers again too_long cells h = absurd (h refl)

  sig_scan_loop-Answers :
      (fuel size : ℕ)
      → 0 < fuel
      → length pattern < fuel + size
      → 0 < size
      → Answers text (full_parse pattern) (sig_scan_loop alloc fuel size (some text) pattern)
  unfolding sig_scan_loop
  sig_scan_loop-Answers zero size pos room size_pos = absurd (omega arith)
  sig_scan_loop-Answers (suc fuel) size pos room size_pos =
      rw (memory size) (elim (parse_cases size pattern) [
        | inl fits ↦ rw fits (
            conclude-Answers (sig_scan_loop alloc fuel (size * 2 % 2 ^ 64) (some text) pattern)
              (full_parse pattern) (sig_build_pattern_with_mask-Cells (length pattern) pattern)
              (full_parse-ne-too_long pattern))
        | inr (long, lt) ↦ rw long (
            sig_scan_loop-Answers fuel (size * 2 % 2 ^ 64) (omega arith) (omega arith)
              (omega arith))
      ])

  -- Where LocalAlloc always succeeds, the data are bytes and the pattern text is shorter than 2 ^
  -- 62, sig_scan returns: NULL for a text that is malformed or holds no cell, and otherwise the
  -- first place where the parsed pattern matches, or NULL if there is none. The buffer size it
  -- starts with makes no difference.
  pub sig_scan-Answers : Answers text (full_parse pattern) (sig_scan alloc (some text) pattern)
  unfolding sig_scan
  sig_scan-Answers =
      sig_scan_loop-Answers (length pattern + 1) 64 (omega arith) (omega arith) (omega arith)
