-- ===== src/Process/Pattern.antt =====
-- src/process/scanner.c, the parser of pattern texts such as "48 8B ?? 0?", and the scan that uses it.
pub mod Cells
pub mod Grow
pub mod Spell
use yafsml.Prelude.{
  ℕ, zero, suc, ◌+◌, ◌-◌, ◌*◌, ◌%◌, ◌^◌, bit_or, Bool, true, false, ◌&&◌, ◌||◌, Option, none, some,
  List, [], ◌∷◌, ◌++◌, Bytes, ltb, leb, ◌==◌, if◌then◌else◌, length, Run, done, stuck, ◌>>=◌,
}
use yafsml.Process.Scanner.{Cell, sig_scan_pattern}

-- The entries of `char_table`: -1, -2, -3, or a hexadecimal digit.
pub data CharClass : Type 0 where
  invalid space wildcard : CharClass
  digit : ℕ → CharClass

abbrev within : ℕ → ℕ → ℕ → Bool
within lo hi c = leb lo c && leb c hi

-- A byte past the table is invalid too.
pub classify : ℕ → CharClass
classify c =
    if within 0x09 0x0b c || c == 0x0d || c == 0x20
    then space
    else if within 0x30 0x39 c
    then digit (c - 0x30)
    else if c == 0x3f
    then wildcard
    else if within 0x41 0x46 c
    then digit (c - 0x41 + 10)
    else if within 0x61 0x66 c
    then digit (c - 0x61 + 10)
    else invalid

-- `(size_t)-1` is `too_long`, `(size_t)-2` is `malformed`.
pub data Build : Type 0 where
  parsed : List Cell → Build
  too_long malformed : Build

-- `out` is the cells below `pattern_size`, and `pending` the one at `pattern_size` while
-- `second_char` holds.
pub data Step : Type 0 where
  go : List Cell → Option Cell → Step
  stop_long stop_malformed : Step

-- `mask == 0xF` becomes 0xFF: a lone digit is a whole byte.
abbrev pub close_cell : Cell → Cell
close_cell c = record c { mask = if c.mask == 0xf then 0xff else c.mask }

-- A uint8_t shifted left by 4.
abbrev pub shl4 : ℕ → ℕ
shl4 x = x * 16 % 256

abbrev pub wild_second : Cell → Cell
wild_second c = record { value = shl4 c.value; mask = shl4 c.mask }

abbrev pub digit_second : ℕ → Cell → Cell
digit_second d c = record { value = bit_or (shl4 c.value) d; mask = bit_or (shl4 c.mask) 0xf }

-- The first character of a cell, if there is room for it.
open_cell : ℕ → List Cell → Cell → Step
open_cell out_size out c = if leb out_size (length out) then stop_long else go out (some c)

unfoldable pub build_step : ℕ → CharClass → List Cell → Option Cell → Step
unfolding open_cell
build_step out_size invalid out pending = stop_malformed
build_step out_size space out none = go out none
build_step out_size space out (some c) = go (out ++ (close_cell c ∷ [])) none
build_step out_size wildcard out none = open_cell out_size out (record { value = 0; mask = 0 })
build_step out_size wildcard out (some c) = go (out ++ (wild_second c ∷ [])) none
build_step out_size (digit d) out none = open_cell out_size out (record { value = d; mask = 0xf })
build_step out_size (digit d) out (some c) = go (out ++ (digit_second d c ∷ [])) none

pub build_end : List Cell → Option Cell → List Cell
build_end out none = out
build_end out (some c) = out ++ (close_cell c ∷ [])

abbrev pub after_step : (List Cell → Option Cell → Build) → Step → Build
after_step again (go out pending) = again out pending
after_step again stop_long = too_long
after_step again stop_malformed = malformed

-- The list is the rest of the text up to its NUL.
pub build_loop : ℕ → Bytes → List Cell → Option Cell → Build
unfolding build_end
build_loop out_size [] out pending = parsed (build_end out pending)
build_loop out_size (c ∷ cs) out pending =
    after_step (build_loop out_size cs) (build_step out_size (classify c) out pending)

pub sig_build_pattern_with_mask : ℕ → Bytes → Build
unfolding build_loop build_step classify
sig_build_pattern_with_mask out_size pattern = build_loop out_size pattern [] none

-- What the loop of `sig_scan` makes of a parse: a result, or a retry with larger buffers.
pub data Outcome : Type 0 where
  give_up retry : Outcome
  search : List Cell → Outcome

abbrev pub outcome_of : Build → Outcome
outcome_of malformed = give_up
outcome_of too_long = retry
outcome_of (parsed cells) = search cells

abbrev pub conclude : Run (Option ℕ) → Option Bytes → Outcome → Run (Option ℕ)
conclude again text give_up = done none
conclude again text retry = again
conclude again text (search cells) = sig_scan_pattern text cells

-- `alloc n` says whether both buffers of `n` bytes could be had from LocalAlloc.
pub sig_scan_loop : (ℕ → Bool) → ℕ → ℕ → Option Bytes → Bytes → Run (Option ℕ)
unfolding sig_build_pattern_with_mask
sig_scan_loop alloc zero out_size text pattern = stuck
sig_scan_loop alloc (suc fuel) out_size text pattern =
    let rest =
      conclude (sig_scan_loop alloc fuel (out_size * 2 % 2 ^ 64) text pattern) text
        (outcome_of (sig_build_pattern_with_mask out_size pattern)) in
    if alloc out_size then rest else done none

-- The buffers double until the pattern fits, so a round for each character is more than enough.
unfoldable pub sig_scan : (ℕ → Bool) → Option Bytes → Bytes → Run (Option ℕ)
unfolding sig_scan_loop sig_scan_pattern
sig_scan alloc text pattern = sig_scan_loop alloc (length pattern + 1) 64 text pattern
