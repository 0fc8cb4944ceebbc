-- ===== src/Process/Scanner.antt =====
-- src/process/scanner.c, the search for a masked byte pattern. The parser of pattern texts is in
-- Scanner/Pattern.
-- The arrays `pat` and `mask` are one list of cells, and a pointer into the data is the rest of the
-- list from there. A read outside a buffer is `fault`.
pub mod Spec
pub mod Match
pub mod Shift
pub mod Loop
pub mod Trim
pub mod First
use yafsml.Prelude.{
  ℕ, zero, suc, ◌+◌, ◌-◌, max, bit_and, Bool, true, false, ◌&&◌, ◌||◌, not, Option, none, some,
  List, [], ◌∷◌, Bytes, ltb, leb, ◌==◌, if◌then◌else◌, length, get_elem?, take, drop, Run, done,
  fault, stuck, ◌>>=◌,
}

-- `pat[i]` and `mask[i]`.
pub record Cell : Type 0 where
  pub value : ℕ
  pub mask : ℕ

-- `(text & mask) == pat` at one byte.
abbrev pub cell_matches : ℕ → Cell → Bool
cell_matches t c = bit_and t c.mask == c.value

abbrev pub read {ℓ} : {A : Type ℓ} → List A → ℕ → Run A
read xs i = elim (get_elem? xs i) [ none ↦ fault | some x ↦ done x ]

-- The table of last occurrences, with `index + 1` for an index and so 0 for -1.
abbrev pub BadTable : Type 0
BadTable = ℕ → ℕ

abbrev occurs : Cell → ℕ → Bool
occurs c b = if c.mask == 0xff then b == c.value else bit_and c.value c.mask == bit_and b c.mask

-- The loop over `i`; the inner one over every byte is pointwise.
pub fill_bad : List Cell → ℕ → BadTable → BadTable
fill_bad [] i bad = bad
fill_bad (c ∷ cs) i bad = fill_bad cs (i + 1) (λ b. if occurs c b then i + 1 else bad b)

pub bad_data_heuristic : List Cell → BadTable
bad_data_heuristic cells = fill_bad cells 0 (λ b. 0)

-- `masked_equal(text, pat, mask, size)`
pub masked_equal : Bytes → List Cell → Run Bool
masked_equal text [] = done true
masked_equal [] (c ∷ cs) = fault
masked_equal (t ∷ text) (c ∷ cs) =
    let rest = masked_equal text cs in if cell_matches t c then rest else done false

-- The loop that reduces `j`, from `j + 1`; it returns the last `j + 1`.
pub match_back : Bytes → List Cell → ℕ → Run ℕ
match_back text window zero = done 0
match_back text window (suc j) = do
  t ← read text j
  c ← read window j
  (let rest = match_back text window j in if cell_matches t c then rest else done (suc j))

-- What one round makes of the shift `s`: a match there, or the next shift.
pub data Round : Type 0 where
  found : Round
  next : ℕ → Round

-- `k` is `j + 1`: 0 where the whole window matches.
pub advance : Bytes → List Cell → Bytes → BadTable → ℕ → ℕ → Run Round
advance here cells text bad s zero = do
  whole ← masked_equal here cells
  done (if whole then found else next (s + 1))
advance here cells text bad s (suc j) = do t ← read text j; done (next (s + max 1 (suc j - bad t)))

pub scan_round : Bytes → List Cell → ℕ → List Cell → BadTable → ℕ → Run Round
unfolding advance
scan_round text cells window window_cells bad s = do
  k ← match_back (drop (s + window) text) window_cells (length window_cells)
  advance (drop s text) cells (drop (s + window) text) bad s k

-- The end of a round: return the match, or go on from the next shift.
pub resume : (ℕ → Run (Option ℕ)) → ℕ → Round → Run (Option ℕ)
resume again s found = done (some s)
resume again s (next s') = again s'

-- `limit` is `data_size - pat_size`.
pub scan_loop : ℕ → Bytes → List Cell → ℕ → List Cell → BadTable → ℕ → ℕ → Run (Option ℕ)
unfolding resume
scan_loop zero text cells window window_cells bad limit s = stuck
scan_loop (suc fuel) text cells window window_cells bad limit s =
    let round =
      scan_round text cells window window_cells bad s
      >>= resume (scan_loop fuel text cells window window_cells bad limit) s in
    if leb s limit then round else done none

-- `text` is the data from `data` up to `data + data_size`. Every round moves `s` on, so one round
-- for each shift and one to leave are enough.
pub sig_scan_window : Bytes → List Cell → ℕ → ℕ → Run (Option ℕ)
unfolding scan_loop scan_round match_back masked_equal bad_data_heuristic fill_bad
sig_scan_window text cells window window_size =
    let window_cells = take window_size (drop window cells) in
    let limit = length text - length cells in
    scan_loop (limit + 2) text cells window window_cells (bad_data_heuristic window_cells) limit 0

-- Longest run of fully masked bytes: (best, start).
pub fixed_run_loop : List Cell → ℕ → ℕ → ℕ → ℕ → ℕ × ℕ
fixed_run_loop [] i run best start = (best, start)
fixed_run_loop (c ∷ cs) i run best start =
    let run' = if c.mask == 0xff then run + 1 else 0 in
    let better = not (run' == 0) && leb best run' in
    fixed_run_loop cs (i + 1) run' (if better then run' else best)
      (if better then i + 1 - run' else start)

pub longest_fixed_run : List Cell → ℕ × ℕ
unfolding fixed_run_loop
longest_fixed_run cells = fixed_run_loop cells 0 0 0 0

-- `while (fixed != 0 && mask[fixed - 1] == 0) fixed--`
pub trim_fixed : List Cell → ℕ → Run ℕ
trim_fixed cells zero = done 0
trim_fixed cells (suc fixed) = do
  c ← read cells fixed
  (let rest = trim_fixed cells fixed in if c.mask == 0 then rest else done (suc fixed))

pub choose_window : List Cell → ℕ × ℕ
unfolding longest_fixed_run
choose_window fixed =
    let (best, start) = longest_fixed_run fixed in
    if best == 0 then (0, length fixed) else (start, best)

pub scan_fixed : Bytes → List Cell → ℕ → Run (Option ℕ)
unfolding choose_window sig_scan_window
scan_fixed text cells zero = done (some 0)
scan_fixed text cells (suc f) =
    let fixed_cells = take (suc f) cells in
    let (window, window_size) = choose_window fixed_cells in
    sig_scan_window (take (length text - (length cells - suc f)) text) fixed_cells window
      window_size

unfoldable pub sig_scan_pattern : Option Bytes → List Cell → Run (Option ℕ)
unfolding trim_fixed scan_fixed
sig_scan_pattern none cells = done none
sig_scan_pattern (some text) cells =
    if length cells == 0 || ltb (length text) (length cells)
    then done none
    else do fixed ← trim_fixed cells (length cells); scan_fixed text cells fixed
