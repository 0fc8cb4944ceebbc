-- ===== src/Process/Scanner/First.antt =====
-- `sig_scan_pattern` finds the first match of a masked pattern.
use yafsml.Prelude.{
  ℕ, zero, suc, ◌-◌, ◌≤◌, ◌<◌, ◌≡◌, refl, true, false, Option, none, some, List, [], Bytes, IsByte,
  length, take, drop, arith, All, length-take, length-drop, All-take, All-drop, done, Bool-cases,
  inl, inr, dec_lt, ltb, ◌==◌, ◌||◌,
}
use yafsml.Process.Scanner.{Cell, choose_window, scan_fixed, sig_scan_pattern}
use yafsml.Process.Scanner.Spec.{prefix_matches, prefix_matches-length, IsCell}
use yafsml.Process.Scanner.Loop.{FirstFound, sig_scan_window_lem}
use yafsml.Process.Scanner.Trim.{
  AreWildcards, all_get_wild, trim_fixed_lem, choose_window_fits, fixed-IsFirstMatch,
  wildcards_match,
}

module _ (text : Bytes) (cells : List Cell) (all_bytes : All IsByte text)
    (all_cells : All IsCell cells) (ne : 0 < length cells) (room : length cells ≤ length text) where
  scan_fixed_lem :
      (f : ℕ)
      → f ≤ length cells
      → AreWildcards cells f
      → FirstFound text cells (scan_fixed text cells f)
  unfolding scan_fixed
  scan_fixed_lem zero l wild = (
    some 0,
    refl,
    (wildcards_match text cells all_bytes all_cells room wild, λ i h. absurd (omega arith)),
  )
  scan_fixed_lem (suc f) l wild =
      let fixed = take (suc f) cells in
      let n = length text - (length cells - suc f) in
      let (window, size) = choose_window fixed in
      let (r, e, first) =
        sig_scan_window_lem (take n text) fixed window size (All-take IsByte n text all_bytes)
          (All-take IsCell size (drop window fixed)
            (All-drop IsCell window fixed (All-take IsCell (suc f) cells all_cells)))
          (choose_window_fits fixed) (omega (arith, length-take n text, length-take (suc f) cells))
          (omega (arith, length-take (suc f) cells)) in
      (
        r,
        e,
        fixed-IsFirstMatch text cells (suc f) all_bytes all_cells (omega arith) l room wild r first,
      )

  in_room : FirstFound text cells (sig_scan_pattern (some text) cells)
  unfolding sig_scan_pattern
  in_room =
      let (f, e, l, wild) =
        trim_fixed_lem cells (length cells) (omega arith) (all_get_wild cells) in
      let test : (length cells == 0 || ltb (length text) (length cells)) ≡ false = ground arith in
      rw (test, e) (scan_fixed_lem f l wild)

too_short_no_match :
    (text : Bytes) (cells : List Cell) (i : ℕ)
    → length text < length cells
    → prefix_matches (drop i text) cells ≡ false
too_short_no_match text cells i h = elim (Bool-cases (prefix_matches (drop i text) cells)) [
  | inr differs ↦ differs
  | inl match ↦
      absurd (omega (arith, prefix_matches-length (drop i text) cells match, length-drop i text))
]

too_short :
    (text : Bytes) (cells : List Cell)
    → length text < length cells
    → FirstFound text cells (sig_scan_pattern (some text) cells)
unfolding sig_scan_pattern
too_short text cells h =
    let test : (length cells == 0 || ltb (length text) (length cells)) ≡ true = ground arith in
    rw test (none, refl, λ i. too_short_no_match text cells i h)

-- For a pattern of at least one cell and data of bytes, the search ends, never reads outside the
-- data or the pattern, and returns the first place where every cell matches, or NULL if there is
-- none. The cells are bytes whose wildcard bits are 0.
pub sig_scan_pattern-FirstFound :
    (text : Bytes) (cells : List Cell)
    → All IsByte text
    → All IsCell cells
    → 0 < length cells
    → FirstFound text cells (sig_scan_pattern (some text) cells)
sig_scan_pattern-FirstFound text cells all_bytes all_cells ne =
    elim (dec_lt (length text) (length cells)) [
      | no p ↦ in_room text cells all_bytes all_cells ne (omega arith)
      | yes p ↦ too_short text cells p
    ]

-- An empty pattern finds nothing.
pub sig_scan_pattern-nil : (text : Option Bytes) → sig_scan_pattern text [] ≡ done none
unfolding sig_scan_pattern
sig_scan_pattern-nil none = refl
sig_scan_pattern-nil (some text) = refl
