-- ===== src/Process/Scanner/Loop.antt =====
-- The search loop of scanner.c ends, reads inside its buffers, and returns the first match.
use yafsml.Prelude.{
  ℕ, zero, suc, ◌+◌, ◌-◌, ◌≤◌, ◌<◌, max, ◌≡◌, refl, true, false, Option, none, some, List, Bytes,
  IsByte, length, take, drop, arith, Bool-cases, All, inl, inr, leb, length-take, length-drop, Run,
  done, subst, dec_lt,
}
use yafsml.Process.Scanner.{
  Cell, Round, found, next, advance, scan_round, scan_loop, sig_scan_window, bad_data_heuristic,
  resume,
}
use yafsml.Process.Scanner.Spec.{
  prefix_matches, prefix_matches-length, IsCell, IsFirstMatch, NoMatchBelow,
}
use yafsml.Process.Scanner.Match.{Mismatch, masked_equal-prefix_matches, match_back_cases, read_lt}
use yafsml.Process.Scanner.Shift.{skipped_no_match}

-- The code returns, and what it returns is the first match.
abbrev pub FirstFound : Bytes → List Cell → Run (Option ℕ) → Type 0
FirstFound text cells m = (r : Option ℕ) × (m ≡ done r) × IsFirstMatch text cells r

module _ (text : Bytes) (cells : List Cell) (window n : ℕ) where
  abbrev window_cells : List Cell
  window_cells = take n (drop window cells)

  abbrev bad_of : ℕ → ℕ
  bad_of = bad_data_heuristic window_cells

  -- What a round is to answer at shift `s`.
  abbrev RoundSpec : ℕ → Round → Type 0
  RoundSpec s found = prefix_matches (drop s text) cells ≡ true
  RoundSpec s (next s') =
      (s < s') × ((i : ℕ) → s ≤ i → i < s' → prefix_matches (drop i text) cells ≡ false)

  module _ (all_bytes : All IsByte text) (all_cells : All IsCell window_cells)
      (window_fits : window + n ≤ length cells) (s : ℕ)
      (room : s + length cells ≤ length text) where
    size_of_window : length window_cells ≡ n
    size_of_window = omega (arith, length-take n (drop window cells), length-drop window cells)

    round_whole :
        (r : Round) × (advance (drop s text) cells (drop (s + window) text) bad_of s 0 ≡ done r)
        × RoundSpec s r
    unfolding advance
    round_whole =
        rw (masked_equal-prefix_matches (drop s text) cells (omega (arith, length-drop s text)))
          (elim (Bool-cases (prefix_matches (drop s text) cells)) [
            | inl match ↦ (found, rw match, match)
            | inr differs ↦ (
              next (s + 1),
              rw differs,
              (
                omega arith,
                λ i lo hi.
                    subst (λ k. prefix_matches (drop k text) cells ≡ false) (omega arith) differs,
              ),
            )
          ])

    round_stop :
        (j : ℕ)
        → Mismatch (drop (s + window) text) window_cells j
        → (r : Round) × (advance (drop s text) cells (drop (s + window) text) bad_of s (suc j)
            ≡ done r)
          × RoundSpec s r
    unfolding advance
    round_stop j stop = (
      next (s + max 1 (suc j - bad_of stop.byte)),
      rw (read_lt (drop (s + window) text) j stop.byte_at),
      (omega arith, skipped_no_match text cells window n s j all_bytes all_cells stop),
    )

    scan_round_lem :
        (r : Round) × (scan_round text cells window window_cells bad_of s ≡ done r) × RoundSpec s r
    unfolding scan_round
    scan_round_lem =
        elim (match_back_cases (drop (s + window) text) window_cells (length window_cells)
          (omega arith) (omega (arith, length-drop (s + window) text, size_of_window))) [
            | inl whole ↦ rw whole round_whole
            | inr (j, e, stop) ↦ rw e (round_stop j stop)
          ]

  module _ (all_bytes : All IsByte text) (all_cells : All IsCell window_cells)
      (window_fits : window + n ≤ length cells) (limit : ℕ)
      (limit_is : limit + length cells ≡ length text) where
    beyond_no_match :
        (i : ℕ) → limit < i → 0 < length cells → prefix_matches (drop i text) cells ≡ false
    beyond_no_match i h ne = elim (Bool-cases (prefix_matches (drop i text) cells)) [
      | inr differs ↦ differs
      | inl match ↦
          absurd
            (omega (arith, prefix_matches-length (drop i text) cells match, length-drop i text))
    ]

    NoMatchBelow-trans :
        (s s' : ℕ)
        → NoMatchBelow text cells s
        → ((i : ℕ) → s ≤ i → i < s' → prefix_matches (drop i text) cells ≡ false)
        → NoMatchBelow text cells s'
    NoMatchBelow-trans s s' below between i h = elim (dec_lt i s) [
      | yes p ↦ below i p
      | no p ↦ between i (omega arith) h
    ]

    none-IsFirstMatch :
        (s : ℕ)
        → limit < s
        → 0 < length cells
        → NoMatchBelow text cells s
        → IsFirstMatch text cells none
    none-IsFirstMatch s h ne below i = elim (dec_lt i s) [
      | yes p ↦ below i p
      | no p ↦ beyond_no_match i (omega arith) ne
    ]

    abbrev loop_from : ℕ → ℕ → Run (Option ℕ)
    loop_from fuel = scan_loop fuel text cells window window_cells bad_of limit

    resume_lem :
        (fuel s : ℕ) (r : Round)
        → RoundSpec s r
        → NoMatchBelow text cells s
        → ((s' : ℕ)
            → s < s'
            → NoMatchBelow text cells s'
            → FirstFound text cells (loop_from fuel s'))
        → FirstFound text cells (resume (loop_from fuel) s r)
    unfolding resume
    resume_lem fuel s found match below later = (some s, refl, (match, below))
    resume_lem fuel s (next s') (forward, between) below later =
        later s' forward (NoMatchBelow-trans s s' below between)

    -- Every round moves on, so fuel for the shifts that are left is enough.
    scan_loop_lem :
        (fuel s : ℕ)
        → 0 < fuel
        → limit + 2 ≤ fuel + s
        → 0 < length cells
        → NoMatchBelow text cells s
        → FirstFound text cells (loop_from fuel s)
    unfolding scan_loop
    scan_loop_lem zero s pos f ne below = absurd (omega arith)
    scan_loop_lem (suc fuel) s pos f ne below = elim (Bool-cases (leb s limit)) [
      | inr over ↦ rw over (none, refl, none-IsFirstMatch s (ground arith) ne below)
      | inl more ↦
          let le : s ≤ limit = ground arith in
          let (r, e, spec) = scan_round_lem all_bytes all_cells window_fits s (omega arith) in
          rw (more, e)
            (resume_lem fuel s r spec below
              (λ s' h b. scan_loop_lem fuel s' (omega arith) (omega arith) ne b))
    ]

  pub sig_scan_window_lem :
      All IsByte text
      → All IsCell window_cells
      → window + n ≤ length cells
      → length cells ≤ length text
      → 0 < length cells
      → FirstFound text cells (sig_scan_window text cells window n)
  unfolding sig_scan_window
  sig_scan_window_lem all_bytes all_cells fits room ne =
      scan_loop_lem all_bytes all_cells fits (length text - length cells) (omega arith)
        (length text - length cells + 2) 0 (omega arith) (omega arith) ne
        (λ i h. absurd (omega arith))
