-- ===== src/Process/Scanner/Trim.antt =====
-- The trailing wildcards that a search leaves out, and the window that drives it.
use yafsml.Prelude.{
  ℕ, zero, suc, ◌+◌, ◌-◌, ◌≤◌, ◌<◌, bit_and, ◌≡◌, refl, sym, ap, ◌∙◌, true, false, not, ◌&&◌,
  Option, none, some, List, [], ◌∷◌, Bytes, IsByte, length, get_elem?, take, drop, arith,
  Bool-cases, All, All-get, inl, inr, length-take, length-drop, get_elem?_of_lt, get_elem?-eq_some,
  get_elem?-take, get_elem?-drop, bit_and-zero_mask, done, subst, ◌==◌, leb, dec_lt, if◌then◌else◌,
}
use yafsml.Process.Scanner.{
  Cell, cell_matches, trim_fixed, longest_fixed_run, fixed_run_loop, choose_window,
}
use yafsml.Process.Scanner.Spec.{
  prefix_matches, prefix_matches-length, prefix_matches-get, prefix_matches_of_get, IsCell,
  IsFirstMatch,
}
use yafsml.Process.Scanner.Match.{read_lt}

-- A cell with an empty mask matches every byte.
wildcard_matches : (t : ℕ) (c : Cell) → IsByte t → IsCell c → c.mask ≡ 0 → cell_matches t c ≡ true
wildcard_matches t c ht hc e =
    let value_zero : c.value ≡ 0 =
      sym hc.2 ∙ ap (bit_and c.value) e ∙ bit_and-zero_mask c.value hc.0 in
    rw (e, value_zero, bit_and-zero_mask t ht)

-- The cells from `fixed` on are wildcards.
abbrev pub AreWildcards : List Cell → ℕ → Type 0
AreWildcards cells fixed = (i : ℕ) (c : Cell) → fixed ≤ i → get_elem? cells i ≡ some c → c.mask ≡ 0

pub trim_fixed_lem :
    (cells : List Cell) (n : ℕ)
    → n ≤ length cells
    → AreWildcards cells n
    → (f : ℕ) × (trim_fixed cells n ≡ done f) × (f ≤ n) × AreWildcards cells f
unfolding trim_fixed
trim_fixed_lem cells zero l w = (0, refl, omega arith, w)
trim_fixed_lem cells (suc f) l w =
    let (c, e) = get_elem?_of_lt cells f (omega arith) in
    elim (Bool-cases (c.mask == 0)) [
      | inr fixed ↦ (suc f, rw (read_lt cells f e, fixed), omega arith, w)
      | inl wild ↦
          let (g, eg, lg, wg) = trim_fixed_lem cells f (omega arith) (more c e (ground arith)) in
          (g, rw (read_lt cells f e, wild) eg, omega arith, wg)
    ]
  where
    more : (c : Cell) → get_elem? cells f ≡ some c → c.mask ≡ 0 → AreWildcards cells f
    more c e z i d h ed = elim (dec_lt f i) [
      | yes p ↦ w i d (omega arith) ed
      | no p ↦
          let same : f ≡ i = omega arith in
          let ec : get_elem? cells i ≡ some c = subst (λ k. get_elem? cells k ≡ some c) same e in cc
    ]

pub all_get_wild : (cells : List Cell) → AreWildcards cells (length cells)
all_get_wild cells i c h e = absurd (omega (arith, get_elem?-eq_some cells i e))

fixed_run_loop_fits :
    (cells : List Cell) (i run best start : ℕ)
    → run ≤ i
    → start + best ≤ i
    → (fixed_run_loop cells i run best start).1 + (fixed_run_loop cells i run best start).0
      ≤ i + length cells
unfolding fixed_run_loop
fixed_run_loop_fits [] i run best start hr hs = omega arith
fixed_run_loop_fits (c ∷ cs) i run best start hr hs =
    let run' = if c.mask == 0xff then run + 1 else 0 in
    let better = not (run' == 0) && leb best run' in
    let best' = if better then run' else best in
    let start' = if better then i + 1 - run' else start in
    let ih = fixed_run_loop_fits cs (i + 1) run' best' start' (ground arith) (ground arith) in
    omega (arith, ih)

-- The window lies in the pattern.
pub choose_window_fits :
    (cells : List Cell) → (choose_window cells).0 + (choose_window cells).1 ≤ length cells
unfolding choose_window longest_fixed_run
choose_window_fits cells =
    ground (arith, fixed_run_loop_fits cells 0 0 0 0 (omega arith) (omega arith))

-- The text without the places where only the wildcards stand, and the pattern without them.
module _ (text : Bytes) (cells : List Cell) (f : ℕ) (all_bytes : All IsByte text)
    (all_cells : All IsCell cells) (f_pos : 0 < f) (f_le : f ≤ length cells)
    (room : length cells ≤ length text) (wild : AreWildcards cells f) where
  abbrev pub short : Bytes
  short = take (length text - (length cells - f)) text

  size_of_short : length short ≡ length text - (length cells - f)
  size_of_short = omega (arith, length-take (length text - (length cells - f)) text)

  size_of_fixed : length (take f cells) ≡ f
  size_of_fixed = omega (arith, length-take f cells)

  short_get :
      (s i : ℕ) → s + i < length short → get_elem? (drop s short) i ≡ get_elem? (drop s text) i
  short_get s i h =
      get_elem?-drop s i short
      ∙ get_elem?-take (length text - (length cells - f)) (s + i) text
          (omega (arith, size_of_short))
      ∙ sym (get_elem?-drop s i text)

  fixed_of_whole :
      (s : ℕ)
      → prefix_matches (drop s text) cells ≡ true
      → prefix_matches (drop s short) (take f cells) ≡ true
  fixed_of_whole s match =
      prefix_matches_of_get (drop s short) (take f cells)
        (omega (
          arith,
          prefix_matches-length (drop s text) cells match,
          length-drop s text,
          length-drop s short,
          size_of_short,
          size_of_fixed,
        ))
        (λ i t c et ec.
          let i_lt = get_elem?-eq_some (take f cells) i ec in
          let s_lt = get_elem?-eq_some (drop s short) i et in
          prefix_matches-get (drop s text) cells i match
            (sym (short_get s i (omega (arith, s_lt, length-drop s short))) ∙ et)
            (sym (get_elem?-take f i cells (omega (arith, i_lt, size_of_fixed))) ∙ ec))

  whole_of_fixed :
      (s : ℕ)
      → prefix_matches (drop s short) (take f cells) ≡ true
      → prefix_matches (drop s text) cells ≡ true
  whole_of_fixed s match =
      let fits = prefix_matches-length (drop s short) (take f cells) match in
      let room_at : s + length cells ≤ length text =
        omega (arith, fits, length-drop s short, size_of_short, size_of_fixed) in
      prefix_matches_of_get (drop s text) cells (omega (arith, length-drop s text)) (λ i t c et ec.
        elim (dec_lt i f) [
          | yes p ↦
              prefix_matches-get (drop s short) (take f cells) i match
                (short_get s i (omega (arith, size_of_short)) ∙ et)
                (get_elem?-take f i cells p ∙ ec)
          | no p ↦
              wildcard_matches t c
                (All-get IsByte text (s + i) t all_bytes (sym (get_elem?-drop s i text) ∙ et))
                (All-get IsCell cells i c all_cells ec) (wild i c (omega arith) ec)
        ])

  no_match_of_fixed :
      (s : ℕ)
      → prefix_matches (drop s short) (take f cells) ≡ false
      → prefix_matches (drop s text) cells ≡ false
  no_match_of_fixed s e = elim (Bool-cases (prefix_matches (drop s text) cells)) [
    | inr differs ↦ differs
    | inl match ↦ absurd (ground (arith, fixed_of_whole s match))
  ]

  -- Leaving them out changes no first match.
  pub fixed-IsFirstMatch :
      (r : Option ℕ) → IsFirstMatch short (take f cells) r → IsFirstMatch text cells r
  fixed-IsFirstMatch none h = λ i. no_match_of_fixed i (h i)
  fixed-IsFirstMatch (some s) h = (whole_of_fixed s h.0, λ i lt. no_match_of_fixed i (h.1 i lt))

-- A pattern of wildcards alone matches wherever it fits.
pub wildcards_match :
    (text : Bytes) (cells : List Cell)
    → All IsByte text
    → All IsCell cells
    → length cells ≤ length text
    → AreWildcards cells 0
    → prefix_matches text cells ≡ true
wildcards_match text cells all_bytes all_cells room wild =
    prefix_matches_of_get text cells room (λ i t c et ec.
      wildcard_matches t c (All-get IsByte text i t all_bytes et)
        (All-get IsCell cells i c all_cells ec) (wild i c (omega arith) ec))
