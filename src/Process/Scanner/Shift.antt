-- ===== src/Process/Scanner/Shift.antt =====
-- The shift by the bad character table passes over no match.
use yafsml.Prelude.{
  ℕ, zero, suc, ◌+◌, ◌-◌, ◌≤◌, ◌<◌, max, ◌≡◌, refl, sym, ap, ◌∙◌, true, false, some, List, [], ◌∷◌,
  Bytes, IsByte, get_elem?, take, drop, arith, Bool-cases, All, All-get, bit_and-bit_and_self,
  bit_and-full_mask, get_elem?-drop, get_elem?-take, get_elem?-eq_some, get_elem?_of_lt,
  length-take, dec_lt, subst, inl, inr, if◌then◌else◌,
}
use yafsml.Process.Scanner.{Cell, cell_matches, occurs, BadTable, fill_bad, bad_data_heuristic}
use yafsml.Process.Scanner.Spec.{prefix_matches, prefix_matches-get, IsCell}
use yafsml.Process.Scanner.Match.{Mismatch}

-- A byte that a cell matches counts as an occurrence of it in the table.
occurs_of_match :
    (t : ℕ) (c : Cell) → IsByte t → IsCell c → cell_matches t c ≡ true → occurs c t ≡ true
occurs_of_match t c ht hc h =
    ground (arith, bit_and-full_mask t ht, bit_and-bit_and_self t c.mask ht hc.1)

fill_bad-ge :
    (cells : List Cell) (i : ℕ) (bad : BadTable) (t : ℕ)
    → bad t ≤ i
    → bad t ≤ fill_bad cells i bad t
unfolding fill_bad
fill_bad-ge [] i bad t h = omega arith
fill_bad-ge (c ∷ cs) i bad t h =
    ground (arith, fill_bad-ge cs (i + 1) (λ b. if occurs c b then i + 1 else bad b) t)

fill_bad-get :
    (cells : List Cell) (i : ℕ) (bad : BadTable) (t j : ℕ) (c : Cell)
    → bad t ≤ i
    → get_elem? cells j ≡ some c
    → occurs c t ≡ true
    → i + j + 1 ≤ fill_bad cells i bad t
unfolding fill_bad
fill_bad-get [] i bad t j c h e o = cc
fill_bad-get (d ∷ cs) i bad t zero c h e o =
    ground (arith, fill_bad-ge cs (i + 1) (λ b. if occurs d b then i + 1 else bad b) t)
fill_bad-get (d ∷ cs) i bad t (suc j) c h e o =
    ground (arith, fill_bad-get cs (i + 1) (λ b. if occurs d b then i + 1 else bad b) t j c)

-- The table holds the last place of the window at which a byte can stand, or a later one.
pub bad_data_heuristic-get :
    (cells : List Cell) (t j : ℕ) (c : Cell)
    → IsByte t
    → All IsCell cells
    → get_elem? cells j ≡ some c
    → cell_matches t c ≡ true
    → suc j ≤ bad_data_heuristic cells t
unfolding bad_data_heuristic
bad_data_heuristic-get cells t j c ht hc e m = omega (
  arith,
  fill_bad-get cells 0 (λ b. 0) t j c (omega arith) e
      (occurs_of_match t c ht (All-get IsCell cells j c hc e) m),
)

module _ (text : Bytes) (cells : List Cell) (window n s j : ℕ) where
  abbrev window_cells : List Cell
  window_cells = take n (drop window cells)

  -- A cell of the window, at its place in the pattern.
  window_get : (i : ℕ) → i < n → get_elem? window_cells i ≡ get_elem? cells (window + i)
  window_get i h = get_elem?-take n i (drop window cells) h ∙ get_elem?-drop window i cells

  -- The byte at place `j` of the window at shift `s`, seen from a later shift.
  shifted_get :
      (s' i : ℕ)
      → s' + i ≡ s + j
      → get_elem? (drop s' text) (window + i) ≡ get_elem? (drop (s + window) text) j
  shifted_get s' i e =
      get_elem?-drop s' (window + i) text
      ∙ ap (get_elem? text) (omega arith)
      ∙ sym (get_elem?-drop (s + window) j text)

  module _ (all_bytes : All IsByte text) (all_cells : All IsCell window_cells)
      (stop : Mismatch (drop (s + window) text) window_cells j) where
    stop_IsByte : IsByte stop.byte
    stop_IsByte =
        All-get IsByte text (s + window + j) stop.byte all_bytes
          (sym (get_elem?-drop (s + window) j text) ∙ stop.byte_at)

    stop_lt : j < n
    stop_lt =
        omega
          (arith, get_elem?-eq_some window_cells j stop.cell_at, length-take n (drop window cells))

    -- The shift itself is no match.
    stop_no_match : prefix_matches (drop s text) cells ≡ true → ⊥
    stop_no_match match =
        let same =
          prefix_matches-get (drop s text) cells (window + j) match
            (shifted_get s j refl ∙ stop.byte_at) (sym (window_get j stop_lt) ∙ stop.cell_at) in
        ground (arith, stop.differs)

    -- Nor is any shift from there below the next one.
    later_no_match :
        (s' : ℕ)
        → s < s'
        → s' < s + max 1 (suc j - bad_data_heuristic window_cells stop.byte)
        → prefix_matches (drop s' text) cells ≡ true
        → ⊥
    later_no_match s' lo hi match =
        let i = s + j - s' in
        let (c, ec) =
          get_elem?_of_lt window_cells i
            (omega (arith, get_elem?-eq_some window_cells j stop.cell_at)) in
        let same =
          prefix_matches-get (drop s' text) cells (window + i) match
            (shifted_get s' i (omega arith) ∙ stop.byte_at)
            (sym (window_get i (omega (arith, stop_lt))) ∙ ec) in
        omega
          (arith, bad_data_heuristic-get window_cells stop.byte i c stop_IsByte all_cells ec same)

    pub skipped_no_match :
        (s' : ℕ)
        → s ≤ s'
        → s' < s + max 1 (suc j - bad_data_heuristic window_cells stop.byte)
        → prefix_matches (drop s' text) cells ≡ false
    skipped_no_match s' lo hi = elim (Bool-cases (prefix_matches (drop s' text) cells)) [
      | inr no_match ↦ no_match
      | inl match ↦ absurd (elim (dec_lt s s') [
        | yes later ↦ later_no_match s' later hi match
        | no here ↦
            stop_no_match
              (subst (λ k. prefix_matches (drop k text) cells ≡ true) (omega arith) match)
      ])
    ]
