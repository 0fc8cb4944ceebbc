-- ===== src/Process/Scanner/Match.antt =====
-- The comparisons of scanner.c: they read inside their buffers, and what they answer.
use yafsml.Prelude.{
  ℕ, zero, suc, ◌≤◌, ◌≡◌, refl, ◌⊎◌, inl, inr, false, some, List, [], ◌∷◌, Bytes, length, get_elem?,
  get_elem?_of_lt, arith, Bool-cases, done,
}
use yafsml.Process.Scanner.{Cell, cell_matches, read, masked_equal, match_back}
use yafsml.Process.Scanner.Spec.{prefix_matches}

pub masked_equal-prefix_matches :
    (text : Bytes) (cells : List Cell)
    → length cells ≤ length text
    → masked_equal text cells ≡ done (prefix_matches text cells)
unfolding masked_equal
masked_equal-prefix_matches text [] l = refl
masked_equal-prefix_matches [] (c ∷ cs) l = absurd (omega arith)
masked_equal-prefix_matches (t ∷ text) (c ∷ cs) l =
    ground (arith, masked_equal-prefix_matches text cs (omega arith))

-- The byte and the cell at which the backward comparison stopped.
pub record Mismatch (text : Bytes) (window : List Cell) (j : ℕ) : Type 0 where
  pub byte : ℕ
  pub cell : Cell
  pub byte_at : get_elem? text j ≡ some byte
  pub cell_at : get_elem? window j ≡ some cell
  pub differs : cell_matches byte cell ≡ false

pub read_lt {ℓ} :
    {A : Type ℓ} (xs : List A) (i : ℕ) {x : A} → get_elem? xs i ≡ some x → read xs i ≡ done x
read_lt xs i e = rw (e, read)

-- It goes through the whole window, or stops at a mismatch.
pub match_back_cases :
    (text : Bytes) (window : List Cell) (n : ℕ)
    → n ≤ length window
    → n ≤ length text
    → (match_back text window n ≡ done 0)
      ⊎ ((j : ℕ) × (match_back text window n ≡ done (suc j)) × Mismatch text window j)
unfolding match_back
match_back_cases text window zero l m = inl refl
match_back_cases text window (suc j) l m =
    let (t, et) = get_elem?_of_lt text j (omega arith) in
    let (c, ec) = get_elem?_of_lt window j (omega arith) in
    elim (Bool-cases (cell_matches t c)) [
      | inl same ↦
          rw (read_lt text j et, read_lt window j ec, same)
            (match_back_cases text window j (omega arith) (omega arith))
      | inr diff ↦ inr (
        j,
        rw (read_lt text j et, read_lt window j ec, diff),
        record { byte = t; cell = c; byte_at = et; cell_at = ec; differs = diff },
      )
    ]
