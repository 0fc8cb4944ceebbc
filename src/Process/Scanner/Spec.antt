-- ===== src/Process/Scanner/Spec.antt =====
-- What a search for a pattern is to return: the first place where every cell matches.
use yafsml.Prelude.{
  ℕ, zero, suc, ◌≤◌, ◌<◌, ◌≡◌, refl, Bool, true, false, ◌&&◌, Option, none, some, List, [], ◌∷◌,
  Bytes, IsByte, bit_and, length, get_elem?, drop, arith,
}
use yafsml.Process.Scanner.{Cell, cell_matches}

-- The pattern matches at the start of the text, and fits into it.
abbrev pub prefix_matches : Bytes → List Cell → Bool
prefix_matches text [] = true
prefix_matches [] (c ∷ cs) = false
prefix_matches (t ∷ text) (c ∷ cs) = cell_matches t c && prefix_matches text cs

abbrev pub NoMatchBelow : Bytes → List Cell → ℕ → Type 0
NoMatchBelow text cells s = (i : ℕ) → i < s → prefix_matches (drop i text) cells ≡ false

-- `some s` is the first match, and `none` says that there is none.
abbrev pub IsFirstMatch : Bytes → List Cell → Option ℕ → Type 0
IsFirstMatch text cells (some s) =
    (prefix_matches (drop s text) cells ≡ true) × NoMatchBelow text cells s
IsFirstMatch text cells none = (i : ℕ) → prefix_matches (drop i text) cells ≡ false

-- A cell as the parser of pattern texts leaves it: the wildcard bits of the value are 0.
abbrev pub IsCell : Cell → Type 0
IsCell c = IsByte c.value × IsByte c.mask × (bit_and c.value c.mask ≡ c.value)

pub prefix_matches-length :
    (text : Bytes) (cells : List Cell)
    → prefix_matches text cells ≡ true
    → length cells ≤ length text
prefix_matches-length text [] h = omega arith
prefix_matches-length [] (c ∷ cs) h = cc
prefix_matches-length (t ∷ text) (c ∷ cs) h = ground (arith, prefix_matches-length text cs)

pub prefix_matches-get :
    (text : Bytes) (cells : List Cell) (i : ℕ) {t : ℕ} {c : Cell}
    → prefix_matches text cells ≡ true
    → get_elem? text i ≡ some t
    → get_elem? cells i ≡ some c
    → cell_matches t c ≡ true
prefix_matches-get text [] i h p q = cc
prefix_matches-get [] (c ∷ cs) i h p q = cc
prefix_matches-get (t ∷ text) (c ∷ cs) zero h p q = ground arith
prefix_matches-get (t ∷ text) (c ∷ cs) (suc i) h p q =
    prefix_matches-get text cs i (ground arith) p q

pub prefix_matches_of_get :
    (text : Bytes) (cells : List Cell)
    → length cells ≤ length text
    → ((i t : ℕ) (c : Cell)
        → get_elem? text i ≡ some t
        → get_elem? cells i ≡ some c
        → cell_matches t c ≡ true)
    → prefix_matches text cells ≡ true
prefix_matches_of_get text [] l h = refl
prefix_matches_of_get [] (c ∷ cs) l h = absurd (omega arith)
prefix_matches_of_get (t ∷ text) (c ∷ cs) l h =
    rw (h 0 t c refl refl) (prefix_matches_of_get text cs (omega arith) (λ i. h (suc i)))
