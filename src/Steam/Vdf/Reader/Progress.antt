-- ===== src/Steam/Vdf/Reader/Progress.antt =====
-- `read_token` moves on: it never goes back, and a token that the loader goes on with takes a byte.
use yafsml.Prelude.{
  ℕ, zero, suc, ◌+◌, ◌≤◌, ◌<◌, ◌≡◌, refl, Bool, true, false, not, ◌||◌, ◌&&◌, none, some, [], ◌∷◌,
  Bytes, ltb, ◌==◌, if◌then◌else◌, length, arith, Bool-cases, inl, inr, Option-cases,
}
use yafsml.Steam.Vdf.Chars.{first}
use yafsml.Steam.Vdf.Reader.{
  Parser, space_loop, eat_white_space, line_loop, comment_start, eat_cpp_comment, comment_loop,
  quoted_loop, unquoted_loop, Unquoted, TokenRead, token_at, read_token, next_length,
}

length-space_loop : (r : Bytes) → length (space_loop r).rest ≤ length r
unfolding space_loop
length-space_loop [] = omega arith
length-space_loop (c ∷ cs) = ground (arith, length-space_loop cs)

length-line_loop : (r : Bytes) → length (line_loop r).rest ≤ length r
unfolding line_loop
length-line_loop [] = omega arith
length-line_loop (c ∷ cs) = ground (arith, length-line_loop cs)

eat_white_space-le : (p : Parser) → length (eat_white_space p).rest ≤ length p.rest
unfolding eat_white_space
eat_white_space-le p = ground (arith, length-space_loop p.rest)

comment_start-le : (r : Bytes) {cs : Bytes} → comment_start r ≡ some cs → length cs ≤ length r
unfolding comment_start
comment_start-le [] h = cc
comment_start-le (a ∷ []) h = cc
comment_start-le (a ∷ b ∷ r) h = ground arith

eat_cpp_comment-le :
    (p : Parser) {q : Parser} → eat_cpp_comment p ≡ some q → length q.rest ≤ length p.rest
unfolding eat_cpp_comment
eat_cpp_comment-le p h = elim (Option-cases (comment_start p.rest)) [
  | inl e ↦ ground arith
  | inr (cs, e) ↦ ground (arith, length-line_loop cs, comment_start-le p.rest e)
]

comment_loop-le : (fuel : ℕ) (p : Parser) → length (comment_loop fuel p).rest ≤ length p.rest
unfolding comment_loop
comment_loop-le zero p = omega arith
comment_loop-le (suc fuel) p = elim (Option-cases (eat_cpp_comment p)) [
  | inl e ↦ rw (e, comment_loop) (omega arith)
  | inr (q, e) ↦
      rw (e, comment_loop)
        (ground (
          arith,
          eat_cpp_comment-le p e,
          eat_white_space-le q,
          comment_loop-le fuel (eat_white_space q),
        ))
]

comment_start-lt : (r : Bytes) {cs : Bytes} → comment_start r ≡ some cs → length cs < length r
unfolding comment_start
comment_start-lt [] h = cc
comment_start-lt (a ∷ []) h = cc
comment_start-lt (a ∷ b ∷ r) h = ground arith

eat_cpp_comment-lt :
    (p : Parser) {q : Parser} → eat_cpp_comment p ≡ some q → length q.rest < length p.rest
unfolding eat_cpp_comment
eat_cpp_comment-lt p h = elim (Option-cases (comment_start p.rest)) [
  | inl e ↦ ground arith
  | inr (cs, e) ↦ ground (arith, length-line_loop cs, comment_start-lt p.rest e)
]

eat_cpp_comment_past : (p : Parser) → p.overflow ≡ true → eat_cpp_comment p ≡ none
unfolding eat_cpp_comment
eat_cpp_comment_past p h = rw h

stops_either :
    (b : Bool) (past again : Parser)
    → (b ≡ true → eat_cpp_comment past ≡ none)
    → eat_cpp_comment again ≡ none
    → eat_cpp_comment (if b then past else again) ≡ none
stops_either true past again h k = h refl
stops_either false past again h k = k

-- Where the loop over the comments stops, no other comment is eaten.
pub comment_loop-stops :
    (fuel : ℕ) (p : Parser) → length p.rest ≤ fuel → eat_cpp_comment (comment_loop fuel p) ≡ none
unfolding comment_loop
comment_loop-stops zero p h = elim (Option-cases (eat_cpp_comment p)) [
  | inl e ↦ e
  | inr (q, e) ↦ absurd (omega (arith, eat_cpp_comment-lt p e))
]
comment_loop-stops (suc fuel) p h = elim (Option-cases (eat_cpp_comment p)) [
  | inl e ↦ rw (e, comment_loop) e
  | inr (q, e) ↦
      let q' = eat_white_space q in
      rw (e, comment_loop)
        (stops_either q'.overflow q' (comment_loop fuel q') (eat_cpp_comment_past q') (
          comment_loop-stops fuel q' (omega (arith, eat_cpp_comment-lt p e, eat_white_space-le q))))
]

length-quoted_loop : (len : ℕ) (r : Bytes) → length (quoted_loop len r).rest ≤ length r
unfolding quoted_loop
length-quoted_loop len [] = omega arith
length-quoted_loop len (c ∷ []) = ground (arith, length-quoted_loop (next_length len) [])
length-quoted_loop len (c ∷ e ∷ cs) =
    ground (
      arith,
      length-quoted_loop (next_length len) (e ∷ cs),
      length-quoted_loop (next_length len) cs,
    )

length-unquoted_loop :
    (len : ℕ) (b k : Bool) (r : Bytes)
    → length (unquoted_loop len b k r).rest + length (unquoted_loop len b k r).chars ≤ length r
unfolding unquoted_loop
length-unquoted_loop len b k [] = omega arith
length-unquoted_loop len b k (c ∷ cs) = ground (
  arith,
  length-unquoted_loop (if ltb len 0x3ffff then len + 1 else len) (b || c == b'[')
      (k || (c == b']' && b)) cs,
)

-- 1 where the token is one that the loader goes on with.
abbrev pub taken : TokenRead → ℕ
taken t = elim t.text [ none ↦ 0 | some s ↦ if t.quoted || not (first s == 0) then 1 else 0 ]

some_chars : (cs : Bytes) → (first cs == 0) ≡ false → 0 < length cs
some_chars [] h = cc
some_chars (c ∷ cs) h = omega arith

token_at-le :
    (p : Parser) (r : Bytes)
    → p.rest ≡ r
    → length (token_at p r).parser.rest + taken (token_at p r) ≤ length r
unfolding token_at
token_at-le p [] h = ground arith
token_at-le p (c ∷ cs) h = elim (Bool-cases (c == 0x22)) [
  | inl quote ↦ rw quote (omega (arith, length-quoted_loop 0 cs))
  | inr other ↦ elim (Bool-cases (c == b'{' || c == b'}' || c == b'=')) [
    | inl mark ↦ rw (other, mark) (ground arith)
    | inr char ↦
        rw (other, char)
          (unquoted_taken (unquoted_loop 0 false false (c ∷ cs))
            (length-unquoted_loop 0 false false (c ∷ cs)))
  ]
]
  where
    unquoted_taken :
        (u : Unquoted)
        → length u.rest + length u.chars ≤ length (c ∷ cs)
        → length u.rest + (if false || not (first u.chars == 0) then 1 else 0) ≤ length (c ∷ cs)
    unquoted_taken u le = ground (arith, some_chars u.chars)

-- What `read_token` leaves is no longer than what it was given, and shorter by a byte at least
-- where it returns a quoted string or a token with a character.
pub read_token-le :
    (p : Parser) → length (read_token p).parser.rest + taken (read_token p) ≤ length p.rest
unfolding read_token
read_token-le p = ground (
  arith,
  eat_white_space-le p,
  comment_loop-le (length (eat_white_space p).rest) (eat_white_space p),
  token_at-le (comment_loop (length (eat_white_space p).rest) (eat_white_space p))
      (comment_loop (length (eat_white_space p).rest) (eat_white_space p)).rest refl,
)
