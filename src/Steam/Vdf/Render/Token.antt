-- ===== src/Steam/Vdf/Render/Token.antt =====
-- `read_token` on rendered text.
use yafsml.Prelude.{
  ℕ, zero, suc, ◌+◌, ◌<◌, ◌≡◌, refl, ap, ◌∙◌, Bool, true, false, ◌||◌, none, some, [], ◌∷◌, ◌++◌,
  Bytes, leb, ◌==◌, All, length, arith, lt→ltb, Bool-cases, inl, inr,
}
use yafsml.Steam.Vdf.Chars.{is_space, escaped_char, c_string}
use yafsml.Steam.Vdf.Reader.{
  Parser, space_loop, eat_white_space, comment_start, eat_cpp_comment, comment_loop, quoted_loop,
  put_char, next_length, token_size, close_token, token_at, read_token, no_token,
}
use yafsml.Steam.Vdf.Render.{IsText, IsGap, escape, quote, escape_char}

-- A parser that has met no trouble.
abbrev pub at : Bytes → Parser
at rest = record { rest = rest; overflow = false; error = false }

-- A character that begins a token of rendered text.
abbrev pub starts : ℕ → Bool
starts c = c == 0x22 || c == b'{' || c == b'}'

space_loop-gap :
    (gap : Bytes) (c : ℕ) (cs : Bytes)
    → IsGap gap
    → starts c ≡ true
    → space_loop (gap ++ (c ∷ cs)) ≡ record { rest = c ∷ cs; overflow = false }
unfolding space_loop is_space
space_loop-gap [] c cs g h = ground arith
space_loop-gap (s ∷ gap) c cs (gs, g) h = rw gs (space_loop-gap gap c cs g h)

space_loop_end : (gap : Bytes) → IsGap gap → space_loop gap ≡ record { rest = []; overflow = true }
unfolding space_loop
space_loop_end [] g = refl
space_loop_end (s ∷ gap) (gs, g) = rw gs (space_loop_end gap g)

eat_cpp_comment-starts :
    (c : ℕ) (cs : Bytes) → starts c ≡ true → eat_cpp_comment (at (c ∷ cs)) ≡ none
unfolding eat_cpp_comment comment_start
eat_cpp_comment-starts c [] h = refl
eat_cpp_comment-starts c (d ∷ cs) h = ground arith

comment_loop-none : (fuel : ℕ) (p : Parser) → eat_cpp_comment p ≡ none → comment_loop fuel p ≡ p
unfolding comment_loop
comment_loop-none zero p h = refl
comment_loop-none (suc fuel) p h = rw (h, comment_loop)

-- White space is skipped.
pub read_token-gap :
    (gap : Bytes) (c : ℕ) (cs : Bytes)
    → IsGap gap
    → starts c ≡ true
    → read_token (at (gap ++ (c ∷ cs))) ≡ token_at (at (c ∷ cs)) (c ∷ cs)
unfolding read_token eat_white_space
read_token-gap gap c cs g h =
    rw (space_loop-gap gap c cs g h)
      (rw (comment_loop-none (length (c ∷ cs)) (at (c ∷ cs)) (eat_cpp_comment-starts c cs h)))

abbrev pub past_end : Parser
past_end = record { rest = []; overflow = true; error = false }

eat_cpp_comment_end : eat_cpp_comment past_end ≡ none
unfolding eat_cpp_comment
eat_cpp_comment_end = refl

-- At the end there is no token, and the read past the end is noted.
pub read_token_end : (gap : Bytes) → IsGap gap → read_token (at gap) ≡ no_token past_end
unfolding read_token eat_white_space
read_token_end gap g =
    rw (space_loop_end gap g) (rw (comment_loop-none 0 past_end eat_cpp_comment_end))

pub read_token_mark :
    (gap : Bytes) (c : ℕ) (cs : Bytes)
    → IsGap gap
    → (c == b'{' || c == b'}') ≡ true
    → read_token (at (gap ++ (c ∷ cs)))
      ≡ record { text = some (c ∷ []); quoted = false; conditional = false; parser = at cs }
unfolding token_at
read_token_mark gap c cs g h = read_token-gap gap c cs g (ground arith) ∙ ground arith

-- A character that needs no escape, whatever follows it.
quoted_loop_plain :
    (len c : ℕ) (r : Bytes)
    → (c == 0x22) ≡ false
    → (c == 0x5c) ≡ false
    → quoted_loop len (c ∷ r) ≡ put_char len c (quoted_loop (next_length len) r)
unfolding quoted_loop
quoted_loop_plain len c [] q b = rw (q, b)
quoted_loop_plain len c (e ∷ r) q b = rw (q, b)

-- A backslash and a known letter.
quoted_loop_escaped :
    (len e : ℕ) (r : Bytes)
    → (escaped_char e == 0) ≡ false
    → quoted_loop len (0x5c ∷ e ∷ r)
      ≡ put_char len (escaped_char e) (quoted_loop (next_length len) r)
unfolding quoted_loop
quoted_loop_escaped len e r h = rw h

quoted_loop_close :
    (len : ℕ) (rest : Bytes)
    → quoted_loop len (0x22 ∷ rest) ≡ record { chars = []; rest = rest; overflow = false }
unfolding quoted_loop
quoted_loop_close len [] = refl
quoted_loop_close len (e ∷ r) = refl

put_room :
    (len c : ℕ) (r s : Bytes)
    → len < token_size
    → put_char len c (record { chars = s; rest = r; overflow = false })
      ≡ record { chars = c ∷ s; rest = r; overflow = false }
put_room len c r s h = rw (lt→ltb len token_size h)

next_room : (len : ℕ) → len < token_size → next_length len ≡ len + 1
next_room len h = rw (lt→ltb len token_size h)

abbrev ReadBack : ℕ → Bytes → Bytes → Bytes → Type 0
ReadBack len s rest r = quoted_loop len r ≡ record { chars = s; rest = rest; overflow = false }

-- Both ways to write a character read back.
module _ (len c : ℕ) (r s rest : Bytes) (room : len < token_size)
    (ih : ReadBack (len + 1) s rest r) where
  plain_step : (c == 0x22) ≡ false → (c == 0x5c) ≡ false → ReadBack len (c ∷ s) rest (c ∷ r)
  plain_step q b =
      quoted_loop_plain len c r q b ∙ rw (next_room len room) (rw ih (put_room len c rest s room))

  escaped_step :
      (e : ℕ)
      → escaped_char e ≡ c
      → (escaped_char e == 0) ≡ false
      → ReadBack len (c ∷ s) rest (0x5c ∷ e ∷ r)
  escaped_step e same known =
      quoted_loop_escaped len e r known
      ∙ rw (next_room len room) (rw ih (rw same (put_room len c rest s room)))

  escape_char_step : ReadBack len (c ∷ s) rest (escape_char c r)
  unfolding escaped_char
  escape_char_step = elim (Bool-cases (c == 0x22)) [
    | inl q ↦ rw q (escaped_step 0x22 (ground arith) refl)
    | inr nq ↦ elim (Bool-cases (c == 0x5c)) [
      | inl b ↦ rw (nq, b) (escaped_step 0x5c (ground arith) refl)
      | inr nb ↦ elim (Bool-cases (c == 0x0a)) [
        | inl n ↦ rw (nq, nb, n) (escaped_step b'n' (ground arith) refl)
        | inr nn ↦ elim (Bool-cases (c == 0x09)) [
          | inl t ↦ rw (nq, nb, nn, t) (escaped_step b't' (ground arith) refl)
          | inr nt ↦ rw (nq, nb, nn, nt) (plain_step nq nb)
        ]
      ]
    ]
  ]

quoted_loop-escape :
    (len : ℕ) (s rest : Bytes)
    → All (λ c. 0 < c) s
    → len + length s < token_size
    → ReadBack len s rest (escape s (0x22 ∷ rest))
unfolding escape
quoted_loop-escape len [] rest a h = quoted_loop_close len rest
quoted_loop-escape len (c ∷ s) rest (pos, a) h =
    escape_char_step len c (escape s (0x22 ∷ rest)) s rest (omega arith)
      (quoted_loop-escape (len + 1) s rest a (omega arith))

c_string_text : (s : Bytes) → All (λ c. 0 < c) s → c_string s ≡ s
unfolding c_string
c_string_text [] h = refl
c_string_text (c ∷ s) (pos, h) =
    let e : (c == 0) ≡ false = ground arith in rw e (ap (◌∷◌ c) (c_string_text s h))

close_token_text : (s : Bytes) → length s < token_size → close_token s ≡ s
unfolding close_token
close_token_text s h = let e : leb token_size (length s) ≡ false = ground arith in rw e

-- A quoted string reads back whole, with the parser right behind its closing quote.
pub read_token-quote :
    (gap s rest : Bytes)
    → IsGap gap
    → IsText s
    → read_token (at (gap ++ quote s rest))
      ≡ record { text = some s; quoted = true; conditional = false; parser = at rest }
unfolding token_at
read_token-quote gap s rest g (pos, short) =
    read_token-gap gap 0x22 (escape s (0x22 ∷ rest)) g refl
    ∙ rw (quoted_loop-escape 0 s rest pos (omega arith))
        (rw (close_token_text s short) (rw (c_string_text s pos)))
