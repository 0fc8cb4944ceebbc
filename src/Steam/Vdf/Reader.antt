-- ===== src/Steam/Vdf/Reader.antt =====
-- src/steam/vdf.c, the CUtlBuffer helpers and `read_token`. The position `get` in the buffer is the list
-- of the bytes behind it, so `size - get` is its length.
pub mod Progress
use yafsml.Prelude.{
  ℕ, zero, suc, ◌+◌, ◌-◌, Bool, true, false, not, ◌&&◌, ◌||◌, Option, none, some, List, [], ◌∷◌,
  Bytes, ltb, leb, ◌==◌, if◌then◌else◌, length, take,
}
use yafsml.Steam.Vdf.Chars.{is_space, c_string, escaped_char}

-- VDF_TOKEN_SIZE
abbrev pub token_size : ℕ
token_size = 0x40000

pub record Parser : Type 0 where
  pub rest : Bytes
  pub overflow : Bool
  pub error : Bool

-- Where a loop over the bytes stops, and whether it ran past the end.
pub record Stop : Type 0 where
  pub rest : Bytes
  pub overflow : Bool

unfoldable pub space_loop : Bytes → Stop
space_loop [] = record { rest = []; overflow = true }
space_loop (c ∷ cs) =
    let more = space_loop cs in
    if is_space c then more else record { rest = c ∷ cs; overflow = false }

abbrev pub stop_at : Parser → Stop → Parser
stop_at p s = record p { rest = s.rest; overflow = s.overflow }

unfoldable pub eat_white_space : Parser → Parser
unfolding space_loop
eat_white_space p = if p.overflow then p else stop_at p (space_loop p.rest)

-- `while (get_char(p) != '\n' && !p->overflow) {}`
unfoldable pub line_loop : Bytes → Stop
line_loop [] = record { rest = []; overflow = true }
line_loop (c ∷ cs) =
    let more = line_loop cs in if c == 0x0a then record { rest = cs; overflow = false } else more

-- What stands behind the two slashes of a comment.
unfoldable pub comment_start : Bytes → Option Bytes
comment_start [] = none
comment_start (a ∷ []) = none
comment_start (a ∷ b ∷ cs) = if a == b'/' && b == b'/' then some cs else none

-- `none` is the answer `false`, which changes nothing.
unfoldable pub eat_cpp_comment : Parser → Option Parser
unfolding line_loop comment_start
eat_cpp_comment p =
    if p.overflow
    then none
    else elim (comment_start p.rest) [ none ↦ none | some cs ↦ some (stop_at p (line_loop cs)) ]

-- `while (eat_cpp_comment(p)) { eat_white_space(p); if (p->overflow) return NULL; }`. Each comment
-- takes two bytes at least, so a round for each byte is enough.
unfoldable pub comment_loop : ℕ → Parser → Parser
comment_loop zero p = p
comment_loop (suc fuel) p = elim (eat_cpp_comment p) [
  | none ↦ p
  | some q ↦
      let q' = eat_white_space q in
      let again = comment_loop fuel q' in if q'.overflow then q' else again
]

-- The characters of a quoted string as they are put into the token buffer.
pub record Quoted : Type 0 where
  pub chars : Bytes
  pub rest : Bytes
  pub overflow : Bool

-- `if (length < VDF_TOKEN_SIZE) p->token[length++] = c;` and what follows it.
abbrev pub put_char : ℕ → ℕ → Quoted → Quoted
put_char len c q = record q { chars = if ltb len token_size then c ∷ q.chars else q.chars }

abbrev pub next_length : ℕ → ℕ
next_length len = if ltb len token_size then len + 1 else len

-- The loop of `read_quoted`, with `get_delimited_char`: a read past the end gives a NUL and ends it;
-- a backslash before another character than the known ones gives a NUL and is read alone.
unfoldable pub quoted_loop : ℕ → Bytes → Quoted
unfolding escaped_char
quoted_loop len [] = put_char len 0 (record { chars = []; rest = []; overflow = true })
quoted_loop len (c ∷ []) =
    let more = quoted_loop (next_length len) [] in
    if c == 0x22
    then record { chars = []; rest = []; overflow = false }
    else put_char len (if c == 0x5c then 0 else c) more
quoted_loop len (c ∷ e ∷ cs) =
    let one = quoted_loop (next_length len) (e ∷ cs) in
    let two = quoted_loop (next_length len) cs in
    if c == 0x22
    then record { chars = []; rest = e ∷ cs; overflow = false }
    else if not (c == 0x5c)
    then put_char len c one
    else if escaped_char e == 0
    then put_char len 0 one
    else put_char len (escaped_char e) two

-- `if (length >= VDF_TOKEN_SIZE) length = VDF_TOKEN_SIZE - 1; p->token[length] = '\0';`
unfoldable pub close_token : Bytes → Bytes
close_token chars = if leb token_size (length chars) then take (token_size - 1) chars else chars

-- The loop over an unquoted token.
pub record Unquoted : Type 0 where
  pub chars : Bytes
  pub rest : Bytes
  pub conditional : Bool
  pub error : Bool

abbrev pub ends_token : ℕ → Bool
ends_token c = c == 0 || c == 0x22 || c == b'=' || c == b'{' || c == b'}'

unfoldable pub unquoted_loop : ℕ → Bool → Bool → Bytes → Unquoted
unfolding is_space
unquoted_loop len bracket conditional [] = record {
  chars = [];
  rest = [];
  conditional = conditional;
  error = false;
}
unquoted_loop len bracket conditional (c ∷ cs) =
    let bracket' = bracket || c == b'[' in
    let conditional' = conditional || (c == b']' && bracket) in
    let room = ltb len (token_size - 1) in
    let more = unquoted_loop (if room then len + 1 else len) bracket' conditional' cs in
    if ends_token c || is_space c
    then record { chars = []; rest = c ∷ cs; conditional = conditional; error = false }
    else if room
    then record more { chars = c ∷ more.chars }
    else record more { error = true }

-- What `read_token` returns and sets. `text` is none for NULL.
pub record TokenRead : Type 0 where
  pub text : Option Bytes
  pub quoted : Bool
  pub conditional : Bool
  pub parser : Parser

abbrev pub no_token : Parser → TokenRead
no_token p = record { text = none; quoted = false; conditional = false; parser = p }

-- The token that starts at the first byte.
unfoldable pub token_at : Parser → Bytes → TokenRead
token_at p [] = no_token p
token_at p (c ∷ cs) =
    let q = quoted_loop 0 cs in
    let u = unquoted_loop 0 false false (c ∷ cs) in
    if c == 0x22
    then record {
      text = some (c_string (close_token q.chars));
      quoted = true;
      conditional = false;
      parser = record p { rest = q.rest; overflow = q.overflow };
    }
    else if c == b'{' || c == b'}' || c == b'='
    then record {
      text = some (c ∷ []);
      quoted = false;
      conditional = false;
      parser = record p { rest = cs };
    }
    else record {
      text = some u.chars;
      quoted = false;
      conditional = u.conditional;
      parser = record p { rest = u.rest; error = p.error || u.error };
    }

-- An overflow from the start, or met on the way to the token, stays set: NULL.
unfoldable pub read_token : Parser → TokenRead
read_token p =
    let q = eat_white_space p in
    let r = comment_loop (length q.rest) q in if r.overflow then no_token r else token_at r r.rest
