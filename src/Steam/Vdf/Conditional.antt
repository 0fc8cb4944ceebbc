-- ===== src/Steam/Vdf/Conditional.antt =====
-- src/steam/vdf.c, CExpressionEvaluator. `position` is the list of the characters behind it; past the
-- end every read gives a NUL.
pub mod Total
use yafsml.Prelude.{
  ℕ, zero, suc, ◌+◌, ◌-◌, ◌*◌, Bool, true, false, not, ◌&&◌, ◌||◌, Option, none, some, List, [],
  ◌∷◌, ◌++◌, Bytes, codes, ltb, leb, ◌==◌, if◌then◌else◌, length, Run, done, fault, stuck, ◌>>=◌,
  bit_and,
}
use yafsml.Steam.Vdf.Chars.{ascii_equal, first}

-- VDF_MAX_DEPTH and VDF_IDENTIFIER_SIZE
abbrev pub max_depth : ℕ
max_depth = 4096

abbrev pub identifier_size : ℕ
identifier_size = 128

pub record Expression : Type 0 where
  pub rest : Bytes
  pub current : ℕ
  pub depth : ℕ

-- `while (expression_at(e, e->position) == ' ') e->position++`
pub skip_blanks : Bytes → Bytes
skip_blanks [] = []
skip_blanks (c ∷ cs) = let more = skip_blanks cs in if c == b' ' then more else c ∷ cs

abbrev pub tail : Bytes → Bytes
tail [] = []
tail (c ∷ cs) = cs

pub next_token : Expression → Expression
unfolding skip_blanks
next_token e = let r = skip_blanks e.rest in record e { rest = tail r; current = first r }

abbrev true_symbols : List Bytes
true_symbols = codes "WINDOWS" ∷ codes "WIN32" ∷ codes "WIN64" ∷ codes "VISTA" ∷ codes "WIN7" ∷ []

pub is_any_of : Bytes → List Bytes → Bool
unfolding ascii_equal
is_any_of name [] = false
is_any_of name (s ∷ ss) = ascii_equal name s || is_any_of name ss

unfoldable pub evaluate_symbol : Bytes → Bool
unfolding ascii_equal is_any_of
evaluate_symbol identifier =
    let name = if first identifier == b'$' then tail identifier else identifier in
    if ascii_equal identifier (codes "$0")
    then false
    else if ascii_equal identifier (codes "$1")
    then true
    else is_any_of name true_symbols

pub is_ascii_alnum : ℕ → Bool
is_ascii_alnum c =
    (leb b'0' c && leb c b'9') || (leb b'A' c && leb c b'Z') || (leb b'a' c && leb c b'z')

pub is_digit : ℕ → Bool
is_digit c = leb b'0' c && leb c b'9'

pub symbol_char : ℕ → Bool
unfolding is_ascii_alnum
symbol_char c = is_ascii_alnum c || c == b'_'

-- The loop that copies an identifier: what it copies, from `length` on, and where it stops.
pub copy_while : (ℕ → Bool) → ℕ → Bytes → Bytes × Bytes
copy_while p len [] = ([], [])
copy_while p len (c ∷ cs) =
    let more = copy_while p (len + 1) cs in
    if p c && ltb len identifier_size then (c ∷ more.0, more.1) else ([], c ∷ cs)

-- `strspn(identifier, "0") != length`: some character is no zero.
pub not_zero : Bytes → Bool
not_zero [] = false
not_zero (c ∷ cs) = not (c == b'0') || not_zero cs

-- What follows the copy. `current` is the first character of the identifier.
pub finish_factor : Expression → (Bytes × Bytes) → Bool × Expression
unfolding next_token not_zero
finish_factor e (copied, rest) =
    let identifier = e.current ∷ copied in
    let value = if e.current == b'$' then evaluate_symbol identifier else not_zero identifier in
    let e' = next_token (record e { rest = rest }) in
    if leb (identifier_size - 1) (length identifier) then (false, e') else (value, e')

-- `make_factor` without its parenthesis.
pub make_operand : Expression → Bool × Expression
unfolding finish_factor copy_while symbol_char is_digit next_token
make_operand e =
    if e.current == b'$'
    then finish_factor e (copy_while symbol_char 1 e.rest)
    else if is_digit e.current
    then finish_factor e (copy_while is_digit 1 e.rest)
    else if e.current == b'!'
    then (false, e)
    else (false, next_token e)

abbrev pub Parse : Type 0
Parse = Run (Bool × Expression)

-- Behind the inner expression: the depth goes back, and one token is taken as the parenthesis.
abbrev pub close_paren : ℕ → Bool × Expression → Parse
close_paren depth (v, e) = done (v, next_token (record e { depth = depth }))

abbrev pub combine : ℕ → Bool → Bool → Bool
combine op value right = if op == b'&' then value && right else value || right

-- `(next & op) == op`
abbrev pub doubles : ℕ → ℕ → Bool
doubles next op = bit_and next op == op

-- Each nested expression is a call on the native stack: that it has room for the first and VDF_MAX_DEPTH
-- inside it is what the depth is counted for, so one that is deeper is a fault.
unfoldable mutual
  unfolding make_operand next_token evaluate_symbol

  pub make_factor : ℕ → Expression → Parse
  make_factor zero e = stuck
  make_factor (suc fuel) e =
      let inside = next_token e in
      let inner =
        make_expression fuel (record inside { depth = e.depth + 1 }) >>= close_paren e.depth in
      if e.current == b'('
      then (if ltb e.depth max_depth then inner else done (false, next_token inside))
      else done (make_operand e)

  pub make_term : ℕ → Expression → Parse
  make_term zero e = stuck
  make_term (suc fuel) e = make_factor fuel e >>= λ r. term_loop fuel r.0 r.1

  -- `while (e->current == '!')`
  pub term_loop : ℕ → Bool → Expression → Parse
  term_loop zero value e = stuck
  term_loop (suc fuel) value e =
      let more = make_factor fuel (next_token e) >>= λ r. term_loop fuel (not r.0) r.1 in
      if e.current == b'!' then more else done (value, e)

  pub make_expression : ℕ → Expression → Parse
  make_expression zero e = stuck
  make_expression (suc fuel) e =
      let more = make_term fuel e >>= λ r. expression_loop fuel r.0 r.1 in
      if ltb max_depth e.depth then fault else more

  -- `while (e->current == '|' || e->current == '&')`
  pub expression_loop : ℕ → Bool → Expression → Parse
  expression_loop zero value e = stuck
  expression_loop (suc fuel) value e =
      let e' = record e { rest = tail e.rest } in
      let more = make_term fuel (next_token e') >>= λ r.
      expression_loop fuel (combine e.current value r.0) r.1 in
      if e.current == b'|' || e.current == b'&'
      then (if doubles (first e.rest) e.current then more else done (value, e'))
      else done (value, e)

abbrev pub value_of : Parse → Run Bool
value_of m = m >>= λ r. done r.0

-- Each character is worth three calls at most.
unfoldable pub evaluate_conditional : Bytes → Run Bool
unfolding make_expression
evaluate_conditional [] = done false
evaluate_conditional (c ∷ text) = value_of (
    make_expression (3 * length text + 3)
      (next_token (record { rest = text; current = 0; depth = 0 })))
