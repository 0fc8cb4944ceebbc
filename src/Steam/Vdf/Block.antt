-- ===== src/Steam/Vdf/Block.antt =====
-- src/steam/vdf.c: the values and blocks of a file, with their conditions.
use yafsml.Prelude.{
  ℕ, zero, suc, ◌+◌, Bool, true, false, not, ◌&&◌, ◌||◌, Option, none, some, [], Bytes, ltb, ◌==◌,
  if◌then◌else◌, Run, done, stuck, ◌>>=◌,
}
use yafsml.Steam.Vdf.Chars.{first}
use yafsml.Steam.Vdf.Reader.{Parser, TokenRead, read_token}
use yafsml.Steam.Vdf.Conditional.{max_depth, evaluate_conditional}
use yafsml.Steam.Vdf.Tree.{
  Object, Objects, object, nil, array, new_object, append_child, remove_first_named, set_value,
}

abbrev pub fail_parser : Parser → Parser
fail_parser p = record p { error = true }

-- The locals of `load_block` while it looks for the value of a key: the last token, `accepted`, and
-- the children so far.
pub record Value : Type 0 where
  pub token : TokenRead
  pub accepted : Bool
  pub children : Objects

-- `value != NULL && value[0] == c && !quoted`
abbrev pub is_mark : ℕ → TokenRead → Bool
is_mark c t = elim t.text [ none ↦ false | some s ↦ first s == c && not t.quoted ]

-- `if (conditional && value != NULL)`: the condition decides, and the next token is the value.
abbrev pub decide : Bool → Option Bytes → Value → Run Value
decide true (some s) v = do
  accepted ← evaluate_conditional s
  done (record v { token = read_token v.token.parser; accepted = accepted })
decide _ _ v = done v

abbrev pub replace_if : Bool → Bytes → Value → Value
replace_if b key v = record v {
  children = if b then remove_first_named v.children key else v.children;
}

-- Behind a `=`: the value, or a condition that may remove an earlier key.
abbrev pub after_equals : Bytes → Value → Run Value
after_equals key v =
    let t = read_token v.token.parser in
    let v' = record v { token = t } in
    let conditioned = decide true t.text v' >>= λ w. done (replace_if w.accepted key w) in
    if t.conditional then conditioned else done v'

unfoldable pub read_value : Bytes → Objects → Parser → Run Value
read_value key children p = do
  let t = read_token p
  v ← decide t.conditional t.text (record { token = t; accepted = true; children = children })
  (if is_mark b'=' v.token then after_equals key v else done v)

-- "got NULL key", "got } in key", or "got conditional between key and value".
abbrev pub is_bad_value : TokenRead → Bool
is_bad_value t = elim t.text [
  | none ↦ true
  | some s ↦ is_mark b'}' t || (not (is_mark b'{' t) && t.conditional)
]

-- A value has been stored: one token further may be a condition.
pub record Entry : Type 0 where
  pub parser : Parser
  pub accepted : Bool
  pub children : Objects

abbrev pub text_of : TokenRead → Bytes
text_of t = elim t.text [ none ↦ [] | some s ↦ s ]

unfoldable pub look_ahead : Bytes → Value → Run Entry
look_ahead key v =
    let p = v.token.parser in
    let peek = read_token p in
    let conditioned = evaluate_conditional (text_of peek) >>= λ accepted. done (record {
      parser = peek.parser;
      accepted = accepted;
      children = if accepted then remove_first_named v.children key else v.children;
    }) in
    if peek.conditional
    then conditioned
    else done (record {
      parser = record peek.parser { rest = p.rest; overflow = false };
      accepted = v.accepted;
      children = v.children;
    })

-- `if (p->error || !accepted || !append_child(p, object, child)) vdf_free_object(child)`
abbrev pub keep : Entry → Object → Objects
keep e child =
    if e.parser.error || not e.accepted then e.children else append_child e.children child

abbrev pub Block : Type 0
Block = Objects × Parser

unfoldable mutual
  -- The loop of `load_block`; an end of it other than `}` is an error.
  pub block_loop : ℕ → ℕ → Objects → Parser → Run Block
  block_loop zero depth children p = stuck
  block_loop (suc fuel) depth children p =
      let name = read_token p in
      let key = text_of name in
      let child = load_child fuel depth key children name.parser in
      elim name.text [
        | none ↦ done (children, fail_parser name.parser)
        | some s ↦
            if name.parser.error || first s == 0
            then done (children, fail_parser name.parser)
            else if is_mark b'}' name
            then done (children, name.parser)
            else child
      ]

  -- From the key on: its value or block, and the rest of the loop.
  pub load_child : ℕ → ℕ → Bytes → Objects → Parser → Run Block
  load_child zero depth key children p = stuck
  load_child (suc fuel) depth key children p = do
    v ← read_value key children p
    (let bad = done (v.children, fail_parser v.token.parser) in
        let nested = do
          b ← load_block fuel (depth + 1) v.token.parser
          add_child fuel depth
              (record { parser = b.1; accepted = v.accepted; children = v.children })
              (object (some key) (array b.0))
        in let valued = do
          e ← look_ahead key v
          add_child fuel depth e (set_value (new_object (some key)) (text_of v.token))
          in if is_bad_value v.token then bad else if is_mark b'{' v.token then nested else valued)

  pub add_child : ℕ → ℕ → Entry → Object → Run Block
  add_child zero depth e child = stuck
  add_child (suc fuel) depth e child = block_loop fuel depth (keep e child) e.parser

  pub load_block : ℕ → ℕ → Parser → Run Block
  load_block zero depth p = stuck
  load_block (suc fuel) depth p =
      let loop = block_loop fuel depth nil p in
      if ltb max_depth depth then done (nil, fail_parser p) else loop
