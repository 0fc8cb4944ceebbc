-- ===== src/Steam/Vdf/Load.antt =====
-- src/steam/vdf.c: vdf_parse_buffer, the loop over the entries of a file.
pub mod Ends
pub mod Total
use yafsml.Prelude.{
  ℕ, zero, suc, ◌+◌, ◌-◌, ◌*◌, ◌^◌, Bool, true, false, not, ◌&&◌, ◌||◌, Option, none, some, List,
  [], ◌∷◌, Bytes, codes, ltb, leb, ◌==◌, if◌then◌else◌, length, Run, done, stuck, ◌>>=◌,
}
use yafsml.Steam.Vdf.Chars.{ascii_equal, first, c_string}
use yafsml.Steam.Vdf.Reader.{
  Parser, TokenRead, read_token, token_at, quoted_loop, unquoted_loop, close_token, comment_loop,
  eat_cpp_comment, eat_white_space,
}
use yafsml.Steam.Vdf.Conditional.{max_depth, evaluate_conditional}
use yafsml.Steam.Vdf.Tree.{
  Object, Objects, object, nil, cons, untyped, array, new_object, set_key, clear_object,
  append_child, remove_first_named, set_value,
}
use yafsml.Steam.Vdf.Block.{fail_parser, is_mark, load_block, look_ahead, read_value, text_of}

-- Where `current` points: to the object that is returned, to a scratch object, or nowhere.
pub data Current : Type 0 where
  at_root at_scratch nowhere : Current

pub record Loader : Type 0 where
  pub root : Object
  pub current : Current
  pub parser : Parser

-- The key goes to the current object; a scratch object is never seen.
abbrev pub name_current : Loader → Bytes → Loader
name_current l key = elim l.current [
  | at_root ↦ record l { root = set_key l.root key }
  | at_scratch ↦ l
  | nowhere ↦ record l { current = at_scratch }
]

abbrev pub fill_current : Loader → Objects → Loader
fill_current l children = elim l.current [
  | at_root ↦ elim l.root [ object k c ↦ record l { root = object k (array children) } ]
  | _ ↦ l
]

-- A rejected entry is cleared, and its object stays current.
abbrev pub conclude_entry : Bool → Loader → Loader
conclude_entry true l = record l { current = nowhere }
conclude_entry false l = elim l.current [
  | at_root ↦ record l { root = clear_object l.root }
  | _ ↦ l
]

-- From the key of an entry to the end of the loop body.
pub record Opened : Type 0 where
  pub token : TokenRead
  pub accepted : Bool

abbrev pub open_entry : TokenRead → Run Opened
open_entry t =
    let conditioned = evaluate_conditional (text_of t) >>= λ accepted.
    done (record { token = read_token t.parser; accepted = accepted }) in
    if t.conditional then conditioned else done (record { token = t; accepted = true })

abbrev pub load_entry : ℕ → Loader → Opened → Run Loader
load_entry fuel l o =
    let block = load_block fuel 1 o.token.parser >>= λ b.
    done (conclude_entry o.accepted (record (fill_current l b.0) { parser = b.1 })) in
    if is_mark b'{' o.token
    then block
    else done (conclude_entry o.accepted (record l { parser = fail_parser o.token.parser }))

abbrev pub include_name : Bytes
include_name = codes "#include"

abbrev pub skip_include : Loader → TokenRead → Loader
skip_include l t = record l {
  parser = if first (text_of t) == 0 then fail_parser t.parser else t.parser;
}

-- How the body of the outer loop ends.
pub data Round : Type 0 where
  stop_with go_with : Loader → Round

unfoldable pub entry_round : ℕ → Loader → Run Round
entry_round fuel l =
    let t = read_token l.parser in
    let s = text_of t in
    let l' = record l { parser = t.parser } in
    let entry = do
      o ← open_entry (read_token t.parser)
      l'' ← load_entry fuel (name_current l' s) o
      done (go_with l'')
    in elim t.text [
      | none ↦ done (stop_with l')
      | some _ ↦
          if t.parser.overflow || (first s == 0 && not t.quoted)
          then done (stop_with l')
          else if ascii_equal s include_name
          then done (go_with (skip_include l' (read_token t.parser)))
          else entry
    ]

-- `while (!p.overflow && !p.error)`
abbrev pub again_or_stop : (Loader → Run Loader) → Round → Run Loader
again_or_stop again (stop_with l) = done l
again_or_stop again (go_with l) =
    let more = again l in if l.parser.overflow || l.parser.error then done l else more

unfoldable pub entry_loop : ℕ → Loader → Run Loader
entry_loop zero l = stuck
entry_loop (suc fuel) l = entry_round fuel l >>= again_or_stop (entry_loop fuel)

abbrev pub start_of : Bytes → Bytes
start_of (a ∷ b ∷ c ∷ cs) = if a == 0xef && b == 0xbb && c == 0xbf then cs else a ∷ b ∷ c ∷ cs
start_of cs = cs

abbrev pub result_of : Loader → Option Object
result_of l = if l.parser.error then none else some l.root

-- Three calls stand for each byte at most.
abbrev pub fuel_for : Bytes → ℕ
fuel_for buffer = 3 * length buffer + 4

unfoldable pub vdf_parse_buffer : Option Bytes → Run (Option Object)
unfolding entry_loop entry_round load_block read_value look_ahead read_token token_at quoted_loop
    unquoted_loop close_token c_string comment_loop eat_cpp_comment eat_white_space ascii_equal
    evaluate_conditional remove_first_named set_value append_child
vdf_parse_buffer none = done none
vdf_parse_buffer (some buffer) =
    let loaded =
      entry_loop (fuel_for buffer) (record {
        root = new_object none;
        current = at_root;
        parser = record { rest = start_of buffer; overflow = false; error = false };
      })
      >>= λ l. done (result_of l) in
    if ltb (2 ^ 31 - 1) (length buffer) then done none else loaded
