-- ===== src/Steam/Vdf/Load/Total.antt =====
-- The loader returns on every input: its fuel, three calls for a byte, is never spent.
use yafsml.Prelude.{
  ℕ, zero, suc, ◌+◌, ◌-◌, ◌*◌, ◌^◌, ◌≤◌, ◌<◌, ◌≡◌, refl, inl, inr, Bool, true, false, not, ◌||◌,
  ◌&&◌, Option, none, some, [], ◌∷◌, Bytes, ltb, ◌==◌, length, arith, Bool-cases, Option-cases, Run,
  done, ◌>>=◌,
}
use yafsml.Steam.Vdf.Chars.{first, ascii_equal}
use yafsml.Steam.Vdf.Reader.{Parser, TokenRead, read_token, comment_loop, eat_cpp_comment}
use yafsml.Steam.Vdf.Reader.Progress.{taken, read_token-le, comment_loop-stops}
use yafsml.Steam.Vdf.Conditional.Total.{evaluate_conditional_total}
use yafsml.Steam.Vdf.Tree.{Object, new_object}
use yafsml.Steam.Vdf.Block.{is_mark, text_of, load_block, fail_parser}
use yafsml.Steam.Vdf.Load.{
  Loader, Opened, open_entry, load_entry, Round, stop_with, go_with, entry_round, again_or_stop,
  entry_loop, vdf_parse_buffer, name_current, fill_current, conclude_entry, include_name,
  skip_include, at_root, start_of, result_of, fuel_for,
}
use yafsml.Steam.Vdf.Load.Ends.{
  Ends, Ends-bind, Ends-if, block_left, left, load-Ends, read_token-left,
}

abbrev loader_left : Loader → ℕ
loader_left l = left l.parser

abbrev opened_left : Opened → ℕ
opened_left o = left o.token.parser

open_entry-Ends : (t : TokenRead) → Ends opened_left (left t.parser) (open_entry t)
open_entry-Ends t =
    Ends-if opened_left (left t.parser) t.conditional _ _
      (λ c. let (b, e) = evaluate_conditional_total (text_of t) in rw e (read_token-left t.parser))
      (λ c. omega arith)

conclude_entry-left : (b : Bool) (l : Loader) → loader_left (conclude_entry b l) ≡ loader_left l
conclude_entry-left true l = refl
conclude_entry-left false l = ground arith

load_entry-Ends :
    (fuel : ℕ) (l : Loader) (o : Opened)
    → 3 * opened_left o + 2 ≤ fuel
    → Ends loader_left (opened_left o) (load_entry fuel l o)
load_entry-Ends fuel l o h =
    Ends-if loader_left (opened_left o) (is_mark b'{' o.token) _ _
      (λ mark.
        Ends-bind block_left loader_left (opened_left o) (opened_left o)
          (load_block fuel 1 o.token.parser) _ (load-Ends fuel 1 o.token.parser h)
          (λ b le.
            omega (
              arith,
              conclude_entry-left o.accepted (record (fill_current l b.0) { parser = b.1 }),
            )))
      (λ other.
        omega (
          arith,
          conclude_entry-left o.accepted (record l { parser = fail_parser o.token.parser }),
        ))

-- A round that goes on has taken a byte.
abbrev round_left : Round → ℕ
round_left (stop_with l) = 0
round_left (go_with l) = loader_left l + 1

key_taken :
    (t : TokenRead) (s : Bytes)
    → t.text ≡ some s
    → (t.parser.overflow || (first (text_of t) == 0 && not t.quoted)) ≡ false
    → taken t ≡ 1
key_taken t s e h = ground arith

skip_include-left : (l : Loader) (t : TokenRead) → loader_left (skip_include l t) ≡ left t.parser
skip_include-left l t = ground arith

entry_round-Ends :
    (fuel : ℕ) (l : Loader)
    → 3 * loader_left l ≤ fuel
    → Ends round_left (loader_left l) (entry_round fuel l)
unfolding entry_round
entry_round-Ends fuel l h =
    let t = read_token l.parser in
    let l' : Loader = record l { parser = t.parser } in
    let next = read_token t.parser in
    let shrinks = read_token-left t.parser in
    elim (Option-cases t.text) [
      | inl e ↦ rw (e, entry_round) (omega arith)
      | inr (s, e) ↦
          rw (e, entry_round)
            (Ends-if round_left (loader_left l)
              (t.parser.overflow || (first (text_of t) == 0 && not t.quoted)) _ _ (λ b. omega arith)
              (λ good.
                let took = key_taken t s e good in
                let le = read_token-le l.parser in
                Ends-if round_left (loader_left l) (ascii_equal (text_of t) include_name) _ _
                  (λ inc. omega (arith, skip_include-left l' next))
                  (λ key.
                    Ends-bind opened_left round_left (left next.parser) (loader_left l)
                      (open_entry next) _ (open_entry-Ends next)
                      (λ o lo.
                        Ends-bind loader_left round_left (opened_left o) (loader_left l)
                          (load_entry fuel (name_current l' (text_of t)) o) _
                          (load_entry-Ends fuel (name_current l' (text_of t)) o (omega arith))
                          (λ l'' ll. omega arith)))))
    ]

entry_loop_ends :
    (fuel : ℕ) (l : Loader) → 3 * loader_left l < fuel → (r : Loader) × (entry_loop fuel l ≡ done r)
unfolding entry_loop
entry_loop_ends zero l h = absurd (omega arith)
entry_loop_ends (suc fuel) l h =
    after (entry_round fuel l) (entry_round-Ends fuel l (omega arith))
      (λ l' le. entry_loop_ends fuel l' (omega arith))
  where
    after :
        (m : Run Round)
        → Ends round_left (loader_left l) m
        → ((l' : Loader)
            → loader_left l' + 1 ≤ loader_left l
            → (r : Loader) × (entry_loop fuel l' ≡ done r))
        → (r : Loader) × ((m >>= again_or_stop (entry_loop fuel)) ≡ done r)
    after (done (stop_with l')) e again = (l', refl)
    after (done (go_with l')) e again = elim (Bool-cases (l'.parser.overflow || l'.parser.error)) [
      | inl finished ↦ (l', rw finished)
      | inr more ↦ rw more (again l' e)
    ]
    after Run.fault e again = absurd e
    after Run.stuck e again = absurd e

start_of-le : (buffer : Bytes) → length (start_of buffer) ≤ length buffer
start_of-le (a ∷ b ∷ c ∷ cs) = ground arith
start_of-le (a ∷ b ∷ []) = omega arith
start_of-le (a ∷ []) = omega arith
start_of-le [] = omega arith

vdf_parse_buffer_ends :
    (buffer : Option Bytes) → (r : Option Object) × (vdf_parse_buffer buffer ≡ done r)
unfolding vdf_parse_buffer
vdf_parse_buffer_ends none = (none, refl)
vdf_parse_buffer_ends (some buffer) = elim (Bool-cases (ltb (2 ^ 31 - 1) (length buffer))) [
  | inl long ↦ (none, rw long)
  | inr fits ↦
      let (l, e) =
        entry_loop_ends (fuel_for buffer)
          (record {
            root = new_object none;
            current = at_root;
            parser = record { rest = start_of buffer; overflow = false; error = false };
          })
          (omega (arith, start_of-le buffer)) in
      (result_of l, rw (fits, e))
]

-- Reading any buffer, or none, ends: the fuel of the model, three calls for each byte and four
-- more, never runs out, and the answer is a tree or NULL. The loop over the comments before a
-- token has ended as well, with a round for each byte: where it stops, no other comment is eaten.
pub vdf_parse_buffer_total :
    (buffer : Option Bytes)
    → ((r : Option Object) × (vdf_parse_buffer buffer ≡ done r))
      × ((p : Parser) → eat_cpp_comment (comment_loop (length p.rest) p) ≡ none)
vdf_parse_buffer_total buffer =
    (vdf_parse_buffer_ends buffer, λ p. comment_loop-stops (length p.rest) p (omega arith))
