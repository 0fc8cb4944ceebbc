-- ===== src/Steam/Vdf/Conditional/Total.antt =====
-- The evaluator of conditions returns: its fuel, three calls for a character, is never spent, and the
-- stack has room for it.
use yafsml.Prelude.{
  ℕ, zero, suc, ◌+◌, ◌*◌, ◌≤◌, ◌<◌, ◌≡◌, refl, inl, inr, Bool, true, false, not, [], ◌∷◌, Bytes,
  ltb, ◌==◌, if◌then◌else◌, length, Run, done, arith, Bool-cases, ◌>>=◌, ◌||◌,
}
use yafsml.Steam.Vdf.Chars.{first}
use yafsml.Steam.Vdf.Conditional.{
  Expression, Parse, tail, skip_blanks, next_token, copy_while, finish_factor, make_operand,
  make_factor, make_term, term_loop, make_expression, expression_loop, evaluate_conditional,
  close_paren, combine, doubles, max_depth, symbol_char, is_digit, value_of,
}

-- What is left to read: the characters behind the current one, and it unless it is a NUL.
abbrev left : Expression → ℕ
left e = length e.rest + (if e.current == 0 then 0 else 1)

length-tail : (r : Bytes) → length (tail r) ≤ length r
length-tail [] = omega arith
length-tail (c ∷ cs) = omega arith

length-skip_blanks : (r : Bytes) → length (skip_blanks r) ≤ length r
unfolding skip_blanks
length-skip_blanks [] = omega arith
length-skip_blanks (c ∷ cs) = ground (arith, length-skip_blanks cs)

first_left : (r : Bytes) → length (tail r) + (if first r == 0 then 0 else 1) ≤ length r
first_left [] = omega arith
first_left (c ∷ cs) = ground arith

left-next_token : (e : Expression) → left (next_token e) ≤ length e.rest
unfolding next_token
left-next_token e = omega (arith, first_left (skip_blanks e.rest), length-skip_blanks e.rest)

length-copy_while : (p : ℕ → Bool) (len : ℕ) (r : Bytes) → length (copy_while p len r).1 ≤ length r
unfolding copy_while
length-copy_while p len [] = omega arith
length-copy_while p len (c ∷ cs) = ground (arith, length-copy_while p (len + 1) cs)

-- At most as much is left to read as before, and the depth is as before.
Follows : Expression → Expression → Type 0
Follows e e' = (left e' ≤ left e) × (e'.depth ≡ e.depth)

finish_factor-Follows :
    (e : Expression) (copied rest : Bytes)
    → length rest ≤ length e.rest
    → Follows e (finish_factor e (copied, rest)).1
unfolding finish_factor Follows next_token
finish_factor-Follows e copied rest h =
    (ground (arith, left-next_token (record e { rest = rest })), ground arith)

make_operand-Follows : (e : Expression) → Follows e (make_operand e).1
unfolding make_operand Follows next_token
make_operand-Follows e =
    let (symbol_left, symbol_depth) =
      finish_factor-Follows e (copy_while symbol_char 1 e.rest).0
        (copy_while symbol_char 1 e.rest).1 (length-copy_while symbol_char 1 e.rest) in
    let (digit_left, digit_depth) =
      finish_factor-Follows e (copy_while is_digit 1 e.rest).0 (copy_while is_digit 1 e.rest).1
        (length-copy_while is_digit 1 e.rest) in
    (ground (arith, left-next_token e), ground arith)

-- It returns, with at most `n` left to read and at the depth `d`.
abbrev Ends : ℕ → ℕ → Parse → Type 0
Ends n d (done r) = (left r.1 ≤ n) × (r.1.depth ≡ d)
Ends n d _ = ⊥

Ends-bind :
    (n k d d' : ℕ) (m : Parse) (f : Bool × Expression → Parse)
    → Ends n d m
    → ((r : Bool × Expression) → left r.1 ≤ n → r.1.depth ≡ d → Ends k d' (f r))
    → Ends k d' (m >>= f)
Ends-bind n k d d' (done r) f (le, same) g = g r le same
Ends-bind n k d d' Run.fault f h g = absurd h
Ends-bind n k d d' Run.stuck f h g = absurd h

Ends-le : (n k d d' : ℕ) (m : Parse) → n ≤ k → d ≡ d' → Ends n d m → Ends k d' m
Ends-le n k d d' (done r) h same (le, e) = (omega arith, omega arith)
Ends-le n k d d' Run.fault h same e = e
Ends-le n k d d' Run.stuck h same e = e

-- A character that is no NUL is taken.
taken : (e : Expression) (c : ℕ) → (e.current == c) ≡ true → 0 < c → length e.rest < left e
taken e c h pos = ground arith

operator_taken :
    (e : Expression) → (e.current == b'|' || e.current == b'&') ≡ true → length e.rest < left e
operator_taken e h = ground arith

mutual
  unfolding make_factor make_term term_loop make_expression expression_loop next_token Follows

  factor-Ends :
      (fuel : ℕ) (e : Expression)
      → 3 * left e + 1 ≤ fuel
      → e.depth ≤ max_depth
      → Ends (left e) e.depth (make_factor fuel e)
  factor-Ends zero e h room = absurd (omega arith)
  factor-Ends (suc fuel) e h room = elim (Bool-cases (e.current == b'(')) [
    | inr other ↦ rw other (make_operand-Follows e)
    | inl paren ↦
        let inside = next_token e in
        let less = taken e b'(' paren (omega arith) in
        let shrinks = left-next_token e in
        elim (Bool-cases (ltb e.depth max_depth)) [
          | inr deep ↦ rw (paren, deep) (omega (arith, left-next_token inside, shrinks), refl)
          | inl shallow ↦
              rw (paren, shallow)
                (Ends-bind (left inside) (left e) (e.depth + 1) e.depth _ (close_paren e.depth)
                  (expression-Ends fuel (record inside { depth = e.depth + 1 }) (omega arith)
                    (ground (arith, shallow)))
                  (λ r le same.
                    (omega (arith, left-next_token (record r.1 { depth = e.depth })), refl)))
        ]
  ]

  term-Ends :
      (fuel : ℕ) (e : Expression)
      → 3 * left e + 2 ≤ fuel
      → e.depth ≤ max_depth
      → Ends (left e) e.depth (make_term fuel e)
  term-Ends zero e h room = absurd (omega arith)
  term-Ends (suc fuel) e h room =
      Ends-bind (left e) (left e) e.depth e.depth (make_factor fuel e) _
        (factor-Ends fuel e (omega arith) room)
        (λ r le same.
          Ends-le (left r.1) (left e) r.1.depth e.depth _ le same
            (term_loop-Ends fuel r.0 r.1 (omega arith) (omega arith)))

  term_loop-Ends :
      (fuel : ℕ) (v : Bool) (e : Expression)
      → 3 * left e + 1 ≤ fuel
      → e.depth ≤ max_depth
      → Ends (left e) e.depth (term_loop fuel v e)
  term_loop-Ends zero v e h room = absurd (omega arith)
  term_loop-Ends (suc fuel) v e h room = elim (Bool-cases (e.current == b'!')) [
    | inr other ↦ rw other (omega arith, refl)
    | inl bang ↦
        let less = taken e b'!' bang (omega arith) in
        let shrinks = left-next_token e in
        rw bang (
          Ends-bind (left (next_token e)) (left e) e.depth e.depth (make_factor fuel (next_token e))
            _ (factor-Ends fuel (next_token e) (omega arith) room)
            (λ r le same.
              Ends-le (left r.1) (left e) r.1.depth e.depth _ (omega arith) same
                (term_loop-Ends fuel (not r.0) r.1 (omega arith) (omega arith))))
  ]

  expression-Ends :
      (fuel : ℕ) (e : Expression)
      → 3 * left e + 3 ≤ fuel
      → e.depth ≤ max_depth
      → Ends (left e) e.depth (make_expression fuel e)
  expression-Ends zero e h room = absurd (omega arith)
  expression-Ends (suc fuel) e h room =
      let fits : ltb max_depth e.depth ≡ false = ground (arith, room) in
      rw fits (
        Ends-bind (left e) (left e) e.depth e.depth (make_term fuel e) _
          (term-Ends fuel e (omega arith) room)
          (λ r le same.
            Ends-le (left r.1) (left e) r.1.depth e.depth _ le same
              (expression_loop-Ends fuel r.0 r.1 (omega arith) (omega arith))))

  expression_loop-Ends :
      (fuel : ℕ) (v : Bool) (e : Expression)
      → 3 * left e + 1 ≤ fuel
      → e.depth ≤ max_depth
      → Ends (left e) e.depth (expression_loop fuel v e)
  expression_loop-Ends zero v e h room = absurd (omega arith)
  expression_loop-Ends (suc fuel) v e h room =
      elim (Bool-cases (e.current == b'|' || e.current == b'&')) [
        | inr other ↦ rw other (omega arith, refl)
        | inl operator ↦
            let e' : Expression = record e { rest = tail e.rest } in
            let less = operator_taken e operator in
            let shorter = length-tail e.rest in
            let shrinks = left-next_token e' in
            elim (Bool-cases (doubles (first e.rest) e.current)) [
              | inr single ↦ rw (operator, single) (omega arith, refl)
              | inl double ↦
                  rw (operator, double)
                    (Ends-bind (left (next_token e')) (left e) e.depth e.depth
                      (make_term fuel (next_token e')) _
                      (term-Ends fuel (next_token e') (omega arith) room)
                      (λ r le same.
                        Ends-le (left r.1) (left e) r.1.depth e.depth _ (omega arith) same (
                          expression_loop-Ends fuel (combine e.current v r.0) r.1 (omega arith)
                            (omega arith))))
            ]
      ]

value_of-Ends : (n d : ℕ) (m : Parse) → Ends n d m → (b : Bool) × (value_of m ≡ done b)
value_of-Ends n d (done r) h = (r.0, refl)
value_of-Ends n d Run.fault h = absurd h
value_of-Ends n d Run.stuck h = absurd h

-- The evaluation of any condition ends with an answer: the fuel of the model, three calls for
-- each character and three more, never runs out, and no nested expression is deeper than
-- VDF_MAX_DEPTH, which would be a fault.
pub evaluate_conditional_total :
    (token : Bytes) → (b : Bool) × (evaluate_conditional token ≡ done b)
unfolding evaluate_conditional
evaluate_conditional_total [] = (false, refl)
evaluate_conditional_total (c ∷ text) =
    let e : Expression = record { rest = text; current = 0; depth = 0 } in
    value_of-Ends (left (next_token e)) 0 _ (
      expression-Ends (3 * length text + 3) (next_token e) (omega (arith, left-next_token e))
        (unfold next_token in omega arith))
