-- ===== src/Steam/Vdf/Load/Ends.antt =====
-- The values and blocks of a file return with fuel for three calls a byte, and take at least what they read.
use yafsml.Prelude.{
  ℕ, zero, suc, ◌+◌, ◌*◌, ◌≤◌, ◌≡◌, refl, inl, inr, Bool, true, false, ◌||◌, Option, none, some,
  Bytes, ltb, ◌==◌, if◌then◌else◌, length, arith, Bool-cases, Option-cases, Run, done, ◌>>=◌,
}
use yafsml.Steam.Vdf.Chars.{first}
use yafsml.Steam.Vdf.Reader.{Parser, TokenRead, read_token}
use yafsml.Steam.Vdf.Reader.Progress.{taken, read_token-le}
use yafsml.Steam.Vdf.Conditional.{max_depth}
use yafsml.Steam.Vdf.Conditional.Total.{evaluate_conditional_total}
use yafsml.Steam.Vdf.Tree.{Object, Objects, object, nil, array, new_object, set_value}
use yafsml.Steam.Vdf.Block.{
  Value, decide, after_equals, read_value, is_mark, is_bad_value, Entry, text_of, look_ahead, keep,
  Block, block_loop, load_child, add_child, load_block,
}

-- What is left for a parser to read.
abbrev pub left : Parser → ℕ
left p = length p.rest

pub read_token-left : (p : Parser) → left (read_token p).parser ≤ left p
read_token-left p = omega (arith, read_token-le p)

-- It returns a value of which `measure` is at most `n`.
abbrev pub Ends {ℓ} : {A : Type ℓ} → (A → ℕ) → ℕ → Run A → Type 0
Ends measure n (done a) = measure a ≤ n
Ends measure n _ = ⊥

pub Ends-bind {ℓ κ} :
    {A : Type ℓ} {B : Type κ} (f : A → ℕ) (g : B → ℕ) (n k : ℕ) (m : Run A) (h : A → Run B)
    → Ends f n m
    → ((a : A) → f a ≤ n → Ends g k (h a))
    → Ends g k (m >>= h)
Ends-bind f g n k (done a) h e next = next a e
Ends-bind f g n k Run.fault h e next = absurd e
Ends-bind f g n k Run.stuck h e next = absurd e

Ends-le {ℓ} : {A : Type ℓ} (f : A → ℕ) (n k : ℕ) (m : Run A) → n ≤ k → Ends f n m → Ends f k m
Ends-le f n k (done a) h e = omega arith
Ends-le f n k Run.fault h e = e
Ends-le f n k Run.stuck h e = e

pub Ends-if {ℓ} :
    {A : Type ℓ} (f : A → ℕ) (n : ℕ) (b : Bool) (x y : Run A)
    → (b ≡ true → Ends f n x)
    → (b ≡ false → Ends f n y)
    → Ends f n (if b then x else y)
Ends-if f n true x y hx hy = hx refl
Ends-if f n false x y hx hy = hy refl

abbrev value_left : Value → ℕ
value_left v = left v.token.parser

abbrev entry_left : Entry → ℕ
entry_left e = left e.parser

decide-Ends :
    (b : Bool) (o : Option Bytes) (v : Value) → Ends value_left (value_left v) (decide b o v)
decide-Ends true (some s) v =
    let (b, e) = evaluate_conditional_total s in rw e (read_token-left v.token.parser)
decide-Ends true none v = omega arith
decide-Ends false none v = omega arith
decide-Ends false (some s) v = omega arith

after_equals-Ends : (key : Bytes) (v : Value) → Ends value_left (value_left v) (after_equals key v)
after_equals-Ends key v =
    let t = read_token v.token.parser in
    let v' : Value = record v { token = t } in
    let shrinks = read_token-left v.token.parser in
    Ends-if value_left (value_left v) t.conditional _ _
      (λ c.
        Ends-bind value_left value_left (value_left v') (value_left v) (decide true t.text v') _
          (decide-Ends true t.text v') (λ w le. omega (arith, shrinks)))
      (λ c. shrinks)

read_value-Ends :
    (key : Bytes) (children : Objects) (p : Parser)
    → Ends value_left (left p) (read_value key children p)
unfolding read_value
read_value-Ends key children p =
    let t = read_token p in
    let v : Value = record { token = t; accepted = true; children = children } in
    Ends-bind value_left value_left (left p) (left p) (decide t.conditional t.text v) _
      (Ends-le value_left (value_left v) (left p) _ (read_token-left p)
        (decide-Ends t.conditional t.text v))
      (λ w le.
        Ends-if value_left (left p) (is_mark b'=' w.token) _ _
          (λ e. Ends-le value_left (value_left w) (left p) _ le (after_equals-Ends key w))
          (λ e. le))

look_ahead-Ends : (key : Bytes) (v : Value) → Ends entry_left (value_left v) (look_ahead key v)
unfolding look_ahead
look_ahead-Ends key v =
    let peek = read_token v.token.parser in
    Ends-if entry_left (value_left v) peek.conditional _ _
      (λ c.
        let (b, e) = evaluate_conditional_total (text_of peek) in
        rw e (read_token-left v.token.parser))
      (λ c. omega arith)

abbrev pub block_left : Block → ℕ
block_left b = left b.1

or-false-right : (a b : Bool) → (a || b) ≡ false → b ≡ false
or-false-right a b h = ground arith

-- A name with a character was taken.
name_taken : (t : TokenRead) (s : Bytes) → t.text ≡ some s → (first s == 0) ≡ false → taken t ≡ 1
name_taken t s e h = ground arith

mutual
  unfolding block_loop load_child add_child load_block

  block-Ends :
      (fuel depth : ℕ) (children : Objects) (p : Parser)
      → 3 * left p + 1 ≤ fuel
      → Ends block_left (left p) (block_loop fuel depth children p)
  block-Ends zero depth children p h = absurd (omega arith)
  block-Ends (suc fuel) depth children p h =
      let name = read_token p in
      let shrinks = read_token-left p in
      elim (Option-cases name.text) [
        | inl e ↦ rw (e, block_loop) shrinks
        | inr (s, e) ↦
            rw (e, block_loop)
              (Ends-if block_left (left p) (name.parser.error || first s == 0) _ _ (λ b. shrinks)
                (λ good.
                  Ends-if block_left (left p) (is_mark b'}' name) (done (children, name.parser)) _
                    (λ close. shrinks)
                    (λ key. Ends-le block_left (left name.parser) (left p) _ shrinks (
                      child-Ends fuel depth (text_of name) children name.parser (
                        omega (
                          arith,
                          read_token-le p,
                          name_taken name s e
                              (or-false-right name.parser.error (first s == 0) good),
                        ))))))
      ]

  child-Ends :
      (fuel depth : ℕ) (key : Bytes) (children : Objects) (p : Parser)
      → 3 * left p + 3 ≤ fuel
      → Ends block_left (left p) (load_child fuel depth key children p)
  child-Ends zero depth key children p h = absurd (omega arith)
  child-Ends (suc fuel) depth key children p h =
      Ends-bind value_left block_left (left p) (left p) (read_value key children p) _
        (read_value-Ends key children p)
        (λ v le.
          Ends-if block_left (left p) (is_bad_value v.token) _ _ (λ b. le)
            (λ good.
              Ends-if block_left (left p) (is_mark b'{' v.token) _ _
                (λ open_mark.
                  Ends-bind block_left block_left (value_left v) (left p)
                    (load_block fuel (depth + 1) v.token.parser) _
                    (load-Ends fuel (depth + 1) v.token.parser (omega arith))
                    (λ b lb. Ends-le block_left (block_left b) (left p) _ (omega arith) (
                      add-Ends fuel depth
                        (record { parser = b.1; accepted = v.accepted; children = v.children })
                        (object (some key) (array b.0)) (omega arith))))
                (λ value.
                  Ends-bind entry_left block_left (value_left v) (left p) (look_ahead key v) _
                    (look_ahead-Ends key v)
                    (λ e le'. Ends-le block_left (entry_left e) (left p) _ (omega arith) (
                      add-Ends fuel depth e (set_value (new_object (some key)) (text_of v.token))
                        (omega arith))))))

  add-Ends :
      (fuel depth : ℕ) (e : Entry) (child : Object)
      → 3 * entry_left e + 2 ≤ fuel
      → Ends block_left (entry_left e) (add_child fuel depth e child)
  add-Ends zero depth e child h = absurd (omega arith)
  add-Ends (suc fuel) depth e child h = block-Ends fuel depth (keep e child) e.parser (omega arith)

  pub load-Ends :
      (fuel depth : ℕ) (p : Parser)
      → 3 * left p + 2 ≤ fuel
      → Ends block_left (left p) (load_block fuel depth p)
  load-Ends zero depth p h = absurd (omega arith)
  load-Ends (suc fuel) depth p h = elim (Bool-cases (ltb max_depth depth)) [
    | inl deep ↦ rw deep (omega arith)
    | inr shallow ↦ rw shallow (block-Ends fuel depth nil p (omega arith))
  ]
