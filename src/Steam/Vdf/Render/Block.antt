-- ===== src/Steam/Vdf/Render/Block.antt =====
-- `load_block` on rendered children.
use yafsml.Prelude.{
  ℕ, zero, suc, ◌+◌, ◌*◌, ◌≤◌, ◌≡◌, refl, ap, sym, ◌∙◌, Bool, true, false, ◌&&◌, none, some, [],
  ◌∷◌, ◌++◌, Bytes, ltb, ◌==◌, length, arith, done, length-append, subst,
}
use yafsml.Steam.Vdf.Chars.{first}
use yafsml.Steam.Vdf.Reader.{TokenRead, token_at}
use yafsml.Steam.Vdf.Conditional.{max_depth}
use yafsml.Steam.Vdf.Tree.{
  Object, Objects, Content, object, nil, cons, untyped, array, text, append_child, set_value,
}
use yafsml.Steam.Vdf.Tree.Number.{stored_value}
use yafsml.Steam.Vdf.Block.{read_value, look_ahead, block_loop, load_child}
use yafsml.Steam.Vdf.Render.{
  IsText, IsGap, IsKey, AreWritable, quote, escape, render_object, render_content, render_objects,
}
use yafsml.Steam.Vdf.Render.Token.{at, starts, read_token-gap, read_token_mark, read_token-quote}

-- The children `xs` behind the children `acc`.
unfoldable pub concat : Objects → Objects → Objects
concat nil ys = ys
concat (cons x xs) ys = cons x (concat xs ys)

concat-nil : (xs : Objects) → concat xs nil ≡ xs
unfolding concat
concat-nil nil = refl
concat-nil (cons x xs) = ap (cons x) (concat-nil xs)

concat-append_child :
    (acc : Objects) (x : Object) (xs : Objects)
    → concat (append_child acc x) xs ≡ concat acc (cons x xs)
unfolding concat append_child
concat-append_child nil x xs = refl
concat-append_child (cons y acc) x xs = ap (cons y) (concat-append_child acc x xs)

abbrev quoted_token : Bytes → Bytes → TokenRead
quoted_token s rest = record { text = some s; quoted = true; conditional = false; parser = at rest }

abbrev mark_token : ℕ → Bytes → TokenRead
mark_token c rest = record {
  text = some (c ∷ []);
  quoted = false;
  conditional = false;
  parser = at rest;
}

and-false : (b : Bool) → (b && false) ≡ false
and-false true = refl
and-false false = refl

-- Neither of these begins a condition.
peek_plain :
    (c : ℕ) (cs : Bytes)
    → starts c ≡ true
    → ((token_at (at (c ∷ cs)) (c ∷ cs)).conditional ≡ false)
      × ((token_at (at (c ∷ cs)) (c ∷ cs)).parser.error ≡ false)
unfolding token_at
peek_plain c cs h = ground arith

module _ (gap : Bytes) (g : IsGap gap) where
  -- A name leads on to its value.
  name_step :
      (fuel depth : ℕ) (acc : Objects) (k s : Bytes)
      → IsKey k
      → block_loop (suc fuel) depth acc (at (gap ++ quote k s)) ≡ load_child fuel depth k acc (at s)
  unfolding block_loop
  name_step fuel depth acc k s (valid, ne) =
      let e = read_token-quote gap k s g valid in
      rw (e, block_loop) (rw e (rw ne (rw (and-false (first k == b'}')))))

  close_step :
      (fuel depth : ℕ) (acc : Objects) (rest : Bytes)
      → block_loop (suc fuel) depth acc (at (gap ++ (b'}' ∷ rest))) ≡ done (acc, at rest)
  unfolding block_loop
  close_step fuel depth acc rest =
      let e = read_token_mark gap b'}' rest g refl in rw (e, block_loop) (rw e)

  -- A value of its own token.
  read_value-quote :
      (key : Bytes) (acc : Objects) (v rest : Bytes)
      → IsText v
      → read_value key acc (at (gap ++ quote v rest))
        ≡ done (record { token = quoted_token v rest; accepted = true; children = acc })
  unfolding read_value
  read_value-quote key acc v rest valid =
      let e = read_token-quote gap v rest g valid in rw e (ground arith)

  read_value_open :
      (key : Bytes) (acc : Objects) (rest : Bytes)
      → read_value key acc (at (gap ++ (b'{' ∷ rest)))
        ≡ done (record { token = mark_token b'{' rest; accepted = true; children = acc })
  unfolding read_value
  read_value_open key acc rest = let e = read_token_mark gap b'{' rest g refl in rw e

  -- The token behind a value is read and put back.
  look_ahead_plain :
      (key v : Bytes) (acc : Objects) (c : ℕ) (cs : Bytes)
      → starts c ≡ true
      → look_ahead key
          (record { token = quoted_token v (gap ++ (c ∷ cs)); accepted = true; children = acc })
        ≡ done (record { parser = at (gap ++ (c ∷ cs)); accepted = true; children = acc })
  unfolding look_ahead
  look_ahead_plain key v acc c cs h =
      let e = read_token-gap gap c cs g h in
      let (plain, fine) = peek_plain c cs h in rw e (rw (plain, fine))

  value_step :
      (fuel depth : ℕ) (acc : Objects) (k v : Bytes) (c : ℕ) (cs : Bytes)
      → IsText v
      → stored_value v ≡ v
      → starts c ≡ true
      → load_child (suc (suc fuel)) depth k acc (at (gap ++ quote v (gap ++ (c ∷ cs))))
        ≡ block_loop fuel depth (append_child acc (object (some k) (text v))) (at (gap ++ (c ∷ cs)))
  unfolding load_child set_value
  value_step fuel depth acc k v c cs valid same h =
      rw (read_value-quote k acc v (gap ++ (c ∷ cs)) valid) (
        rw (look_ahead_plain k v acc c cs h)
          (rw (same, and-false (first v == b'}'), and-false (first v == b'{'))))

  block_step :
      (fuel depth : ℕ) (acc : Objects) (k s : Bytes) (ys : Objects) (rest : Bytes)
      → block_loop fuel (depth + 1) nil (at s) ≡ done (ys, at rest)
      → depth + 1 ≤ max_depth
      → load_child (suc (suc fuel)) depth k acc (at (gap ++ (b'{' ∷ s)))
        ≡ block_loop fuel depth (append_child acc (object (some k) (array ys))) (at rest)
  unfolding load_child
  block_step fuel depth acc k s ys rest inner shallow =
      let test : ltb max_depth (depth + 1) ≡ false = ground arith in
      rw (read_value_open k acc s) (rw test (rw inner))

  -- Rendered children begin with a token, or are none.
  opens :
      (depth : ℕ) (xs : Objects) (rest : Bytes)
      → AreWritable depth xs
      → (c : ℕ) × (cs : Bytes) × (render_objects gap xs (gap ++ (b'}' ∷ rest)) ≡ gap ++ (c ∷ cs))
        × (starts c ≡ true)
  unfolding render_objects AreWritable
  opens depth nil rest w = (b'}', rest, refl, refl)
  opens depth (cons (object none x) xs) rest w = absurd w.0
  opens depth (cons (object (some k) x) xs) rest w = (0x22, _, refl, refl)

  length-escape : (s rest : Bytes) → length rest ≤ length (escape s rest)
  unfolding escape
  length-escape [] rest = omega arith
  length-escape (c ∷ cs) rest = ground (arith, length-escape cs rest)

  pub length-gap : (r : Bytes) → length r ≤ length (gap ++ r)
  length-gap r = omega (arith, length-append gap r)

  pub length-quote : (s rest : Bytes) → length rest + 1 ≤ length (gap ++ quote s rest)
  length-quote s rest = omega (arith, length-gap (quote s rest), length-escape s (0x22 ∷ rest))

  mutual
    unfolding render_objects

    length-render_object :
        (x : Object) (rest : Bytes) → length rest ≤ length (render_object gap x rest)
    length-render_object (object none c) rest = omega arith
    length-render_object (object (some k) c) rest =
        omega (arith, length-quote k (render_content gap c rest), length-render_content c rest)

    length-render_content :
        (c : Content) (rest : Bytes) → length rest ≤ length (render_content gap c rest)
    length-render_content untyped rest = omega arith
    length-render_content (text v) rest = omega (arith, length-quote v rest)
    length-render_content (array xs) rest = omega (
      arith,
      length-gap (b'{' ∷ render_objects gap xs (gap ++ (b'}' ∷ rest))),
      length-render_objects xs (gap ++ (b'}' ∷ rest)),
      length-gap (b'}' ∷ rest),
    )

    length-render_objects :
        (xs : Objects) (rest : Bytes) → length rest ≤ length (render_objects gap xs rest)
    length-render_objects nil rest = omega arith
    length-render_objects (cons x xs) rest =
        omega (
          arith,
          length-render_object x (render_objects gap xs rest),
          length-render_objects xs rest,
        )

  length-cons :
      (k : Bytes) (x : Content) (xs : Objects) (rest : Bytes)
      → 1 ≤ length (render_objects gap (cons (object (some k) x) xs) rest)
  unfolding render_objects
  length-cons k x xs rest =
      omega (arith, length-quote k (render_content gap x (render_objects gap xs rest)))

  -- Children read back in their order, up to the end of their block.
  pub block_loop-render :
      (fuel depth : ℕ) (acc xs : Objects) (rest : Bytes)
      → AreWritable depth xs
      → 3 * length (render_objects gap xs (gap ++ (b'}' ∷ rest))) + 1 ≤ fuel
      → block_loop fuel depth acc (at (render_objects gap xs (gap ++ (b'}' ∷ rest))))
        ≡ done (concat acc xs, at rest)
  unfolding render_objects AreWritable concat
  block_loop-render zero depth acc xs rest w f = absurd (omega arith)
  block_loop-render (suc fuel) depth acc nil rest w f =
      close_step fuel depth acc rest ∙ ap (λ c. done (c, at rest)) (sym (concat-nil acc))
  block_loop-render (suc fuel) depth acc (cons (object none x) xs) rest w f = absurd w.0
  block_loop-render (suc fuel) depth acc (cons (object (some k) untyped) xs) rest w f = absurd w.0.1
  block_loop-render (suc (suc (suc fuel))) depth acc (cons (object (some k) (text v)) xs) rest w f =
      let r = render_objects gap xs (gap ++ (b'}' ∷ rest)) in
      let (c, cs, e, begins) = opens depth xs rest w.1 in
      name_step (suc (suc fuel)) depth acc k (gap ++ quote v r) w.0.0
      ∙ subst
          (λ r.
            load_child (suc (suc fuel)) depth k acc (at (gap ++ quote v r))
            ≡ block_loop fuel depth (append_child acc (object (some k) (text v))) (at r))
          (sym e) (value_step fuel depth acc k v c cs w.0.1.0 w.0.1.1 begins)
      ∙ block_loop-render fuel depth (append_child acc (object (some k) (text v))) xs rest w.1
          (omega (arith, length-quote k (gap ++ quote v r), length-quote v r))
      ∙ ap (λ c. done (c, at rest)) (concat-append_child acc (object (some k) (text v)) xs)
  block_loop-render (suc (suc (suc fuel))) depth acc (cons (object (some k) (array ys)) xs) rest w
        f =
      let r = render_objects gap xs (gap ++ (b'}' ∷ rest)) in
      let s = render_objects gap ys (gap ++ (b'}' ∷ r)) in
      let room_name = length-quote k (gap ++ (b'{' ∷ s)) in
      let room_open = length-gap (b'{' ∷ s) in
      name_step (suc (suc fuel)) depth acc k (gap ++ (b'{' ∷ s)) w.0.0
      ∙ block_step fuel depth acc k s ys r
          (block_loop-render fuel (depth + 1) nil ys r w.0.1.1
            (omega (arith, room_name, room_open)))
          w.0.1.0
      ∙ block_loop-render fuel depth (append_child acc (object (some k) (array ys))) xs rest w.1 (
          omega (
            arith,
            room_name,
            room_open,
            length-render_objects ys (gap ++ (b'}' ∷ r)),
            length-gap (b'}' ∷ r),
          ))
      ∙ ap (λ c. done (c, at rest)) (concat-append_child acc (object (some k) (array ys)) xs)
  block_loop-render (suc zero) depth acc (cons (object (some k) x) xs) rest w f =
      absurd (omega (arith, f, length-cons k x xs (gap ++ (b'}' ∷ rest))))
  block_loop-render (suc (suc zero)) depth acc (cons (object (some k) x) xs) rest w f =
      absurd (omega (arith, f, length-cons k x xs (gap ++ (b'}' ∷ rest))))
