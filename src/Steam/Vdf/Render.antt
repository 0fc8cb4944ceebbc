-- ===== src/Steam/Vdf/Render.antt =====
-- VDF files as Steam writes them, to be read back by the model of src/steam/vdf.c: quoted keys and values,
-- one block in each `{ }`, and the same white space before every token.
pub mod Token
pub mod Block
pub mod File
use yafsml.Prelude.{
  ℕ, ◌+◌, ◌<◌, ◌≤◌, ◌≡◌, Bool, true, false, Option, none, some, List, [], ◌∷◌, ◌++◌, Bytes, ◌==◌,
  if◌then◌else◌, All, length,
}
use yafsml.Steam.Vdf.Chars.{is_space, first}
use yafsml.Steam.Vdf.Reader.{token_size}
use yafsml.Steam.Vdf.Conditional.{max_depth}
use yafsml.Steam.Vdf.Tree.{Object, Objects, Content, object, nil, cons, untyped, array, text}
use yafsml.Steam.Vdf.Tree.Number.{stored_value}

-- A string of a file: no NUL, and shorter than the token buffer.
abbrev pub IsText : Bytes → Type 0
IsText s = All (λ c. 0 < c) s × (length s < token_size)

abbrev pub IsGap : Bytes → Type 0
IsGap gap = All (λ c. is_space c ≡ true) gap

-- One character between quotes, in front of the rest.
abbrev pub escape_char : ℕ → Bytes → Bytes
escape_char c rest =
    if c == 0x22
    then 0x5c ∷ 0x22 ∷ rest
    else if c == 0x5c
    then 0x5c ∷ 0x5c ∷ rest
    else if c == 0x0a
    then 0x5c ∷ b'n' ∷ rest
    else if c == 0x09
    then 0x5c ∷ b't' ∷ rest
    else c ∷ rest

unfoldable pub escape : Bytes → Bytes → Bytes
escape [] rest = rest
escape (c ∷ cs) rest = escape_char c (escape cs rest)

abbrev pub quote : Bytes → Bytes → Bytes
quote s rest = 0x22 ∷ escape s (0x22 ∷ rest)

-- The children of a block, and what stands behind them.
unfoldable mutual
  pub render_object : Bytes → Object → Bytes → Bytes
  render_object gap (object none c) rest = rest
  render_object gap (object (some k) c) rest = gap ++ quote k (render_content gap c rest)

  pub render_content : Bytes → Content → Bytes → Bytes
  render_content gap untyped rest = rest
  render_content gap (text v) rest = gap ++ quote v rest
  render_content gap (array xs) rest = gap ++ (b'{' ∷ render_objects gap xs (gap ++ (b'}' ∷ rest)))

  pub render_objects : Bytes → Objects → Bytes → Bytes
  render_objects gap nil rest = rest
  render_objects gap (cons x xs) rest = render_object gap x (render_objects gap xs rest)

-- The tree can be written inside a block at a depth: keys have a character, values are stored as
-- GetString gives them, and no block is too deep.
abbrev pub IsKey : Bytes → Type 0
IsKey k = IsText k × ((first k == 0) ≡ false)

unfoldable mutual
  pub IsWritable : ℕ → Object → Type 0
  IsWritable depth (object none c) = ⊥
  IsWritable depth (object (some k) c) = IsKey k × IsWritableContent depth c

  pub IsWritableContent : ℕ → Content → Type 0
  IsWritableContent depth untyped = ⊥
  IsWritableContent depth (text v) = IsText v × (stored_value v ≡ v)
  IsWritableContent depth (array xs) = (depth + 1 ≤ max_depth) × AreWritable (depth + 1) xs

  pub AreWritable : ℕ → Objects → Type 0
  AreWritable depth nil = Unit
  AreWritable depth (cons x xs) = IsWritable depth x × AreWritable depth xs

-- A whole file: one entry, and white space at the end.
abbrev pub render_file : Bytes → Bytes → Objects → Bytes
render_file gap key xs =
    gap ++ quote key (gap ++ (b'{' ∷ render_objects gap xs (gap ++ (b'}' ∷ gap))))
