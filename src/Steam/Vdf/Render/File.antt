-- ===== src/Steam/Vdf/Render/File.antt =====
-- Whole files, read back by `vdf_parse_buffer`.
use yafsml.Prelude.{
  ℕ, zero, suc, ◌+◌, ◌*◌, ◌<◌, ◌≤◌, ◌≡◌, refl, true, false, none, some, [], ◌∷◌, ◌++◌, Bytes, ltb,
  ◌==◌, ◌^◌, ◌-◌, length, arith, done,
}
use yafsml.Steam.Vdf.Chars.{first, is_space, ascii_equal}
use yafsml.Steam.Vdf.Reader.{Parser, TokenRead, read_token, no_token}
use yafsml.Steam.Vdf.Tree.{Objects, object, nil, array, new_object}
use yafsml.Steam.Vdf.Block.{load_block}
use yafsml.Steam.Vdf.Load.{
  Loader, at_root, nowhere, entry_round, entry_loop, start_of, fuel_for, vdf_parse_buffer,
  include_name, go_with, stop_with,
}
use yafsml.Steam.Vdf.Render.{IsGap, IsKey, AreWritable, render_objects, render_file}
use yafsml.Steam.Vdf.Render.Token.{at, past_end, read_token_end, read_token_mark, read_token-quote}
use yafsml.Steam.Vdf.Render.Block.{concat, block_loop-render, length-gap, length-quote}

start_of_other : (s : Bytes) → (first s == 0xef) ≡ false → start_of s ≡ s
start_of_other [] h = refl
start_of_other (a ∷ []) h = refl
start_of_other (a ∷ b ∷ []) h = refl
start_of_other (a ∷ b ∷ c ∷ cs) h = rw h

first-render_file :
    (gap key : Bytes) (xs : Objects) → IsGap gap → (first (render_file gap key xs) == 0xef) ≡ false
unfolding is_space
first-render_file [] key xs g = refl
first-render_file (c ∷ cs) key xs g = ground (arith, g.0)

abbrev quoted_token : Bytes → Parser → TokenRead
quoted_token s p = record { text = some s; quoted = true; conditional = false; parser = p }

-- The loop is at the entry of the file.
abbrev at_entry : Parser → Loader
at_entry p = record { root = new_object none; current = at_root; parser = p }

-- The loop is behind the entry.
abbrev past_entry : Bytes → Objects → Parser → Loader
past_entry key xs p = record { root = object (some key) (array xs); current = nowhere; parser = p }

entry_round-block :
    (fuel : ℕ) (key : Bytes) (xs : Objects) (p : Parser) (named s rest : Bytes)
    → read_token p ≡ quoted_token key (at named)
    → read_token (at named)
      ≡ record { text = some (b'{' ∷ []); quoted = false; conditional = false; parser = at s }
    → (first key == 0) ≡ false
    → ascii_equal key include_name ≡ false
    → load_block fuel 1 (at s) ≡ done (xs, at rest)
    → entry_round fuel (at_entry p) ≡ done (go_with (past_entry key xs (at rest)))
unfolding entry_round
entry_round-block fuel key xs p named s rest e e' ne plain inner =
    rw (e, entry_round) (rw e (rw (ne, plain) (rw e' (rw inner))))

entry_round_end :
    (fuel : ℕ) (l : Loader)
    → read_token l.parser ≡ no_token past_end
    → entry_round fuel l ≡ done (stop_with (record l { parser = past_end }))
unfolding entry_round
entry_round_end fuel l e = rw (e, entry_round) (rw e)

load_block-render :
    (gap : Bytes) (xs : Objects) (fuel : ℕ)
    → IsGap gap
    → AreWritable 1 xs
    → 3 * length (render_objects gap xs (gap ++ (b'}' ∷ gap))) + 2 ≤ fuel
    → load_block fuel 1 (at (render_objects gap xs (gap ++ (b'}' ∷ gap)))) ≡ done (xs, at gap)
unfolding load_block concat
load_block-render gap xs zero g w room = absurd (omega arith)
load_block-render gap xs (suc fuel) g w room =
    block_loop-render gap g fuel 1 nil xs gap w (omega arith)

size-render_file :
    (gap key : Bytes) (xs : Objects)
    → IsGap gap
    → length (render_objects gap xs (gap ++ (b'}' ∷ gap))) + 2 ≤ length (render_file gap key xs)
size-render_file gap key xs g = omega (
  arith,
  length-quote gap g key (gap ++ (b'{' ∷ render_objects gap xs (gap ++ (b'}' ∷ gap)))),
  length-gap gap g (b'{' ∷ render_objects gap xs (gap ++ (b'}' ∷ gap))),
)

entry_loop-render :
    (gap key : Bytes) (xs : Objects) (fuel : ℕ)
    → IsGap gap
    → IsKey key
    → ascii_equal key include_name ≡ false
    → AreWritable 1 xs
    → 3 * length (render_file gap key xs) ≤ fuel
    → entry_loop fuel (at_entry (at (render_file gap key xs))) ≡ done (past_entry key xs past_end)
unfolding entry_loop
entry_loop-render gap key xs zero g k plain w room =
    absurd (omega (arith, size-render_file gap key xs g))
entry_loop-render gap key xs (suc zero) g k plain w room =
    absurd (omega (arith, size-render_file gap key xs g))
entry_loop-render gap key xs (suc (suc fuel)) g k plain w room =
    let s = render_objects gap xs (gap ++ (b'}' ∷ gap)) in
    let first =
      entry_round-block (suc fuel) key xs (at (render_file gap key xs)) (gap ++ (b'{' ∷ s)) s gap
        (read_token-quote gap key (gap ++ (b'{' ∷ s)) g k.0) (read_token_mark gap b'{' s g refl) k.1
        plain
        (load_block-render gap xs (suc fuel) g w (omega (arith, size-render_file gap key xs g))) in
    let second = entry_round_end fuel (past_entry key xs (at gap)) (read_token_end gap g) in
    rw first (rw second)

-- A file with one entry, its keys and values quoted and escaped, and written with the same white
-- space in front of each token, parses back to its tree. The key is not #include, keys are not
-- empty, no string holds a NUL or is longer than the token buffer, each value is one that is
-- stored as it stands, no block is nested too deep, and the file is shorter than 2 ^ 31 bytes.
pub vdf_parse_buffer-render_file :
    (gap key : Bytes) (xs : Objects)
    → IsGap gap
    → IsKey key
    → ascii_equal key include_name ≡ false
    → AreWritable 1 xs
    → length (render_file gap key xs) < 2 ^ 31
    → vdf_parse_buffer (some (render_file gap key xs)) ≡ done (some (object (some key) (array xs)))
unfolding vdf_parse_buffer
vdf_parse_buffer-render_file gap key xs g k plain w short =
    let short_enough : ltb (2 ^ 31 - 1) (length (render_file gap key xs)) ≡ false = ground arith in
    rw (start_of_other (render_file gap key xs) (first-render_file gap key xs g)) (
      rw (short_enough) (
        rw (
          entry_loop-render gap key xs (fuel_for (render_file gap key xs)) g k plain w
            (omega arith))))
