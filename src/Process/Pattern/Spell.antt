-- ===== src/Process/Pattern/Spell.antt =====
-- Pattern texts that are spelled out parse to the cells that they stand for.
use yafsml.Prelude.{
  ℕ, ◌+◌, ◌-◌, ◌*◌, ◌%◌, bit_or, ==_iff, ◌≤◌, ◌<◌, ◌≡◌, refl, ap, ◌∙◌, true, none, some, List, [],
  ◌∷◌, ◌++◌, map, Bytes, ltb, ◌==◌, if◌then◌else◌, arith, All, length, length-append, all_below,
  all_below_sound, append_assoc, append-nil,
}
use yafsml.Process.Scanner.{Cell}
use yafsml.Process.Pattern.{
  wildcard, digit, classify, parsed, go, build_step, build_end, build_loop, digit_second,
  wild_second, sig_build_pattern_with_mask,
}

-- One byte of a pattern: both digits, one of them, or neither.
pub data PatternByte : Type 0 where
  exact : ℕ → ℕ → PatternByte
  high low : ℕ → PatternByte
  any : PatternByte

abbrev pub IsPatternByte : PatternByte → Type 0
IsPatternByte (exact h l) = (h < 16) × (l < 16)
IsPatternByte (high h) = h < 16
IsPatternByte (low l) = l < 16
IsPatternByte any = Unit

abbrev hex_char : ℕ → ℕ
hex_char d = if ltb d 10 then 0x30 + d else 0x41 + (d - 10)

abbrev pub cell_of : PatternByte → Cell
cell_of (exact h l) = record { value = h * 16 + l; mask = 0xff }
cell_of (high h) = record { value = h * 16; mask = 0xf0 }
cell_of (low l) = record { value = l; mask = 0x0f }
cell_of any = record { value = 0; mask = 0 }

abbrev pub spell_byte : PatternByte → Bytes
spell_byte (exact h l) = hex_char h ∷ hex_char l ∷ []
spell_byte (high h) = hex_char h ∷ 0x3f ∷ []
spell_byte (low l) = 0x3f ∷ hex_char l ∷ []
spell_byte any = 0x3f ∷ 0x3f ∷ []

-- The bytes with a blank behind each.
abbrev pub spell : List PatternByte → Bytes
spell [] = []
spell (p ∷ ps) = spell_byte p ++ (0x20 ∷ spell ps)

classify-hex_char : (d : ℕ) → d < 16 → classify (hex_char d) ≡ digit d
unfolding classify
classify-hex_char d h = ground arith

digit_table : all_below 16 (λ h. all_below 16 (λ l. bit_or (h * 16 % 256) l == h * 16 + l)) ≡ true
unfolding all_below
digit_table = refl

-- Two digits, and a digit behind a wildcard.
two_digits :
    (h l : ℕ)
    → h < 16
    → l < 16
    → digit_second l (record { value = h; mask = 0xf }) ≡ cell_of (exact h l)
two_digits h l hh hl =
    ap (λ v. record { value = v; mask = 0xff })
      ((==_iff _ _).0 (
        all_below_sound 16 (λ l. bit_or (h * 16 % 256) l == h * 16 + l) l
          (all_below_sound 16 _ h digit_table hh) hl))

wild_digit : (l : ℕ) → l < 16 → digit_second l (record { value = 0; mask = 0 }) ≡ cell_of (low l)
wild_digit l hl =
    ap (λ v. record { value = v; mask = 0xf })
      ((==_iff _ _).0 (
          all_below_sound 16 (λ l. bit_or (0 * 16 % 256) l == 0 * 16 + l) l
            (all_below_sound 16 _ 0 digit_table (omega arith)) hl)
        ∙ omega arith)

digit_wild : (h : ℕ) → h < 16 → wild_second (record { value = h; mask = 0xf }) ≡ cell_of (high h)
digit_wild h hh = ap (λ v. record { value = v; mask = 0xf0 }) (omega arith)

first_digit_step :
    (n d : ℕ) (out : List Cell)
    → length out < n
    → build_step n (digit d) out none ≡ go out (some (record { value = d; mask = 0xf }))
unfolding build_step
first_digit_step n d out h = ground arith

first_wild_step :
    (n : ℕ) (out : List Cell)
    → length out < n
    → build_step n wildcard out none ≡ go out (some (record { value = 0; mask = 0 }))
unfolding build_step
first_wild_step n out h = ground arith

second_digit_step :
    (n d : ℕ) (out : List Cell) (c : Cell)
    → build_step n (digit d) out (some c) ≡ go (out ++ (digit_second d c ∷ [])) none
unfolding build_step
second_digit_step n d out c = refl

second_wild_step :
    (n : ℕ) (out : List Cell) (c : Cell)
    → build_step n wildcard out (some c) ≡ go (out ++ (wild_second c ∷ [])) none
unfolding build_step
second_wild_step n out c = refl

blank_step : (n : ℕ) (out : List Cell) → build_step n (classify 0x20) out none ≡ go out none
unfolding build_step classify
blank_step n out = refl

wildcard_char : classify 0x3f ≡ wildcard
unfolding classify
wildcard_char = refl

-- A spelled byte and the blank behind it add its cell.
spell_step :
    (n : ℕ) (p : PatternByte) (rest : Bytes) (out : List Cell)
    → IsPatternByte p
    → length out < n
    → build_loop n (spell_byte p ++ (0x20 ∷ rest)) out none
      ≡ build_loop n rest (out ++ (cell_of p ∷ [])) none
unfolding build_loop
spell_step n (exact h l) rest out (hh, hl) room =
    rw (classify-hex_char h hh, first_digit_step n h out room, classify-hex_char l hl)
      (rw (second_digit_step, two_digits h l hh hl) (rw blank_step))
spell_step n (high h) rest out hh room =
    rw (classify-hex_char h hh, first_digit_step n h out room, wildcard_char)
      (rw (second_wild_step, digit_wild h hh) (rw blank_step))
spell_step n (low l) rest out hl room =
    rw (wildcard_char, first_wild_step n out room, classify-hex_char l hl)
      (rw (second_digit_step, wild_digit l hl) (rw blank_step))
spell_step n any rest out u room =
    rw (wildcard_char, first_wild_step n out room) (rw second_wild_step (rw blank_step))

spell_loop :
    (n : ℕ) (ps : List PatternByte) (out : List Cell)
    → All IsPatternByte ps
    → length out + length ps ≤ n
    → build_loop n (spell ps) out none ≡ parsed (out ++ map cell_of ps)
unfolding build_loop build_end
spell_loop n [] out h room = rw (append-nil out)
spell_loop n (p ∷ ps) out (hp, hps) room =
    spell_step n p (spell ps) out hp (omega arith)
    ∙ spell_loop n ps (out ++ (cell_of p ∷ [])) hps
        (omega (arith, length-append out (cell_of p ∷ [])))
    ∙ ap parsed (append_assoc out (cell_of p ∷ []) (map cell_of ps))

-- A list of pattern bytes, each given by two digits, one of them or neither, and spelled with a
-- blank behind each, parses to exactly the cells that it stands for, in any buffer with room for
-- them.
pub sig_build_pattern_with_mask-spell :
    (out_size : ℕ) (ps : List PatternByte)
    → All IsPatternByte ps
    → length ps ≤ out_size
    → sig_build_pattern_with_mask out_size (spell ps) ≡ parsed (map cell_of ps)
unfolding sig_build_pattern_with_mask
sig_build_pattern_with_mask-spell n ps h room = spell_loop n ps [] h (omega arith)
