-- ===== src/Steam/Vdf/Chars.antt =====
-- src/steam/vdf.c, characters and C strings. A C string is the list of its bytes before the NUL.
use yafsml.Prelude.{ℕ, ◌-◌, Bool, true, false, ◌&&◌, ◌||◌, [], ◌∷◌, Bytes, leb, ◌==◌, if◌then◌else◌}

unfoldable pub is_space : ℕ → Bool
is_space c = c == b' ' || (leb 0x09 c && leb c 0x0d)

abbrev pub to_upper : ℕ → ℕ
to_upper c = if leb b'a' c && leb c b'z' then c - 0x20 else c

-- The loop runs over both strings at once and stops at the first difference or at both ends.
unfoldable pub ascii_equal : Bytes → Bytes → Bool
ascii_equal [] [] = true
ascii_equal [] (r ∷ rs) = false
ascii_equal (l ∷ ls) [] = false
ascii_equal (l ∷ ls) (r ∷ rs) = to_upper l == to_upper r && ascii_equal ls rs

-- The string that a buffer holds: what stands before its first NUL.
unfoldable pub c_string : Bytes → Bytes
c_string [] = []
c_string (c ∷ cs) = if c == 0 then [] else c ∷ c_string cs

-- `s[0]`, which is the NUL of an empty string.
abbrev pub first : Bytes → ℕ
first [] = 0
first (c ∷ cs) = c

unfoldable pub escaped_char : ℕ → ℕ
escaped_char c =
    if c == b'n'
    then 0x0a
    else if c == b't'
    then 0x09
    else if c == b'v'
    then 0x0b
    else if c == b'b'
    then 0x08
    else if c == b'r'
    then 0x0d
    else if c == b'f'
    then 0x0c
    else if c == b'a'
    then 0x07
    else if c == 0x5c
    then 0x5c
    else if c == b'?'
    then b'?'
    else if c == 0x27
    then 0x27
    else if c == 0x22
    then 0x22
    else 0
