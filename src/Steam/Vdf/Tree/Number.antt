-- ===== src/Steam/Vdf/Tree/Number.antt =====
-- src/steam/vdf.c, `set_value`: a value that strtol reads whole is stored as snprintf writes it. A Windows
-- `long` has 32 bits.
use yafsml.Prelude.{
  ℕ, zero, suc, ◌+◌, ◌-◌, ◌*◌, ◌/◌, ◌%◌, ◌^◌, Bool, true, false, not, ◌&&◌, ◌||◌, Option, none,
  some, [], ◌∷◌, ◌++◌, Bytes, ltb, leb, ◌==◌, if◌then◌else◌, length,
}
use yafsml.Steam.Vdf.Chars.{is_space, first}

-- `strchr(" +,-.0123456789", c)`
unfoldable pub number_char : ℕ → Bool
number_char c =
    c == b' ' || c == b'+' || c == b',' || c == b'-' || c == b'.' || (leb b'0' c && leb c b'9')

-- `strspn(value, …) == length`
unfoldable pub all_number_chars : Bytes → Bool
unfolding number_char
all_number_chars [] = true
all_number_chars (c ∷ cs) = number_char c && all_number_chars cs

-- The digits that strtol reads: their value on top of `acc`, and the rest; `none` if there is none.
unfoldable pub digits_loop : ℕ → Bytes → ℕ × Bytes
digits_loop acc [] = (acc, [])
digits_loop acc (c ∷ cs) =
    let more = digits_loop (acc * 10 + (c - b'0')) cs in
    if leb b'0' c && leb c b'9' then more else (acc, c ∷ cs)

unfoldable pub strtol_space : Bytes → Bytes
unfolding is_space
strtol_space [] = []
strtol_space (c ∷ cs) = let more = strtol_space cs in if is_space c then more else c ∷ cs

-- What strtol finds: a sign, and the magnitude before it is cut to the range of a long.
pub record Number : Type 0 where
  pub negative : Bool
  pub magnitude : ℕ

abbrev pub starts_digit : Bytes → Bool
starts_digit [] = false
starts_digit (c ∷ cs) = leb b'0' c && leb c b'9'

-- `strtol(value, &end, 10)` with `end == value + length`, the whole string read.
abbrev pub whole_number : Bool → Bytes → Option Number
whole_number negative s =
    let (m, rest) = digits_loop 0 s in
    if not (starts_digit s)
    then none
    else elim rest [ [] ↦ some (record { negative = negative; magnitude = m }) | c ∷ cs ↦ none ]

abbrev pub signed_number : Bytes → Option Number
signed_number [] = none
signed_number (c ∷ cs) =
    if c == b'-'
    then whole_number true cs
    else if c == b'+'
    then whole_number false cs
    else whole_number false (c ∷ cs)

unfoldable pub strtol_whole : Bytes → Option Number
unfolding strtol_space digits_loop
strtol_whole value = signed_number (strtol_space value)

-- `overflow`: the magnitude does not fit a long.
abbrev pub overflows : Number → Bool
overflows n = ltb (if n.negative then 2 ^ 31 else 2 ^ 31 - 1) n.magnitude

-- "%ld" of a number below 10 ^ fuel.
unfoldable pub decimal : ℕ → ℕ → Bytes
decimal zero n = []
decimal (suc fuel) n =
    let higher = decimal fuel (n / 10) in
    (if n / 10 == 0 then [] else higher) ++ ((b'0' + n % 10) ∷ [])

abbrev pub format_long : Number → Bytes
format_long n =
    if n.negative && not (n.magnitude == 0)
    then b'-' ∷ decimal 10 n.magnitude
    else decimal 10 n.magnitude

abbrev pub is_zero_text : Bytes → Bool
is_zero_text [] = false
is_zero_text (c ∷ []) = c == b'0'
is_zero_text (c ∷ d ∷ cs) = false

abbrev pub stored_number : Bytes → Option Number → Bytes
stored_number value none = value
stored_number value (some n) =
    if (not (first value == b'0') && not (overflows n)) || is_zero_text value
    then format_long n
    else value

unfoldable pub stored_value : Bytes → Bytes
unfolding all_number_chars strtol_whole decimal
stored_value value =
    if not (length value == 0) && all_number_chars value
    then stored_number value (strtol_whole value)
    else value
