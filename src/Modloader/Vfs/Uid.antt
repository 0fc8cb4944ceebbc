-- ===== src/Modloader/Vfs/Uid.antt =====
-- src/modloader/vfs.c: the UIDs, which stand for the entries of archives. A UID is a prefix and the
-- number of the entry in hexadecimal digits; an `s` before them makes it the forward-only variant.
pub mod Digits
use yafsml.Prelude.{
  ℕ, zero, suc, ◌+◌, ◌-◌, ◌*◌, ◌/◌, ◌%◌, Bool, true, false, not, ◌&&◌, ◌||◌, Option, none, some,
  List, [], ◌∷◌, ◌++◌, ltb, leb, ◌==◌, if◌then◌else◌, length, get_elem?, codes,
}
use yafsml.Common.Path.{Wide}
use yafsml.Modloader.Vfs.Index.{Entry}

abbrev pub uid_prefix : Wide
uid_prefix = codes "\\\\me3??"

abbrev pub hex_char : ℕ → ℕ
hex_char d = if ltb d 10 then b'0' + d else b'a' + (d - 10)

-- `%zx`. A number has a digit for each step that divides it by 16.
unfoldable pub hex_digits : ℕ → ℕ → Wide
hex_digits zero n = hex_char (n % 16) ∷ []
hex_digits (suc fuel) n =
    let more = hex_digits fuel (n / 16) in
    if ltb n 16 then hex_char n ∷ [] else more ++ (hex_char (n % 16) ∷ [])

-- A size_t has 16 digits at most.
unfoldable pub uid_of : ℕ → Wide
unfolding hex_digits
uid_of number = uid_prefix ++ hex_digits 15 number

-- The variant behind it in the same allocation.
unfoldable pub streaming_uid_of : ℕ → Wide
unfolding hex_digits
streaming_uid_of number = uid_prefix ++ (b's' ∷ hex_digits 15 number)

abbrev pub iswxdigit : ℕ → Bool
iswxdigit c = (leb b'0' c && leb c b'9') || (leb b'a' c && leb c b'f') || (leb b'A' c && leb c b'F')

abbrev pub digit_value : ℕ → ℕ
digit_value c = if leb c b'9' then c - b'0' else if leb c b'F' then c - 55 else c - 87

-- The digits that wcstoull reads, on top of `acc`, and the rest.
unfoldable pub hex_loop : ℕ → Wide → ℕ × Wide
hex_loop acc [] = (acc, [])
hex_loop acc (c ∷ cs) =
    let more = hex_loop (acc * 16 + digit_value c) cs in if iswxdigit c then more else (acc, c ∷ cs)

-- `wcstoull(uid, &end, 16)`, which takes a `0x` in front of a digit too. A number that is too large is
-- not below any count of entries, so its exact value does not matter.
unfoldable pub wcstoull : Wide → ℕ × Wide
unfolding hex_loop
wcstoull (z ∷ x ∷ d ∷ cs) =
    if z == b'0' && (x == b'x' || x == b'X') && iswxdigit d
    then hex_loop 0 (d ∷ cs)
    else hex_loop 0 (z ∷ x ∷ d ∷ cs)
wcstoull cs = hex_loop 0 cs

unfoldable pub after_text : Wide → Wide → Option Wide
after_text [] s = some s
after_text (c ∷ cs) [] = none
after_text (c ∷ cs) (d ∷ ds) = let more = after_text cs ds in if c == d then more else none

-- The number of the entry, and whether the UID is the forward-only variant.
pub record UidEntry : Type 0 where
  pub place : ℕ
  pub streaming : Bool

unfoldable pub uid_number : ℕ → Bool → Wide → Option UidEntry
unfolding wcstoull
uid_number entry_count streaming [] = none
uid_number entry_count streaming (c ∷ cs) =
    let (value, end) = wcstoull (c ∷ cs) in
    if not (iswxdigit c) || not (length end == 0) || leb entry_count value
    then none
    else some (record { place = value; streaming = streaming })

unfoldable pub vfs_uid_entry : ℕ → Wide → Option UidEntry
unfolding uid_number after_text
vfs_uid_entry entry_count uid = elim (after_text uid_prefix uid) [
  | none ↦ none
  | some [] ↦ none
  | some (c ∷ cs) ↦
      if c == b's' then uid_number entry_count true cs else uid_number entry_count false (c ∷ cs)
]

-- `vfs_entry_read_path`
abbrev pub vfs_entry_read_path : ℕ → Entry → Option Wide
vfs_entry_read_path place e = elim e.zip [ some _ ↦ some (uid_of place) | none ↦ e.path ]

-- The entry that a UID names, with its number.
abbrev pub named_entry : List Entry → Wide → Option (UidEntry × Entry)
named_entry entries uid = elim (vfs_uid_entry (length entries) uid) [
  | none ↦ none
  | some u ↦ elim (get_elem? entries u.place) [ none ↦ none | some e ↦ some (u, e) ]
]

unfoldable pub vfs_uid_to_path : List Entry → Wide → Option Wide
unfolding vfs_uid_entry uid_of streaming_uid_of
vfs_uid_to_path entries uid = elim (named_entry entries uid) [
  | none ↦ none
  | some (u, e) ↦
      let is_zip = elim e.zip as (λ x. Bool) [ some _ ↦ true | none ↦ false ] in
      if u.streaming && is_zip
      then some (streaming_uid_of u.place)
      else vfs_entry_read_path u.place e
]

unfoldable pub vfs_uid_for_streaming : List Entry → Wide → Option Wide
unfolding vfs_uid_entry uid_of streaming_uid_of
vfs_uid_for_streaming entries uid = elim (named_entry entries uid) [
  | none ↦ none
  | some (u, e) ↦ elim e.zip [
    | none ↦ some (uid_of u.place)
    | some _ ↦ some (streaming_uid_of u.place)
  ]
]

unfoldable pub vfs_is_zip_path : List Entry → Wide → Bool
unfolding vfs_uid_entry
vfs_is_zip_path entries uid = elim (named_entry entries uid) [
  | none ↦ false
  | some (u, e) ↦ elim e.zip [ none ↦ false | some _ ↦ true ]
]

unfoldable pub vfs_has_zip_entries : List Entry → Bool
vfs_has_zip_entries [] = false
vfs_has_zip_entries (e ∷ es) =
    let more = vfs_has_zip_entries es in elim e.zip [ some _ ↦ true | none ↦ more ]
