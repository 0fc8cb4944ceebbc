-- ===== src/Modloader/Vfs/Uid/Digits.antt =====
-- The UIDs read back as the entries that they were made for.
use yafsml.Prelude.{
  ℕ, zero, suc, ◌+◌, ◌*◌, ◌/◌, ◌%◌, ◌^◌, ◌<◌, ◌≡◌, refl, ap, sym, ◌∙◌, Bool, true, false, ◌&&◌,
  ◌||◌, some, [], ◌∷◌, ◌++◌, ltb, leb, ◌==◌, All, arith, Bool-cases, inl, inr, subst, All-append,
}
use yafsml.Common.Path.{Wide}
use yafsml.Modloader.Vfs.Uid.{
  hex_char, hex_digits, hex_loop, iswxdigit, digit_value, wcstoull, uid_of, streaming_uid_of,
  uid_number, vfs_uid_entry, after_text,
}

hex_char-digit : (d : ℕ) → d < 16 → (iswxdigit (hex_char d) ≡ true) × (digit_value (hex_char d) ≡ d)
hex_char-digit d h = ground arith

hex_digits-All : (fuel n : ℕ) → All (λ c. iswxdigit c ≡ true) (hex_digits fuel n)
unfolding hex_digits
hex_digits-All zero n = ((hex_char-digit (n % 16) (omega arith)).0, tt)
hex_digits-All (suc fuel) n = elim (Bool-cases (ltb n 16)) [
  | inl small ↦ rw small ((hex_char-digit n (ground arith)).0, tt)
  | inr large ↦ rw large (
      All-append (λ c. iswxdigit c ≡ true) (hex_digits fuel (n / 16)) (hex_char (n % 16) ∷ [])
        (hex_digits-All fuel (n / 16)) ((hex_char-digit (n % 16) (omega arith)).0, tt))
]

-- Digits in front are read first.
hex_loop-append :
    (acc : ℕ) (cs ds : Wide)
    → All (λ c. iswxdigit c ≡ true) cs
    → hex_loop acc (cs ++ ds) ≡ hex_loop (hex_loop acc cs).0 ds
unfolding hex_loop
hex_loop-append acc [] ds h = refl
hex_loop-append acc (c ∷ cs) ds h =
    rw (h.0, hex_loop) (hex_loop-append (acc * 16 + digit_value c) cs ds h.1)

-- The numbers with one digit more than `fuel` at most.
abbrev digits_bound : ℕ → ℕ
digits_bound zero = 16
digits_bound (suc fuel) = digits_bound fuel * 16

hex_loop-hex_char : (acc d : ℕ) → d < 16 → hex_loop acc (hex_char d ∷ []) ≡ (acc * 16 + d, [])
unfolding hex_loop
hex_loop-hex_char acc d h =
    let (digit, value) = hex_char-digit d h in rw (digit, hex_loop) (rw value)

hex_loop-hex_digits :
    (fuel n : ℕ) → n < digits_bound fuel → hex_loop 0 (hex_digits fuel n) ≡ (n, [])
unfolding hex_digits
hex_loop-hex_digits zero n h =
    hex_loop-hex_char 0 (n % 16) (omega arith) ∙ ap (λ m. (m, [])) (omega arith)
hex_loop-hex_digits (suc fuel) n h = elim (Bool-cases (ltb n 16)) [
  | inl small ↦ rw small (hex_loop-hex_char 0 n (ground arith) ∙ ap (λ m. (m, [])) (omega arith))
  | inr large ↦ rw large (
      hex_loop-append 0 (hex_digits fuel (n / 16)) (hex_char (n % 16) ∷ [])
        (hex_digits-All fuel (n / 16))
      ∙ ap (λ (r : ℕ × Wide). hex_loop r.0 (hex_char (n % 16) ∷ []))
          (hex_loop-hex_digits fuel (n / 16) (omega arith))
      ∙ hex_loop-hex_char (n / 16) (n % 16) (omega arith)
      ∙ ap (λ m. (m, [])) (omega arith))
]

-- No digit is an `x`, so wcstoull skips nothing.
wcstoull_digits : (cs : Wide) → All (λ c. iswxdigit c ≡ true) cs → wcstoull cs ≡ hex_loop 0 cs
unfolding wcstoull
wcstoull_digits [] h = refl
wcstoull_digits (z ∷ []) h = refl
wcstoull_digits (z ∷ x ∷ []) h = refl
wcstoull_digits (z ∷ x ∷ d ∷ cs) h =
    let plain : (z == b'0' && (x == b'x' || x == b'X') && iswxdigit d) ≡ false =
      ground (arith, h.1.0) in
    rw plain

hex_digits-cons : (fuel n : ℕ) → (c : ℕ) × ((cs : Wide) × (hex_digits fuel n ≡ c ∷ cs))
unfolding hex_digits
hex_digits-cons zero n = (hex_char (n % 16), ([], refl))
hex_digits-cons (suc fuel) n = elim (Bool-cases (ltb n 16)) [
  | inl small ↦ rw small (hex_char n, ([], refl))
  | inr large ↦
      let (c, (cs, e)) = hex_digits-cons fuel (n / 16) in
      rw large (c, (cs ++ (hex_char (n % 16) ∷ []), ap (λ ds. ds ++ (hex_char (n % 16) ∷ [])) e))
]

uid_number-hex_digits :
    (entry_count n : ℕ) (streaming : Bool) (c : ℕ) (cs : Wide)
    → n < 2 ^ 64
    → n < entry_count
    → hex_digits 15 n ≡ c ∷ cs
    → (uid_number entry_count streaming (c ∷ cs)
        ≡ some (record { place = n; streaming = streaming }))
      × ((c == b's') ≡ false)
unfolding uid_number
uid_number-hex_digits entry_count n streaming c cs small below e =
    let digits = subst (All (λ c. iswxdigit c ≡ true)) e (hex_digits-All 15 n) in
    let read =
      wcstoull_digits (c ∷ cs) digits ∙ ap (hex_loop 0) (sym e) ∙ hex_loop-hex_digits 15 n small in
    let room : leb entry_count n ≡ false = ground arith in
    (rw read (rw (digits.0, room)), ground (arith, digits.0))

-- The UID of an entry and its forward-only variant, for a number below the count of the entries
-- and below 2 ^ 64, read back as that entry and that variant.
pub vfs_uid_entry-uid_of :
    (entry_count n : ℕ)
    → n < 2 ^ 64
    → n < entry_count
    → (vfs_uid_entry entry_count (uid_of n) ≡ some (record { place = n; streaming = false }))
      × (vfs_uid_entry entry_count (streaming_uid_of n)
          ≡ some (record { place = n; streaming = true }))
unfolding vfs_uid_entry uid_of streaming_uid_of after_text
vfs_uid_entry-uid_of entry_count n small below =
    let (c, (cs, e)) = hex_digits-cons 15 n in
    let (plain, other) = uid_number-hex_digits entry_count n false c cs small below e in
    let (streamed, _) = uid_number-hex_digits entry_count n true c cs small below e in
    (rw e (rw other plain), rw e streamed)
