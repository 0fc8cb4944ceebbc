-- ===== src/Dearxan/Encryption/Varint.antt =====
-- Numbers of variable length, written and read back.
use yafsml.Prelude.{
  ℕ, zero, suc, ◌+◌, ◌-◌, ◌*◌, ◌/◌, ◌%◌, ◌^◌, ◌<◌, ◌≡◌, refl, ap, ◌∙◌, true, false, ◌&&◌, Option,
  some, [], ◌∷◌, ◌++◌, Bytes, ltb, ◌==◌, if◌then◌else◌, length, bit_and, arith, Bool-cases, inl,
  inr, all_below, all_below_sound, subst,
}
use yafsml.Dearxan.Encryption.{
  ReadVarint, too_wide, varint_loop, dearxan_read_varint, add32, shift_left32, uint32_max,
}

-- Seven bits in each byte, the low ones first, and the high bit on all but the last; `fuel` bytes at
-- most stand before the last one.
unfoldable pub write_varint : ℕ → ℕ → Bytes
write_varint zero n = n ∷ []
write_varint (suc fuel) n =
    let more = write_varint fuel (n / 0x80) in
    if ltb n 0x80 then n ∷ [] else (n % 0x80 + 0x80) ∷ more

low_table : all_below 128 (λ m. bit_and m 0x7f == m && bit_and (m + 0x80) 0x7f == m) ≡ true
unfolding all_below
low_table = refl

bit_and-low : (m : ℕ) → m < 0x80 → (bit_and m 0x7f ≡ m) × (bit_and (m + 0x80) 0x7f ≡ m)
bit_and-low m h =
    let e =
      all_below_sound 128 (λ m. bit_and m 0x7f == m && bit_and (m + 0x80) 0x7f == m) m low_table
        h in
    (ground (arith, e), ground (arith, e))

-- The shift of the byte `k`, and the weight of its digits.
abbrev shift_at : ℕ → ℕ
shift_at zero = 0
shift_at (suc k) = shift_at k + 7

abbrev weight : ℕ → ℕ
weight zero = 1
weight (suc k) = weight k * 0x80

fits_at :
    (k m : ℕ)
    → k < 5
    → m * weight k < 2 ^ 32
    → (too_wide (shift_at k) m ≡ false) × (shift_left32 m (shift_at k) ≡ m * weight k)
fits_at zero m k5 h = (ground arith, omega arith)
fits_at (suc zero) m k5 h = (ground arith, omega arith)
fits_at (suc (suc zero)) m k5 h = (ground arith, omega arith)
fits_at (suc (suc (suc zero))) m k5 h = (ground arith, omega arith)
fits_at (suc (suc (suc (suc zero)))) m k5 h = (ground arith, omega arith)
fits_at (suc (suc (suc (suc (suc k))))) m k5 h = absurd (omega arith)

split_at : (k n : ℕ) → k < 5 → (n % 0x80) * weight k + (n / 0x80) * weight (suc k) ≡ n * weight k
split_at zero n k5 = omega arith
split_at (suc zero) n k5 = omega arith
split_at (suc (suc zero)) n k5 = omega arith
split_at (suc (suc (suc zero))) n k5 = omega arith
split_at (suc (suc (suc (suc zero)))) n k5 = omega arith
split_at (suc (suc (suc (suc (suc k))))) n k5 = absurd (omega arith)

last_byte :
    (i result shift m shifted : ℕ) (rest : Bytes)
    → m < 0x80
    → too_wide shift m ≡ false
    → shift_left32 m shift ≡ shifted
    → result + shifted < 2 ^ 32
    → varint_loop i result shift (m ∷ rest)
      ≡ some (record { consumed = i + 1; value = result + shifted })
unfolding varint_loop
last_byte i result shift m shifted rest small room e fits =
    let low = (bit_and-low m small).0 in
    let no_carry : ltb (uint32_max - shifted) result ≡ false = ground arith in
    let whole : add32 result shifted ≡ result + shifted = omega arith in
    let last : ltb m 0x80 ≡ true = ground arith in
    rw (low, varint_loop) (rw room (rw e (rw (no_carry, last, whole))))

next_byte :
    (i result shift m shifted : ℕ) (rest : Bytes)
    → m < 0x80
    → too_wide shift m ≡ false
    → shift_left32 m shift ≡ shifted
    → result + shifted < 2 ^ 32
    → varint_loop i result shift ((m + 0x80) ∷ rest)
      ≡ varint_loop (i + 1) (result + shifted) (shift + 7) rest
unfolding varint_loop
next_byte i result shift m shifted rest small room e fits =
    let low = (bit_and-low m small).1 in
    let no_carry : ltb (uint32_max - shifted) result ≡ false = ground arith in
    let whole : add32 result shifted ≡ result + shifted = omega arith in
    let more : ltb (m + 0x80) 0x80 ≡ false = ground arith in
    rw (low, varint_loop) (rw room (rw e (rw (no_carry, more, whole))))

abbrev read_as : ℕ → ℕ → Option ReadVarint
read_as consumed value = some (record { consumed = consumed; value = value })

last_at :
    (k i result n : ℕ) (rest : Bytes)
    → k < 5
    → n < 0x80
    → result + n * weight k < 2 ^ 32
    → varint_loop i result (shift_at k) (n ∷ rest) ≡ read_as (i + 1) (result + n * weight k)
last_at k i result n rest k5 small h =
    let (room, e) = fits_at k n k5 (omega arith) in
    last_byte i result (shift_at k) n (n * weight k) rest small room e h

-- Four bytes leave four bits to the last one.
top_small : (k n : ℕ) → k ≡ 4 → n * weight k < 2 ^ 32 → n < 0x80
top_small k n k4 h = let h' = subst (λ j. n * weight j < 2 ^ 32) k4 h in omega arith

varint_loop-write_varint :
    (fuel k i result n : ℕ) (rest : Bytes)
    → k + fuel ≡ 4
    → result + n * weight k < 2 ^ 32
    → varint_loop i result (shift_at k) (write_varint fuel n ++ rest)
      ≡ read_as (i + length (write_varint fuel n)) (result + n * weight k)
unfolding write_varint
varint_loop-write_varint zero k i result n rest k4 h =
    last_at k i result n rest (omega arith) (top_small k n (omega arith) (omega arith)) h
varint_loop-write_varint (suc fuel) k i result n rest k4 h = elim (Bool-cases (ltb n 0x80)) [
  | inl small ↦ rw small (last_at k i result n rest (omega arith) (ground arith) h)
  | inr large ↦
      let m = n % 0x80 in
      let parts = split_at k n (omega arith) in
      let (room, e) = fits_at k m (omega arith) (omega (arith, parts)) in
      let behind = write_varint fuel (n / 0x80) in
      let read =
        varint_loop-write_varint fuel (suc k) (i + 1) (result + m * weight k) (n / 0x80) rest
          (omega arith) (omega (arith, parts)) in
      let size : i + 1 + length behind ≡ i + suc (length behind) = omega arith in
      let sum : result + m * weight k + (n / 0x80) * weight (suc k) ≡ result + n * weight k =
        omega (arith, parts) in
      rw large (
        next_byte i result (shift_at k) m (m * weight k) (behind ++ rest) (omega arith) room e
          (omega (arith, parts))
        ∙ read
        ∙ ap (λ c. read_as c (result + m * weight k + (n / 0x80) * weight (suc k))) size
        ∙ ap (read_as (i + suc (length behind))) sum)
]

-- A number below 2 ^ 32, written with seven bits in each byte and the high bit on all but the
-- last, reads back as that number and consumes exactly its bytes, whatever stands behind it.
pub dearxan_read_varint-write_varint :
    (n : ℕ) (rest : Bytes)
    → n < 2 ^ 32
    → dearxan_read_varint (write_varint 4 n ++ rest)
      ≡ some (record { consumed = length (write_varint 4 n); value = n })
unfolding dearxan_read_varint
dearxan_read_varint-write_varint n rest h =
    varint_loop-write_varint 4 0 0 0 n rest refl (omega arith)
    ∙ ap (read_as (0 + length (write_varint 4 n))) (omega arith)
    ∙ ap (λ c. read_as c n) (omega arith)
