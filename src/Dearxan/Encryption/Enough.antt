-- ===== src/Dearxan/Encryption/Enough.antt =====
-- The rounds of the loop over the regions are enough.
use yafsml.Prelude.{
  ℕ, zero, suc, ◌+◌, ◌-◌, ◌<◌, ◌≤◌, ◌≡◌, refl, ap, Bool, ◌||◌, none, some, [], ◌∷◌, ◌==◌,
  if◌then◌else◌, Bytes, ltb, length, drop, bit_and, arith, Bool-cases, Option-cases, inl, inr,
  length-drop, else_some,
}
use mathlib.Core.Option.{some-injective}
use yafsml.Dearxan.Encryption.{
  ReadVarint, RegionList, too_wide, varint_loop, dearxan_read_varint, append_region, Rest,
  read_region, read_delta, regions_loop, uint32_max, shift_left32, add32,
}

-- A number takes a byte at least.
varint_loop-consumed :
    (i result shift : ℕ) (bytes : Bytes) (v : ReadVarint)
    → varint_loop i result shift bytes ≡ some v
    → i < v.consumed
unfolding varint_loop
varint_loop-consumed i result shift [] v e = absurd (ground (arith, e))
varint_loop-consumed i result shift (b ∷ bs) v e =
    let shifted = shift_left32 (bit_and b 0x7f) shift in
    let (room, e1) = else_some (too_wide shift (bit_and b 0x7f)) _ v e in
    let (fits, e2) = else_some (ltb (uint32_max - shifted) result) _ v e1 in
    elim (Bool-cases (ltb b 0x80)) [
      | inl last ↦
          let found : some (record { consumed = i + 1; value = add32 result shifted }) ≡ some v =
            ground (arith, e2, last) in
          let count = ap (λ (r : ReadVarint). r.consumed) (some-injective _ v found) in omega arith
      | inr more ↦
          let found : varint_loop (i + 1) (add32 result shifted) (shift + 7) bs ≡ some v =
            ground (arith, e2, more) in
          let later = varint_loop-consumed (i + 1) (add32 result shifted) (shift + 7) bs v found in
          omega arith
    ]

module _ (memory : ℕ → Bool) (again again' : Rest) where
  -- The two continuations agree on what is left of some bytes.
  Agree : Bytes → Type 0
  Agree bytes =
      (rva : ℕ) (l : RegionList) (rest : Bytes)
      → length rest ≤ length bytes
      → again rva l rest ≡ again' rva l rest

  read_region-Agree :
      (rva : ℕ) (l : RegionList) (bytes : Bytes)
      → Agree bytes
      → read_region memory again rva l bytes ≡ read_region memory again' rva l bytes
  unfolding read_region Agree
  read_region-Agree rva l bytes h = elim (Option-cases (dearxan_read_varint bytes)) [
    | inl bad ↦ rw (bad, read_region)
    | inr (size, good) ↦ elim (Option-cases (append_region rva l size)) [
      | inl refused ↦ rw (good, read_region) (rw refused)
      | inr (l', made) ↦
          rw (good, read_region)
            (rw made (
              ap (λ r. if memory (length l.regions + 1) then r else none)
                (h (add32 rva size.value) l' (drop size.consumed bytes)
                  (omega (arith, length-drop size.consumed bytes)))))
    ]
  ]

  read_delta-Agree :
      (rva : ℕ) (l : RegionList) (bytes : Bytes) (delta : ReadVarint)
      → Agree (drop delta.consumed bytes)
      → read_delta memory again rva l bytes delta ≡ read_delta memory again' rva l bytes delta
  unfolding read_delta
  read_delta-Agree rva l bytes delta h =
      ap
        (λ next.
          if delta.value == 0 || ltb (uint32_max - delta.value) rva
          then none
          else if add32 rva delta.value == uint32_max
          then some l
          else next)
        (read_region-Agree (add32 rva delta.value) l (drop delta.consumed bytes) h)

-- With more rounds than there are bytes left, the loop over the regions gives the same answer
-- whatever their number: each number that is read takes a byte at least.
regions_loop-enough :
    (memory : ℕ → Bool) (fuel more rva : ℕ) (l : RegionList) (bytes : Bytes)
    → length bytes < fuel
    → length bytes < more
    → regions_loop memory fuel rva l bytes ≡ regions_loop memory more rva l bytes
unfolding regions_loop Agree dearxan_read_varint varint_loop
regions_loop-enough memory zero more rva l bytes h k = absurd (omega arith)
regions_loop-enough memory (suc fuel) zero rva l bytes h k = absurd (omega arith)
regions_loop-enough memory (suc fuel) (suc more) rva l [] h k = refl
regions_loop-enough memory (suc fuel) (suc more) rva l (b ∷ bs) h k =
    elim (Option-cases (dearxan_read_varint (b ∷ bs))) [
      | inl bad ↦ rw (bad, regions_loop)
      | inr (delta, good) ↦
          let taken = varint_loop-consumed 0 0 0 (b ∷ bs) delta good in
          let left = length-drop delta.consumed (b ∷ bs) in
          rw (good, regions_loop)
            (read_delta-Agree memory (regions_loop memory fuel) (regions_loop memory more) rva l
              (b ∷ bs) delta
              (λ rva' l' rest less.
                regions_loop-enough memory fuel more rva' l' rest (omega arith) (omega arith)))
    ]
