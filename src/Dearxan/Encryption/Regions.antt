-- ===== src/Dearxan/Encryption/Regions.antt =====
-- What a list of encrypted regions is like when `dearxan_parse_encrypted_regions` returns it.
use yafsml.Prelude.{
  ℕ, zero, suc, ◌+◌, ◌-◌, ◌%◌, ◌^◌, ◌<◌, ◌≤◌, ◌≡◌, refl, ap, sym, Bool, ◌||◌, some, List, [], ◌∷◌,
  ◌++◌, Bytes, ltb, ◌==◌, if◌then◌else◌, length, drop, arith, Bool-cases, inl, inr, bit_and, subst,
  else_some, then_some, chain_some,
}
use mathlib.Core.Option.{some-injective}
use yafsml.Dearxan.Encryption.{
  ReadVarint, EncryptedRegion, RegionList, too_wide, varint_loop, dearxan_read_varint,
  append_region, Rest, read_region, read_delta, regions_loop, dearxan_parse_encrypted_regions,
  uint32_max, size_max, add32, shift_left32,
}

-- The regions stand one behind the other, from the RVA `rva` to `rva'` at most and without a common
-- byte; none is empty, and the stream holds them without a gap from `start` to `end`.
unfoldable pub Follow : ℕ → ℕ → List EncryptedRegion → ℕ → ℕ → Type 0
Follow rva start [] rva' end = (rva ≤ rva') × (start ≡ end)
Follow rva start (r ∷ rs) rva' end =
    (rva ≤ r.rva)
    × (0 < r.size)
    × (r.stream_offset ≡ start)
    × Follow (r.rva + r.size) (start + r.size) rs rva' end

Follow-append :
    (rva start : ℕ) (rs : List EncryptedRegion) (mid at_end new size : ℕ)
    → Follow rva start rs mid at_end
    → mid ≤ new
    → 0 < size
    → Follow rva start
        (rs ++ (record { stream_offset = at_end; size = size; rva = new } ∷ []))
        (new + size)
        (at_end + size)
unfolding Follow
Follow-append rva start [] mid at_end new size (le, e) h pos =
    (omega arith, pos, sym e, (omega arith, ap (λ n. n + size) e))
Follow-append rva start (r ∷ rs) mid at_end new size (le, p, e, more) h pos =
    (le, p, e, Follow-append (r.rva + r.size) (start + r.size) rs mid at_end new size more h pos)

Follow-later :
    (rva start : ℕ) (rs : List EncryptedRegion) (mid at_end new : ℕ)
    → Follow rva start rs mid at_end
    → mid ≤ new
    → Follow rva start rs new at_end
unfolding Follow
Follow-later rva start [] mid at_end new (le, e) h = (omega arith, e)
Follow-later rva start (r ∷ rs) mid at_end new (le, p, e, more) h =
    (le, p, e, Follow-later (r.rva + r.size) (start + r.size) rs mid at_end new more h)

-- The regions of a list.
pub WellFormed : RegionList → Type 0
WellFormed l = Follow 0 0 l.regions uint32_max l.stream_size

-- A number that is read is a word.
varint_loop-below :
    (i result shift : ℕ) (bytes : Bytes) (v : ReadVarint)
    → varint_loop i result shift bytes ≡ some v
    → v.value ≤ uint32_max
unfolding varint_loop
varint_loop-below i result shift [] v e = absurd (ground arith)
varint_loop-below i result shift (b ∷ bs) v e =
    let payload = bit_and b 0x7f in
    let shifted = shift_left32 payload shift in
    let (room, e1) = else_some (too_wide shift payload) _ v e in
    let (fits, e2) = else_some (ltb (uint32_max - shifted) result) _ v e1 in
    elim (Bool-cases (ltb b 0x80)) [
      | inl last ↦
          let found =
            subst
              (λ c.
                (if c
                  then some (record { consumed = i + 1; value = add32 result shifted })
                  else varint_loop (i + 1) (add32 result shifted) (shift + 7) bs)
                ≡ some v)
              last e2 in
          subst (λ (r : ReadVarint). r.value ≤ uint32_max) (some-injective _ v found) (omega arith)
      | inr more ↦ varint_loop-below (i + 1) (add32 result shifted) (shift + 7) bs v (
          subst
            (λ c.
              (if c
                then some (record { consumed = i + 1; value = add32 result shifted })
                else varint_loop (i + 1) (add32 result shifted) (shift + 7) bs)
              ≡ some v)
            more e2)
    ]

fits64 : (n : ℕ) → n ≤ size_max → n % 2 ^ 64 ≡ n
fits64 n h = omega arith

add32-fits : (a b : ℕ) → a + b ≤ uint32_max → add32 a b ≡ a + b
add32-fits a b h = omega arith

append_region-Follow :
    (rva mid : ℕ) (l l' : RegionList) (size : ReadVarint)
    → Follow 0 0 l.regions mid l.stream_size
    → mid ≤ rva
    → size.value ≤ uint32_max
    → append_region rva l size ≡ some l'
    → Follow 0 0 l'.regions (rva + size.value) l'.stream_size × (rva + size.value ≤ uint32_max)
unfolding append_region
append_region-Follow rva mid l l' size follows later below e =
    let (fine, made) =
      else_some
        (size.value == 0
          || ltb (uint32_max - size.value) rva
          || ltb (size_max - size.value) l.stream_size)
        (some _) l' e in
    let same = some-injective _ l' made in
    let room : l.stream_size + size.value ≤ size_max = ground arith in
    (
      subst (λ m. Follow 0 0 m.regions (rva + size.value) m.stream_size) same
          (subst (Follow 0 0 _ (rva + size.value)) (sym (fits64 (l.stream_size + size.value) room))
            (Follow-append 0 0 l.regions mid l.stream_size rva size.value follows later
              (ground arith))),
      ground arith,
    )

-- What the rest of the loop keeps.
abbrev Keeps : Rest → RegionList → Type 0
Keeps again l' =
    (rva : ℕ) (l : RegionList) (bytes : Bytes)
    → Follow 0 0 l.regions rva l.stream_size
    → rva ≤ uint32_max
    → again rva l bytes ≡ some l'
    → WellFormed l'

module _ (memory : ℕ → Bool) (again : Rest) (l' : RegionList) (keeps : Keeps again l') where
  read_region-WellFormed :
      (rva mid : ℕ) (l : RegionList) (bytes : Bytes)
      → Follow 0 0 l.regions mid l.stream_size
      → mid ≤ rva
      → read_region memory again rva l bytes ≡ some l'
      → WellFormed l'
  unfolding read_region dearxan_read_varint
  read_region-WellFormed rva mid l bytes follows later e =
      let (size, read, e1) = chain_some (dearxan_read_varint bytes) _ l' e in
      let (l'', made, e2) = chain_some (append_region rva l size) _ l' e1 in
      let (room, e3) = then_some (memory (length l.regions + 1)) _ l' e2 in
      let word_size = varint_loop-below 0 0 0 bytes size read in
      let (follows', below) =
        append_region-Follow rva mid l l'' size follows later word_size made in
      let sum = add32-fits rva size.value below in
      keeps (rva + size.value) l'' (drop size.consumed bytes) follows' below
        (subst (λ n. again n l'' (drop size.consumed bytes) ≡ some l') sum e3)

  read_delta-WellFormed :
      (rva : ℕ) (l : RegionList) (bytes : Bytes) (delta : ReadVarint)
      → Follow 0 0 l.regions rva l.stream_size
      → rva ≤ uint32_max
      → delta.value ≤ uint32_max
      → read_delta memory again rva l bytes delta ≡ some l'
      → WellFormed l'
  unfolding read_delta WellFormed
  read_delta-WellFormed rva l bytes delta follows below word_delta e =
      let (fine, e1) = else_some (delta.value == 0 || ltb (uint32_max - delta.value) rva) _ l' e in
      let sum = add32-fits rva delta.value (ground (arith, fine, word_delta)) in
      elim (Bool-cases (add32 rva delta.value == uint32_max)) [
        | inl last ↦
            let found : some l ≡ some l' = ground (arith, e1, last) in
            subst WellFormed (some-injective l l' found)
              (Follow-later 0 0 l.regions rva l.stream_size uint32_max follows below)
        | inr more ↦
            let found : read_region memory again (add32 rva delta.value) l
                  (drop delta.consumed bytes)
                ≡ some l' =
              ground (arith, e1, more) in
            read_region-WellFormed (add32 rva delta.value) rva l (drop delta.consumed bytes) follows
              (omega arith) found
      ]

regions_loop-WellFormed :
    (memory : ℕ → Bool) (fuel : ℕ) (l' : RegionList) → Keeps (regions_loop memory fuel) l'
unfolding regions_loop dearxan_read_varint
regions_loop-WellFormed memory zero l' rva l bytes follows below e = absurd (ground arith)
regions_loop-WellFormed memory (suc fuel) l' rva l bytes follows below e =
    let (delta, read, e1) = chain_some (dearxan_read_varint bytes) _ l' e in
    read_delta-WellFormed memory (regions_loop memory fuel) l'
      (regions_loop-WellFormed memory fuel l') rva l bytes delta follows below
      (varint_loop-below 0 0 0 bytes delta read) e1

-- Where a list of regions is returned, its regions are not empty, stand in the order of their
-- addresses and do not overlap, end within 32 bits, and their parts of the stream follow each
-- other without a gap up to its size.
pub dearxan_parse_encrypted_regions-WellFormed :
    (memory : ℕ → Bool) (bytes : Bytes) (l : RegionList)
    → dearxan_parse_encrypted_regions memory bytes ≡ some l
    → WellFormed l
unfolding dearxan_parse_encrypted_regions Follow
dearxan_parse_encrypted_regions-WellFormed memory bytes l e =
    regions_loop-WellFormed memory (suc (length bytes)) l 0
      (record { regions = []; stream_size = 0 }) bytes (omega arith, refl) (omega arith) e
