-- ===== src/Dearxan/Encryption.antt =====
-- src/dearxan/encryption.c: the block ciphers and the list of encrypted regions. Words are unsigned
-- numbers of 32 bits; a size_t has 64.
pub mod Varint
pub mod Enough
pub mod Regions
use yafsml.Prelude.{
  ℕ, zero, suc, ◌+◌, ◌-◌, ◌*◌, ◌/◌, ◌%◌, ◌^◌, Bool, true, false, not, ◌&&◌, ◌||◌, Option, none,
  some, List, [], ◌∷◌, ◌++◌, Bytes, ltb, leb, ◌==◌, if◌then◌else◌, length, drop, bit_and, bit_or,
  bit_xor,
}

-- UINT32_MAX + 1, and arithmetic on words.
abbrev pub word : ℕ
word = 2 ^ 32

abbrev pub uint32_max : ℕ
uint32_max = 2 ^ 32 - 1

abbrev pub size_max : ℕ
size_max = 2 ^ 64 - 1

abbrev pub add32 : ℕ → ℕ → ℕ
add32 a b = (a + b) % word

abbrev pub sub32 : ℕ → ℕ → ℕ
sub32 a b = (a + (word - b % word)) % word

abbrev pub mul32 : ℕ → ℕ → ℕ
mul32 a b = (a * b) % word

abbrev pub shift_left32 : ℕ → ℕ → ℕ
shift_left32 a n = (a * 2 ^ n) % word

abbrev pub shift_right32 : ℕ → ℕ → ℕ
shift_right32 a n = a / 2 ^ n

abbrev pub not32 : ℕ → ℕ
not32 a = uint32_max - a

unfoldable pub rotate_left32 : ℕ → ℕ → ℕ
rotate_left32 value count =
    let n = count % 32 in
    if n == 0 then value else bit_or (shift_left32 value n) (shift_right32 value (32 - n))

-- The two words of a block, and the four of a key.
pub record TeaBlock : Type 0 where
  pub low : ℕ
  pub high : ℕ

pub record TeaKey : Type 0 where
  pub key0 : ℕ
  pub key1 : ℕ
  pub key2 : ℕ
  pub key3 : ℕ

-- `((x << 4) + a) ^ (x + sum) ^ ((x >> 5) + b)`
abbrev pub tea_mix : ℕ → ℕ → ℕ → ℕ → ℕ
tea_mix sum a b x =
    bit_xor (bit_xor (add32 (shift_left32 x 4) a) (add32 x sum)) (add32 (shift_right32 x 5) b)

abbrev pub tea_round : TeaKey → ℕ → TeaBlock → TeaBlock
tea_round key sum block =
    let high = sub32 block.high (tea_mix sum key.key2 key.key3 block.low) in
    record { low = sub32 block.low (tea_mix sum key.key0 key.key1 high); high = high }

-- The rounds that are left.
unfoldable pub tea_loop : ℕ → TeaKey → ℕ → TeaBlock → TeaBlock
tea_loop zero key sum block = block
tea_loop (suc n) key sum block = tea_loop n key (sub32 sum 0x9e3779b9) (tea_round key sum block)

unfoldable pub dearxan_tea_decrypt : TeaBlock → TeaKey → TeaBlock
unfolding tea_loop
dearxan_tea_decrypt block key = tea_loop 32 key 0xc6ef3720 block

-- The decrypted word, and the new key and rotation.
pub record Rmx : Type 0 where
  pub block : ℕ
  pub key : ℕ
  pub key_rotation : ℕ

unfoldable pub dearxan_rmx_decrypt : ℕ → ℕ → ℕ → Rmx
unfolding rotate_left32
dearxan_rmx_decrypt block key key_rotation =
    let key' = rotate_left32 key key_rotation in
    let block' = sub32 block (mul32 key' key_rotation) in
    record { block = block'; key = key'; key_rotation = bit_xor key_rotation (not32 block') }

unfoldable pub dearxan_sub_decrypt : ℕ → ℕ → ℕ
dearxan_sub_decrypt block key = sub32 key block

-- What `dearxan_read_varint` reports: the bytes it has consumed and the value.
pub record ReadVarint : Type 0 where
  pub consumed : ℕ
  pub value : ℕ

-- The test that refuses a payload: no room for it above `shift`, or in the sum.
abbrev pub too_wide : ℕ → ℕ → Bool
too_wide shift payload =
    leb 32 shift || (not (payload == 0) && ltb (uint32_max / 2 ^ shift) payload)

unfoldable pub varint_loop : ℕ → ℕ → ℕ → Bytes → Option ReadVarint
varint_loop i result shift [] = none
varint_loop i result shift (b ∷ bs) =
    let payload = bit_and b 0x7f in
    let shifted = shift_left32 payload shift in
    let more = varint_loop (i + 1) (add32 result shifted) (shift + 7) bs in
    if too_wide shift payload
    then none
    else if ltb (uint32_max - shifted) result
    then none
    else if ltb b 0x80
    then some (record { consumed = i + 1; value = add32 result shifted })
    else more

unfoldable pub dearxan_read_varint : Bytes → Option ReadVarint
unfolding varint_loop
dearxan_read_varint bytes = varint_loop 0 0 0 bytes

-- dearxan_encrypted_region_t
pub record EncryptedRegion : Type 0 where
  pub stream_offset : ℕ
  pub size : ℕ
  pub rva : ℕ

-- The regions read, and the size of their stream.
pub record RegionList : Type 0 where
  pub regions : List EncryptedRegion
  pub stream_size : ℕ

-- What the second number adds, behind the sum `rva` of the first one.
unfoldable pub append_region : ℕ → RegionList → ReadVarint → Option RegionList
append_region rva l size =
    if size.value == 0
      || ltb (uint32_max - size.value) rva
      || ltb (size_max - size.value) l.stream_size
    then none
    else some (record {
      regions =
          l.regions
          ++ (record { stream_offset = l.stream_size; size = size.value; rva = rva } ∷ []);
      stream_size = (l.stream_size + size.value) % 2 ^ 64;
    })

-- The rest of the loop: the sum `rva` and the bytes left go in. `memory` is what
-- dearxan_reserve_array answers for a number of items.
abbrev pub Rest : Type 0
Rest = ℕ → RegionList → Bytes → Option RegionList

-- From the second number of a round on.
unfoldable pub read_region : (ℕ → Bool) → Rest → ℕ → RegionList → Bytes → Option RegionList
unfolding dearxan_read_varint append_region
read_region memory again rva l bytes = elim (dearxan_read_varint bytes) [
  | none ↦ none
  | some size ↦ elim (append_region rva l size) [
    | none ↦ none
    | some l' ↦
        let next = again (add32 rva size.value) l' (drop size.consumed bytes) in
        if memory (length l.regions + 1) then next else none
  ]
]

-- From the first number on.
unfoldable pub read_delta :
    (ℕ → Bool) → Rest → ℕ → RegionList → Bytes → ReadVarint → Option RegionList
unfolding read_region
read_delta memory again rva l bytes delta =
    let rva' = add32 rva delta.value in
    let next = read_region memory again rva' l (drop delta.consumed bytes) in
    if delta.value == 0 || ltb (uint32_max - delta.value) rva
    then none
    else if rva' == uint32_max
    then some l
    else next

-- Each round takes a byte at least.
unfoldable pub regions_loop : (ℕ → Bool) → ℕ → Rest
unfolding dearxan_read_varint read_delta
regions_loop memory zero rva l bytes = none
regions_loop memory (suc fuel) rva l bytes = elim (dearxan_read_varint bytes) [
  | none ↦ none
  | some delta ↦ read_delta memory (regions_loop memory fuel) rva l bytes delta
]

unfoldable pub dearxan_parse_encrypted_regions : (ℕ → Bool) → Bytes → Option RegionList
unfolding regions_loop
dearxan_parse_encrypted_regions memory bytes =
    regions_loop memory (suc (length bytes)) 0 (record { regions = []; stream_size = 0 }) bytes

unfoldable pub regions_intersect : EncryptedRegion → EncryptedRegion → Bool
regions_intersect left right =
    let left_end = left.rva + left.size in
    let right_end = right.rva + right.size in
    if ltb left_end right_end then ltb right.rva left_end else ltb left.rva right_end
