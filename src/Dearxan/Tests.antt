-- ===== src/Dearxan/Tests.antt =====
-- Runs of the readers of encrypted regions, and the theorems at inputs that meet their hypotheses.
use yafsml.Prelude.{ℕ, ◌≡◌, refl, Bool, true, some, [], ◌∷◌, Bytes, arith}
use yafsml.Dearxan.Encryption.{RegionList, dearxan_read_varint, dearxan_parse_encrypted_regions}
use yafsml.Dearxan.Encryption.Varint.{write_varint, dearxan_read_varint-write_varint}
use yafsml.Dearxan.Encryption.Regions.{WellFormed, dearxan_parse_encrypted_regions-WellFormed}

abbrev memory : ℕ → Bool
memory n = true

-- Two regions, and the number that takes the sum to its end.
abbrev stream : Bytes
stream = 0x80 ∷ 0x20 ∷ 0x10 ∷ 0x05 ∷ 0x03 ∷ 0xe7 ∷ 0xdf ∷ 0xff ∷ 0xff ∷ 0x0f ∷ []

abbrev two_regions : RegionList
two_regions = record {
  regions =
      (record { stream_offset = 0; size = 16; rva = 4096 })
      ∷ (record { stream_offset = 16; size = 3; rva = 4117 })
      ∷ [];
  stream_size = 19;
}

parse_runs : dearxan_parse_encrypted_regions memory stream ≡ some two_regions
unfolding dearxan_parse_encrypted_regions
parse_runs = refl

dearxan_parse_encrypted_regions-WellFormed_example : WellFormed two_regions
dearxan_parse_encrypted_regions-WellFormed_example =
    dearxan_parse_encrypted_regions-WellFormed memory stream two_regions parse_runs

dearxan_read_varint-write_varint_example :
    dearxan_read_varint (0xac ∷ 0x02 ∷ 0x07 ∷ []) ≡ some (record { consumed = 2; value = 300 })
unfolding write_varint
dearxan_read_varint-write_varint_example =
    dearxan_read_varint-write_varint 300 (0x07 ∷ []) (omega arith)
