-- ===== src/Dearxan/ImageTests.antt =====
-- Runs of src/dearxan/image.c: the base in the headers of a file, and sections that are made writable.
use yafsml.Prelude.{
  ℕ, ◌≤◌, ◌≡◌, refl, subst, true, some, [], ◌∷◌, ◌++◌, Bytes, ltb, length, take, length-take,
  replicate, arith, some, done, ◌>>=◌, Returns, read16, read32, read64,
}
use mathlib.Core.Option.{some-injective}
use yafsml.Dearxan.Image.{Image}
use yafsml.Dearxan.ImageTables.{dearxan_image_for_each_section}
use yafsml.Dearxan.ImageProtection.{dearxan_image_make_sections_rwe}
use yafsml.Dearxan.ImageProtection.Walks.{
  protect_section, dearxan_image_make_sections_rwe-for_each_section,
}
use yafsml.Dearxan.ImageFile.{with_base, dearxan_image_set_preferred_base_from_file}
use yafsml.Dearxan.ImageFile.Whole.{whole_file_base}
use yafsml.Dearxan.ImageFile.Ends.{IsRebased, dearxan_image_set_preferred_base_from_file_ends}
use yafsml.Dearxan.ImageFile.Same.{
  read_file, dearxan_image_set_preferred_base_from_file-whole_file_base,
}

-- Headers at 64 with the base 0x140000000, and one section of eight bytes at 344, another without bytes.
abbrev headers : Bytes
headers =
    (0x4d ∷ 0x5a ∷ replicate 58 0)
    ++ (64 ∷ 0 ∷ 0 ∷ 0 ∷ [])
    ++ (0x50 ∷ 0x45 ∷ 0 ∷ 0 ∷ 0 ∷ 0 ∷ 2 ∷ 0 ∷ replicate 12 0)
    ++ (240 ∷ 0 ∷ 0 ∷ 0 ∷ 0x0b ∷ 0x02 ∷ replicate 22 0)
    ++ (0 ∷ 0 ∷ 0 ∷ 0x40 ∷ 1 ∷ 0 ∷ 0 ∷ 0 ∷ replicate 208 0)
    ++ (replicate 8 0 ++ 8 ∷ 0 ∷ 0 ∷ 0 ∷ 88 ∷ 1 ∷ 0 ∷ 0 ∷ replicate 24 0)
    ++ replicate 40 0

abbrev loaded : Image
loaded = record {
  base = headers;
  size = length headers;
  base_va = 0x7ff600000000;
  preferred_base = 0;
  entrypoint_rva = 0;
}

base_run :
    dearxan_image_set_preferred_base_from_file (λ n. true) (some loaded) (some (read_file headers))
    ≡ done (some (record loaded { preferred_base = 0x140000000 }))
unfolding dearxan_image_set_preferred_base_from_file read16 read32 read64
base_run = refl

sections_run :
    dearxan_image_make_sections_rwe (λ part. true) (some loaded)
    ≡ done (record { result = true; state = record { va = 0x7ff600000158; size = 8 } ∷ [] })
unfolding dearxan_image_make_sections_rwe read16 read32
sections_run = refl

dearxan_image_make_sections_rwe-for_each_section_example :
    dearxan_image_make_sections_rwe (λ part. ltb part.size 9) (some loaded)
    ≡ dearxan_image_for_each_section (some loaded) (protect_section (λ part. ltb part.size 9)) []
dearxan_image_make_sections_rwe-for_each_section_example =
    dearxan_image_make_sections_rwe-for_each_section (λ part. ltb part.size 9) (some loaded)

read_file-at_most : (n : ℕ) (bytes : Bytes) → read_file headers n ≡ some bytes → length bytes ≤ n
read_file-at_most n bytes e =
    subst (λ t. length t ≤ n) (some-injective (take n headers) bytes e)
      (omega (arith, length-take n headers))

dearxan_image_set_preferred_base_from_file_ends_example : Returns (IsRebased loaded) (
    dearxan_image_set_preferred_base_from_file
      (λ n. ltb n 5000)
      (some loaded)
      (some (read_file headers)))
dearxan_image_set_preferred_base_from_file_ends_example =
    dearxan_image_set_preferred_base_from_file_ends (λ n. ltb n 5000) (read_file headers)
      read_file-at_most loaded

dearxan_image_set_preferred_base_from_file-whole_file_base_example :
    dearxan_image_set_preferred_base_from_file (λ n. true) (some loaded) (some (read_file headers))
    ≡ (do base ← whole_file_base headers; done (with_base loaded base))
dearxan_image_set_preferred_base_from_file-whole_file_base_example =
    dearxan_image_set_preferred_base_from_file-whole_file_base headers loaded
