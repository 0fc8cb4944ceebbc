-- ===== src/Dearxan/Entropy.antt =====
-- src/dearxan/encryption.c: the entropy of bytes, over numbers of type double that are a parameter.
use yafsml.Prelude.{
  ℕ, ◌+◌, ◌%◌, ◌^◌, Bool, Option, none, some, List, [], ◌∷◌, Bytes, ◌==◌, if◌then◌else◌, length,
  get_elem?, set, take, replicate,
}
use yafsml.Dearxan.Encryption.{EncryptedRegion}
use yafsml.Dearxan.Image.{Image, dearxan_image_read}

-- What the code does with numbers of type double.
pub record Doubles : Type 1 where
  pub Double : Type 0
  pub zero_double : Double
  pub nan : Double
  pub of_size : ℕ → Double
  pub log2 : Double → Double
  pub add : Double → Double → Double
  pub subtract : Double → Double → Double
  pub multiply : Double → Double → Double
  pub divide : Double → Double → Double
  pub is_above : Double → Double → Bool
  pub is_at_least : Double → Double → Bool

abbrev pub count_byte : List ℕ → ℕ → List ℕ
count_byte distribution b = elim (get_elem? distribution b) [
  | none ↦ distribution
  | some n ↦ set distribution b (n + 1)
]

unfoldable pub count_bytes : List ℕ → Bytes → List ℕ
count_bytes distribution [] = distribution
count_bytes distribution (b ∷ bytes) = count_bytes (count_byte distribution b) bytes

-- The distribution, and the number of bytes that it counts.
pub record Counted : Type 0 where
  pub distribution : List ℕ
  pub size : ℕ

abbrev pub nothing_counted : Counted
nothing_counted = record { distribution = replicate 256 0; size = 0 }

-- A region that the image does not hold is not counted.
unfoldable pub count_regions : Image → List EncryptedRegion → Counted → Counted
unfolding dearxan_image_read count_bytes
count_regions image [] c = c
count_regions image (r ∷ regions) c =
    count_regions image regions
      (elim (dearxan_image_read (some image) ((image.base_va + r.rva) % 2 ^ 64) r.size) [
        | none ↦ c
        | some read ↦ record {
          distribution = count_bytes c.distribution (take r.size read.bytes);
          size = c.size + r.size;
        }
      ])

module _ (d : Doubles) where
  unfoldable pub entropy_sum : d.Double → List ℕ → d.Double → d.Double
  entropy_sum length_log2 [] sum = sum
  entropy_sum length_log2 (n ∷ ns) sum = entropy_sum length_log2 ns (
      if n == 0
      then sum
      else d.add sum (d.multiply (d.of_size n) (d.subtract length_log2 (d.log2 (d.of_size n)))))

  unfoldable pub entropy_of : Counted → d.Double
  unfolding entropy_sum
  entropy_of c =
      if c.size == 0
      then d.nan
      else d.divide (entropy_sum (d.log2 (d.of_size c.size)) c.distribution d.zero_double)
          (d.of_size c.size)

  unfoldable pub dearxan_shannon_entropy : Option Bytes → d.Double
  unfolding entropy_of count_bytes
  dearxan_shannon_entropy none = d.nan
  dearxan_shannon_entropy (some bytes) =
      entropy_of
        (record { distribution = count_bytes (replicate 256 0) bytes; size = length bytes })

  unfoldable pub image_region_entropy : Image → List EncryptedRegion → d.Double
  unfolding entropy_of count_regions
  image_region_entropy image regions = entropy_of (count_regions image regions nothing_counted)
