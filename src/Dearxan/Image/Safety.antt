-- ===== src/Dearxan/Image/Safety.antt =====
-- src/dearxan/image.c: the walks over the headers, sections and relocations end and stay inside the
-- image, whatever bytes it holds.
use yafsml.Prelude.{
  ℕ, zero, suc, ◌+◌, ◌-◌, ◌*◌, ◌/◌, ◌≤◌, ◌<◌, Option, none, some, Bytes, arith, length, ltb, leb,
  ◌==◌, not, ◌||◌, Run, ◌>>=◌, Returns, returned, Returns-bind, Returns-if, read16_inside,
  read32_inside, ◌%◌, ◌^◌,
}
use yafsml.Dearxan.Image.{
  Image, Directory, nt_checks, lfanew_checks, image_headers, image_nt_headers, dos_signature,
  nt_size, dos_size, too_short, read_directory, directory_at, dearxan_image_data_directory,
}
use yafsml.Dearxan.ImageTables.{
  Called, entries_loop, visit_block, blocks_loop, visit_relocations,
  dearxan_image_for_each_relocation64, report_relocation,
}

-- The memory of an image is there, and there is some.
pub record IsLoaded (image : Image) : Type 0 where
  pub room : image.size ≤ length image.base
  pub nonempty : 0 < image.size

-- Headers that were found stand within the first `size` bytes.
abbrev pub Within : ℕ → Option ℕ → Type 0
Within size none = Unit {0}
Within size (some nt) = nt + 264 ≤ size

pub nt_checks-Within :
    (base : Bytes) (size place : ℕ)
    → size ≤ length base
    → place + 264 ≤ size
    → Returns (Within size) (nt_checks base place)
unfolding nt_checks
nt_checks-Within base size place room h =
    Returns-bind (read32_inside base place (omega arith)) λ signature _.
      Returns-bind (read16_inside base (place + 24) (omega arith))
        λ magic _. returned _ (ground arith)

lfanew_checks-Within :
    (base : Bytes) (size magic lfanew : ℕ)
    → size ≤ length base
    → 0 < size
    → Returns (Within size) (lfanew_checks base size magic lfanew)
unfolding lfanew_checks
lfanew_checks-Within base size magic lfanew room h =
    Returns-if (not (magic == dos_signature) || lfanew == 0 || leb (2 ^ 31) lfanew)
      (λ e. returned none tt)
      λ e.
        Returns-if (too_short size lfanew nt_size) (λ e. returned none tt)
          λ short. nt_checks-Within base size lfanew room (ground arith)

pub image_headers-Within :
    (base : Bytes) (size : ℕ)
    → size ≤ length base
    → 0 < size
    → Returns (Within size) (image_headers (some base) size)
unfolding image_headers
image_headers-Within base size room nonempty =
    Returns-if (too_short size 0 dos_size) (λ e. returned none tt)
      λ long.
        let enough : 64 ≤ length base = ground arith in
        Returns-bind (read16_inside base 0 (omega arith)) λ magic _.
          Returns-bind (read32_inside base 60 (omega arith))
            λ lfanew _. lfanew_checks-Within base size magic lfanew room nonempty

image_nt_headers-Within :
    (image : Image) → IsLoaded image → Returns (Within image.size) (image_nt_headers image)
unfolding image_nt_headers
image_nt_headers-Within image loaded =
    image_headers-Within image.base image.size loaded.room loaded.nonempty

-- What is done with headers that may not be there.
pub after_headers {ℓ κ} :
    {A : Type ℓ} {P : A → Type κ} (image : Image)
    → IsLoaded image
    → (missing : Run A) (found : ℕ → Run A) → Returns P missing
    → ((nt : ℕ) → nt + 264 ≤ image.size → Returns P (found nt))
    → Returns P (
        image_nt_headers image
        >>= (λ headers. elim headers as (λ _. Run A) [ none ↦ missing | some nt ↦ found nt ]))
after_headers {A} {P} image loaded missing found h k =
    Returns-bind (image_nt_headers-Within image loaded) λ headers within.
      elim headers
          as (λ o.
            Within image.size o
            → Returns P (elim o as (λ _. Run A) [ none ↦ missing | some nt ↦ found nt ])) [
              | none ↦ λ _. h
              | some nt ↦ λ w. k nt w
            ]
        within

abbrev pub Anything {ℓ} : {A : Type ℓ} → A → Type 0
Anything a = Unit {0}

pub read_directory_inside :
    (base : Bytes) (nt index : ℕ)
    → nt + 144 + 8 * index ≤ length base
    → Returns Anything (read_directory base nt index)
unfolding read_directory
read_directory_inside base nt index h =
    Returns-bind (read32_inside base (nt + 136 + 8 * index) (omega arith)) λ rva _.
      Returns-bind (read32_inside base (nt + 140 + 8 * index) (omega arith)) λ size _. returned _ tt

directory_at_inside :
    (base : Bytes) (nt index : ℕ)
    → nt + 264 ≤ length base
    → Returns Anything (directory_at base index nt)
unfolding directory_at
directory_at_inside base nt index h =
    Returns-bind (read32_inside base (nt + 132) (omega arith)) λ count _.
      Returns-if (leb count index || leb 16 index) (λ e. returned none tt)
        λ few.
          Returns-bind (read_directory_inside base nt index (ground arith))
            λ directory _. returned _ tt

pub dearxan_image_data_directory_ends :
    (image : Image) (index : ℕ)
    → IsLoaded image
    → Returns Anything (dearxan_image_data_directory (some image) index)
unfolding dearxan_image_data_directory
dearxan_image_data_directory_ends image index loaded =
    after_headers image loaded _ _ (returned _ tt)
      λ nt h. directory_at_inside image.base nt index (omega (arith, loaded.room))

module _ {ℓ} {S : Type ℓ} where
  entries_loop-Anything :
      (base : Bytes) (callback : S → ℕ → Called S) (block_rva left place : ℕ) (state : S)
      → place + 2 * left ≤ length base
      → Returns Anything (entries_loop base callback block_rva left place state)
  unfolding entries_loop
  entries_loop-Anything base callback block_rva zero place state h = returned _ tt
  entries_loop-Anything base callback block_rva (suc left) place state h =
      Returns-bind (read16_inside base place (omega arith)) λ entry _.
        Returns-if (report_relocation callback block_rva entry state).result
          (λ e. entries_loop-Anything base callback block_rva left (place + 2) _ (omega arith))
          (λ e. returned _ tt)

  blocks_loop-Anything :
      (base : Bytes) (callback : S → ℕ → Called S) (directory : Directory) (fuel offset : ℕ)
      (state : S)
      → directory.rva + directory.size ≤ length base
      → directory.size - offset < fuel
      → Returns Anything (blocks_loop base callback directory fuel offset state)
  unfolding blocks_loop visit_block
  blocks_loop-Anything base callback directory zero offset state room h = absurd (omega arith)
  blocks_loop-Anything base callback directory (suc fuel) offset state room h =
      Returns-if (ltb offset directory.size)
        (λ more.
          Returns-if (ltb (directory.size - offset) 8) (λ e. returned _ tt)
            λ header.
              Returns-bind (read32_inside base (directory.rva + offset) (ground arith))
                λ block_rva _.
                  Returns-bind (read32_inside base (directory.rva + offset + 4) (ground arith))
                    λ block_size _.
                      Returns-if
                        (ltb block_size 8
                          || ltb (directory.size - offset) block_size
                          || not ((block_size - 8) % 2 == 0))
                        (λ e. returned _ tt)
                        λ fits.
                          Returns-bind
                            (entries_loop-Anything base callback block_rva ((block_size - 8) / 2)
                              (directory.rva + offset + 8) state (ground arith))
                            λ called _.
                              Returns-if called.result
                                (λ e.
                                  blocks_loop-Anything base callback directory fuel
                                    (offset + block_size) called.state room (ground arith))
                                (λ e. returned _ tt))
        (λ e. returned _ tt)

  visit_relocations-Anything :
      (image : Image) (callback : S → ℕ → Called S) (state : S) (nt : ℕ)
      → IsLoaded image
      → nt + 264 ≤ image.size
      → Returns Anything (visit_relocations image callback state nt)
  unfolding visit_relocations
  visit_relocations-Anything image callback state nt loaded h =
      Returns-bind (read_directory_inside image.base nt 5 (omega (arith, loaded.room)))
        λ directory _.
          Returns-if (directory.rva == 0 || directory.size == 0) (λ e. returned _ tt)
            λ e.
              Returns-if
                (leb image.size directory.rva || ltb (image.size - directory.rva) directory.size)
                (λ e. returned _ tt)
                λ fits.
                  blocks_loop-Anything image.base callback directory (suc directory.size) 0 state
                    (ground (arith, loaded.room)) (omega arith)

  -- Whatever bytes an image that is loaded and not empty holds, the walk over its relocations
  -- ends and reads no byte outside of it, with every callback.
  pub dearxan_image_for_each_relocation64_ends :
      (image : Image) (callback : S → ℕ → Called S) (state : S)
      → IsLoaded image
      → Returns Anything (dearxan_image_for_each_relocation64 (some image) callback state)
  unfolding dearxan_image_for_each_relocation64
  dearxan_image_for_each_relocation64_ends image callback state loaded =
      after_headers image loaded _ _ (returned _ tt)
        λ nt h. visit_relocations-Anything image callback state nt loaded h
