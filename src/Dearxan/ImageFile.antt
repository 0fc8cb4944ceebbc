-- ===== src/Dearxan/ImageFile.antt =====
-- src/dearxan/image.c: dearxan_image_set_preferred_base_from_file reads the headers of a file, with a buffer
-- that grows once they are found to stand behind it. `memory` is what realloc answers for a number of bytes.
pub mod Ends
pub mod Whole
pub mod Same
use yafsml.Prelude.{
  ℕ, zero, suc, ◌+◌, ◌^◌, Bool, true, false, not, ◌||◌, Option, none, some, Bytes, ltb, leb, ◌==◌,
  if◌then◌else◌, length, Run, done, stuck, ◌>>=◌, read16, read32, read64,
}
use yafsml.Dearxan.Encryption.{uint32_max}
use yafsml.Dearxan.Image.{Image, image_headers, dos_signature, dos_size, nt_size}

-- What a round finds: headers, a reason to stop, or how many bytes the headers need.
pub data Headers : Type 0 where
  found : ℕ → Headers
  stop : Headers
  grow : ℕ → Headers

-- Without headers in the `read_size` bytes that were read of `size` ones.
abbrev pub needed_size : ℕ → ℕ → ℕ → ℕ → Headers
needed_size read_size size magic lfanew =
    let needed = lfanew + nt_size in
    if not (magic == dos_signature) || lfanew == 0 || leb (2 ^ 31) lfanew
    then stop
    else if ltb read_size size || leb needed read_size || ltb uint32_max needed
    then stop
    else grow needed

unfoldable pub look_for_headers : Bytes → ℕ → Run Headers
unfolding image_headers
look_for_headers headers size = do
  nt ← image_headers (some headers) (length headers)
  magic ← read16 headers 0
  lfanew ← read32 headers 60
  done (elim nt as (λ x. Headers) [
    | none ↦ needed_size (length headers) size magic lfanew
    | some place ↦ found place
  ])

-- The base in the headers at `nt`; 0 stands for none.
unfoldable pub base_at : Bytes → ℕ → Run (Option ℕ)
base_at headers nt = do
  base ← read64 headers (nt + 48)
  done (if base == 0 then none else some base)

-- What is done with what was read, and `again` with more bytes.
unfoldable pub after_read : (ℕ → Run (Option ℕ)) → ℕ → Bytes → Run (Option ℕ)
unfolding look_for_headers base_at
after_read again size headers = if ltb (length headers) dos_size then done none else do
  looked ← look_for_headers headers size
  elim looked [ found nt ↦ base_at headers nt | stop ↦ done none | grow needed ↦ again needed ]

-- `read_start` is what is read of a number of bytes from the start of the file on, and `none` where the file
-- pointer cannot be set or nothing can be read. A loop asks for more bytes in each round, so what it is given
-- may also change from round to round.
module _ (memory : ℕ → Bool) (read_start : ℕ → Option Bytes) where
  unfoldable pub headers_loop : ℕ → ℕ → Run (Option ℕ)
  unfolding after_read
  headers_loop zero size = stuck
  headers_loop (suc fuel) size =
      let read = elim (read_start size) as (λ x. Run (Option ℕ)) [
        | none ↦ done none
        | some headers ↦ after_read (headers_loop fuel) size headers
      ] in
      if not (memory size) then done none else read

-- The image with the base that was found.
abbrev pub with_base : Image → Option ℕ → Option Image
with_base image none = none
with_base image (some base) = some (record image { preferred_base = base })

-- `file` is `none` where there is no path or the file cannot be opened. The answer is `none` for false, which
-- leaves the image as it is. As the size grows to 2 ^ 32 - 1 at most, 2 ^ 32 rounds are enough.
unfoldable pub dearxan_image_set_preferred_base_from_file :
    (ℕ → Bool) → Option Image → Option (ℕ → Option Bytes) → Run (Option Image)
unfolding headers_loop
dearxan_image_set_preferred_base_from_file memory none file = done none
dearxan_image_set_preferred_base_from_file memory (some image) none = done none
dearxan_image_set_preferred_base_from_file memory (some image) (some read_start) = do
  base ← headers_loop memory read_start (2 ^ 32) 0x1000
  done (with_base image base)
