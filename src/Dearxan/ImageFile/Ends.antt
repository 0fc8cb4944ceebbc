-- ===== src/Dearxan/ImageFile/Ends.antt =====
-- src/dearxan/image.c: the loop that reads the headers of a file ends, as its buffer grows in each round.
use yafsml.Prelude.{
  ℕ, zero, suc, ◌+◌, ◌^◌, ◌≤◌, ◌<◌, ◌≡◌, refl, Bool, not, ◌||◌, Option, none, some, Bytes, ltb, leb,
  ◌==◌, length, arith, if_lem, Run, done, Returns, returned, Returns-bind, Returns-if,
  read16_inside, read32_inside, read64_inside,
}
use yafsml.Dearxan.Encryption.{uint32_max}
use yafsml.Dearxan.Image.{Image, dos_signature, dos_size, nt_size}
use yafsml.Dearxan.Image.Safety.{Within, image_headers-Within}
use yafsml.Dearxan.ImageFile.{
  Headers, found, stop, grow, needed_size, look_for_headers, base_at, after_read, headers_loop,
  with_base, dearxan_image_set_preferred_base_from_file,
}

-- What a round may find: headers within the bytes that were read, or more bytes than were asked for.
abbrev Looked : Bytes → ℕ → Headers → Type 0
Looked headers size (found nt) = nt + 264 ≤ length headers
Looked headers size stop = Unit {0}
Looked headers size (grow needed) =
    (size ≤ length headers) × (length headers < needed) × (needed ≤ uint32_max)

needed_size-Looked :
    (headers : Bytes) (size magic lfanew : ℕ)
    → Looked headers size (needed_size (length headers) size magic lfanew)
needed_size-Looked headers size magic lfanew =
    if_lem (Looked headers size)
      (not (magic == dos_signature) || lfanew == 0 || leb (2 ^ 31) lfanew) _ _ (λ e. tt)
      (λ e.
        if_lem (Looked headers size)
          (ltb (length headers) size
            || leb (lfanew + nt_size) (length headers)
            || ltb uint32_max (lfanew + nt_size))
          _ _ (λ f. tt) (λ f. (ground arith, ground arith, ground arith)))

look_for_headers-Looked :
    (headers : Bytes) (size : ℕ)
    → 64 ≤ length headers
    → Returns (Looked headers size) (look_for_headers headers size)
unfolding look_for_headers
look_for_headers-Looked headers size room =
    Returns-bind (image_headers-Within headers (length headers) (omega arith) (omega arith))
      λ nt within. Returns-bind (read16_inside headers 0 (omega arith)) λ magic _.
        Returns-bind (read32_inside headers 60 (omega arith))
          λ lfanew _. returned _ (of_headers nt within magic lfanew)
  where
    of_headers :
        (nt : Option ℕ)
        → Within (length headers) nt
        → (magic lfanew : ℕ)
        → Looked headers size (elim nt as (λ x. Headers) [
          | none ↦ needed_size (length headers) size magic lfanew
          | some place ↦ found place
        ])
    of_headers none within magic lfanew = needed_size-Looked headers size magic lfanew
    of_headers (some place) within magic lfanew = within

-- A base that is found is not 0.
abbrev IsBase : Option ℕ → Type 0
IsBase none = Unit {0}
IsBase (some base) = 0 < base

base_at-IsBase :
    (headers : Bytes) (nt : ℕ) → nt + 264 ≤ length headers → Returns IsBase (base_at headers nt)
unfolding base_at
base_at-IsBase headers nt within =
    Returns-bind (read64_inside headers (nt + 48) (omega arith))
      λ base _. returned _ (if_lem IsBase (base == 0) _ _ (λ e. tt) (λ e. ground arith))

after_read-IsBase :
    (again : ℕ → Run (Option ℕ)) (size : ℕ) (headers : Bytes)
    → length headers ≤ size
    → ((needed : ℕ) → size < needed → needed ≤ uint32_max → Returns IsBase (again needed))
    → Returns IsBase (after_read again size headers)
unfolding after_read
after_read-IsBase again size headers at_most more =
    Returns-if (ltb (length headers) dos_size) (λ e. returned _ tt)
      λ long. Returns-bind (look_for_headers-Looked headers size (ground arith)) of_looked
  where
    of_looked :
        (looked : Headers)
        → Looked headers size looked
        → Returns IsBase (elim looked as (λ x. Run (Option ℕ)) [
          | found nt ↦ base_at headers nt
          | stop ↦ done none
          | grow needed ↦ again needed
        ])
    of_looked (found nt) within = base_at-IsBase headers nt within
    of_looked stop tt = returned _ tt
    of_looked (grow needed) (full, above, small) = more needed (omega arith) small

-- What is said of an image whose base is set.
abbrev pub IsRebased : Image → Option Image → Type 0
IsRebased image none = Unit {0}
IsRebased image (some after) =
    (0 < after.preferred_base) × (after ≡ record image { preferred_base = after.preferred_base })

module _ (memory : ℕ → Bool) (read_start : ℕ → Option Bytes)
    (at_most : (n : ℕ) (bytes : Bytes) → read_start n ≡ some bytes → length bytes ≤ n) where
  headers_loop-IsBase :
      (fuel size : ℕ)
      → size ≤ uint32_max
      → uint32_max < fuel + size
      → Returns IsBase (headers_loop memory read_start fuel size)
  unfolding headers_loop after_read
  headers_loop-IsBase zero size small enough = absurd (omega arith)
  headers_loop-IsBase (suc fuel) size small enough =
      Returns-if (not (memory size)) (λ e. returned _ tt)
        (λ e.
          of_read (read_start size) refl
            (λ needed above fits. headers_loop-IsBase fuel needed fits (omega arith)))
    where
      of_read :
          (o : Option Bytes)
          → read_start size ≡ o
          → ((needed : ℕ)
              → size < needed
              → needed ≤ uint32_max
              → Returns IsBase (headers_loop memory read_start fuel needed))
          → Returns IsBase (elim o as (λ x. Run (Option ℕ)) [
            | none ↦ done none
            | some headers ↦ after_read (headers_loop memory read_start fuel) size headers
          ])
      of_read none e more = returned _ tt
      of_read (some headers) e more =
          after_read-IsBase (headers_loop memory read_start fuel) size headers
            (at_most size headers e) more

  -- Whatever a file holds, even where its bytes change from read to read, and wherever memory or
  -- a read fails: as long as no more bytes are read than were asked for, the loop that reads its
  -- headers ends and looks at no byte behind those that were read. An image that gets a base gets
  -- one that is not 0, and nothing else of it changes.
  pub dearxan_image_set_preferred_base_from_file_ends :
      (image : Image)
      → Returns
          (IsRebased image)
          (dearxan_image_set_preferred_base_from_file memory (some image) (some read_start))
  unfolding dearxan_image_set_preferred_base_from_file
  dearxan_image_set_preferred_base_from_file_ends image =
      Returns-bind (headers_loop-IsBase (2 ^ 32) 0x1000 (omega arith) (omega arith)) of_base
    where
      of_base :
          (base : Option ℕ) → IsBase base → Returns (IsRebased image) (done (with_base image base))
      of_base none h = returned _ tt
      of_base (some base) h = returned _ (h, refl)
