-- ===== src/Dearxan/ImageTables.antt =====
-- src/dearxan/image.c: the loops over the sections and relocations of a loaded image.
use yafsml.Prelude.{
  ℕ, zero, suc, ◌+◌, ◌-◌, ◌/◌, ◌%◌, ◌^◌, Bool, true, false, not, ◌||◌, Option, none, some, Bytes,
  ltb, leb, ◌==◌, if◌then◌else◌, drop, bit_and, Run, done, stuck, ◌>>=◌, read16, read32,
}
use yafsml.Dearxan.Image.{Directory, Image, image_nt_headers, read_directory, section_size}

-- What the callbacks are given and return: the answer and the new state of the caller.
pub record Section : Type 0 where
  pub va : ℕ
  pub bytes : Bytes
  pub size : ℕ

pub record Called {ℓ} (S : Type ℓ) : Type ℓ where
  pub result : Bool
  pub state : S

-- The section as it is reported, cut at the end of the image.
abbrev pub section_at : Image → ℕ → ℕ → Section
section_at image rva size = record {
  va = (image.base_va + rva) % 2 ^ 64;
  bytes = drop rva image.base;
  size = if ltb (image.size - rva) size then image.size - rva else size;
}

module _ {ℓ} {S : Type ℓ} where
  -- What a round goes on with: the caller's state, or the end of the loop.
  unfoldable pub report_section :
      Image → (S → Section → Called S) → (S → Run (Called S)) → S → ℕ → ℕ → Run (Called S)
  report_section image callback next state rva size =
      if leb image.size rva
      then next state
      else (let called = callback state (section_at image rva size) in
          if called.result then next called.state else done called)

  unfoldable pub visit_section :
      Image → (S → Section → Called S) → (S → Run (Called S)) → ℕ → S → Run (Called S)
  unfolding report_section
  visit_section image callback next place state = do
    rva ← read32 image.base (place + 12)
    virtual_size ← read32 image.base (place + 8)
    raw_size ← read32 image.base (place + 16)
    report_section image callback next state rva
        (if virtual_size == 0 then raw_size else virtual_size)

  -- The sections that are left, from the header at `place` on.
  unfoldable pub sections_loop : Image → (S → Section → Called S) → ℕ → ℕ → S → Run (Called S)
  unfolding visit_section
  sections_loop image callback zero place state = done (record { result = true; state = state })
  sections_loop image callback (suc left) place state =
      visit_section image callback (sections_loop image callback left (place + section_size)) place
        state

  unfoldable pub visit_sections : Image → (S → Section → Called S) → S → ℕ → Run (Called S)
  unfolding sections_loop
  visit_sections image callback state nt = do
    optional_size ← read16 image.base (nt + 20)
    count ← read16 image.base (nt + 6)
    let table = nt + 24 + optional_size
    if ltb image.size table || ltb ((image.size - table) / section_size) count
        then done (record { result = false; state = state })
        else sections_loop image callback count table state

  unfoldable pub dearxan_image_for_each_section :
      Option Image → (S → Section → Called S) → S → Run (Called S)
  unfolding image_nt_headers visit_sections
  dearxan_image_for_each_section none callback state =
      done (record { result = false; state = state })
  dearxan_image_for_each_section (some image) callback state = do
    headers ← image_nt_headers image
    elim headers [
      | none ↦ done (record { result = false; state = state })
      | some nt ↦ visit_sections image callback state nt
    ]

  -- One entry: its upper four bits are the kind, IMAGE_REL_BASED_DIR64 is 10.
  unfoldable pub report_relocation : (S → ℕ → Called S) → ℕ → ℕ → S → Called S
  report_relocation callback block_rva entry state =
      if entry / 2 ^ 12 == 10
      then callback state ((block_rva + bit_and entry 0xfff) % 2 ^ 32)
      else record { result = true; state = state }

  -- The entries of a block that are left, from `place` on.
  unfoldable pub entries_loop : Bytes → (S → ℕ → Called S) → ℕ → ℕ → ℕ → S → Run (Called S)
  unfolding report_relocation
  entries_loop base callback block_rva zero place state =
      done (record { result = true; state = state })
  entries_loop base callback block_rva (suc left) place state = do
    entry ← read16 base place
    let called = report_relocation callback block_rva entry state
    let rest = entries_loop base callback block_rva left (place + 2) called.state
    if called.result then rest else done called

  -- The block at `offset` of the directory, and the rest of the loop behind it.
  unfoldable pub visit_block :
      Bytes → (S → ℕ → Called S) → Directory → (ℕ → S → Run (Called S)) → ℕ → S → Run (Called S)
  unfolding entries_loop
  visit_block base callback directory next offset state = do
    block_rva ← read32 base (directory.rva + offset)
    block_size ← read32 base (directory.rva + offset + 4)
    if ltb block_size 8
          || ltb (directory.size - offset) block_size
          || not ((block_size - 8) % 2 == 0)
        then done (record { result = false; state = state })
        else (do
          called ←
              entries_loop base callback block_rva ((block_size - 8) / 2)
                (directory.rva + offset + 8) state
          if called.result then next (offset + block_size) called.state else done called)

  -- A round takes eight bytes at least.
  unfoldable pub blocks_loop : Bytes → (S → ℕ → Called S) → Directory → ℕ → ℕ → S → Run (Called S)
  unfolding visit_block
  blocks_loop base callback directory zero offset state = stuck
  blocks_loop base callback directory (suc fuel) offset state =
      if ltb offset directory.size
      then (if ltb (directory.size - offset) 8
          then done (record { result = false; state = state })
          else visit_block base callback directory (blocks_loop base callback directory fuel) offset
              state)
      else done (record { result = offset == directory.size; state = state })

  -- IMAGE_DIRECTORY_ENTRY_BASERELOC is 5.
  unfoldable pub visit_relocations : Image → (S → ℕ → Called S) → S → ℕ → Run (Called S)
  unfolding read_directory blocks_loop
  visit_relocations image callback state nt = do
    directory ← read_directory image.base nt 5
    if directory.rva == 0 || directory.size == 0
        then done (record { result = true; state = state })
        else if leb image.size directory.rva || ltb (image.size - directory.rva) directory.size
        then done (record { result = false; state = state })
        else blocks_loop image.base callback directory (suc directory.size) 0 state

  unfoldable pub dearxan_image_for_each_relocation64 :
      Option Image → (S → ℕ → Called S) → S → Run (Called S)
  unfolding image_nt_headers visit_relocations
  dearxan_image_for_each_relocation64 none callback state =
      done (record { result = false; state = state })
  dearxan_image_for_each_relocation64 (some image) callback state = do
    headers ← image_nt_headers image
    elim headers [
      | none ↦ done (record { result = false; state = state })
      | some nt ↦ visit_relocations image callback state nt
    ]
