-- ===== src/Dearxan/ImageProtection.antt =====
-- src/dearxan/image.c: dearxan_image_make_sections_rwe makes the sections of an image writable. The bytes
-- of the image stand at its base_va.
pub mod Walks
use yafsml.Prelude.{
  ℕ, zero, suc, ◌+◌, ◌-◌, ◌*◌, ◌/◌, ◌%◌, ◌^◌, Bool, true, false, ◌||◌, Option, none, some, List, [],
  ◌∷◌, ltb, leb, ◌==◌, if◌then◌else◌, Run, done, ◌>>=◌, read16, read32,
}
use yafsml.Dearxan.Image.{Image, image_nt_headers, section_size}
use yafsml.Dearxan.ImageTables.{Called}

-- What VirtualProtect was called with.
pub record Part : Type 0 where
  pub va : ℕ
  pub size : ℕ

-- `virtual_protect` is what VirtualProtect answers; the state has the parts that were made writable, the
-- last one first.
abbrev pub protect_part : (Part → Bool) → Part → List Part → Called (List Part)
protect_part virtual_protect part parts =
    if virtual_protect part
    then record { result = true; state = part ∷ parts }
    else record { result = false; state = parts }

-- The part of a section, cut at the end of the image.
abbrev pub part_at : Image → ℕ → ℕ → Part
part_at image rva size = record {
  va = (image.base_va + rva) % 2 ^ 64;
  size = if ltb (image.size - rva) size then image.size - rva else size;
}

-- The sections that are left, from the header at `place` on.
unfoldable pub protect_loop : (Part → Bool) → Image → ℕ → ℕ → List Part → Run (Called (List Part))
protect_loop virtual_protect image zero place parts = done (record { result = true; state = parts })
protect_loop virtual_protect image (suc left) place parts = do
  rva ← read32 image.base (place + 12)
  virtual_size ← read32 image.base (place + 8)
  raw_size ← read32 image.base (place + 16)
  let size = if virtual_size == 0 then raw_size else virtual_size
  let called = protect_part virtual_protect (part_at image rva size) parts
  let skipped = protect_loop virtual_protect image left (place + section_size) parts
  let rest = protect_loop virtual_protect image left (place + section_size) called.state
  if size == 0 || leb image.size rva then skipped else (if called.result then rest else done called)

unfoldable pub protect_sections : (Part → Bool) → Image → ℕ → Run (Called (List Part))
unfolding protect_loop
protect_sections virtual_protect image nt = do
  optional_size ← read16 image.base (nt + 20)
  count ← read16 image.base (nt + 6)
  let table = nt + 24 + optional_size
  if ltb image.size table || ltb ((image.size - table) / section_size) count
      then done (record { result = false; state = [] })
      else protect_loop virtual_protect image count table []

unfoldable pub dearxan_image_make_sections_rwe :
    (Part → Bool) → Option Image → Run (Called (List Part))
unfolding image_nt_headers protect_sections
dearxan_image_make_sections_rwe virtual_protect none = done (record { result = false; state = [] })
dearxan_image_make_sections_rwe virtual_protect (some image) = do
  headers ← image_nt_headers image
  elim headers [
    | none ↦ done (record { result = false; state = [] })
    | some nt ↦ protect_sections virtual_protect image nt
  ]
