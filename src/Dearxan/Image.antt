-- ===== src/Dearxan/Image.antt =====
-- src/dearxan/image.c: the headers and directories of a loaded image. The fields stand at the places that
-- the format PE32+ gives them. The memory of the image is a list of bytes, and a read outside it is a fault.
pub mod Safety
pub mod Bounds
use yafsml.Prelude.{
  ℕ, zero, suc, ◌+◌, ◌-◌, ◌*◌, ◌/◌, ◌%◌, ◌^◌, Bool, true, false, not, ◌&&◌, ◌||◌, Option, none,
  some, List, Bytes, ltb, leb, ◌==◌, if◌then◌else◌, length, drop, bit_and, Run, done, fault, stuck,
  ◌>>=◌, read16, read32, read64,
}

-- dearxan_image_t
pub record Image : Type 0 where
  pub base : Bytes
  pub size : ℕ
  pub base_va : ℕ
  pub preferred_base : ℕ
  pub entrypoint_rva : ℕ

-- IMAGE_DOS_SIGNATURE, IMAGE_NT_SIGNATURE and IMAGE_NT_OPTIONAL_HDR64_MAGIC
abbrev pub dos_signature : ℕ
dos_signature = 0x5a4d

abbrev pub nt_signature : ℕ
nt_signature = 0x4550

abbrev pub hdr64_magic : ℕ
hdr64_magic = 0x20b

-- sizeof(IMAGE_DOS_HEADER), sizeof(IMAGE_NT_HEADERS64) and sizeof(IMAGE_SECTION_HEADER)
abbrev pub dos_size : ℕ
dos_size = 64

abbrev pub nt_size : ℕ
nt_size = 264

abbrev pub section_size : ℕ
section_size = 40

-- The bytes that are known not to hold `size` of them at `place`; 0 stands for an unknown size.
abbrev pub too_short : ℕ → ℕ → ℕ → Bool
too_short known_size place size =
    not (known_size == 0) && (ltb known_size place || ltb (known_size - place) size)

-- The tests on the header at `place`, behind those on its room.
unfoldable pub nt_checks : Bytes → ℕ → Run (Option ℕ)
nt_checks base place = do
  signature ← read32 base place
  magic ← read16 base (place + 24)
  done (if signature == nt_signature && magic == hdr64_magic then some place else none)

-- e_lfanew is signed: `<= 0` holds of 0 and from 2 ^ 31 on.
unfoldable pub lfanew_checks : Bytes → ℕ → ℕ → ℕ → Run (Option ℕ)
unfolding nt_checks
lfanew_checks base known_size magic lfanew =
    if not (magic == dos_signature) || lfanew == 0 || leb (2 ^ 31) lfanew
    then done none
    else if too_short known_size lfanew nt_size
    then done none
    else nt_checks base lfanew

-- The offset of the headers.
unfoldable pub image_headers : Option Bytes → ℕ → Run (Option ℕ)
unfolding lfanew_checks
image_headers none known_size = done none
image_headers (some base) known_size = if too_short known_size 0 dos_size then done none else do
  magic ← read16 base 0
  lfanew ← read32 base 60
  lfanew_checks base known_size magic lfanew

-- `address` is where the module stands.
unfoldable pub fill_image : Bytes → ℕ → ℕ → Run (Option Image)
fill_image loaded address nt = do
  image_size ← read32 loaded (nt + 80)
  image_base ← read64 loaded (nt + 48)
  entrypoint ← read32 loaded (nt + 40)
  done (
      if image_size == 0
      then none
      else some (record {
        base = loaded;
        size = image_size;
        base_va = address;
        preferred_base = image_base;
        entrypoint_rva = entrypoint;
      }))

unfoldable pub dearxan_image_from_module : Option Bytes → ℕ → Run (Option Image)
unfolding image_headers fill_image
dearxan_image_from_module none address = done none
dearxan_image_from_module (some loaded) address = do
  headers ← image_headers (some loaded) 0
  elim headers [ none ↦ done none | some nt ↦ fill_image loaded address nt ]

-- What dearxan_image_read reports: the bytes from there on, and how many remain.
pub record Available : Type 0 where
  pub bytes : Bytes
  pub available : ℕ

unfoldable pub dearxan_image_read : Option Image → ℕ → ℕ → Option Available
dearxan_image_read none va min_size = none
dearxan_image_read (some image) va min_size =
    let offset = va - image.base_va in
    let remaining = image.size - offset in
    if ltb va image.base_va || ltb image.size offset || ltb remaining min_size
    then none
    else some (record { bytes = drop offset image.base; available = remaining })

unfoldable pub image_nt_headers : Image → Run (Option ℕ)
unfolding image_headers
image_nt_headers image = image_headers (some image.base) image.size

-- IMAGE_DATA_DIRECTORY
pub record Directory : Type 0 where
  pub rva : ℕ
  pub size : ℕ

-- The directory `index` of the headers at `nt`, as it stands there.
unfoldable pub read_directory : Bytes → ℕ → ℕ → Run Directory
read_directory base nt index = do
  rva ← read32 base (nt + 136 + 8 * index)
  size ← read32 base (nt + 140 + 8 * index)
  done (record { rva = rva; size = size })

-- No directory, one without a place or without a size.
unfoldable pub present : Directory → Option Directory
present directory = if directory.rva == 0 || directory.size == 0 then none else some directory

unfoldable pub directory_at : Bytes → ℕ → ℕ → Run (Option Directory)
unfolding read_directory present
directory_at base index nt = do
  count ← read32 base (nt + 132)
  if leb count index || leb 16 index
      then done none
      else (do directory ← read_directory base nt index; done (present directory))

unfoldable pub dearxan_image_data_directory : Option Image → ℕ → Run (Option Directory)
unfolding image_nt_headers directory_at
dearxan_image_data_directory none index = done none
dearxan_image_data_directory (some image) index = do
  headers ← image_nt_headers image
  elim headers [ none ↦ done none | some nt ↦ directory_at image.base index nt ]
