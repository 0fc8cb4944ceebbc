-- ===== src/Steam/Vdf/File.antt =====
-- src/steam/vdf.c: vdf_parse_file reads a file and parses what was read. `memory` is what malloc answers.
use yafsml.Prelude.{
  ℕ, ◌-◌, ◌^◌, ◌≡◌, refl, Bool, not, ◌||◌, Option, none, some, Bytes, ltb, ◌==◌, if◌then◌else◌,
  length, if_lem, Run, done,
}
use yafsml.Steam.Vdf.Tree.{Object}
use yafsml.Steam.Vdf.Load.{vdf_parse_buffer}
use yafsml.Steam.Vdf.Load.Total.{vdf_parse_buffer_total}

-- An open file: its size, and the bytes that are read of so many; `none` where the system answers false.
pub record OpenFile : Type 0 where
  pub size : Option ℕ
  pub read_bytes : ℕ → Option Bytes

-- A read that gives no byte is as one that fails.
unfoldable pub parse_read : Option Bytes → Run (Option Object)
unfolding vdf_parse_buffer
parse_read none = done none
parse_read (some buffer) =
    let parsed = vdf_parse_buffer (some buffer) in if length buffer == 0 then done none else parsed

-- `file` is `none` where it cannot be opened.
unfoldable pub vdf_parse_file : (ℕ → Bool) → Option OpenFile → Run (Option Object)
unfolding parse_read
vdf_parse_file memory none = done none
vdf_parse_file memory (some file) = elim file.size [
  | none ↦ done none
  | some size ↦
      let parsed = parse_read (file.read_bytes size) in
      if size == 0 || ltb (2 ^ 31 - 1) size || not (memory size) then done none else parsed
]

-- A run that ends.
abbrev Ends : Run (Option Object) → Type 0
Ends m = (r : Option Object) × (m ≡ done r)

parse_read-Ends : (read : Option Bytes) → Ends (parse_read read)
unfolding parse_read
parse_read-Ends none = (none, refl)
parse_read-Ends (some buffer) =
    if_lem Ends (length buffer == 0) _ _ (λ e. (none, refl))
      (λ e. (vdf_parse_buffer_total (some buffer)).0)

-- Whatever the system answers, reading and parsing a file ends.
vdf_parse_file_total :
    (memory : ℕ → Bool) (file : Option OpenFile) → Ends (vdf_parse_file memory file)
unfolding vdf_parse_file
vdf_parse_file_total memory none = (none, refl)
vdf_parse_file_total memory (some file) = of_size file.size
  where
    of_size :
        (o : Option ℕ)
        → Ends (elim o as (λ x. Run (Option Object)) [
          | none ↦ done none
          | some size ↦
              if size == 0 || ltb (2 ^ 31 - 1) size || not (memory size)
              then done none
              else parse_read (file.read_bytes size)
        ])
    of_size none = (none, refl)
    of_size (some size) =
        if_lem Ends (size == 0 || ltb (2 ^ 31 - 1) size || not (memory size)) _ _
          (λ e. (none, refl)) (λ e. parse_read-Ends (file.read_bytes size))
