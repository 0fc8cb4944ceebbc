-- ===== src/Common/Path.antt =====
-- src/common/path.h: the parts of Windows paths. A path is the list of its characters before the NUL;
-- a pointer into it is what stands from there on.
use yafsml.Prelude.{
  ℕ, ◌+◌, ◌-◌, Bool, true, false, not, ◌&&◌, ◌||◌, Option, none, some, List, [], ◌∷◌, ◌++◌, ltb,
  leb, ◌==◌, if◌then◌else◌, length, take, drop, map, codes,
}

abbrev pub Wide : Type 0
Wide = List ℕ

abbrev pub ml_path_separator : ℕ → Bool
ml_path_separator ch = ch == 0x5c || ch == b'/'

-- `filename` is what has been found so far.
unfoldable pub filename_loop : Wide → Wide → Wide
filename_loop filename [] = filename
filename_loop filename (c ∷ cs) = filename_loop (if ml_path_separator c then cs else filename) cs

unfoldable pub ml_path_filename : Wide → Wide
unfolding filename_loop
ml_path_filename path = filename_loop path path

-- `wcsrchr`
unfoldable pub last_place : ℕ → Wide → Option Wide
last_place c [] = none
last_place c (d ∷ ds) = elim (last_place c ds) [
  | some found ↦ some found
  | none ↦ if c == d then some (d ∷ ds) else none
]

unfoldable pub ml_path_extension : Wide → Wide
unfolding ml_path_filename last_place
ml_path_extension path = elim (last_place b'.' (ml_path_filename path)) [
  | none ↦ []
  | some extension ↦ extension
]

-- The body, and `*unc`.
pub record DosBody : Type 0 where
  pub body : Wide
  pub unc : Bool

abbrev pub same_letter : ℕ → ℕ → Bool
same_letter upper c = c == upper || c == upper + 32

-- What stands behind `UNC` and a separator, `_wcsnicmp(s, L"UNC", 3) == 0`.
unfoldable pub after_unc : Wide → Option Wide
after_unc (u ∷ n ∷ c ∷ sep ∷ rest) =
    if same_letter b'U' u && same_letter b'N' n && same_letter b'C' c && ml_path_separator sep
    then some rest
    else none
after_unc _ = none

-- `path[4] != L'\0' && path[5] == L':' && ml_path_separator(path[6])`
unfoldable pub is_drive : Wide → Bool
is_drive (c ∷ colon ∷ sep ∷ rest) = colon == b':' && ml_path_separator sep
is_drive _ = false

-- What stands behind an extended or device prefix, `none` if there is no such prefix.
unfoldable pub after_device : Wide → Option Wide
after_device (q ∷ sep ∷ rest) =
    if (q == b'?' || q == b'.') && ml_path_separator sep then some rest else none
after_device _ = none

abbrev pub device_body : Wide → Wide → DosBody
device_body path rest = elim (after_unc rest) [
  | some share ↦ record { body = share; unc = true }
  | none ↦ record { body = if is_drive rest then rest else path; unc = false }
]

unfoldable pub ml_path_dos_body : Wide → DosBody
unfolding after_unc is_drive after_device
ml_path_dos_body [] = record { body = []; unc = false }
ml_path_dos_body (a ∷ []) = record { body = a ∷ []; unc = false }
ml_path_dos_body (a ∷ b ∷ rest) =
    let inner = elim (after_device rest) as (λ x. DosBody) [
      | some device ↦ device_body (a ∷ b ∷ rest) device
      | none ↦ record { body = rest; unc = true }
    ] in
    if ml_path_separator a && ml_path_separator b
    then inner
    else record { body = a ∷ b ∷ rest; unc = false }

abbrev pub back_slash : ℕ → ℕ
back_slash c = if c == b'/' then 0x5c else c

-- The slashes are turned, and the body is moved to the front, behind `\\` for a UNC name.
unfoldable pub ml_path_normalize_input : Wide → Wide
unfolding ml_path_dos_body
ml_path_normalize_input path =
    let turned = map back_slash path in
    let b = ml_path_dos_body turned in if b.unc then take 2 turned ++ b.body else b.body

unfoldable pub ml_path_is_absolute : Wide → Bool
ml_path_is_absolute (a ∷ b ∷ c ∷ rest) =
    (b == b':' && ml_path_separator c) || (ml_path_separator a && ml_path_separator b)
ml_path_is_absolute _ = false

-- `while (*p != L'\0' && !ml_path_separator(*p)) ++p;`
unfoldable pub to_separator : Wide → Wide
to_separator [] = []
to_separator (c ∷ cs) = let more = to_separator cs in if ml_path_separator c then c ∷ cs else more

-- From the name of the share on: the length up to `p`, and the separator behind it.
abbrev pub share_length : Wide → Wide → ℕ
share_length path p = elim (to_separator p) [
  | [] ↦ length path
  | c ∷ cs ↦ (length path - length (c ∷ cs)) + 1
]

unfoldable pub ml_path_root_length : Wide → ℕ
unfolding ml_path_dos_body to_separator is_drive
ml_path_root_length path =
    let b = ml_path_dos_body path in
    let share = elim (to_separator b.body) as (λ x. ℕ) [ [] ↦ 0 | c ∷ cs ↦ share_length path cs ] in
    if not b.unc then if is_drive b.body then (length path - length b.body) + 3 else 0 else share

-- `while (length > root && test(path[length - 1])) --length;`, on the characters from `root` on.
unfoldable pub cut_back : (ℕ → Bool) → Wide → Wide
cut_back test [] = []
cut_back test (c ∷ cs) = elim (cut_back test cs) [
  | [] ↦ if test c then [] else c ∷ []
  | d ∷ ds ↦ c ∷ d ∷ ds
]

unfoldable pub ml_path_remove_filename : Wide → Wide
unfolding ml_path_root_length cut_back
ml_path_remove_filename path =
    let root = ml_path_root_length path in
    take root path
    ++ cut_back ml_path_separator (cut_back (λ c. not (ml_path_separator c)) (drop root path))

-- MAX_PATH - 12
abbrev pub extend_limit : ℕ
extend_limit = 248

-- ML_PATH_MAX_CCH
abbrev pub max_cch : ℕ
max_cch = 32768

-- `ml_path_buffer` refuses a size, or there is no memory.
abbrev pub with_prefix : (ℕ → Bool) → Wide → Wide → Option Wide
with_prefix memory prefix rest =
    if leb (length prefix + length rest + 1) max_cch && memory (length prefix + length rest + 1)
    then some (prefix ++ rest)
    else none

unfoldable pub ml_path_extend : (ℕ → Bool) → Wide → Option Wide
ml_path_extend memory (a ∷ b ∷ c ∷ rest) =
    let path = a ∷ b ∷ c ∷ rest in
    if ltb (length path) extend_limit
    then some path
    else if b == b':' && c == 0x5c
    then with_prefix memory (codes "\\\\?\\") path
    else if a == 0x5c && b == 0x5c && not (c == b'?') && not (c == b'.')
    then with_prefix memory (codes "\\\\?\\UNC\\") (c ∷ rest)
    else some path
ml_path_extend memory path = some path

-- The copy of `path` in its plain spelling, when that is short enough; memory is taken to last.
unfoldable pub ml_path_plain_alloc : Wide → ℕ → Wide
unfolding ml_path_normalize_input
ml_path_plain_alloc path limit =
    let plain = ml_path_normalize_input path in if ltb (length plain) limit then plain else path
