-- ===== src/Modloader/Vfs/Normalize.antt =====
-- src/modloader/vfs.c: `vfs_normalize_path`, `vfs_strip_path_prefix`, `vfs_join` and
-- `vfs_last_segment`. `towlower` and the case table of the system are parameters; memory is taken to
-- last.
pub mod Segments
pub mod Enough
use yafsml.Prelude.{
  ℕ, zero, suc, ◌+◌, Bool, true, false, not, ◌&&◌, ◌||◌, Option, none, some, List, [], ◌∷◌, ◌++◌,
  ltb, leb, ◌==◌, if◌then◌else◌, length, take, map,
}
use yafsml.Common.Path.{Wide, ml_path_separator, ml_path_dos_body, ml_path_extend}

abbrev ascii_lower : ℕ → ℕ
ascii_lower c = if leb b'A' c && leb c b'Z' then c + 32 else c

-- `ordinal` is CompareStringOrdinal on two characters, without regard to case.
abbrev pub vfs_char_equal_ignore_case : (ℕ → ℕ → Bool) → ℕ → ℕ → Bool
vfs_char_equal_ignore_case ordinal a b =
    if a == b
    then true
    else if ltb a 0x80 && ltb b 0x80
    then ascii_lower a == ascii_lower b
    else ordinal a b

-- The loop over the prefix: what is left of the path, `none` where they differ.
unfoldable pub strip_loop : (ℕ → ℕ → Bool) → Wide → Wide → Option Wide
strip_loop ordinal path [] = some path
strip_loop ordinal [] (q ∷ qs) = none
strip_loop ordinal (p ∷ ps) (q ∷ qs) =
    let more = strip_loop ordinal ps qs in
    if (ml_path_separator p && not (ml_path_separator q))
      || (not (ml_path_separator p) && ml_path_separator q)
      || (not (ml_path_separator p) && not (vfs_char_equal_ignore_case ordinal p q))
    then none
    else more

-- `*path == L'\0' || *path == L'\\' || *path == L'/' ? path : NULL`
abbrev pub at_boundary : Option Wide → Option Wide
at_boundary none = none
at_boundary (some []) = some []
at_boundary (some (c ∷ cs)) = if ml_path_separator c then some (c ∷ cs) else none

unfoldable pub vfs_strip_path_prefix : (ℕ → ℕ → Bool) → Option Wide → Option Wide → Option Wide
unfolding strip_loop ml_path_dos_body
vfs_strip_path_prefix ordinal (some path) (some prefix) =
    let p = ml_path_dos_body path in
    let q = ml_path_dos_body prefix in
    if (p.unc && not q.unc) || (not p.unc && q.unc)
    then none
    else at_boundary (strip_loop ordinal p.body q.body)
vfs_strip_path_prefix ordinal (some path) none = none
vfs_strip_path_prefix ordinal none prefix = none

-- `left[left_len - 1] != L'\\'`
unfoldable pub ends_open : Wide → Bool
ends_open [] = false
ends_open (c ∷ []) = not (c == 0x5c)
ends_open (c ∷ d ∷ cs) = ends_open (d ∷ cs)

unfoldable pub vfs_join : (ℕ → Bool) → Wide → Wide → Option Wide
unfolding ends_open ml_path_extend
vfs_join memory left right =
    ml_path_extend memory (left ++ (if ends_open left then 0x5c ∷ right else right))

unfoldable pub skip_separators : Wide → Wide
skip_separators [] = []
skip_separators (c ∷ cs) =
    let more = skip_separators cs in if ml_path_separator c then more else c ∷ cs

-- What stands behind the first colon, if no separator stands before it.
unfoldable pub after_colon : Wide → Option Wide
after_colon [] = none
after_colon (c ∷ cs) =
    let more = after_colon cs in
    if c == b':' then some cs else if ml_path_separator c then none else more

unfoldable pub strip_device : Wide → Wide
unfolding skip_separators after_colon
strip_device path =
    let body = skip_separators path in
    elim (after_colon body) [ none ↦ skip_separators body | some rest ↦ skip_separators rest ]

-- A segment, and what stands from its separator on.
unfoldable pub segment : Wide → Wide × Wide
segment [] = ([], [])
segment (c ∷ cs) =
    let (part, rest) = segment cs in if ml_path_separator c then ([], c ∷ cs) else (c ∷ part, rest)

-- `result[0 .. out]`, and `segment_starts`, the last one first.
pub record Normal : Type 0 where
  pub result : Wide
  pub segment_starts : List ℕ

abbrev pub is_dot : Wide → Bool
is_dot (c ∷ []) = c == b'.'
is_dot _ = false

abbrev pub is_dot_dot : Wide → Bool
is_dot_dot (c ∷ d ∷ []) = c == b'.' && d == b'.'
is_dot_dot _ = false

abbrev pub pop_segment : Normal → Option Normal
pop_segment n = elim n.segment_starts [
  | [] ↦ none
  | start ∷ starts ↦ some (record { result = take start n.result; segment_starts = starts })
]

abbrev pub push_segment : (ℕ → ℕ) → Normal → Wide → Normal
push_segment towlower n part = record {
  result = (if length n.result == 0 then [] else n.result ++ (0x5c ∷ [])) ++ map towlower part;
  segment_starts = length n.result ∷ n.segment_starts;
}

abbrev pub add_segment : (ℕ → ℕ) → Normal → Wide → Option Normal
add_segment towlower n part =
    if length part == 0 || is_dot part
    then some n
    else if is_dot_dot part
    then pop_segment n
    else some (push_segment towlower n part)

-- The loop over the segments. Each round but one takes a character.
unfoldable pub normalize_loop : (ℕ → ℕ) → ℕ → Normal → Wide → Option Wide
unfolding segment skip_separators
normalize_loop towlower fuel n [] = some n.result
normalize_loop towlower zero n (c ∷ cs) = none
normalize_loop towlower (suc fuel) n (c ∷ cs) =
    let (part, rest) = segment (c ∷ cs) in
    elim (add_segment towlower n part) [
      | none ↦ none
      | some n' ↦ normalize_loop towlower fuel n' (skip_separators rest)
    ]

unfoldable pub vfs_normalize_path : (ℕ → ℕ) → Wide → Option Wide
unfolding normalize_loop strip_device
vfs_normalize_path towlower path =
    normalize_loop towlower (suc (length path)) (record { result = []; segment_starts = [] })
      (strip_device path)

unfoldable pub after_last_separator : Wide → Wide → Wide
after_last_separator found [] = found
after_last_separator found (c ∷ cs) =
    after_last_separator (if ml_path_separator c then cs else found) cs

unfoldable pub has_colon : Wide → Bool
has_colon [] = false
has_colon (c ∷ cs) = c == b':' || has_colon cs

unfoldable pub vfs_last_segment : Wide → Option Wide
unfolding after_last_separator has_colon
vfs_last_segment path =
    let s = after_last_separator path path in
    if length s == 0 || is_dot s || is_dot_dot s || has_colon s then none else some s
