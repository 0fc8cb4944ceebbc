-- ===== src/Modloader/Vfs/Normalize/Enough.antt =====
-- The rounds of the loop over the segments are enough.
use yafsml.Prelude.{
  ℕ, zero, suc, ◌≤◌, ◌≡◌, refl, some, [], ◌∷◌, length, arith, Bool-cases, Option-cases, inl, inr,
}
use yafsml.Common.Path.{Wide, ml_path_separator}
use yafsml.Modloader.Vfs.Normalize.{
  skip_separators, after_colon, strip_device, segment, Normal, add_segment, normalize_loop,
  vfs_normalize_path,
}

length-skip_separators : (p : Wide) → length (skip_separators p) ≤ length p
unfolding skip_separators
length-skip_separators [] = omega arith
length-skip_separators (c ∷ cs) = ground (arith, length-skip_separators cs)

length-segment : (p : Wide) → length (segment p).1 ≤ length p
unfolding segment
length-segment [] = omega arith
length-segment (c ∷ cs) = ground (arith, length-segment cs)

-- A segment and its separators take a character.
length-round : (c : ℕ) (cs : Wide) → length (skip_separators (segment (c ∷ cs)).1) ≤ length cs
unfolding segment skip_separators
length-round c cs = elim (Bool-cases (ml_path_separator c)) [
  | inl sep ↦ rw sep (rw (sep, skip_separators) (length-skip_separators cs))
  | inr other ↦ rw other (omega (arith, length-skip_separators (segment cs).1, length-segment cs))
]

length-after_colon : (p rest : Wide) → after_colon p ≡ some rest → length rest ≤ length p
unfolding after_colon
length-after_colon [] rest e = absurd (ground (arith, e))
length-after_colon (c ∷ cs) rest e = ground (arith, e, length-after_colon cs rest)

length-strip_device : (p : Wide) → length (strip_device p) ≤ length p
unfolding strip_device
length-strip_device p = elim (Option-cases (after_colon (skip_separators p))) [
  | inl plain ↦
      rw (plain, strip_device)
        (omega (arith, length-skip_separators (skip_separators p), length-skip_separators p))
  | inr (rest, colon) ↦
      rw (colon, strip_device)
        (omega (
          arith,
          length-skip_separators rest,
          length-after_colon (skip_separators p) rest colon,
          length-skip_separators p,
        ))
]

normalize_loop-enough :
    (towlower : ℕ → ℕ) (fuel more : ℕ) (n : Normal) (p : Wide)
    → length p ≤ fuel
    → length p ≤ more
    → normalize_loop towlower fuel n p ≡ normalize_loop towlower more n p
unfolding normalize_loop
normalize_loop-enough towlower fuel more n [] h k = refl
normalize_loop-enough towlower zero more n (c ∷ cs) h k = absurd (omega arith)
normalize_loop-enough towlower (suc fuel) zero n (c ∷ cs) h k = absurd (omega arith)
normalize_loop-enough towlower (suc fuel) (suc more) n (c ∷ cs) h k =
    elim (Option-cases (add_segment towlower n (segment (c ∷ cs)).0)) [
      | inl none_left ↦ rw (none_left, normalize_loop)
      | inr (n', added) ↦
          rw (added, normalize_loop)
            (normalize_loop-enough towlower fuel more n' (skip_separators (segment (c ∷ cs)).1)
              (omega (arith, length-round c cs)) (omega (arith, length-round c cs)))
    ]

-- A round for each character of the path is enough for the loop over the segments: any larger
-- number of rounds gives the same key or the same refusal.
vfs_normalize_path-enough :
    (towlower : ℕ → ℕ) (fuel : ℕ) (path : Wide)
    → length path ≤ fuel
    → vfs_normalize_path towlower path
      ≡ normalize_loop towlower fuel
          (record { result = []; segment_starts = [] })
          (strip_device path)
unfolding vfs_normalize_path
vfs_normalize_path-enough towlower fuel path h =
    normalize_loop-enough towlower (suc (length path)) fuel
      (record { result = []; segment_starts = [] }) (strip_device path)
      (omega (arith, length-strip_device path)) (omega (arith, length-strip_device path))
