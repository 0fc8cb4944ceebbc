-- ===== src/Dearxan/ImageFile/Whole.antt =====
-- src/dearxan/image.c: the headers are found in a file as if it were read as a whole.
use yafsml.Prelude.{
  ℕ, ◌+◌, ◌^◌, ◌≤◌, ◌<◌, ◌≡◌, refl, ap, ◌∙◌, Bool, true, false, not, ◌||◌, Option, none, some,
  Bytes, ltb, leb, ◌==◌, if◌then◌else◌, length, take, arith, turn_then, turn_else, Run, done, ◌>>=◌,
  bind_alike, read16, read32, read16-take, read32-take, read64-take,
}
use yafsml.Dearxan.Image.{
  image_headers, lfanew_checks, nt_checks, dos_signature, dos_size, nt_size, too_short,
}
use yafsml.Dearxan.ImageFile.{
  Headers, found, stop, grow, needed_size, look_for_headers, base_at, after_read,
}

-- The base in the headers of a whole file.
unfoldable pub whole_file_base : Bytes → Run (Option ℕ)
whole_file_base file = if ltb (length file) dos_size then done none else do
  nt ← image_headers (some file) (length file)
  elim nt [ none ↦ done none | some place ↦ base_at file place ]

bind_known : {A B : Type 0} {m : Run A} {a : A} (f : A → Run B) → m ≡ done a → (m >>= f) ≡ f a
bind_known f h = ap (λ t. t >>= f) h

-- What is done with what a round finds.
abbrev pub outcome : (ℕ → Run (Option ℕ)) → Bytes → Headers → Run (Option ℕ)
outcome again headers (found nt) = base_at headers nt
outcome again headers stop = done none
outcome again headers (grow needed) = again needed

pub after_read-looked :
    (again : ℕ → Run (Option ℕ)) (n : ℕ) (headers : Bytes) (looked : Headers)
    → 64 ≤ length headers
    → look_for_headers headers n ≡ done looked
    → after_read again n headers ≡ outcome again headers looked
unfolding after_read
after_read-looked again n headers looked long h =
    turn_else (ltb (length headers) dos_size) _ _ (ground arith) ∙ bind_known _ h ∙ same looked
  where
    same :
        (x : Headers)
        → elim x as (λ t. Run (Option ℕ)) [
          | found nt ↦ base_at headers nt
          | stop ↦ done none
          | grow needed ↦ again needed
        ]
          ≡ outcome again headers x
    same (found nt) = refl
    same stop = refl
    same (grow needed) = refl

module _ (bytes : Bytes) (long : 64 ≤ length bytes) (m l : ℕ) (at_m : read16 bytes 0 ≡ done m)
    (at_l : read32 bytes 60 ≡ done l) where
  image_headers-lfanew :
      image_headers (some bytes) (length bytes) ≡ lfanew_checks bytes (length bytes) m l
  unfolding image_headers
  image_headers-lfanew =
      turn_else (too_short (length bytes) 0 dos_size) _ _ (ground arith)
      ∙ bind_known _ at_m
      ∙ bind_known _ at_l

  pub look_for_headers-lfanew :
      (n : ℕ) (nt : Option ℕ)
      → lfanew_checks bytes (length bytes) m l ≡ done nt
      → look_for_headers bytes n
        ≡ done (elim nt as (λ x. Headers) [
          | none ↦ needed_size (length bytes) n m l
          | some place ↦ found place
        ])
  unfolding look_for_headers
  look_for_headers-lfanew n nt h =
      bind_known _ (image_headers-lfanew ∙ h) ∙ bind_known _ at_m ∙ bind_known _ at_l

  pub whole_file_base-lfanew :
      (nt : Option ℕ)
      → lfanew_checks bytes (length bytes) m l ≡ done nt
      → whole_file_base bytes
        ≡ elim nt as (λ x. Run (Option ℕ)) [ none ↦ done none | some place ↦ base_at bytes place ]
  unfolding whole_file_base
  whole_file_base-lfanew nt h =
      turn_else (ltb (length bytes) dos_size) _ _ (ground arith)
      ∙ bind_known _ (image_headers-lfanew ∙ h)

-- Whether e_lfanew cannot be the place of headers.
abbrev pub bad_lfanew : ℕ → ℕ → Bool
bad_lfanew m l = not (m == dos_signature) || l == 0 || leb (2 ^ 31) l

module _ (bytes : Bytes) (m l : ℕ) where
  pub lfanew_checks-bad : bad_lfanew m l ≡ true → lfanew_checks bytes (length bytes) m l ≡ done none
  unfolding lfanew_checks
  lfanew_checks-bad h = turn_then (bad_lfanew m l) _ _ h

  pub lfanew_checks-short :
      bad_lfanew m l ≡ false
      → 64 ≤ length bytes
      → length bytes < l + 264
      → lfanew_checks bytes (length bytes) m l ≡ done none
  unfolding lfanew_checks
  lfanew_checks-short good long h =
      turn_else (bad_lfanew m l) _ _ good
      ∙ turn_then (too_short (length bytes) l nt_size) _ _ (ground arith)

  pub lfanew_checks-nt :
      bad_lfanew m l ≡ false
      → l + 264 ≤ length bytes
      → lfanew_checks bytes (length bytes) m l ≡ nt_checks bytes l
  unfolding lfanew_checks
  lfanew_checks-nt good h =
      turn_else (bad_lfanew m l) _ _ good
      ∙ turn_else (too_short (length bytes) l nt_size) _ _ (ground arith)

pub nt_checks-take :
    (n : ℕ) (file : Bytes) (l : ℕ) → l + 264 ≤ n → nt_checks (take n file) l ≡ nt_checks file l
unfolding nt_checks
nt_checks-take n file l h =
    bind_alike (read32-take n file l (omega arith))
      λ signature. bind_alike (read16-take n file (l + 24) (omega arith)) λ magic. refl

pub base_at-take :
    (n : ℕ) (file : Bytes) (l : ℕ) → l + 264 ≤ n → base_at (take n file) l ≡ base_at file l
unfolding base_at
base_at-take n file l h = bind_alike (read64-take n file (l + 48) (omega arith)) λ base. refl
