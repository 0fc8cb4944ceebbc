-- ===== src/Dearxan/ImageFile/Same.antt =====
-- src/dearxan/image.c: the rounds that read the headers of a file find what the whole file has.
use yafsml.Prelude.{
  turn_then, turn_else, ℕ, suc, ◌+◌, ◌-◌, ◌^◌, ◌≤◌, ◌<◌, ◌≡◌, refl, ap, sym, subst, ◌∙◌, ◌⊎◌, inl,
  inr, true, false, ◌||◌, Option, none, some, Bytes, ltb, leb, length, take, take_all, length-take,
  arith, Bool-cases, Run, done, ◌>>=◌, Returns-value, bind_alike, read16, read32, read16_inside,
  read32_inside, read16-take, read32-take,
}
use yafsml.Dearxan.Encryption.{uint32_max}
use yafsml.Dearxan.Image.{Image, lfanew_checks, dos_size}
use yafsml.Dearxan.Image.Safety.{Within, nt_checks-Within}
use yafsml.Dearxan.ImageFile.{
  Headers, found, stop, grow, needed_size, after_read, headers_loop, with_base,
  dearxan_image_set_preferred_base_from_file,
}
use yafsml.Dearxan.ImageFile.Whole.{
  whole_file_base, outcome, after_read-looked, look_for_headers-lfanew, whole_file_base-lfanew,
  bad_lfanew, lfanew_checks-bad, lfanew_checks-short, lfanew_checks-nt, nt_checks-take,
  base_at-take,
}

-- A round is the last one and finds what the whole file has, or asks for all bytes of the headers.
abbrev LastOr : (ℕ → Run (Option ℕ)) → Bytes → ℕ → ℕ → Type 0
LastOr again file l n =
    (after_read again n (take n file) ≡ whole_file_base file)
    ⊎ ((n < l + 264) × (after_read again n (take n file) ≡ again (l + 264)))

module _ (m l read_size size : ℕ) (good : bad_lfanew m l ≡ false) where
  stops :
      ltb read_size size || leb (l + 264) read_size ≡ true → needed_size read_size size m l ≡ stop
  stops h =
      turn_else (bad_lfanew m l) _ _ good
      ∙ turn_then (ltb read_size size || leb (l + 264) read_size || ltb uint32_max (l + 264)) _ _
          (ground arith)

  grows :
      ltb read_size size || leb (l + 264) read_size ≡ false
      → needed_size read_size size m l ≡ grow (l + 264)
  grows h =
      turn_else (bad_lfanew m l) _ _ good
      ∙ turn_else (ltb read_size size || leb (l + 264) read_size || ltb uint32_max (l + 264)) _ _
          (ground arith)

module _ (file : Bytes) (long : 64 ≤ length file) (m l : ℕ) (at_m : read16 file 0 ≡ done m)
    (at_l : read32 file 60 ≡ done l) (again : ℕ → Run (Option ℕ)) (n : ℕ) (wide : 64 ≤ n) where
  abbrev read_bytes : Bytes
  read_bytes = take n file

  long_read : 64 ≤ length read_bytes
  long_read = omega (arith, length-take n file)

  after_lfanew :
      (nt : Option ℕ)
      → lfanew_checks read_bytes (length read_bytes) m l ≡ done nt
      → (looked : Headers)
      → elim nt as (λ x. Headers) [
        | none ↦ needed_size (length read_bytes) n m l
        | some p ↦ found p
      ]
        ≡ looked
      → after_read again n read_bytes ≡ outcome again read_bytes looked
  after_lfanew nt h looked same = after_read-looked again n read_bytes looked long_read (
      look_for_headers-lfanew read_bytes long_read m l (read16-take n file 0 (omega arith) ∙ at_m)
        (read32-take n file 60 (omega arith) ∙ at_l) n nt h
      ∙ ap done same)

  nothing_found :
      lfanew_checks read_bytes (length read_bytes) m l ≡ done none
      → needed_size (length read_bytes) n m l ≡ stop
      → lfanew_checks file (length file) m l ≡ done none
      → after_read again n read_bytes ≡ whole_file_base file
  nothing_found h stopped nowhere =
      after_lfanew none h stop stopped
      ∙ sym (whole_file_base-lfanew file long m l at_m at_l none nowhere)

  -- The headers stand in what was read.
  inside_round :
      bad_lfanew m l ≡ false
      → l + 264 ≤ length read_bytes
      → after_read again n read_bytes ≡ whole_file_base file
  inside_round good h =
      let (nt, checked, within) =
        Returns-value (nt_checks-Within read_bytes (length read_bytes) l (omega arith) h) in
      let here = lfanew_checks-nt read_bytes m l good h ∙ checked in
      let there =
        lfanew_checks-nt file m l good (omega (arith, h, length-take n file))
        ∙ sym (nt_checks-take n file l (omega (arith, h, length-take n file)))
        ∙ checked in
      of_nt nt within here there
    where
      of_nt :
          (nt : Option ℕ)
          → Within (length read_bytes) nt
          → lfanew_checks read_bytes (length read_bytes) m l ≡ done nt
          → lfanew_checks file (length file) m l ≡ done nt
          → after_read again n read_bytes ≡ whole_file_base file
      of_nt none within here there =
          nothing_found here (stops m l (length read_bytes) n good (ground arith)) there
      of_nt (some p) within here there =
          after_lfanew (some p) here (found p) refl
          ∙ base_at-take n file p (omega (arith, within, length-take n file))
          ∙ sym (whole_file_base-lfanew file long m l at_m at_l (some p) there)

  short_round : bad_lfanew m l ≡ false → length read_bytes < l + 264 → LastOr again file l n
  short_round good h = elim (Bool-cases (ltb (length read_bytes) n)) [
    | inl all ↦
        let whole : take n file ≡ file = take_all n file (ground (arith, length-take n file)) in
        inl (
          nothing_found (lfanew_checks-short read_bytes m l good long_read h)
            (stops m l (length read_bytes) n good (ground arith))
            (lfanew_checks-short file m l good long (subst (λ t. length t < l + 264) whole h)))
    | inr part ↦ inr (
      ground (arith, length-take n file),
      after_lfanew none (lfanew_checks-short read_bytes m l good long_read h) (grow (l + 264))
          (grows m l (length read_bytes) n good (ground arith)),
    )
  ]

  round-LastOr : LastOr again file l n
  round-LastOr = elim (Bool-cases (bad_lfanew m l)) [
    | inl bad ↦ inl (
        nothing_found (lfanew_checks-bad read_bytes m l bad) (turn_then (bad_lfanew m l) _ _ bad)
          (lfanew_checks-bad file m l bad))
    | inr good ↦ elim (Bool-cases (leb (l + 264) (length read_bytes))) [
      | inl inside ↦ inl (inside_round good (ground arith))
      | inr short ↦ short_round good (ground arith)
    ]
  ]

module _ (file : Bytes) where
  -- What the first bytes of the file are read as.
  abbrev pub read_file : ℕ → Option Bytes
  read_file n = some (take n file)

  abbrev rounds : ℕ → ℕ → Run (Option ℕ)
  rounds fuel n = headers_loop (λ k. true) read_file fuel n

  headers_loop-after_read :
      (fuel n : ℕ) → rounds (suc fuel) n ≡ after_read (rounds fuel) n (take n file)
  unfolding headers_loop
  headers_loop-after_read fuel n = refl

  tiny_file : (fuel : ℕ) → length file < 64 → rounds (suc fuel) 0x1000 ≡ whole_file_base file
  unfolding whole_file_base after_read headers_loop
  tiny_file fuel h =
      turn_then (ltb (length (take 0x1000 file)) dos_size) _ _
        (ground (arith, length-take 0x1000 file))
      ∙ sym (turn_then (ltb (length file) dos_size) _ _ (ground arith))

  two_rounds : (fuel : ℕ) → 64 ≤ length file → rounds (suc (suc fuel)) 0x1000 ≡ whole_file_base file
  two_rounds fuel long =
      let (m, at_m, _) = Returns-value (read16_inside file 0 (omega arith)) in
      let (l, at_l, _) = Returns-value (read32_inside file 60 (omega arith)) in
      headers_loop-after_read (suc fuel) 0x1000
      ∙ elim (round-LastOr file long m l at_m at_l (rounds (suc fuel)) 0x1000 (omega arith)) [
        | inl last ↦ last
        | inr (above, again) ↦
            again
            ∙ headers_loop-after_read fuel (l + 264)
            ∙ elim (round-LastOr file long m l at_m at_l (rounds fuel) (l + 264) (omega arith)) [
              | inl last ↦ last
              | inr (absent, _) ↦ absurd (omega arith)
            ]
      ]

  headers_loop-whole_file_base : (fuel : ℕ) → rounds (suc (suc fuel)) 0x1000 ≡ whole_file_base file
  headers_loop-whole_file_base fuel = elim (Bool-cases (leb 64 (length file))) [
    | inl long ↦ two_rounds fuel (ground arith)
    | inr tiny ↦ tiny_file (suc fuel) (ground arith)
  ]

  -- Where memory lasts and the file does not change, growing the buffer until the headers fit
  -- gives the same base, or the same refusal, as reading the whole file and looking at its
  -- headers: an image gets the base in the headers of the file if they are good and the base is
  -- not 0, and is left alone otherwise.
  pub dearxan_image_set_preferred_base_from_file-whole_file_base :
      (image : Image)
      → dearxan_image_set_preferred_base_from_file (λ n. true) (some image) (some read_file)
        ≡ (do base ← whole_file_base file; done (with_base image base))
  unfolding dearxan_image_set_preferred_base_from_file
  dearxan_image_set_preferred_base_from_file-whole_file_base image =
      bind_alike (headers_loop-whole_file_base (2 ^ 32 - 2)) λ base. refl
