-- ===== src/Modloader/Vfs/Normalize/Segments.antt =====
-- The keys of `vfs_normalize_path`, segment by segment.
use yafsml.Prelude.{
  ℕ, zero, suc, ◌≡◌, refl, ap, sym, ◌∙◌, true, false, ◌||◌, Option, some, List, [], ◌∷◌, ◌++◌, ◌==◌,
  length, take, map, All, arith, Bool-cases, inl, inr, subst, length-append, append_assoc,
  chain_some,
}
use mathlib.Core.Option.{some-injective}
use yafsml.Common.Path.{Wide, ml_path_separator}
use yafsml.Modloader.Vfs.Normalize.{
  segment, skip_separators, strip_device, Normal, is_dot, is_dot_dot, pop_segment, push_segment,
  add_segment, normalize_loop, vfs_normalize_path,
}

-- A name that stays where it is put: not empty, no separator, and neither `.` nor `..`.
pub record IsSegment (s : Wide) : Type 0 where
  pub not_empty : (length s == 0) ≡ false
  pub one_piece : All (λ c. ml_path_separator c ≡ false) s
  pub not_dot : is_dot s ≡ false
  pub not_dot_dot : is_dot_dot s ≡ false

-- Segments, the last one first, with a backslash between each two.
unfoldable pub joined : List Wide → Wide
joined [] = []
joined (s ∷ []) = s
joined (s ∷ t ∷ ss) = joined (t ∷ ss) ++ (0x5c ∷ s)

starts_of : List Wide → List ℕ
starts_of [] = []
starts_of (s ∷ ss) = length (joined ss) ∷ starts_of ss

-- towlower makes neither a dot nor a separator of another character, and leaves them as they are.
pub record Lowers (towlower : ℕ → ℕ) : Type 0 where
  pub keeps_dot : (c : ℕ) → (towlower c == b'.') ≡ (c == b'.')
  pub keeps_separator : (c : ℕ) → ml_path_separator (towlower c) ≡ ml_path_separator c

joined-cons :
    (s : Wide) (ss : List Wide) → All IsSegment (s ∷ ss) → (length (joined (s ∷ ss)) == 0) ≡ false
unfolding joined
joined-cons s [] h = h.0.not_empty
joined-cons s (t ∷ ss) h = let size = length-append (joined (t ∷ ss)) (0x5c ∷ s) in ground arith

take-length-append : (xs ys : Wide) → take (length xs) (xs ++ ys) ≡ xs
take-length-append [] ys = refl
take-length-append (x ∷ xs) ys = ap (x ∷◌) (take-length-append xs ys)

segment-All : (p : Wide) → All (λ c. ml_path_separator c ≡ false) (segment p).0
unfolding segment
segment-All [] = tt
segment-All (c ∷ cs) = elim (Bool-cases (ml_path_separator c)) [
  | inl sep ↦ rw sep tt
  | inr other ↦ rw other (other, segment-All cs)
]

module _ (towlower : ℕ → ℕ) (lowers : Lowers towlower) where
  Clean : Normal → Type 0
  Clean n =
      (ss : List Wide) × All IsSegment ss
      × (n.result ≡ joined ss)
      × (n.segment_starts ≡ starts_of ss)

  map-All :
      (s : Wide)
      → All (λ c. ml_path_separator c ≡ false) s
      → All (λ c. ml_path_separator c ≡ false) (map towlower s)
  map-All [] h = tt
  map-All (c ∷ cs) h = (lowers.keeps_separator c ∙ h.0, map-All cs h.1)

  map-is_dot : (s : Wide) → is_dot (map towlower s) ≡ is_dot s
  map-is_dot [] = refl
  map-is_dot (c ∷ []) = lowers.keeps_dot c
  map-is_dot (c ∷ d ∷ cs) = refl

  map-is_dot_dot : (s : Wide) → is_dot_dot (map towlower s) ≡ is_dot_dot s
  map-is_dot_dot [] = refl
  map-is_dot_dot (c ∷ []) = refl
  map-is_dot_dot (c ∷ d ∷ []) = rw (lowers.keeps_dot c, lowers.keeps_dot d)
  map-is_dot_dot (c ∷ d ∷ e ∷ cs) = refl

  length-map : (s : Wide) → length (map towlower s) ≡ length s
  length-map [] = refl
  length-map (c ∷ cs) = ap suc (length-map cs)

  push_segment-Clean :
      (n : Normal) (part : Wide)
      → Clean n
      → IsSegment (map towlower part)
      → Clean (push_segment towlower n part)
  unfolding Clean joined starts_of
  push_segment-Clean n part ([], h, r, t) new =
      let none_yet : (length n.result == 0) ≡ true = ap (λ x. length x == 0) r in
      (
        map towlower part ∷ [],
        (new, tt),
        rw none_yet,
        ap (λ x. length x ∷ n.segment_starts) r ∙ ap (length (joined []) ∷◌) t,
      )
  push_segment-Clean n part (s ∷ ss, h, r, t) new =
      let some_yet = subst (λ x. (length x == 0) ≡ false) (sym r) (joined-cons s ss h) in
      (
        map towlower part ∷ s ∷ ss,
        (new, h),
        rw some_yet (
            ap (λ x. (x ++ (0x5c ∷ [])) ++ map towlower part) r
            ∙ append_assoc (joined (s ∷ ss)) (0x5c ∷ []) (map towlower part)),
        ap (λ x. length x ∷ n.segment_starts) r ∙ ap (length (joined (s ∷ ss)) ∷◌) t,
      )

  abbrev pop_by : Wide → List ℕ → Option Normal
  pop_by result starts = pop_segment (record { result = result; segment_starts = starts })

  take-joined :
      (s : Wide) (ss : List Wide) → take (length (joined ss)) (joined (s ∷ ss)) ≡ joined ss
  unfolding joined
  take-joined s [] = refl
  take-joined s (t ∷ ss) = take-length-append (joined (t ∷ ss)) (0x5c ∷ s)

  pop_segment-Clean : (n n' : Normal) → Clean n → pop_segment n ≡ some n' → Clean n'
  unfolding Clean starts_of
  pop_segment-Clean n n' ([], h, r, t) e =
      absurd (ground (arith, subst (λ starts. pop_by n.result starts ≡ some n') t e))
  pop_segment-Clean n n' (s ∷ ss, h, r, t) e =
      let popped =
        subst (λ starts. pop_by (joined (s ∷ ss)) starts ≡ some n') t
          (subst (λ result. pop_by result n.segment_starts ≡ some n') r e) in
      subst Clean (some-injective _ n' popped) (ss, h.1, take-joined s ss, refl)

  add_segment-Clean :
      (n n' : Normal) (part : Wide)
      → Clean n
      → All (λ c. ml_path_separator c ≡ false) part
      → add_segment towlower n part ≡ some n'
      → Clean n'
  add_segment-Clean n n' part clean pieces e = elim (Bool-cases (length part == 0 || is_dot part)) [
    | inl nothing ↦
        let same : some n ≡ some n' = ground (arith, e, nothing) in
        subst Clean (some-injective n n' same) clean
    | inr something ↦ elim (Bool-cases (is_dot_dot part)) [
      | inl up ↦ pop_segment-Clean n n' clean (ground (arith, e, something, up))
      | inr down ↦
          let same : some (push_segment towlower n part) ≡ some n' =
            ground (arith, e, something, down) in
          let name : IsSegment (map towlower part) = record {
            not_empty = ap (λ k. k == 0) (length-map part) ∙ ground arith;
            one_piece = map-All part pieces;
            not_dot = map-is_dot part ∙ ground arith;
            not_dot_dot = map-is_dot_dot part ∙ down;
          } in
          subst Clean (some-injective (push_segment towlower n part) n' same)
            (push_segment-Clean n part clean name)
    ]
  ]

  normalize_loop-Clean :
      (fuel : ℕ) (n : Normal) (path key : Wide)
      → Clean n
      → normalize_loop towlower fuel n path ≡ some key
      → (ss : List Wide) × All IsSegment ss × (key ≡ joined ss)
  unfolding normalize_loop Clean
  normalize_loop-Clean fuel n [] key (ss, h, r, t) e =
      (ss, h, sym (some-injective n.result key e) ∙ r)
  normalize_loop-Clean zero n (c ∷ cs) key clean e = absurd (ground (arith, e))
  normalize_loop-Clean (suc fuel) n (c ∷ cs) key clean e =
      let (n', added, e1) = chain_some (add_segment towlower n (segment (c ∷ cs)).0) _ key e in
      normalize_loop-Clean fuel n' (skip_separators (segment (c ∷ cs)).1) key
        (add_segment-Clean n n' (segment (c ∷ cs)).0 clean (segment-All (c ∷ cs)) added) e1

  -- The key of a path is made of segments with a backslash between each two, and no segment is
  -- empty, holds a separator, or is . or .., so a key never leaves the root of a package.
  -- towlower keeps dots and separators apart from the other characters.
  pub vfs_normalize_path-IsSegment :
      (path key : Wide)
      → vfs_normalize_path towlower path ≡ some key
      → (ss : List Wide) × All IsSegment ss × (key ≡ joined ss)
  unfolding vfs_normalize_path Clean joined starts_of
  vfs_normalize_path-IsSegment path key e =
      normalize_loop-Clean (suc (length path)) (record { result = []; segment_starts = [] })
        (strip_device path) key ([], tt, refl, refl) e
