-- ===== src/Process/CpuSets/Writes.antt =====
-- What `select_process_cpu_set_ids` counts and writes, whatever it selects by.
use yafsml.Prelude.{
  ℕ, zero, suc, ◌+◌, ◌≤◌, ◌≡◌, refl, ap, sym, ◌∙◌, Bool, true, false, All, subst, not, ◌&&◌, ◌||◌,
  Option, none, some, List, [], ◌∷◌, ltb, leb, ◌==◌, if◌then◌else◌, length, set, take, ◌-◌, arith,
  Bool-cases, inl, inr, Run, done,
}
use yafsml.Process.CpuSets.{
  CpuSet, Selection, select_loop, classes_loop, first_loop, is_usable_cpu_set, is_excluded,
  find_first_matching_cpu_set, find_efficiency_classes, selected_class_of, excluded_by,
  should_select_cpu_set, select_process_cpu_set_ids,
}
use yafsml.Process.CpuSets.Choice.{Between, find_efficiency_classes-Between}

unfoldable pub chosen_ids : (CpuSet → Bool) → List CpuSet → List ℕ
chosen_ids chosen [] = []
chosen_ids chosen (s ∷ ss) =
    let more = chosen_ids chosen ss in if chosen s then s.id ∷ more else more

-- The entries `new` over the first entries of an array, as far as it goes.
unfoldable pub overwrite : List ℕ → List ℕ → List ℕ
overwrite [] new = []
overwrite (x ∷ xs) [] = x ∷ xs
overwrite (x ∷ xs) (y ∷ new) = y ∷ overwrite xs new

-- The entries that a strategy asks for: all but the first logical CPU, the slow cores, the fast ones,
-- or those without the first of them. Where all cores are alike only the first strategy asks for any.
unfoldable pub is_asked_for : ℕ → List CpuSet → CpuSet → Bool
unfolding classes_loop first_loop
is_asked_for strategy sets s =
    let k = find_efficiency_classes sets in
    let alike = k.min_class == k.max_class in
    let fast = s.efficiency_class == k.max_class in
    is_usable_cpu_set s
    && (if strategy == 1
        then not (is_excluded s (find_first_matching_cpu_set sets false 0))
        else if strategy == 2
        then not alike && s.efficiency_class == k.min_class
        else if strategy == 3
        then not alike && fast
        else if strategy == 4
        then not alike
          && fast
          && not (is_excluded s (find_first_matching_cpu_set sets true k.max_class))
        else false)

-- Their ids, in the order of the entries.
unfoldable pub selected_ids : ℕ → List CpuSet → List ℕ
unfolding chosen_ids is_asked_for
selected_ids strategy sets = chosen_ids (is_asked_for strategy sets) sets

abbrev counted : Option (List ℕ) → ℕ → Selection
counted ids n = record { ids = ids; selected_count = n }

put_all : List ℕ → ℕ → List ℕ → List ℕ
put_all ids n [] = ids
put_all ids n (x ∷ xs) = put_all (set ids n x) (suc n) xs

put_all-suc :
    (i : ℕ) (ids : List ℕ) (n : ℕ) (xs : List ℕ)
    → put_all (i ∷ ids) (suc n) xs ≡ i ∷ put_all ids n xs
unfolding put_all
put_all-suc i ids n [] = refl
put_all-suc i ids n (x ∷ xs) = put_all-suc i (set ids n x) (suc n) xs

put_all-nil : (n : ℕ) (xs : List ℕ) → put_all [] n xs ≡ []
unfolding put_all
put_all-nil n [] = refl
put_all-nil n (x ∷ xs) = put_all-nil (suc n) xs

put_all-overwrite : (ids xs : List ℕ) → put_all ids 0 xs ≡ overwrite ids xs
unfolding put_all overwrite
put_all-overwrite [] xs = put_all-nil 0 xs
put_all-overwrite (i ∷ ids) [] = refl
put_all-overwrite (i ∷ ids) (x ∷ xs) = put_all-suc x ids 0 xs ∙ ap (x ∷◌) (put_all-overwrite ids xs)

length-set : (ids : List ℕ) (n x : ℕ) → length (set ids n x) ≡ length ids
length-set [] n x = refl
length-set (i ∷ ids) zero x = refl
length-set (i ∷ ids) (suc n) x = ap suc (length-set ids n x)

take-nil : (m : ℕ) → take {A = ℕ} m [] ≡ []
take-nil zero = refl
take-nil (suc m) = refl

select_loop-put_all :
    (chosen : CpuSet → Bool) (ids : List ℕ) (n room : ℕ) (ss : List CpuSet)
    → room ≤ length ids
    → select_loop chosen room (counted (some ids) n) ss
      ≡ done (record {
        ids = some (put_all ids n (take (room - n) (chosen_ids chosen ss)));
        selected_count = n + length (chosen_ids chosen ss);
      })
unfolding select_loop put_all chosen_ids
select_loop-put_all chosen ids n room [] fits =
    rw (take-nil (room - n)) (ap (λ c. done (counted (some ids) c)) (omega arith))
select_loop-put_all chosen ids n room (s ∷ ss) fits = elim (Bool-cases (chosen s)) [
  | inl picked ↦ elim (Bool-cases (ltb n room)) [
    | inl below ↦
        let inside : ltb n (length ids) ≡ true = ground arith in
        let left : room - n ≡ suc (room - suc n) = ground arith in
        let next : n + 1 ≡ suc n = omega arith in
        rw (picked, below, inside, next, left)
          (select_loop-put_all chosen (set ids n s.id) (suc n) room ss
              (subst (λ l. room ≤ l) (sym (length-set ids n s.id)) fits)
            ∙ ap
                (λ c. done (
                  counted
                    (some (
                      put_all (set ids n s.id) (suc n)
                        (take (room - suc n) (chosen_ids chosen ss))))
                    c))
                (omega arith))
    | inr full ↦
        let left : room - n ≡ 0 = ground arith in
        let left' : room - (n + 1) ≡ 0 = ground arith in
        rw (picked, full, left)
          (select_loop-put_all chosen ids (n + 1) room ss fits
            ∙ ap
                (λ m. done (
                  counted (some (put_all ids (n + 1) (take m (chosen_ids chosen ss))))
                    (n + 1 + length (chosen_ids chosen ss))))
                left'
            ∙ ap (λ c. done (counted (some ids) c)) (omega arith))
  ]
  | inr other ↦ rw other (select_loop-put_all chosen ids n room ss fits)
]

select_loop-none :
    (chosen : CpuSet → Bool) (n room : ℕ) (ss : List CpuSet)
    → select_loop chosen room (counted none n) ss
      ≡ done (counted none (n + length (chosen_ids chosen ss)))
unfolding select_loop chosen_ids
select_loop-none chosen n room [] = ap (λ c. done (counted none c)) (omega arith)
select_loop-none chosen n room (s ∷ ss) = elim (Bool-cases (chosen s)) [
  | inl picked ↦
      rw picked
        (select_loop-none chosen (n + 1) room ss ∙ ap (λ c. done (counted none c)) (omega arith))
  | inr left ↦ rw left (select_loop-none chosen n room ss)
]

-- What stands in the array and is counted, where `new` is selected.
abbrev filled : List ℕ → ℕ → List ℕ → Run Selection
filled ids room new = done (counted (some (overwrite ids (take room new))) (length new))

select_loop-overwrite :
    (chosen : CpuSet → Bool) (ids : List ℕ) (room : ℕ) (ss : List CpuSet)
    → room ≤ length ids
    → select_loop chosen room (counted (some ids) 0) ss ≡ filled ids room (chosen_ids chosen ss)
select_loop-overwrite chosen ids room ss fits =
    select_loop-put_all chosen ids 0 room ss fits
    ∙ ap
        (λ c. done (
          counted (some (put_all ids 0 (take c (chosen_ids chosen ss))))
            (0 + length (chosen_ids chosen ss))))
        (omega arith)
    ∙ ap (λ c. done (counted (some c) (0 + length (chosen_ids chosen ss))))
        (put_all-overwrite ids (take room (chosen_ids chosen ss)))
    ∙ ap (λ c. done (counted (some (overwrite ids (take room (chosen_ids chosen ss)))) c))
        (omega arith)

overwrite-nil : (ids : List ℕ) (room : ℕ) → overwrite ids (take room []) ≡ ids
unfolding overwrite
overwrite-nil [] zero = refl
overwrite-nil [] (suc n) = refl
overwrite-nil (i ∷ ids) zero = refl
overwrite-nil (i ∷ ids) (suc n) = refl

chosen_ids-same :
    (f g : CpuSet → Bool) (ss : List CpuSet)
    → ((s : CpuSet) → f s ≡ g s)
    → chosen_ids f ss ≡ chosen_ids g ss
unfolding chosen_ids
chosen_ids-same f g [] h = refl
chosen_ids-same f g (s ∷ ss) h =
    rw (h s) (ap (λ more. if g s then s.id ∷ more else more) (chosen_ids-same f g ss h))

first_loop-any_class :
    (c : ℕ) (ss : List CpuSet) (first : Option CpuSet)
    → first_loop false c first ss ≡ first_loop false 0 first ss
unfolding first_loop
first_loop-any_class c [] first = refl
first_loop-any_class c (s ∷ ss) first = first_loop-any_class c ss _

-- The entries that the code selects are those that the strategy asks for.
should_select_cpu_set-is_asked_for :
    (strategy : ℕ) (sets : List CpuSet) (s : CpuSet)
    → (ltb strategy 1 || ltb 4 strategy) ≡ false
    → (leb 2 strategy
        && (find_efficiency_classes sets).min_class == (find_efficiency_classes sets).max_class)
      ≡ false
    → should_select_cpu_set strategy s
        (selected_class_of strategy (find_efficiency_classes sets))
        (excluded_by strategy sets (selected_class_of strategy (find_efficiency_classes sets)))
      ≡ is_asked_for strategy sets s
unfolding is_asked_for classes_loop first_loop
should_select_cpu_set-is_asked_for zero sets s inside varied = absurd (ground arith)
should_select_cpu_set-is_asked_for (suc zero) sets s inside varied =
    rw (first_loop-any_class (find_efficiency_classes sets).max_class sets none) (ground arith)
should_select_cpu_set-is_asked_for (suc (suc zero)) sets s inside varied = ground arith
should_select_cpu_set-is_asked_for (suc (suc (suc zero))) sets s inside varied = ground arith
should_select_cpu_set-is_asked_for (suc (suc (suc (suc zero)))) sets s inside varied = ground arith
should_select_cpu_set-is_asked_for (suc (suc (suc (suc (suc n))))) sets s inside varied =
    absurd (ground arith)

chosen_ids-none :
    (f : CpuSet → Bool) (ss : List CpuSet) → All (λ s. f s ≡ false) ss → chosen_ids f ss ≡ []
unfolding chosen_ids
chosen_ids-none f [] h = refl
chosen_ids-none f (s ∷ ss) (h, hs) = rw h (chosen_ids-none f ss hs)

always : (P : CpuSet → Type 0) → ((s : CpuSet) → P s) → (ss : List CpuSet) → All P ss
always P h [] = tt
always P h (s ∷ ss) = (h s, always P h ss)

none_asked_for :
    (strategy : ℕ) (sets ss : List CpuSet)
    → (find_efficiency_classes sets).found ≡ false
    → All (Between (find_efficiency_classes sets)) ss
    → All (λ s. is_asked_for strategy sets s ≡ false) ss
unfolding is_asked_for Between
none_asked_for strategy sets [] h between = tt
none_asked_for strategy sets (s ∷ ss) h (here, more) = (
  elim (Bool-cases (is_usable_cpu_set s)) [
    | inl usable ↦ absurd (ground (arith, here usable, h))
    | inr used ↦ rw used
  ],
  none_asked_for strategy sets ss h more,
)

is_asked_for_out :
    (strategy : ℕ) (sets : List CpuSet) (s : CpuSet)
    → (ltb strategy 1 || ltb 4 strategy) ≡ true
    → is_asked_for strategy sets s ≡ false
unfolding is_asked_for
is_asked_for_out strategy sets s out = ground arith

is_asked_for_alike :
    (strategy : ℕ) (sets : List CpuSet) (s : CpuSet)
    → (leb 2 strategy
        && (find_efficiency_classes sets).min_class == (find_efficiency_classes sets).max_class)
      ≡ true
    → is_asked_for strategy sets s ≡ false
unfolding is_asked_for
is_asked_for_alike strategy sets s alike = ground arith

-- What the code selects with `run`, an answer for each list of selected ids.
select_process_cpu_set_ids-selected :
    (strategy : ℕ) (sets : List CpuSet) (ids : Option (List ℕ)) (room : ℕ)
    (answer : List ℕ → Run Selection)
    → done (counted ids 0) ≡ answer []
    → ((chosen : CpuSet → Bool)
        → select_loop chosen room (counted ids 0) sets ≡ answer (chosen_ids chosen sets))
    → select_process_cpu_set_ids strategy (some sets) ids room ≡ answer (selected_ids strategy sets)
unfolding select_process_cpu_set_ids selected_ids
select_process_cpu_set_ids-selected strategy sets ids room answer nothing all =
    let k = find_efficiency_classes sets in
    let empty = λ (h : All (λ s. is_asked_for strategy sets s ≡ false) sets).
      nothing ∙ ap answer (sym (chosen_ids-none (is_asked_for strategy sets) sets h)) in
    elim (Bool-cases (ltb strategy 1 || ltb 4 strategy)) [
      | inl out ↦
          rw (out, select_process_cpu_set_ids)
            (empty (always _ (λ s. is_asked_for_out strategy sets s out) sets))
      | inr inside ↦ elim (Bool-cases k.found) [
        | inr unfound ↦
            rw (inside, unfound, select_process_cpu_set_ids)
              (empty (
                none_asked_for strategy sets sets unfound (find_efficiency_classes-Between sets).0))
        | inl found ↦ elim (Bool-cases (leb 2 strategy && k.min_class == k.max_class)) [
          | inl alike ↦
              rw (inside, found, alike, select_process_cpu_set_ids)
                (empty (always _ (λ s. is_asked_for_alike strategy sets s alike) sets))
          | inr varied ↦
              rw (inside, found, varied, select_process_cpu_set_ids)
                (all _
                  ∙ ap answer (
                      chosen_ids-same _ (is_asked_for strategy sets) sets
                        (λ s. should_select_cpu_set-is_asked_for strategy sets s inside varied)))
        ]
      ]
    ]

-- With an array of ids and a capacity that is not above its size, nothing is written outside the
-- array. The ids of the entries that the strategy asks for stand in the array from its start, in
-- the order of the entries and as many as the capacity allows, the rest of the array is
-- untouched, and the count is that of all of them. Without an array the count is the same. A
-- strategy asks for usable entries only: the first for all but the id of the lowest logical CPU,
-- and where the lowest and the highest class differ the second for those of the lowest class, the
-- third for those of the highest one, and the fourth for these but the id of the lowest of them.
pub select_process_cpu_set_ids-Writes :
    (strategy : ℕ) (sets : List CpuSet) (ids : List ℕ) (room : ℕ)
    → room ≤ length ids
    → (select_process_cpu_set_ids strategy (some sets) (some ids) room
        ≡ done (record {
          ids = some (overwrite ids (take room (selected_ids strategy sets)));
          selected_count = length (selected_ids strategy sets);
        }))
      × ((room' : ℕ)
          → select_process_cpu_set_ids strategy (some sets) none room'
            ≡ done (record { ids = none; selected_count = length (selected_ids strategy sets) }))
select_process_cpu_set_ids-Writes strategy sets ids room fits = (
  select_process_cpu_set_ids-selected strategy sets (some ids) room (filled ids room)
      (ap (λ c. done (counted (some c) 0)) (sym (overwrite-nil ids room)))
      (λ chosen. select_loop-overwrite chosen ids room sets fits),
  λ room'.
      select_process_cpu_set_ids-selected strategy sets none room'
        (λ new. done (counted none (length new))) refl
        (λ chosen.
          select_loop-none chosen 0 room' sets ∙ ap (λ c. done (counted none c)) (omega arith)),
)
