-- ===== src/Process/CpuSets/Choice.antt =====
-- What the two searches of `select_process_cpu_set_ids` find: the classes at both ends, and the lowest
-- logical CPU.
use yafsml.Prelude.{
  ℕ, ◌≤◌, ◌≡◌, refl, Bool, true, false, ◌&&◌, ◌||◌, List, [], ◌∷◌, ◌==◌, All, subst, arith,
  Bool-cases, inl, inr,
}
use yafsml.Process.CpuSets.{
  CpuSet, Classes, widen, classes_loop, find_efficiency_classes, is_usable_cpu_set,
}

-- The classes of the usable entries lie between both ends.
unfoldable pub Between : Classes → CpuSet → Type 0
Between k s =
    is_usable_cpu_set s ≡ true
    → (k.found ≡ true) × (k.min_class ≤ s.efficiency_class) × (s.efficiency_class ≤ k.max_class)

-- A search only widens.
Wider : Classes → Classes → Type 0
Wider k m =
    k.found ≡ true → (m.found ≡ true) × (m.min_class ≤ k.min_class) × (k.max_class ≤ m.max_class)

classes_loop-Wider : (k : Classes) (ss : List CpuSet) → Wider k (classes_loop k ss)
unfolding Wider classes_loop
classes_loop-Wider k [] found = (found, omega arith, omega arith)
classes_loop-Wider k (s ∷ ss) found = elim (Bool-cases (is_usable_cpu_set s)) [
  | inl usable ↦
      rw (usable, classes_loop)
        (let (f, lo, hi) = classes_loop-Wider (widen s k) ss refl in
          (f, ground arith, ground arith))
  | inr used ↦ rw (used, classes_loop) (classes_loop-Wider k ss found)
]

classes_loop_usable :
    (k : Classes) (s : CpuSet) (ss : List CpuSet)
    → is_usable_cpu_set s ≡ true
    → classes_loop (widen s k) ss ≡ classes_loop k (s ∷ ss)
unfolding classes_loop
classes_loop_usable k s ss usable = rw (usable, classes_loop)

classes_loop_used :
    (k : Classes) (s : CpuSet) (ss : List CpuSet)
    → is_usable_cpu_set s ≡ false
    → classes_loop k ss ≡ classes_loop k (s ∷ ss)
unfolding classes_loop
classes_loop_used k s ss used = rw (used, classes_loop)

classes_loop-Between : (k : Classes) (ss : List CpuSet) → All (Between (classes_loop k ss)) ss
unfolding Between Wider
classes_loop-Between k [] = tt
classes_loop-Between k (s ∷ ss) = elim (Bool-cases (is_usable_cpu_set s)) [
  | inl usable ↦
      subst (λ m. All (Between m) (s ∷ ss)) (classes_loop_usable k s ss usable)
        (
          (λ u.
              let (f, lo, hi) = classes_loop-Wider (widen s k) ss refl in
              (f, ground arith, ground arith)),
          classes_loop-Between (widen s k) ss,
        )
  | inr used ↦
      subst (λ m. All (Between m) (s ∷ ss)) (classes_loop_used k s ss used)
        ((λ u. absurd (ground arith)), classes_loop-Between k ss)
]

-- Some usable entry has the class.
unfoldable pub has_class : ℕ → List CpuSet → Bool
has_class c [] = false
has_class c (s ∷ ss) = (is_usable_cpu_set s && s.efficiency_class == c) || has_class c ss

-- An end is an old one, or the class of an entry.
Reached : Classes → Classes → List CpuSet → Type 0
Reached k m ss =
    m.found ≡ true
    → (((k.found && m.min_class == k.min_class) || has_class m.min_class ss) ≡ true)
      × (((k.found && m.max_class == k.max_class) || has_class m.max_class ss) ≡ true)

classes_loop-Reached : (k : Classes) (ss : List CpuSet) → Reached k (classes_loop k ss) ss
unfolding Reached has_class classes_loop
classes_loop-Reached k [] = λ found. (ground arith, ground arith)
classes_loop-Reached k (s ∷ ss) = elim (Bool-cases (is_usable_cpu_set s)) [
  | inl usable ↦
      subst (λ m. Reached k m (s ∷ ss)) (classes_loop_usable k s ss usable)
        (λ found.
          let (lo, hi) = classes_loop-Reached (widen s k) ss found in (ground arith, ground arith))
  | inr used ↦
      subst (λ m. Reached k m (s ∷ ss)) (classes_loop_used k s ss used)
        (λ found. let (lo, hi) = classes_loop-Reached k ss found in (ground arith, ground arith))
]

-- The class of every usable entry lies between the two classes found, which are found if an entry
-- is usable, and both of them are classes of usable entries.
pub find_efficiency_classes-Between :
    (sets : List CpuSet)
    → All (Between (find_efficiency_classes sets)) sets
      × ((find_efficiency_classes sets).found ≡ true
          → (has_class (find_efficiency_classes sets).min_class sets ≡ true)
            × (has_class (find_efficiency_classes sets).max_class sets ≡ true))
unfolding Reached
find_efficiency_classes-Between sets = (
  classes_loop-Between (record { found = false; min_class = 0; max_class = 0 }) sets,
  classes_loop-Reached (record { found = false; min_class = 0; max_class = 0 }) sets,
)
