-- ===== src/Process/Undname/Enough.antt =====
-- The rounds of the loop over the components are enough.
use yafsml.Prelude.{
  ℕ, zero, suc, ◌<◌, ◌≤◌, ◌≡◌, refl, ap, List, [], ◌∷◌, ◌==◌, Bytes, length, arith, Bool-cases, inl,
  inr, ◌⊎◌,
}
use yafsml.Process.Undname.{component, components_loop, max_components}

List-cases : {A : Type 0} (xs : List A) → (xs ≡ []) ⊎ ((x : A) × (ys : List A) × (xs ≡ x ∷ ys))
List-cases [] = inl refl
List-cases (x ∷ xs) = inr (x, xs, refl)

length-component : (p : Bytes) → length (component p).1 ≤ length p
unfolding component
length-component [] = omega arith
length-component (c ∷ cs) = ground (arith, length-component cs)

-- With more rounds than there are characters left, the loop over the components gives the same
-- answer whatever their number.
components_loop-enough :
    (fuel more : ℕ) (found : List Bytes) (p : Bytes)
    → length p < fuel
    → length p < more
    → components_loop fuel found p ≡ components_loop more found p
unfolding components_loop
components_loop-enough zero more found p h k = absurd (omega arith)
components_loop-enough (suc fuel) zero found p h k = absurd (omega arith)
components_loop-enough (suc fuel) (suc more) found p h k = elim (List-cases (component p).0) [
  | inl last ↦ rw (last, components_loop)
  | inr (c, cs, name) ↦ elim (Bool-cases (length found == max_components)) [
    | inl full ↦ rw (name, components_loop) (rw full)
    | inr room ↦ elim (List-cases (component p).1) [
      | inl end ↦ rw (name, components_loop) (rw room (rw end))
      | inr (d, behind, rest) ↦
          let size = length-component p in
          let less = ap length rest in
          rw (name, components_loop)
            (rw room (
              rw rest (
                components_loop-enough fuel more ((c ∷ cs) ∷ found) behind (omega arith)
                  (omega arith))))
    ]
  ]
]
