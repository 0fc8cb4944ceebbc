-- ===== src/Modloader/Vfs/Wide.antt =====
-- Whether two strings are the same.
use yafsml.Prelude.{ℕ, ◌≡◌, ◌≢◌, refl, [], ◌∷◌, arith}
use native.Mathlib.Decide.{ℕ_discrete}
use yafsml.Common.Path.{Wide}

pub nil_or_cons : (y : ℕ) (ys : Wide) → ([] ≢ y ∷ ys) × (y ∷ ys ≢ [])
nil_or_cons y ys = ((λ e. ground (arith, e)), λ e. ground (arith, e))

pub heads_differ : {x y : ℕ} {xs ys : Wide} → x ≢ y → x ∷ xs ≢ y ∷ ys
heads_differ ne e = ne (ground (arith, e))

pub tails_differ : {x y : ℕ} {xs ys : Wide} → xs ≢ ys → x ∷ xs ≢ y ∷ ys
tails_differ ne e = ne (ground (arith, e))

pub same_cons : {x y : ℕ} {xs ys : Wide} → x ≡ y → xs ≡ ys → x ∷ xs ≡ y ∷ ys
same_cons p q = ground (arith, p, q)

unfoldable pub wide_discrete : (a b : Wide) → Dec (a ≡ b)
unfolding ℕ_discrete
wide_discrete [] [] = yes refl
wide_discrete [] (y ∷ ys) = no (nil_or_cons y ys).0
wide_discrete (x ∷ xs) [] = no (nil_or_cons x xs).1
wide_discrete (x ∷ xs) (y ∷ ys) = elim (ℕ_discrete x y) [
  | no ne ↦ no (heads_differ ne)
  | yes p ↦ elim (wide_discrete xs ys) [
    | no ne ↦ no (tails_differ ne)
    | yes q ↦ yes (same_cons p q)
  ]
]
