-- ===== src/Prelude/Tests.antt =====
-- Boolean tests on the native numbers, the conditional, and splits that keep their equation.
use Prim.Native.Nat.{ℕ, ◌≤◌, ◌<◌, compare, Ordering}
use mathlib.Core.Path.{◌≡◌, refl}
use mathlib.Core.Logic.{◌↔◌, ◌⊎◌, inl, inr}
use mathlib.Core.Bool.{Bool, true, false, ◌&&◌}
use mathlib.Core.Option.{Option, none, some}
use native.Mathlib.Omega.{arith}

abbrev pub ltb : ℕ → ℕ → Bool
ltb a b = elim (compare a b) [ Ordering.lt ↦ true | _ ↦ false ]

abbrev pub leb : ℕ → ℕ → Bool
leb a b = elim (compare a b) [ Ordering.gt ↦ false | _ ↦ true ]

infix 50 ◌==◌
abbrev pub ◌==◌ : ℕ → ℕ → Bool
a == b = elim (compare a b) [ Ordering.eq ↦ true | _ ↦ false ]

infix 1 if◌then◌else◌
abbrev pub if◌then◌else◌ {ℓ} : {A : Type ℓ} → Bool → A → A → A
if true then x else y = x
if false then x else y = y

pub ltb→lt : (a b : ℕ) → ltb a b ≡ true → a < b
ltb→lt a b h = ground arith

pub lt→ltb : (a b : ℕ) → a < b → ltb a b ≡ true
lt→ltb a b h = ground arith

pub leb→le : (a b : ℕ) → leb a b ≡ true → a ≤ b
leb→le a b h = ground arith

pub le→leb : (a b : ℕ) → a ≤ b → leb a b ≡ true
le→leb a b h = ground arith

pub ==_iff : (a b : ℕ) → ((a == b) ≡ true) ↔ (a ≡ b)
==_iff a b = ground arith

pub ruleset tests = (arith, ltb→lt, lt→ltb, leb→le, le→leb)

pub Bool-cases : (b : Bool) → (b ≡ true) ⊎ (b ≡ false)
Bool-cases true = inl refl
Bool-cases false = inr refl

pub Option-cases {ℓ} : {A : Type ℓ} (o : Option A) → (o ≡ none) ⊎ ((a : A) × (o ≡ some a))
Option-cases none = inl refl
Option-cases (some a) = inr (a, refl)

-- Checking every number below a bound by evaluation.
unfoldable pub all_below : ℕ → (ℕ → Bool) → Bool
all_below ℕ.zero p = true
all_below (ℕ.suc n) p = p n && all_below n p

pub all_below_sound : (n : ℕ) (p : ℕ → Bool) (x : ℕ) → all_below n p ≡ true → x < n → p x ≡ true
unfolding all_below
all_below_sound ℕ.zero p x h lt = absurd (omega arith)
all_below_sound (ℕ.suc n) p x h lt = ground (arith, all_below_sound n p x)

-- A predicate of both branches holds of a test.
pub if_lem {ℓ κ} :
    {A : Type ℓ} (P : A → Type κ) (b : Bool) (x y : A)
    → (b ≡ true → P x)
    → (b ≡ false → P y)
    → P (if b then x else y)
if_lem P true x y f g = f refl
if_lem P false x y f g = g refl

-- What a result says of the tests it has passed.
module _ {ℓ} {A : Type ℓ} where
  pub else_some :
      (b : Bool) (x : Option A) (y : A)
      → (if b then none else x) ≡ some y
      → (b ≡ false) × (x ≡ some y)
  else_some true x y e = absurd (ground arith)
  else_some false x y e = (refl, e)

  pub then_some :
      (b : Bool) (x : Option A) (y : A)
      → (if b then x else none) ≡ some y
      → (b ≡ true) × (x ≡ some y)
  then_some true x y e = (refl, e)
  then_some false x y e = absurd (ground arith)

  pub chain_some {κ} :
      {B : Type κ} (o : Option B) (f : B → Option A) (y : A)
      → elim o as (λ x. Option A) [ none ↦ none | some b ↦ f b ] ≡ some y
      → (b : B) × (o ≡ some b) × (f b ≡ some y)
  chain_some none f y e = absurd (ground arith)
  chain_some (some b) f y e = (b, refl, e)

-- What a test says of its value.
module _ {ℓ} {A : Type ℓ} where
  pub value_then : (b : Bool) (x y z : A) → b ≡ true → (if b then x else y) ≡ z → x ≡ z
  value_then true x y z holds e = e
  value_then false x y z holds e = absurd (ground arith)

  pub value_else : (b : Bool) (x y z : A) → b ≡ false → (if b then x else y) ≡ z → y ≡ z
  value_else true x y z fails e = absurd (ground arith)
  value_else false x y z fails e = e

  pub turn_then : (b : Bool) (x y : A) → b ≡ true → (if b then x else y) ≡ x
  turn_then true x y holds = refl
  turn_then false x y holds = absurd (ground arith)

  pub turn_else : (b : Bool) (x y : A) → b ≡ false → (if b then x else y) ≡ y
  turn_else true x y fails = absurd (ground arith)
  turn_else false x y fails = refl
