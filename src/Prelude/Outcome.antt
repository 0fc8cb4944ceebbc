-- ===== src/Prelude/Outcome.antt =====
-- The outcome of code that reads memory and loops: a value, a read outside the buffer, or the
-- model's fuel spent. The last two are no results of the program.

use mathlib.Core.Path.{◌≡◌, refl, ap, ◌∙◌}
use mathlib.Core.Bool.{Bool, true, false}
use yafsml.Prelude.Tests.{if◌then◌else◌}

pub data Run {ℓ} (A : Type ℓ) : Type ℓ where
  done : A → Run A
  fault : Run A
  stuck : Run A

infixl 5 ◌>>=◌
abbrev pub ◌>>=◌ {ℓ κ} : {A : Type ℓ} {B : Type κ} → Run A → (A → Run B) → Run B
done a >>= f = f a
fault >>= f = fault
stuck >>= f = stuck

-- A run that ends with a value, of which `P` holds.
pub data Returns {ℓ κ} {A : Type ℓ} (P : A → Type κ) : Run A → Type (ℓ ⊔ κ) where
  returned : (a : A) → P a → Returns P (done a)

pub Returns-bind {ℓ κ μ ν} :
    {A : Type ℓ} {B : Type κ} {P : A → Type μ} {Q : B → Type ν} {m : Run A} {f : A → Run B}
    → Returns P m
    → ((a : A) → P a → Returns Q (f a))
    → Returns Q (m >>= f)
Returns-bind (returned a p) next = next a p

pub Returns-mono {ℓ κ μ} :
    {A : Type ℓ} {P : A → Type κ} {Q : A → Type μ} {m : Run A}
    → Returns P m
    → ((a : A) → P a → Q a)
    → Returns Q m
Returns-mono (returned a p) next = returned a (next a p)

pub Returns-if {ℓ κ} :
    {A : Type ℓ} {P : A → Type κ} {x y : Run A} (b : Bool)
    → (b ≡ true → Returns P x)
    → (b ≡ false → Returns P y)
    → Returns P (if b then x else y)
Returns-if true holds fails = holds refl
Returns-if false holds fails = fails refl

pub Returns-eq {ℓ κ} :
    {A : Type ℓ} {P : A → Type κ} {m : Run A} (x : A)
    → Returns P m
    → ((a : A) → P a → a ≡ x)
    → m ≡ done x
Returns-eq x (returned a p) same = ap done (same a p)

pub Returns-value {ℓ κ} :
    {A : Type ℓ} {P : A → Type κ} {m : Run A} → Returns P m → (a : A) × (m ≡ done a) × P a
Returns-value (returned a p) = (a, refl, p)

-- Two runs are the same where they begin with the same run and go on alike.
pub bind_alike {ℓ κ} :
    {A : Type ℓ} {B : Type κ} {m n : Run A} {f g : A → Run B}
    → m ≡ n
    → ((a : A) → f a ≡ g a)
    → (m >>= f) ≡ (n >>= g)
bind_alike {m = m} {n = n} {f = f} {g = g} same alike = ap (λ t. t >>= f) same ∙ go n
  where
    go : (t : Run _) → (t >>= f) ≡ (t >>= g)
    go (done a) = alike a
    go fault = refl
    go stuck = refl
