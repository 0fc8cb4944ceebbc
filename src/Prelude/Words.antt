-- ===== src/Prelude/Words.antt =====
-- Words of two, four and eight bytes in a buffer, the low byte first.
use Prim.Native.Nat.{ℕ, ◌+◌, ◌*◌, ◌^◌, ◌≤◌}
use mathlib.Core.Option.{none, some}
use mathlib.Core.Path.{◌≡◌, refl, ap}
use native.Mathlib.Omega.{arith}
use yafsml.Prelude.ByteMasks.{Bytes}
use yafsml.Prelude.Lists.{length, take, get_elem?, get_elem?_of_lt, get_elem?-take}
use yafsml.Prelude.Outcome.{Run, done, fault, ◌>>=◌, Returns, returned, Returns-bind, bind_alike}

unfoldable pub byte_at : Bytes → ℕ → Run ℕ
byte_at bytes place = elim (get_elem? bytes place) [ none ↦ fault | some b ↦ done b ]

unfoldable pub read16 : Bytes → ℕ → Run ℕ
unfolding byte_at
read16 bytes place = do
  low ← byte_at bytes place
  high ← byte_at bytes (place + 1)
  done (low + 2 ^ 8 * high)

unfoldable pub read32 : Bytes → ℕ → Run ℕ
unfolding read16
read32 bytes place = do
  low ← read16 bytes place
  high ← read16 bytes (place + 2)
  done (low + 2 ^ 16 * high)

unfoldable pub read64 : Bytes → ℕ → Run ℕ
unfolding read32
read64 bytes place = do
  low ← read32 bytes place
  high ← read32 bytes (place + 4)
  done (low + 2 ^ 32 * high)

abbrev Any : ℕ → Type 0
Any n = Unit {0}

-- A word inside the buffer is read.
pub byte_at_inside :
    (bytes : Bytes) (place : ℕ) → place + 1 ≤ length bytes → Returns Any (byte_at bytes place)
unfolding byte_at
byte_at_inside bytes place h =
    let (b, e) = get_elem?_of_lt bytes place (omega arith) in rw (e, byte_at) (returned b tt)

pub read16_inside :
    (bytes : Bytes) (place : ℕ) → place + 2 ≤ length bytes → Returns Any (read16 bytes place)
unfolding read16
read16_inside bytes place h =
    Returns-bind (byte_at_inside bytes place (omega arith))
      λ low _. Returns-bind (byte_at_inside bytes (place + 1) (omega arith)) λ high _. returned _ tt

pub read32_inside :
    (bytes : Bytes) (place : ℕ) → place + 4 ≤ length bytes → Returns Any (read32 bytes place)
unfolding read32
read32_inside bytes place h =
    Returns-bind (read16_inside bytes place (omega arith))
      λ low _. Returns-bind (read16_inside bytes (place + 2) (omega arith)) λ high _. returned _ tt

pub read64_inside :
    (bytes : Bytes) (place : ℕ) → place + 8 ≤ length bytes → Returns Any (read64 bytes place)
unfolding read64
read64_inside bytes place h =
    Returns-bind (read32_inside bytes place (omega arith))
      λ low _. Returns-bind (read32_inside bytes (place + 4) (omega arith)) λ high _. returned _ tt

-- A word that stands in the first bytes is read from them as from all.
pub byte_at-take :
    (n : ℕ) (bytes : Bytes) (place : ℕ)
    → place + 1 ≤ n
    → byte_at (take n bytes) place ≡ byte_at bytes place
unfolding byte_at
byte_at-take n bytes place h =
    ap (λ o. elim o as (λ x. Run ℕ) [ none ↦ fault | some b ↦ done b ])
      (get_elem?-take n place bytes (omega arith))

pub read16-take :
    (n : ℕ) (bytes : Bytes) (place : ℕ)
    → place + 2 ≤ n
    → read16 (take n bytes) place ≡ read16 bytes place
unfolding read16
read16-take n bytes place h =
    bind_alike (byte_at-take n bytes place (omega arith))
      λ low. bind_alike (byte_at-take n bytes (place + 1) (omega arith)) λ high. refl

pub read32-take :
    (n : ℕ) (bytes : Bytes) (place : ℕ)
    → place + 4 ≤ n
    → read32 (take n bytes) place ≡ read32 bytes place
unfolding read32
read32-take n bytes place h =
    bind_alike (read16-take n bytes place (omega arith))
      λ low. bind_alike (read16-take n bytes (place + 2) (omega arith)) λ high. refl

pub read64-take :
    (n : ℕ) (bytes : Bytes) (place : ℕ)
    → place + 8 ≤ n
    → read64 (take n bytes) place ≡ read64 bytes place
unfolding read64
read64-take n bytes place h =
    bind_alike (read32-take n bytes place (omega arith))
      λ low. bind_alike (read32-take n bytes (place + 4) (omega arith)) λ high. refl
