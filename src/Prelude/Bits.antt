-- ===== src/Prelude/Bits.antt =====
-- The binary digits of numbers, and those of masks, at every width.
use Prim.Native.Nat.{
  ℕ, zero, suc, ◌+◌, ◌-◌, ◌*◌, ◌/◌, ◌%◌, ◌^◌, ◌≤◌, ◌<◌, min, max, bit_and, bit_or, digits, bitwise,
  bit_and-bitwise, bit_or-bitwise,
}
use mathlib.Core.Path.{◌≡◌, refl, ap, ◌∙◌}
use native.Mathlib.Omega.{arith}
use native.Mathlib.Nat.{add-mul-mod_self_left, mod-eq_of_lt, mod-lt, div-add-mod}
use yafsml.Prelude.Tests.{ltb, ◌==◌, if◌then◌else◌, Bool-cases}
use mathlib.Core.Logic.{inl, inr}

module _ (z : ℕ → ℕ) (f : ℕ → ℕ → ℕ) where
  -- More rounds than the first number needs change nothing.
  digits_enough : (n m a b : ℕ) → a ≤ n → a ≤ m → digits z f n a b ≡ digits z f m a b
  digits_enough zero zero a b p q = refl
  digits_enough zero (suc m) zero b p q = refl
  digits_enough zero (suc m) (suc a) b p q = absurd (omega arith)
  digits_enough (suc n) zero zero b p q = refl
  digits_enough (suc n) zero (suc a) b p q = absurd (omega arith)
  digits_enough (suc n) (suc m) zero b p q = refl
  digits_enough (suc n) (suc m) (suc a) b p q =
      ap (λ t. t * 2 + f (suc a % 2) (b % 2))
        (digits_enough n m (suc a / 2) (b / 2) (omega arith) (omega arith))

  bitwise_step :
      (a b : ℕ)
      → bitwise z f (suc a) b ≡ bitwise z f (suc a / 2) (b / 2) * 2 + f (suc a % 2) (b % 2)
  bitwise_step a b =
      ap (λ t. t * 2 + f (suc a % 2) (b % 2))
        (digits_enough a (suc a / 2) (suc a / 2) (b / 2) (omega arith) (omega arith))

pub bit_and_halve :
    (a b : ℕ)
    → (bit_and a b / 2 ≡ bit_and (a / 2) (b / 2)) × (bit_and a b % 2 ≡ min (a % 2) (b % 2))
bit_and_halve zero b =
    let e = bit_and-bitwise 0 b in let e' = bit_and-bitwise 0 (b / 2) in (omega arith, omega arith)
bit_and_halve (suc a) b =
    let e = bit_and-bitwise (suc a) b in
    let e' = bit_and-bitwise (suc a / 2) (b / 2) in
    let s = bitwise_step (λ _. 0) min a b in (omega arith, omega arith)

pub bit_or_halve :
    (a b : ℕ) → (bit_or a b / 2 ≡ bit_or (a / 2) (b / 2)) × (bit_or a b % 2 ≡ max (a % 2) (b % 2))
bit_or_halve zero b =
    let e = bit_or-bitwise 0 b in let e' = bit_or-bitwise 0 (b / 2) in (omega arith, omega arith)
bit_or_halve (suc a) b =
    let e = bit_or-bitwise (suc a) b in
    let e' = bit_or-bitwise (suc a / 2) (b / 2) in
    let s = bitwise_step (λ b. b) max a b in (omega arith, omega arith)

-- Bit `k` of a number.
unfoldable pub testbit : ℕ → ℕ → ℕ
testbit zero x = x % 2
testbit (suc k) x = testbit k (x / 2)

pub testbit-le : (k x : ℕ) → testbit k x ≤ 1
unfolding testbit
testbit-le zero x = omega arith
testbit-le (suc k) x = testbit-le k (x / 2)

pub testbit-bit_and : (k a b : ℕ) → testbit k (bit_and a b) ≡ min (testbit k a) (testbit k b)
unfolding testbit
testbit-bit_and zero a b = (bit_and_halve a b).1
testbit-bit_and (suc k) a b = rw (bit_and_halve a b).0 (testbit-bit_and k (a / 2) (b / 2))

pub testbit-bit_or : (k a b : ℕ) → testbit k (bit_or a b) ≡ max (testbit k a) (testbit k b)
unfolding testbit
testbit-bit_or zero a b = (bit_or_halve a b).1
testbit-bit_or (suc k) a b = rw (bit_or_halve a b).0 (testbit-bit_or k (a / 2) (b / 2))

pub testbit-zero : (k : ℕ) → testbit k 0 ≡ 0
unfolding testbit
testbit-zero zero = refl
testbit-zero (suc k) = testbit-zero k

two_pow_pos : (w : ℕ) → 0 < 2 ^ w
two_pow_pos zero = omega arith
two_pow_pos (suc w) = omega (arith, two_pow_pos w)

-- The remainder by a power of two, from that of the half.
mod-two_pow : (w x : ℕ) → x % 2 ^ suc w ≡ x / 2 % 2 ^ w * 2 + x % 2
mod-two_pow w x =
    let n = 2 ^ w in
    let q = x / 2 in
    let divided = div-add-mod q n in
    let spread : x ≡ (q % n * 2 + x % 2) + n * 2 * (q / n) = grind arith in
    let room : q % n < n = mod-lt q (two_pow_pos w) in
    let wide : 2 ^ suc w ≡ n * 2 = omega arith in
    rw wide (
      ap (λ t. t % (n * 2)) spread
      ∙ add-mul-mod_self_left (q % n * 2 + x % 2) (n * 2) (q / n)
      ∙ mod-eq_of_lt (omega arith))

pub testbit-mod : (k w x : ℕ) → k < w → testbit k (x % 2 ^ w) ≡ testbit k x
unfolding testbit
testbit-mod k zero x h = absurd (omega arith)
testbit-mod zero (suc w) x h = omega (arith, mod-two_pow w x)
testbit-mod (suc k) (suc w) x h =
    let half : x % 2 ^ suc w / 2 ≡ x / 2 % 2 ^ w = omega (arith, mod-two_pow w x) in
    rw half (testbit-mod k w (x / 2) (omega arith))

-- Shifted up, the bits stand higher and zeros fill the room.
pub testbit-shift : (k o m : ℕ) → testbit k (m * 2 ^ o) ≡ (if ltb k o then 0 else testbit (k - o) m)
unfolding testbit
testbit-shift k zero m = ground arith
testbit-shift zero (suc o) m = let e : m * 2 ^ suc o ≡ m * 2 ^ o * 2 = grind arith in ground arith
testbit-shift (suc k) (suc o) m =
    let e : m * 2 ^ suc o / 2 ≡ m * 2 ^ o =
      let d : m * 2 ^ suc o ≡ m * 2 ^ o * 2 = grind arith in omega arith in
    rw e (ground (arith, testbit-shift k o m))

pub testbit-ones : (k c : ℕ) → testbit k (2 ^ c - 1) ≡ (if ltb k c then 1 else 0)
unfolding testbit
testbit-ones k zero = ground (arith, testbit-zero k)
testbit-ones zero (suc c) = ground (arith, two_pow_pos c)
testbit-ones (suc k) (suc c) =
    let e : (2 ^ suc c - 1) / 2 ≡ 2 ^ c - 1 = omega (arith, two_pow_pos c) in
    rw e (ground (arith, testbit-ones k c))

pub testbit-complement :
    (k w x : ℕ) → k < w → x < 2 ^ w → testbit k (2 ^ w - 1 - x) ≡ 1 - testbit k x
unfolding testbit
testbit-complement k zero x h p = absurd (omega arith)
testbit-complement zero (suc w) x h p = omega (arith, two_pow_pos w)
testbit-complement (suc k) (suc w) x h p =
    let e : (2 ^ suc w - 1 - x) / 2 ≡ 2 ^ w - 1 - x / 2 = omega (arith, two_pow_pos w) in
    rw e (testbit-complement k w (x / 2) (omega arith) (omega arith))

-- Numbers below 2 ^ w with the same bits are the same.
pub testbit_ext :
    (w a b : ℕ) → a < 2 ^ w → b < 2 ^ w → ((k : ℕ) → k < w → testbit k a ≡ testbit k b) → a ≡ b
unfolding testbit
testbit_ext zero a b p q h = omega arith
testbit_ext (suc w) a b p q h =
    let low = h 0 (omega arith) in
    let high =
      testbit_ext w (a / 2) (b / 2) (omega arith) (omega arith) (λ k l. h (suc k) (omega arith)) in
    omega arith

bit_and-zero_below : (n x : ℕ) → x ≤ n → bit_and x 0 ≡ 0
bit_and-zero_below zero zero h = refl
bit_and-zero_below zero (suc x) h = absurd (omega arith)
bit_and-zero_below (suc n) x h =
    omega (arith, bit_and_halve x 0, bit_and-zero_below n (x / 2) (omega arith))

bit_and-zero : (x : ℕ) → bit_and x 0 ≡ 0
bit_and-zero x = bit_and-zero_below x x (omega arith)

-- A mask of ones is a remainder.
pub bit_and-ones : (k x : ℕ) → bit_and x (2 ^ k - 1) ≡ x % 2 ^ k
bit_and-ones zero x = let e = bit_and-zero x in omega arith
bit_and-ones (suc k) x =
    let (half, low) = bit_and_halve x (2 ^ suc k - 1) in
    let e : (2 ^ suc k - 1) / 2 ≡ 2 ^ k - 1 = omega (arith, two_pow_pos k) in
    let half' : bit_and x (2 ^ suc k - 1) / 2 ≡ x / 2 % 2 ^ k =
      half ∙ ap (bit_and (x / 2)) e ∙ bit_and-ones k (x / 2) in
    omega (arith, mod-two_pow k x, two_pow_pos k)

pub bit_and-le_right : (n a b : ℕ) → b ≤ n → bit_and a b ≤ b
bit_and-le_right zero a b h = let e : b ≡ 0 = omega arith in rw e (omega (arith, bit_and-zero a))
bit_and-le_right (suc n) a b h =
    omega (arith, bit_and_halve a b, bit_and-le_right n (a / 2) (b / 2) (omega arith))

pub two_pow-lt : (k w : ℕ) → k < w → 2 ^ k < 2 ^ w
two_pow-lt k zero h = absurd (omega arith)
two_pow-lt k (suc w) h = elim (Bool-cases (k == w)) [
  | inl last ↦ let q : k ≡ w = ground arith in rw q (omega (arith, two_pow_pos w))
  | inr before ↦ omega (arith, two_pow-lt k w (ground arith))
]
