-- ===== src/Prelude/ByteMasks.antt =====
-- Bytes, byte strings and the facts on masks that hold of every byte.
use Prim.Native.Nat.{ℕ, ◌<◌, bit_and}
use Prim.Native.Char.{code}
use Prim.Native.String.{String}
use mathlib.Core.Path.{◌≡◌, refl}
use mathlib.Core.Bool.{true}
use mathlib.Core.List.{List, [], ◌∷◌}
use yafsml.Prelude.Tests.{◌==◌, ==_iff, all_below, all_below_sound}

abbrev pub Bytes : Type 0
Bytes = List ℕ

abbrev pub IsByte : ℕ → Type 0
IsByte b = b < 256

-- The code points of a text: its bytes, where it is ASCII.
abbrev pub codes : String → Bytes
codes String.[] = []
codes (String.◌∷◌ c s) = code c ∷ codes s

mask_table : all_below 256 (λ t. all_below 256 (λ m. bit_and (bit_and t m) m == bit_and t m)) ≡ true
unfolding all_below
mask_table = refl

pub bit_and-bit_and_self : (t m : ℕ) → IsByte t → IsByte m → bit_and (bit_and t m) m ≡ bit_and t m
bit_and-bit_and_self t m ht hm = (==_iff _ _).0 (
    all_below_sound 256 (λ m. bit_and (bit_and t m) m == bit_and t m) m
      (all_below_sound 256 _ t mask_table ht) hm)

full_mask_table : all_below 256 (λ t. bit_and t 0xff == t) ≡ true
unfolding all_below
full_mask_table = refl

pub bit_and-full_mask : (t : ℕ) → IsByte t → bit_and t 0xff ≡ t
bit_and-full_mask t h = (==_iff _ _).0 (all_below_sound 256 _ t full_mask_table h)

zero_mask_table : all_below 256 (λ t. bit_and t 0 == 0) ≡ true
unfolding all_below
zero_mask_table = refl

pub bit_and-zero_mask : (t : ℕ) → IsByte t → bit_and t 0 ≡ 0
bit_and-zero_mask t h = (==_iff _ _).0 (all_below_sound 256 _ t zero_mask_table h)
