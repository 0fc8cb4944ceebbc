-- ===== src/Process/Undname.antt =====
-- src/process/undname.c: the readable name of a class from its decorated name. A C string is the list
-- of its characters before the NUL.
pub mod Names
pub mod Enough
use yafsml.Prelude.{
  ℕ, zero, suc, ◌+◌, Bool, true, false, not, ◌&&◌, ◌||◌, Option, none, some, List, [], ◌∷◌, ◌++◌,
  Bytes, ltb, leb, ◌==◌, if◌then◌else◌, length, codes,
}

-- UNDNAME_MAX_COMPONENTS
abbrev pub max_components : ℕ
max_components = 32

-- The text in `out` and the answer. `none` is a NULL buffer.
pub record Named : Type 0 where
  pub out : Option Bytes
  pub good : Bool

-- `append_text`: `none` is the answer false, which writes nothing.
unfoldable pub append_text : Bytes → ℕ → Bytes → Option Bytes
append_text out out_size text =
    if leb out_size (length out + length text) then none else some (out ++ text)

-- The characters up to the next `@` or the end, and what stands behind them.
unfoldable pub component : Bytes → Bytes × Bytes
component [] = ([], [])
component (c ∷ cs) =
    let (name, rest) = component cs in if c == b'@' then ([], c ∷ cs) else (c ∷ name, rest)

-- The loop that reads the components, the last one first. Each takes a character at least.
unfoldable pub components_loop : ℕ → List Bytes → Bytes → Option (List Bytes × Bytes)
unfolding component
components_loop zero found p = none
components_loop (suc fuel) found p =
    let (name, rest) = component p in
    elim name [
      | [] ↦ some (found, rest)
      | c ∷ cs ↦ if length found == max_components then none else elim rest [
        | [] ↦ none
        | at_sign ∷ behind ↦ components_loop fuel ((c ∷ cs) ∷ found) behind
      ]
    ]

unfoldable pub only_ats : Bytes → Bool
only_ats [] = true
only_ats (c ∷ cs) = c == b'@' && only_ats cs

-- The loop that writes the components out.
unfoldable pub write_loop : ℕ → Bytes → List Bytes → Named
unfolding append_text
write_loop out_size out [] = record { out = some out; good = true }
write_loop out_size out (name ∷ []) = elim (append_text out out_size name) [
  | none ↦ record { out = some out; good = false }
  | some out' ↦ record { out = some out'; good = true }
]
write_loop out_size out (name ∷ more ∷ names) = elim (append_text out out_size name) [
  | none ↦ record { out = some out; good = false }
  | some out' ↦ elim (append_text out' out_size (codes "::")) [
    | none ↦ record { out = some out'; good = false }
    | some out'' ↦ write_loop out_size out'' (more ∷ names)
  ]
]

-- `strncmp(mangled, ".?AV", 4) == 0`: what stands behind the prefix.
unfoldable pub after_prefix : Bytes → Bytes → Option Bytes
after_prefix [] s = some s
after_prefix (c ∷ cs) [] = none
after_prefix (c ∷ cs) (d ∷ ds) = let more = after_prefix cs ds in if c == d then more else none

-- From the components on: one at least, then at signs only.
unfoldable pub finish_name : ℕ → Option (List Bytes × Bytes) → Named
unfolding only_ats write_loop
finish_name out_size none = record { out = some []; good = false }
finish_name out_size (some ([], rest)) = record { out = some []; good = false }
finish_name out_size (some (name ∷ names, [])) = record { out = some []; good = false }
finish_name out_size (some (name ∷ names, c ∷ rest)) =
    if c == b'@' && only_ats rest
    then write_loop out_size [] (name ∷ names)
    else record { out = some []; good = false }

-- `out` is whether the buffer is given. An `out_size` of 0 leaves it as it is.
unfoldable pub undname_class : Option Bytes → Option Bytes → ℕ → Named
unfolding components_loop after_prefix finish_name
undname_class mangled none out_size = record { out = none; good = false }
undname_class mangled (some old) zero = record { out = some old; good = false }
undname_class none (some old) (suc size) = record { out = some []; good = false }
undname_class (some mangled) (some old) (suc size) = elim (after_prefix (codes ".?AV") mangled) [
  | none ↦ record { out = some []; good = false }
  | some p ↦ finish_name (suc size) (components_loop (suc (length p)) [] p)
]
