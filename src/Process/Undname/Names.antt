-- ===== src/Process/Undname/Names.antt =====
-- Decorated names of nested classes, and what `undname_class` makes of them.
use yafsml.Prelude.{
  ℕ, zero, suc, ◌+◌, ◌<◌, ◌≤◌, ◌≡◌, refl, ap, ◌∙◌, true, false, some, List, [], ◌∷◌, ◌++◌, Bytes,
  ◌==◌, length, codes, All, arith, length-append, append_assoc, subst,
}
use yafsml.Process.Undname.{
  append_text, component, components_loop, write_loop, after_prefix, finish_name, only_ats,
  undname_class, max_components,
}

-- A name of a class or a namespace: it has a character, and none is an at sign.
abbrev pub IsName : Bytes → Type 0
IsName [] = ⊥
IsName (c ∷ cs) = All (λ d. (d == b'@') ≡ false) (c ∷ cs)

-- The names, the innermost first, with an at sign behind each, and another at sign.
unfoldable pub decorate : List Bytes → Bytes
decorate [] = b'@' ∷ []
decorate (n ∷ ns) = n ++ (b'@' ∷ decorate ns)

unfoldable pub reverse_onto : List Bytes → List Bytes → List Bytes
reverse_onto [] found = found
reverse_onto (n ∷ ns) found = reverse_onto ns (n ∷ found)

-- The names with `::` between them.
unfoldable pub join : List Bytes → Bytes
join [] = []
join (n ∷ []) = n
join (n ∷ m ∷ ns) = n ++ (codes "::" ++ join (m ∷ ns))

component-name :
    (n rest : Bytes)
    → All (λ d. (d == b'@') ≡ false) n
    → component (n ++ (b'@' ∷ rest)) ≡ (n, b'@' ∷ rest)
unfolding component
component-name [] rest h = refl
component-name (c ∷ cs) rest h = rw (component-name cs rest h.1, h.0)

components_step :
    (fuel : ℕ) (found : List Bytes) (c : ℕ) (cs p behind : Bytes)
    → component p ≡ (c ∷ cs, b'@' ∷ behind)
    → (length found == max_components) ≡ false
    → components_loop (suc fuel) found p ≡ components_loop fuel ((c ∷ cs) ∷ found) behind
unfolding components_loop
components_step fuel found c cs p behind e room = rw (e, components_loop) (rw (e, room))

components_loop-decorate :
    (fuel : ℕ) (ns found : List Bytes)
    → All IsName ns
    → length found + length ns ≤ max_components
    → length ns < fuel
    → components_loop fuel found (decorate ns) ≡ some (reverse_onto ns found, b'@' ∷ [])
unfolding components_loop decorate reverse_onto component
components_loop-decorate zero ns found names few enough = absurd (omega arith)
components_loop-decorate (suc fuel) [] found names few enough = refl
components_loop-decorate (suc fuel) ([] ∷ ns) found names few enough = absurd names.0
components_loop-decorate (suc fuel) ((c ∷ cs) ∷ ns) found names few enough =
    let room : (length found == max_components) ≡ false = ground arith in
    components_step fuel found c cs (decorate ((c ∷ cs) ∷ ns)) (decorate ns)
      (component-name (c ∷ cs) (decorate ns) names.0) room
    ∙ components_loop-decorate fuel ns ((c ∷ cs) ∷ found) names.1 (omega arith) (omega arith)

append_text-fits :
    (out text : Bytes) (size : ℕ)
    → length out + length text < size
    → append_text out size text ≡ some (out ++ text)
unfolding append_text
append_text-fits out text size h = ground arith

write_loop-join :
    (size : ℕ) (out : Bytes) (n : Bytes) (ns : List Bytes)
    → length out + length (join (n ∷ ns)) < size
    → write_loop size out (n ∷ ns) ≡ record { out = some (out ++ join (n ∷ ns)); good = true }
unfolding write_loop join
write_loop-join size out n [] h = rw (append_text-fits out n size h, write_loop)
write_loop-join size out n (m ∷ ns) h =
    let rest = join (m ∷ ns) in
    let size_of = length-append n (codes "::" ++ rest) in
    let size_of' = length-append out n in
    let size_of'' = length-append (out ++ n) (codes "::") in
    rw (append_text-fits out n size (omega arith), write_loop)
      (rw (append_text-fits (out ++ n) (codes "::") size (omega arith)) (
        write_loop-join size ((out ++ n) ++ codes "::") m ns (omega arith)
        ∙ ap (λ s. record { out = some s; good = true })
            (append_assoc (out ++ n) (codes "::") rest ∙ append_assoc out n (codes "::" ++ rest))))

length-decorate : (ns : List Bytes) → length ns ≤ length (decorate ns)
unfolding decorate
length-decorate [] = omega arith
length-decorate (n ∷ ns) = omega (arith, length-append n (b'@' ∷ decorate ns), length-decorate ns)

reverse_onto_cons :
    (n : Bytes) (ns found : List Bytes)
    → (m : Bytes) × ((ms : List Bytes) × (reverse_onto ns (n ∷ found) ≡ m ∷ ms))
unfolding reverse_onto
reverse_onto_cons n [] found = (n, (found, refl))
reverse_onto_cons n (n' ∷ ns) found = reverse_onto_cons n' ns (n ∷ found)

-- The decorated name of a class with at most 32 components, each of them not empty and without an
-- at sign, gives the components joined by ::, the outermost first, where the buffer has room for
-- that text and its NUL.
pub undname_class-decorate :
    (n : Bytes) (ns : List Bytes) (old : Bytes) (size : ℕ)
    → All IsName (n ∷ ns)
    → length (n ∷ ns) ≤ max_components
    → length (join (reverse_onto (n ∷ ns) [])) < size
    → undname_class (some (codes ".?AV" ++ decorate (n ∷ ns))) (some old) size
      ≡ record { out = some (join (reverse_onto (n ∷ ns) [])); good = true }
unfolding undname_class reverse_onto only_ats after_prefix finish_name
undname_class-decorate n ns old zero names few fits = absurd (omega arith)
undname_class-decorate n ns old (suc size) names few fits =
    let (m, (ms, e)) = reverse_onto_cons n ns [] in
    let enough = length-decorate (n ∷ ns) in
    let found =
      components_loop-decorate (suc (length (decorate (n ∷ ns)))) (n ∷ ns) [] names (omega arith)
        (omega arith) in
    let room = subst (λ l. length (join l) < suc size) e fits in
    rw found (rw e (write_loop-join (suc size) [] m ms (omega arith)))
