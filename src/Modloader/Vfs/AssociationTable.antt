-- ===== src/Modloader/Vfs/AssociationTable.antt =====
-- An implementation of the tables: the pairs, the latest first.
use yafsml.Prelude.{◌≡◌, ◌≢◌, refl, sym, ◌∙◌, Option, none, some, List, [], ◌∷◌}
use yafsml.Common.Path.{Wide}
use yafsml.Modloader.Vfs.Table.{HashTable}
use yafsml.Modloader.Vfs.Wide.{wide_discrete}

pub record Pair (V : Type 0) : Type 0 where
  pub key : Wide
  pub value : V

module _ {V : Type 0} where
  abbrev pub get : Wide → List (Pair V) → Option V
  get k [] = none
  get k (p ∷ ps) =
      let more = get k ps in elim (wide_discrete k p.key) [ yes e ↦ some p.value | no ne ↦ more ]

  abbrev pub del : Wide → List (Pair V) → List (Pair V)
  del k [] = []
  del k (p ∷ ps) =
      let more = del k ps in elim (wide_discrete k p.key) [ yes e ↦ more | no ne ↦ p ∷ more ]

  abbrev pub put : Wide → V → List (Pair V) → List (Pair V)
  put k v ps = record { key = k; value = v } ∷ ps

  pub get-put : (k : Wide) (v : V) (ps : List (Pair V)) → get k (put k v ps) ≡ some v
  get-put k v ps =
      elim (wide_discrete k k)
        as (λ d. elim d as (λ x. Option V) [ yes e ↦ some v | no ne ↦ get k ps ] ≡ some v) [
          | yes e ↦ refl
          | no ne ↦ absurd (ne refl)
        ]

  pub get-put_other :
      (k l : Wide) (v : V) (ps : List (Pair V)) → k ≢ l → get k (put l v ps) ≡ get k ps
  get-put_other k l v ps h =
      elim (wide_discrete k l)
        as (λ d. elim d as (λ x. Option V) [ yes e ↦ some v | no ne ↦ get k ps ] ≡ get k ps) [
          | yes e ↦ absurd (h e)
          | no ne ↦ refl
        ]

  skip : (k : Wide) (p : Pair V) (ps : List (Pair V)) → k ≢ p.key → get k (p ∷ ps) ≡ get k ps
  skip k p ps h = get-put_other k p.key p.value ps h

  pub get-del : (k : Wide) (ps : List (Pair V)) → get k (del k ps) ≡ none
  get-del k [] = refl
  get-del k (p ∷ ps) =
      elim (wide_discrete k p.key)
        as (λ d.
          get k (elim d as (λ x. List (Pair V)) [ yes e ↦ del k ps | no ne ↦ p ∷ del k ps ])
          ≡ none) [ yes e ↦ get-del k ps | no ne ↦ skip k p (del k ps) ne ∙ get-del k ps ]

  pub get-del_other : (k l : Wide) (ps : List (Pair V)) → k ≢ l → get k (del l ps) ≡ get k ps
  get-del_other k l [] h = refl
  get-del_other k l (p ∷ ps) h =
      elim (wide_discrete l p.key)
        as (λ d.
          get k (elim d as (λ x. List (Pair V)) [ yes e ↦ del l ps | no ne ↦ p ∷ del l ps ])
          ≡ get k (p ∷ ps)) [
            | yes e ↦ get-del_other k l ps h ∙ sym (skip k p ps (λ e'. h (e' ∙ sym e)))
            | no ne ↦
                elim (wide_discrete k p.key)
                  as (λ d.
                    elim d as (λ x. Option V) [ yes e ↦ some p.value | no ne ↦ get k (del l ps) ]
                    ≡ elim d as (λ x. Option V) [ yes e ↦ some p.value | no ne ↦ get k ps ]) [
                      | yes e ↦ refl
                      | no ne' ↦ get-del_other k l ps h
                    ]
          ]

abbrev pub association_table : (V : Type 0) → HashTable V
association_table V = record {
  Table = List (Pair V);
  empty = [];
  kh_get = get;
  kh_put = put;
  kh_del = del;
  get_empty = λ k. refl;
  get_put = get-put;
  get_put_other = get-put_other;
  get_del = get-del;
  get_del_other = get-del_other;
}
