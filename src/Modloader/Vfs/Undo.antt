-- ===== src/Modloader/Vfs/Undo.antt =====
-- What an insertion into the index is undone to.
use yafsml.Prelude.{
  ℕ, zero, suc, ◌-◌, ◌≡◌, refl, ap, sym, ◌∙◌, Option, none, some, List, [], ◌∷◌, ◌++◌, length, take,
  set, get_elem?, Option-cases, inl, inr, subst,
}
use mathlib.Core.Option.{some-injective}
use yafsml.Common.Path.{Wide}
use yafsml.Modloader.Vfs.Table.{HashTable}
use yafsml.Modloader.Vfs.Index.{Entry, Undo, State, undo_insert, undo_all}
use yafsml.Modloader.Vfs.Wide.{wide_discrete}

pub set-set-get_elem? :
    (es : List Entry) (i : ℕ) (e e' : Entry) → get_elem? es i ≡ some e → set (set es i e') i e ≡ es
set-set-get_elem? [] i e e' h = refl
set-set-get_elem? (x ∷ es) zero e e' h = ap (◌∷ es) (sym (some-injective x e h))
set-set-get_elem? (x ∷ es) (suc i) e e' h = ap (x ∷◌) (set-set-get_elem? es i e e' h)

pub take-append_last : (es : List Entry) (e : Entry) → take (length es) (es ++ (e ∷ [])) ≡ es
take-append_last [] e = refl
take-append_last (x ∷ es) e = ap (x ∷◌) (take-append_last es e)

pub get_elem?-append_last :
    (es : List Entry) (e : Entry) → get_elem? (es ++ (e ∷ [])) (length es) ≡ some e
get_elem?-append_last [] e = refl
get_elem?-append_last (x ∷ es) e = get_elem?-append_last es e

module _ (towlower : ℕ → ℕ) (T : HashTable ℕ) where
  -- The same entries, and the same answer for each key.
  unfoldable pub Same : State towlower T → State towlower T → Type 0
  Same s s' = (s.entries ≡ s'.entries) × ((k : Wide) → T.kh_get k s.index ≡ T.kh_get k s'.index)

  pub Same-refl : (s : State towlower T) → Same s s
  unfolding Same
  Same-refl s = (refl, λ k. refl)

  pub Same-trans : (s t u : State towlower T) → Same s t → Same t u → Same s u
  unfolding Same
  Same-trans s t u (e, f) (e', f') = (e ∙ e', λ k. f k ∙ f' k)

  kh_del-cong :
      (l : Wide) (t t' : T.Table)
      → ((k : Wide) → T.kh_get k t ≡ T.kh_get k t')
      → (k : Wide) → T.kh_get k (T.kh_del l t) ≡ T.kh_get k (T.kh_del l t')
  kh_del-cong l t t' h k = elim (wide_discrete k l) [
    | yes e ↦
        subst (λ k. T.kh_get k (T.kh_del l t) ≡ T.kh_get k (T.kh_del l t')) (sym e)
          (T.get_del l t ∙ sym (T.get_del l t'))
    | no ne ↦ T.get_del_other k l t ne ∙ h k ∙ sym (T.get_del_other k l t' ne)
  ]

  -- A new key that is deleted again leaves no trace.
  pub kh_del-kh_put :
      (l : Wide) (v : ℕ) (t : T.Table)
      → T.kh_get l t ≡ none
      → (k : Wide) → T.kh_get k (T.kh_del l (T.kh_put l v t)) ≡ T.kh_get k t
  kh_del-kh_put l v t new k = elim (wide_discrete k l) [
    | yes e ↦
        subst (λ k. T.kh_get k (T.kh_del l (T.kh_put l v t)) ≡ T.kh_get k t) (sym e)
          (T.get_del l (T.kh_put l v t) ∙ sym new)
    | no ne ↦ T.get_del_other k l (T.kh_put l v t) ne ∙ T.get_put_other k l v t ne
  ]

  pub Same-from : {s t s' t' : State towlower T} → s ≡ t → s' ≡ t' → Same t t' → Same s s'
  Same-from {s = s} {t = t} {s' = s'} {t' = t'} p q h =
      subst (λ x. Same x s') (sym p) (subst (λ x. Same t x) (sym q) h)

  pub undo_new :
      (s : State towlower T) (touched : ℕ) (e : Entry)
      → get_elem? s.entries touched ≡ some e
      → undo_insert towlower T s (record { previous = none; touched = touched })
        ≡ record { index = T.kh_del e.key s.index; entries = take (length s.entries - 1) s.entries }
  unfolding undo_insert
  undo_new s touched e there = rw (there, undo_insert)

  undo_past :
      (s : State towlower T) (touched : ℕ)
      → get_elem? s.entries touched ≡ none
      → undo_insert towlower T s (record { previous = none; touched = touched }) ≡ s
  unfolding undo_insert
  undo_past s touched past = rw (past, undo_insert)

  undo_insert-Same :
      (i i' : T.Table) (es : List Entry) (previous : Option Entry) (touched : ℕ)
      → ((k : Wide) → T.kh_get k i ≡ T.kh_get k i')
      → Same
          (undo_insert towlower T
            (record { index = i; entries = es })
            (record { previous = previous; touched = touched }))
          (undo_insert towlower T
            (record { index = i'; entries = es })
            (record { previous = previous; touched = touched }))
  unfolding Same undo_insert
  undo_insert-Same i i' es (some e) touched h = (refl, h)
  undo_insert-Same i i' es none touched h = elim (Option-cases (get_elem? es touched)) [
    | inl past ↦
        Same-from (undo_past (record { index = i; entries = es }) touched past)
          (undo_past (record { index = i'; entries = es }) touched past) (refl, h)
    | inr (e, there) ↦
        Same-from (undo_new (record { index = i; entries = es }) touched e there)
          (undo_new (record { index = i'; entries = es }) touched e there)
          (refl, kh_del-cong e.key i i' h)
  ]

  pub undo_insert-cong :
      (s s' : State towlower T) (u : Undo)
      → Same s s'
      → Same (undo_insert towlower T s u) (undo_insert towlower T s' u)
  unfolding Same
  undo_insert-cong s s' u (e, f) =
      subst
        (λ es.
          Same (undo_insert towlower T s u)
            (undo_insert towlower T (record { index = s'.index; entries = es }) u))
        e (undo_insert-Same s.index s'.index s.entries u.previous u.touched f)

  pub undo_all-cong :
      (us : List Undo) (s s' : State towlower T)
      → Same s s'
      → Same (undo_all towlower T s us) (undo_all towlower T s' us)
  unfolding undo_all
  undo_all-cong [] s s' h = h
  undo_all-cong (u ∷ us) s s' h =
      undo_all-cong us (undo_insert towlower T s u) (undo_insert towlower T s' u)
        (undo_insert-cong s s' u h)
