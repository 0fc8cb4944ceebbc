-- ===== src/Modloader/Vfs/Package.antt =====
-- A package is indexed whole or not at all.
use yafsml.Prelude.{
  ℕ, ◌+◌, ◌-◌, ◌≡◌, refl, ap, sym, ◌∙◌, Bool, true, false, not, ◌||◌, Option, none, some, List, [],
  ◌∷◌, ◌++◌, length, take, set, get_elem?, arith, Bool-cases, Option-cases, inl, inr, subst,
  length-append,
}
use yafsml.Common.Path.{Wide}
use yafsml.Modloader.Vfs.Table.{HashTable}
use yafsml.Modloader.Vfs.Normalize.{vfs_normalize_path}
use yafsml.Modloader.Vfs.Index.{
  Entry, File, Memory, Undo, State, Inserted, entry_of, is_nowhere, refused, override_entry,
  append_entry, vfs_insert, undo_insert, undo_all, insert_loop, vfs_insert_package,
}
use yafsml.Modloader.Vfs.Undo.{
  Same, Same-from, Same-refl, Same-trans, kh_del-kh_put, undo_all-cong, undo_new, set-set-get_elem?,
  take-append_last, get_elem?-append_last,
}

module _ (towlower : ℕ → ℕ) (T : HashTable ℕ) where
  -- What an insertion has done is undone, and a refused one has done nothing.
  Restores : State towlower T → Inserted towlower T → Type 0
  Restores s r = elim r.good [
    | none ↦ Same towlower T r.state s
    | some u ↦ Same towlower T (undo_insert towlower T r.state u) s
  ]

  override_entry-Restores :
      (s : State towlower T) (f : File) (place : ℕ)
      → Restores s (override_entry towlower T s f place)
  unfolding Restores Same undo_insert
  override_entry-Restores s f place = elim (Option-cases (get_elem? s.entries place)) [
    | inl past ↦
        let same : override_entry towlower T s f place ≡ refused towlower T s =
          rw (past, override_entry) in
        subst (Restores s) (sym same) (refl, λ k. refl)
    | inr (e, there) ↦
        let e' : Entry = record e { path = f.path; zip = f.zip; zip_file = f.zip_file } in
        let same : override_entry towlower T s f place ≡ record {
          good = some (record { previous = some e; touched = place });
          state = record s { entries = set s.entries place e' };
        } =
          rw (there, override_entry) in
        subst (Restores s) (sym same) (set-set-get_elem? s.entries place e e' there, λ k. refl)
  ]

  append_entry-Restores :
      (memory : Memory) (s : State towlower T) (f : File) (key : Wide)
      → T.kh_get key s.index ≡ none
      → Restores s (append_entry towlower T memory s f key)
  unfolding Restores Same
  append_entry-Restores memory s f key new = elim (Bool-cases (not memory.grow || not memory.uid)) [
    | inl short ↦
        let t = T.kh_del key (T.kh_put key (length s.entries) s.index) in
        let same : append_entry towlower T memory s f key
            ≡ refused towlower T (record s { index = t }) =
          rw (short, append_entry) in
        subst (Restores s) (sym same)
          (refl, kh_del-kh_put towlower T key (length s.entries) s.index new)
    | inr room ↦
        let made : State towlower T = record {
          index = T.kh_put key (length s.entries) s.index;
          entries = s.entries ++ (entry_of key f ∷ []);
        } in
        let same : append_entry towlower T memory s f key ≡ record {
          good = some (record { previous = none; touched = length s.entries });
          state = made;
        } =
          rw (room, append_entry) in
        let undone =
          undo_new towlower T made (length s.entries) (entry_of key f)
            (get_elem?-append_last s.entries (entry_of key f)) in
        let less : length (s.entries ++ (entry_of key f ∷ [])) - 1 ≡ length s.entries =
          omega (arith, length-append s.entries (entry_of key f ∷ [])) in
        subst (Restores s) (sym same) (
          Same-from towlower T undone refl (
            ap (λ n. take n made.entries) less ∙ take-append_last s.entries (entry_of key f),
            kh_del-kh_put towlower T key (length s.entries) s.index new,
          ))
  ]

  vfs_insert-Restores :
      (memory : Memory) (s : State towlower T) (f : File)
      → Restores s (vfs_insert towlower T memory s f)
  unfolding vfs_insert Restores
  vfs_insert-Restores memory s f = elim (Bool-cases (is_nowhere f)) [
    | inl nowhere ↦
        let same : vfs_insert towlower T memory s f ≡ refused towlower T s =
          rw (nowhere, vfs_insert) in
        subst (Restores s) (sym same) (Same-refl towlower T s)
    | inr somewhere ↦ elim (Option-cases (vfs_normalize_path towlower f.relative)) [
      | inl bad ↦
          let same : vfs_insert towlower T memory s f ≡ refused towlower T s =
            rw (somewhere, vfs_insert) (rw bad) in
          subst (Restores s) (sym same) (Same-refl towlower T s)
      | inr (key, normal) ↦ elim (Bool-cases memory.slot) [
        | inr full ↦
            let same : vfs_insert towlower T memory s f ≡ refused towlower T s =
              rw (somewhere, vfs_insert) (rw normal (rw full)) in
            subst (Restores s) (sym same) (Same-refl towlower T s)
        | inl slot ↦ elim (Option-cases (T.kh_get key s.index)) [
          | inl new ↦
              let same : vfs_insert towlower T memory s f ≡ append_entry towlower T memory s f key =
                rw (somewhere, vfs_insert) (rw normal (rw slot (rw new))) in
              subst (Restores s) (sym same) (append_entry-Restores memory s f key new)
          | inr (place, old) ↦
              let same : vfs_insert towlower T memory s f ≡ override_entry towlower T s f place =
                rw (somewhere, vfs_insert) (rw normal (rw slot (rw old))) in
              subst (Restores s) (sym same) (override_entry-Restores s f place)
        ]
      ]
    ]
  ]

  -- What is known of an insertion, by its answer.
  abbrev RestoresBy : State towlower T → State towlower T → Option Undo → Type 0
  RestoresBy s s' good = elim good [
    | none ↦ Same towlower T s' s
    | some u ↦ Same towlower T (undo_insert towlower T s' u) s
  ]

  loop_fails :
      (memory : ℕ → Memory) (applied : ℕ) (s : State towlower T) (us : List Undo) (f : File)
      (fs : List File)
      → (vfs_insert towlower T (memory applied) s f).good ≡ none
      → (false, undo_all towlower T (vfs_insert towlower T (memory applied) s f).state us)
        ≡ insert_loop towlower T memory applied s us (f ∷ fs)
  unfolding insert_loop
  loop_fails memory applied s us f fs e = rw (e, insert_loop)

  loop_goes_on :
      (memory : ℕ → Memory) (applied : ℕ) (s : State towlower T) (us : List Undo) (f : File)
      (fs : List File) (u : Undo)
      → (vfs_insert towlower T (memory applied) s f).good ≡ some u
      → insert_loop towlower T memory
          (applied + 1)
          (vfs_insert towlower T (memory applied) s f).state
          (u ∷ us)
          fs
        ≡ insert_loop towlower T memory applied s us (f ∷ fs)
  unfolding insert_loop
  loop_goes_on memory applied s us f fs u e = rw (e, insert_loop)

  insert_loop-Same :
      (memory : ℕ → Memory) (applied : ℕ) (s before : State towlower T) (us : List Undo)
      (fs : List File)
      → Same towlower T (undo_all towlower T s us) before
      → (insert_loop towlower T memory applied s us fs).0 ≡ false
      → Same towlower T (insert_loop towlower T memory applied s us fs).1 before
  unfolding insert_loop Restores undo_all
  insert_loop-Same memory applied s before us [] h failed = absurd (ground (arith, failed))
  insert_loop-Same memory applied s before us (f ∷ fs) h failed =
      let r = vfs_insert towlower T (memory applied) s f in
      let back = vfs_insert-Restores (memory applied) s f in
      elim (Option-cases r.good) [
        | inl refuses ↦
            let kept = subst (RestoresBy s r.state) refuses back in
            subst (λ (x : Bool × State towlower T). Same towlower T x.1 before)
              (loop_fails memory applied s us f fs refuses)
              (Same-trans towlower T (undo_all towlower T r.state us) (undo_all towlower T s us)
                before (undo_all-cong towlower T us r.state s kept) h)
        | inr (u, inserts) ↦
            let kept = subst (RestoresBy s r.state) inserts back in
            let goes_on = loop_goes_on memory applied s us f fs u inserts in
            let undone =
              Same-trans towlower T (undo_all towlower T (undo_insert towlower T r.state u) us)
                (undo_all towlower T s us) before
                (undo_all-cong towlower T us (undo_insert towlower T r.state u) s kept) h in
            subst (λ (x : Bool × State towlower T). Same towlower T x.1 before) goes_on
              (insert_loop-Same memory (applied + 1) r.state before (u ∷ us) fs undone
                (ap (λ (x : Bool × State towlower T). x.0) goes_on ∙ failed))
      ]

  -- When a package is refused, at whichever file and for want of whichever memory, the entries
  -- are the same as before it and each key has the same entry in the index.
  pub vfs_insert_package-Same :
      (arrays : Bool) (memory : ℕ → Memory) (s : State towlower T) (files : List File)
      → (vfs_insert_package towlower T arrays memory s files).0 ≡ false
      → Same towlower T (vfs_insert_package towlower T arrays memory s files).1 s
  unfolding vfs_insert_package undo_all
  vfs_insert_package-Same arrays memory s [] failed = Same-refl towlower T s
  vfs_insert_package-Same true memory s (f ∷ fs) failed =
      insert_loop-Same memory 0 s s [] (f ∷ fs) (Same-refl towlower T s) failed
  vfs_insert_package-Same false memory s (f ∷ fs) failed = Same-refl towlower T s
