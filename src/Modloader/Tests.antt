-- ===== src/Modloader/Tests.antt =====
-- Runs of the loader's parts on concrete inputs, and the theorems at inputs that meet their hypotheses.
use yafsml.Prelude.{
  ℕ, ◌+◌, ◌≤◌, ◌≡◌, refl, ap, ◌∙◌, done, ◌>>=◌, Bool, true, false, leb, ◌&&◌, ◌||◌, ◌==◌,
  if◌then◌else◌, Option, none, some, List, [], ◌∷◌, codes, All, arith,
}
use yafsml.Common.Path.{Wide}
use yafsml.Modloader.Vfs.Table.{HashTable}
use yafsml.Modloader.Vfs.AssociationTable.{association_table}
use yafsml.Modloader.Vfs.Normalize.{vfs_normalize_path}
use yafsml.Modloader.Vfs.Normalize.Segments.{
  IsSegment, Lowers, joined, vfs_normalize_path-IsSegment,
}
use yafsml.Modloader.Vfs.Index.{State, File, Memory, vfs_insert_package}
use yafsml.Modloader.Vfs.Wide.{wide_discrete}
use yafsml.Modloader.Vfs.Undo.{Same}
use yafsml.Modloader.Vfs.Package.{vfs_insert_package-Same}
use yafsml.Modloader.Vfs.Uid.{uid_of, streaming_uid_of, vfs_uid_entry}
use yafsml.Modloader.Vfs.Uid.Digits.{vfs_uid_entry-uid_of}
use yafsml.Modloader.Vfs.Lookup.{
  Vfs, vfs_init, vfs_add_package, vfs_reset_lookup_caches, vfs_lookup_domain, vfs_virtual_to_uid,
  find_entry, uid_at,
}
use yafsml.Modloader.Vfs.Lookup.Caches.{plain}
use yafsml.Modloader.Vfs.Lookup.Reachable.{started, added, reset}
use yafsml.Modloader.Vfs.Lookup.Coherent.{index_answer, vfs_lookup_domain-index_answer}
use yafsml.Modloader.Lifecycle.{
  Answer, Callbacks, ml_lifecycle_on_phase, mark_reached, take_next, initial, ml_lifecycle_advance,
}
use yafsml.Modloader.Lifecycle.Fires.{
  World, Steps, start, still, registered, marked, taken, register_in, mark_in, take_in, count,
  fires_once, registered-reached,
}
use yafsml.Modloader.Lifecycle.Drain.{
  callbacks_of, IsQuiet, on_phase-callbacks_of, ml_lifecycle_advance-Drained,
}

abbrev lower : ℕ → ℕ
lower c = if leb b'A' c && leb c b'Z' then c + 32 else c

normalize_runs :
    vfs_normalize_path lower (codes "/System:/Map\\.//Foo\\..\\BAR.dcx")
    ≡ some (codes "map\\bar.dcx")
unfolding vfs_normalize_path
normalize_runs = refl

abbrev indexes : HashTable ℕ
indexes = association_table ℕ

abbrev caches : HashTable (Option Wide)
caches = association_table (Option Wide)

abbrev no_files : State lower indexes
no_files = record { index = indexes.empty; entries = [] }

abbrev loose : Wide → Wide → File
loose name path = record { relative = name; path = some path; zip = none; zip_file = 0 }

abbrev enough : ℕ → Memory
enough n = record { slot = true; grow = true; uid = true }

-- The second file has no name inside the package: the first one is taken out again.
abbrev bad_package : List File
bad_package =
    loose (codes "Parts\\a.dcx") (codes "C:\\m\\a") ∷ loose (codes "..\\b") (codes "C:\\m\\b") ∷ []

refused_run : (vfs_insert_package lower indexes true enough no_files bad_package).0 ≡ false
unfolding vfs_insert_package
refused_run = refl

vfs_insert_package-Same_example :
    Same lower indexes
      (vfs_insert_package lower indexes true enough no_files bad_package).1
      no_files
vfs_insert_package-Same_example =
    vfs_insert_package-Same lower indexes true enough no_files bad_package refused_run

vfs_uid_entry-uid_of_example :
    (vfs_uid_entry 300 (uid_of 255) ≡ some (record { place = 255; streaming = false }))
    × (vfs_uid_entry 300 (streaming_uid_of 255) ≡ some (record { place = 255; streaming = true }))
vfs_uid_entry-uid_of_example = vfs_uid_entry-uid_of 300 255 (omega arith) (omega arith)

abbrev good_package : List File
good_package = loose (codes "Parts\\a.dcx") (codes "C:\\m\\a") ∷ []

abbrev ready : Vfs lower indexes caches
ready =
    vfs_reset_lookup_caches lower indexes caches
      (vfs_add_package lower indexes caches true enough (vfs_init lower indexes caches)
        good_package).1

lookup_runs :
    (vfs_lookup_domain lower indexes caches true ready (codes "data:/parts/A.dcx") 1).answer
    ≡ some (codes "C:\\m\\a")
unfolding vfs_lookup_domain vfs_reset_lookup_caches vfs_add_package vfs_init wide_discrete
lookup_runs = refl

vfs_lookup_domain-index_answer_example :
    ((vfs_lookup_domain lower indexes caches true ready (codes "data:/parts/A.dcx") 1).answer
      ≡ index_answer lower indexes caches ready.files (codes "data:/parts/A.dcx"))
    × ((vfs_virtual_to_uid lower indexes caches true ready (codes "data:/parts/A.dcx")).answer
        ≡ plain lower indexes caches
            (uid_at lower indexes caches ready.files)
            (find_entry lower indexes caches ready.files (codes "data:/parts/A.dcx")))
vfs_lookup_domain-index_answer_example =
    vfs_lookup_domain-index_answer lower indexes caches ready true (codes "data:/parts/A.dcx") 1
      (reset (added started true enough good_package)) (omega arith)

abbrev marked_two : Answer Bool
marked_two = record {
  answer = false;
  state = record {
    observers = record { phase = 2; callback = some 7 } ∷ [];
    reached = λ p. p == 2 || false;
  };
}

two_is_marked :
    mark_reached 2 (ml_lifecycle_on_phase true 2 (some 7) initial).state ≡ some marked_two
unfolding mark_reached ml_lifecycle_on_phase
two_is_marked = refl

-- A callback waits for phase 2, the phase is marked, and rounds of its loop follow until one finds
-- none.
abbrev two_waits : World
two_waits = register_in true 2 7 start

two_fires : Steps start (take_in 2 (take_in 2 (mark_in 2 marked_two two_waits)))
unfolding ml_lifecycle_on_phase take_next
two_fires =
    taken (taken (marked (registered still true 2 7) 2 marked_two two_is_marked) 2 refl) 2 refl

abbrev two_fired : World
two_fired = take_in 2 (take_in 2 (mark_in 2 marked_two two_waits))

fires_once_example :
    (two_fired.state.reached 2 ≡ false → count 2 7 two_fired.fired ≡ 0)
    × (count 2 7 two_fired.fired ≤ count 2 7 two_fired.accepted)
    × (two_fired.ended 2 ≡ true → count 2 7 two_fired.fired ≡ count 2 7 two_fired.accepted)
fires_once_example = fires_once 2 7 two_fires

-- A callback that registers others, one of them for the phase that it is called with.
abbrev registers : Callbacks
registers c phase s =
    (ml_lifecycle_on_phase true 3 (some 20)
      (ml_lifecycle_on_phase true phase (some c) s).state).state

registers-IsQuiet : IsQuiet registers 2
registers-IsQuiet c s h =
    let s' = (ml_lifecycle_on_phase true 2 (some c) s).state in
    let reached = ap (λ (f : ℕ → Bool). f 2) (registered-reached s true 2 c) ∙ h in
    (
      ap (λ (f : ℕ → Bool). f 2) (registered-reached s' true 3 20) ∙ reached,
      on_phase-callbacks_of s' true 3 20 2 reached ∙ on_phase-callbacks_of s true 2 c 2 h,
    )

-- Two callbacks wait for phase 2, and one for phase 3.
abbrev three_waiting : World
three_waiting = register_in true 2 9 (register_in true 3 8 (register_in true 2 7 start))

abbrev callbacks_run : Option (Answer (List ℕ)) → List ℕ
callbacks_run none = []
callbacks_run (some a) = a.answer

advance_runs :
    (ml_lifecycle_advance registers 2 three_waiting.state >>= λ o. done (callbacks_run o))
    ≡ done (7 ∷ 9 ∷ [])
unfolding ml_lifecycle_advance ml_lifecycle_on_phase
advance_runs = refl

ml_lifecycle_advance-Drained_example :
    (a : Answer (List ℕ)) × (ml_lifecycle_advance registers 2 three_waiting.state ≡ done (some a))
    × (a.state.reached 2 ≡ true)
    × (three_waiting.state.reached 2 ≡ false
        → (callbacks_of 2 a.state.observers ≡ [])
          × (a.answer ≡ callbacks_of 2 three_waiting.state.observers))
    × (three_waiting.state.reached 2 ≡ true
        → (a.answer ≡ []) × (a.state.observers ≡ three_waiting.state.observers))
ml_lifecycle_advance-Drained_example =
    ml_lifecycle_advance-Drained registers 2 three_waiting.state registers-IsQuiet refl

lower-Lowers : Lowers lower
lower-Lowers = record { keeps_dot = λ c. ground arith; keeps_separator = λ c. ground arith }

up_runs : vfs_normalize_path lower (codes "Foo/../Bar") ≡ some (codes "bar")
unfolding vfs_normalize_path
up_runs = refl

vfs_normalize_path-IsSegment_example :
    (ss : List Wide) × All IsSegment ss × (codes "bar" ≡ joined ss)
vfs_normalize_path-IsSegment_example =
    vfs_normalize_path-IsSegment lower lower-Lowers (codes "Foo/../Bar") (codes "bar") up_runs
