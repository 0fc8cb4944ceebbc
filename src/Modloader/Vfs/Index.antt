-- ===== src/Modloader/Vfs/Index.antt =====
-- src/modloader/vfs.c: the index of the mods' files, `vfs_insert` and `vfs_insert_package`.
use yafsml.Prelude.{
  ℕ, ◌+◌, ◌-◌, Bool, true, false, not, ◌||◌, Option, none, some, List, [], ◌∷◌, ◌++◌, if◌then◌else◌,
  length, take, set, get_elem?,
}
use yafsml.Common.Path.{Wide}
use yafsml.Modloader.Vfs.Table.{HashTable}
use yafsml.Modloader.Vfs.Normalize.{vfs_normalize_path}

-- vfs_entry_t. An archive is known by a number; the UID follows from the place of the entry.
pub record Entry : Type 0 where
  pub key : Wide
  pub path : Option Wide
  pub zip : Option ℕ
  pub zip_file : ℕ

-- One file of a package: its name in the package, and where it is. A NULL path is `none`.
pub record File : Type 0 where
  pub relative : Wide
  pub path : Option Wide
  pub zip : Option ℕ
  pub zip_file : ℕ

-- Whether there is memory for each step of one `vfs_insert`.
pub record Memory : Type 0 where
  pub slot : Bool
  pub grow : Bool
  pub uid : Bool

-- `*previous` and `*touched`; an entry of zeros is `none`.
pub record Undo : Type 0 where
  pub previous : Option Entry
  pub touched : ℕ

abbrev pub entry_of : Wide → File → Entry
entry_of key f = record { key = key; path = f.path; zip = f.zip; zip_file = f.zip_file }

-- `path == NULL && zip == NULL`
abbrev pub is_nowhere : File → Bool
is_nowhere f = elim f.path [ some _ ↦ false | none ↦ elim f.zip [ some _ ↦ false | none ↦ true ] ]

module _ (towlower : ℕ → ℕ) (T : HashTable ℕ) where
  pub record State : Type 0 where
    pub index : T.Table
    pub entries : List Entry

  -- `good` is the answer.
  pub record Inserted : Type 0 where
    pub good : Option Undo
    pub state : State

  abbrev pub refused : State → Inserted
  refused s = record { good = none; state = s }

  -- The key is in the index: its entry is overridden. The index holds places of entries only.
  abbrev pub override_entry : State → File → ℕ → Inserted
  override_entry s f place = elim (get_elem? s.entries place) [
    | none ↦ refused s
    | some e ↦ record {
      good = some (record { previous = some e; touched = place });
      state = record s {
        entries =
            set s.entries place (record e { path = f.path; zip = f.zip; zip_file = f.zip_file });
      };
    }
  ]

  -- A new key: on a failure its slot is deleted again.
  abbrev pub append_entry : Memory → State → File → Wide → Inserted
  append_entry memory s f key =
      let t = T.kh_put key (length s.entries) s.index in
      if not memory.grow || not memory.uid
      then refused (record s { index = T.kh_del key t })
      else record {
        good = some (record { previous = none; touched = length s.entries });
        state = record { index = t; entries = s.entries ++ (entry_of key f ∷ []) };
      }

  unfoldable pub vfs_insert : Memory → State → File → Inserted
  unfolding vfs_normalize_path
  vfs_insert memory s f =
      let found = elim (vfs_normalize_path towlower f.relative) as (λ x. Inserted) [
        | none ↦ refused s
        | some key ↦
            let put = elim (T.kh_get key s.index) as (λ x. Inserted) [
              | some place ↦ override_entry s f place
              | none ↦ append_entry memory s f key
            ] in
            if memory.slot then put else refused s
      ] in
      if is_nowhere f then refused s else found

  -- One step back: an overridden entry is restored, a new one is dropped with its key.
  unfoldable pub undo_insert : State → Undo → State
  undo_insert s u = elim u.previous [
    | some e ↦ record s { entries = set s.entries u.touched e }
    | none ↦ elim (get_elem? s.entries u.touched) [
      | none ↦ s
      | some e ↦ record {
        index = T.kh_del e.key s.index;
        entries = take (length s.entries - 1) s.entries;
      }
    ]
  ]

  -- `while (applied != 0)`: the latest step first.
  unfoldable pub undo_all : State → List Undo → State
  unfolding undo_insert
  undo_all s [] = s
  undo_all s (u ∷ us) = undo_all (undo_insert s u) us

  -- The loop that inserts, and what follows a failure. `memory` is for each file of the package.
  unfoldable pub insert_loop : (ℕ → Memory) → ℕ → State → List Undo → List File → Bool × State
  unfolding vfs_insert undo_all
  insert_loop memory applied s done [] = (true, s)
  insert_loop memory applied s done (f ∷ fs) =
      let r = vfs_insert (memory applied) s f in
      elim r.good [
        | none ↦ (false, undo_all r.state done)
        | some u ↦ insert_loop memory (applied + 1) r.state (u ∷ done) fs
      ]

  -- `arrays` is whether there is memory for the two arrays of what is to be undone.
  unfoldable pub vfs_insert_package : Bool → (ℕ → Memory) → State → List File → Bool × State
  unfolding insert_loop
  vfs_insert_package arrays memory s [] = (true, s)
  vfs_insert_package arrays memory s (f ∷ fs) =
      let run = insert_loop memory 0 s [] (f ∷ fs) in if arrays then run else (false, s)
