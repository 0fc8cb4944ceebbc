-- ===== src/Modloader/Vfs/Table.antt =====
-- The hash tables of khash that src/modloader/vfs.c keeps: their operations, and what they promise.
use yafsml.Prelude.{◌≡◌, ◌≢◌, Option, none, some}
use yafsml.Common.Path.{Wide}

-- Tables from strings to values. `kh_put` with the store of a value is one operation.
pub record HashTable (V : Type 0) : Type 1 where
  pub Table : Type 0
  pub empty : Table
  pub kh_get : Wide → Table → Option V
  pub kh_put : Wide → V → Table → Table
  pub kh_del : Wide → Table → Table
  pub get_empty : (k : Wide) → kh_get k empty ≡ none
  pub get_put : (k : Wide) (v : V) (t : Table) → kh_get k (kh_put k v t) ≡ some v
  pub get_put_other :
      (k l : Wide) (v : V) (t : Table) → k ≢ l → kh_get k (kh_put l v t) ≡ kh_get k t
  pub get_del : (k : Wide) (t : Table) → kh_get k (kh_del k t) ≡ none
  pub get_del_other : (k l : Wide) (t : Table) → k ≢ l → kh_get k (kh_del l t) ≡ kh_get k t
