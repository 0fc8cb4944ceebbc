-- ===== src/Steam/Vdf/Tree.antt =====
-- src/steam/vdf.c, the tree of objects: its operations while it is read, and the queries.
pub mod Number
use yafsml.Prelude.{
  ℕ, zero, suc, ◌+◌, Bool, true, false, not, ◌&&◌, ◌||◌, Option, none, some, List, [], ◌∷◌, ◌++◌,
  Bytes, ltb, leb, ◌==◌, if◌then◌else◌,
}
use yafsml.Steam.Vdf.Chars.{ascii_equal}
use Number.{stored_value}

-- A struct vdf_object with its key; `none` is a NULL key. The children are a list of their own.
mutual
  pub data Object : Type 0 where
    object : Option Bytes → Content → Object

  pub data Content : Type 0 where
    untyped : Content
    array : Objects → Content
    text : Bytes → Content

  pub data Objects : Type 0 where
    nil : Objects
    cons : Object → Objects → Objects

abbrev pub key_of : Object → Option Bytes
key_of (object k c) = k

abbrev pub content_of : Object → Content
content_of (object k c) = c

-- `new_object`, `set_key` and `clear_object`; memory is taken to last.
abbrev pub new_object : Option Bytes → Object
new_object key = object key untyped

abbrev pub set_key : Object → Bytes → Object
set_key (object k c) key = object (some key) c

abbrev pub clear_object : Object → Object
clear_object (object k c) = object k untyped

unfoldable pub append_child : Objects → Object → Objects
append_child nil o = cons o nil
append_child (cons x xs) o = cons x (append_child xs o)

-- `key != NULL && ascii_equal(key, name)`
abbrev pub has_key : Bytes → Object → Bool
has_key name (object none c) = false
has_key name (object (some k) c) = ascii_equal k name

unfoldable pub remove_first_named : Objects → Bytes → Objects
unfolding ascii_equal
remove_first_named nil key = nil
remove_first_named (cons x xs) key =
    let rest = remove_first_named xs key in if has_key key x then xs else cons x rest

-- `set_value`
unfoldable pub set_value : Object → Bytes → Object
unfolding stored_value
set_value (object k c) value = object k (text (stored_value value))

-- The queries. A NULL object is `none`.
abbrev pub children_of : Option Object → Objects
children_of (some (object k (array xs))) = xs
children_of _ = nil

unfoldable pub count : Objects → ℕ
count nil = 0
count (cons x xs) = suc (count xs)

unfoldable pub nth : Objects → ℕ → Option Object
nth nil i = none
nth (cons x xs) zero = some x
nth (cons x xs) (suc i) = nth xs i

unfoldable pub vdf_object_get_array_length : Option Object → ℕ
unfolding count
vdf_object_get_array_length o = count (children_of o)

unfoldable pub vdf_object_index_array : Option Object → ℕ → Option Object
unfolding nth vdf_object_get_array_length
vdf_object_index_array o index =
    if ltb index (vdf_object_get_array_length o) then nth (children_of o) index else none

unfoldable pub find_named : Objects → Bytes → Option Object
unfolding ascii_equal
find_named nil str = none
find_named (cons x xs) str = let rest = find_named xs str in if has_key str x then some x else rest

unfoldable pub vdf_object_index_array_str : Option Object → Option Bytes → Option Object
unfolding find_named
vdf_object_index_array_str o none = none
vdf_object_index_array_str o (some str) = find_named (children_of o) str

unfoldable pub vdf_object_get_string : Option Object → Option Bytes
vdf_object_get_string (some (object k (text s))) = some s
vdf_object_get_string _ = none
