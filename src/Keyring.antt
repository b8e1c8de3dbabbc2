-- ===== src/Keyring.antt =====
-- keyring: items kept under identifiers, in memory, and their backup. The files, gzip and tar are an
-- archive, a list of entries.
pub mod Backup
pub mod Items
mod Examples
use keys.Common.{
  not, ◌==◌, length, List, [], ◌∷◌, ◌++◌, Option, none, some, Bool, true, false, Str, str_eq,
  str_ltb, has_prefix, if◌then◌else◌, Result, ok, err, ◌>>=◌, ◌>>◌, fail_if,
}
use keys.Common.Assoc
use keys.Common.Assoc.{Assoc}

pub record Item : Type 0 where
  pub id : Str
  pub data_ : Str

-- The memory keyring. The map's entries are in the order in which a walk goes through them.
pub record Keyring : Type 0 where
  pub items : Assoc Str

pub data Error : Type 0 where
  invalid_id invalid_tar_flag invalid_service : Error
  -- Errors of `archive/tar`.
  header_refused write_too_long : Error

-- `NewMem()`.
unfoldable pub new_mem : Keyring
new_mem = record { items = [] }

-- `k.Get(id)`; `none` is nil.
unfoldable pub get : Keyring → Str → Result Error (Option Str)
get k id = do fail_if (str_eq id []) invalid_id; ok (Assoc.lookup id k.items)

-- `k.Set(id, data)`.
unfoldable pub set : Keyring → Str → Str → Result Error Unit × Keyring
set k id b =
    if str_eq id []
    then (err invalid_id, k)
    else (ok tt, record k { items = Assoc.insert id b k.items })

-- `k.Reset()`.
unfoldable pub reset : Keyring → Keyring
reset k = record k { items = [] }

-- `k.Exists(id)`.
unfoldable pub exists : Keyring → Str → Result Error Bool
exists k id = do
  fail_if (str_eq id []) invalid_id
  ok (elim (Assoc.lookup id k.items) [ none ↦ false | some _ ↦ true ])

-- `k.Delete(id)`.
unfoldable pub delete : Keyring → Str → Result Error Bool × Keyring
delete k id = if str_eq id [] then (err invalid_id, k) else elim (Assoc.lookup id k.items) [
  | none ↦ (ok false, k)
  | some _ ↦ (ok true, record k { items = Assoc.erase id k.items })
]

-- The loop of `Items`: the items whose identifiers have a prefix.
unfoldable pub items_with : Str → Assoc Str → List Item
items_with prefix [] = []
items_with prefix ((id, b) ∷ kvs) =
    let rest = items_with prefix kvs in
    if has_prefix id prefix then record { id = id; data_ = b } ∷ rest else rest

-- `sort.Slice` by identifiers.
unfoldable pub insert_item : Item → List Item → List Item
insert_item i [] = i ∷ []
insert_item i (j ∷ is) =
    let rest = insert_item i is in if str_ltb j.id i.id then j ∷ rest else i ∷ j ∷ is

unfoldable pub sort_items : List Item → List Item
sort_items [] = []
sort_items (i ∷ is) = insert_item i (sort_items is)

-- `k.Items(prefix)`, which does not fail.
unfoldable pub items_of : Keyring → Str → List Item
items_of k prefix = sort_items (items_with prefix k.items)

-- `IDs(kr, prefix)`.
unfoldable pub ids_from : List Item → List Str
ids_from [] = []
ids_from (i ∷ is) = i.id ∷ ids_from is

unfoldable pub ids : Keyring → Str → List Str
ids k prefix = ids_from (items_of k prefix)

-- The loop of `reset(kr)`.
unfoldable pub delete_ids : Keyring → List Str → Result Error Unit × Keyring
delete_ids k [] = (ok tt, k)
delete_ids k (i ∷ is) = elim (delete k i).0 [
  | err e ↦ (err e, (delete k i).1)
  | ok _ ↦ delete_ids (delete k i).1 is
]

-- `reset(kr)`.
unfoldable pub reset_all : Keyring → Result Error Unit × Keyring
reset_all k = delete_ids k (ids k [])

-- An entry of an archive by its type.
pub data Entry : Type 0 where
  dir_entry : Str → Entry
  file_entry : Str → Str → Entry
  other_entry : Str → Entry

-- A name with a slash at its end.
unfoldable pub is_dir_name : Str → Bool
is_dir_name [] = false
is_dir_name (c ∷ []) = c == b'/'
is_dir_name (c ∷ d ∷ s) = is_dir_name (d ∷ s)

module _ (takes : Str → Bool) where
  -- A header and the data of an item. `takes` says of which names `archive/tar` can write a header.
  -- A header without a type is promoted by its name: with a slash at its end it is a directory,
  -- which takes no data.
  unfoldable pub write_item : Item → Result Error Entry
  write_item i =
      if not (takes i.id)
      then err header_refused
      else if not (is_dir_name i.id)
      then ok (file_entry i.id i.data_)
      else if length i.data_ == 0
      then ok (dir_entry i.id)
      else err write_too_long

  -- The loop of `backup`.
  unfoldable pub archive_of : List Item → Result Error (List Entry)
  archive_of [] = ok []
  archive_of (i ∷ is) = do e ← write_item i; es ← archive_of is; ok (e ∷ es)

  -- `backup(file, kr, now)`, whose file can be written.
  unfoldable pub backup : Keyring → Result Error (List Entry)
  backup k = archive_of (items_of k [])

-- `restore(file, kr)`, whose archive can be read.
unfoldable pub restore : Keyring → List Entry → Result Error Unit × Keyring
restore k [] = (ok tt, k)
restore k (dir_entry name ∷ es) = restore k es
restore k (file_entry name b ∷ es) = elim (set k name b).0 [
  | err e ↦ (err e, (set k name b).1)
  | ok _ ↦ restore (set k name b).1 es
]
restore k (other_entry name ∷ es) = (err invalid_tar_flag, k)
