-- ===== src/Keyring/Backup.antt =====
-- keyring/backup.go and keyring/mem.go: a backup holds the items, each once, and restores them.
use keys.Common.{
  not, Bool, true, sym, All, ◌&&◌, ◌==◌, length, List, [], ◌∷◌, Option, none, some, false, Str,
  str_eq, str_eq_iff, if◌then◌else◌, Result, ◌>>=◌, ok, err, ◌≡◌, refl, ap, arith, ◌∙◌, Bool-cases,
  inl, inr,
}
use keys.Common.Assoc
use keys.Common.Assoc.{Assoc, lookup-insert, lookup-erase}
use keys.Keyring.{
  Item, Keyring, Error, Entry, get, set, items_with, sort_items, items_of, archive_of, backup,
  restore, write_item, is_dir_name, dir_entry, file_entry,
}
use keys.Keyring.Items.{
  find_item, find_item-sort_items, AreItems, sort_items-AreItems, find_item-items_with,
  items_with-AreItems, IsKeyring,
}

-- What is restored, or else what was there.
unfoldable pub or_else : Option Str → Option Str → Option Str
or_else none d = d
or_else (some b) d = some b

-- The rest of an archive, after a call of `Set`.
restore_rest : List Entry → Result Error Unit × Keyring → Result Error Unit × Keyring
restore_rest es (r, k) = elim r [ err e ↦ (err e, k) | ok _ ↦ restore k es ]

restore-file_entry :
    (k : Keyring) (i : Item) (es : List Entry)
    → str_eq i.id [] ≡ false
    → restore k (file_entry i.id i.data_ ∷ es)
      ≡ restore (record k { items = Assoc.insert i.id i.data_ k.items }) es
unfolding restore set restore_rest
restore-file_entry k i es n =
    let stored : set k i.id i.data_
        ≡ (ok tt, record k { items = Assoc.insert i.id i.data_ k.items }) =
      rw (set, n) refl in
    ap (restore_rest es) stored

-- An item that can be archived: a directory only without data.
pub record CanWrite (takes : Str → Bool) (i : Item) : Type 0 where
  pub taken : takes i.id ≡ true
  pub no_directory_data : (is_dir_name i.id && not (length i.data_ == 0)) ≡ false

-- What an archive of items leaves of the data of an identifier.
unfoldable pub after_restore : Str → Option Str → Option Str → Option Str
after_restore id mine own = if is_dir_name id then own else or_else mine own

-- The keyring after the entries, with what it holds of each identifier.
pub record IsRestored (k : Keyring) (es : List Entry) (mine : Str → Option Str) : Type 0 where
  pub done : (restore k es).0 ≡ ok tt
  pub held :
      (id : Str)
      → Assoc.lookup id (restore k es).1.items
        ≡ after_restore id (mine id) (Assoc.lookup id k.items)

after_dir :
    (i : Item) (is : List Item) (own : Option Str) (id : Str)
    → is_dir_name i.id ≡ true
    → after_restore id (find_item id is) own ≡ after_restore id (find_item id (i ∷ is)) own
unfolding after_restore find_item
after_dir i is own id h = elim (Bool-cases (str_eq i.id id)) [
  | inr e ↦ rw (find_item, e) refl
  | inl e ↦
      let dir : is_dir_name id ≡ true = ap is_dir_name (sym ((str_eq_iff i.id id).0 e)) ∙ h in
      rw (after_restore, dir) refl
]

after_file :
    (i : Item) (is : List Item) (own : Option Str) (id : Str)
    → is_dir_name i.id ≡ false
    → find_item i.id is ≡ none
    → after_restore id (find_item id is) (if str_eq i.id id then some i.data_ else own)
      ≡ after_restore id (find_item id (i ∷ is)) own
unfolding after_restore find_item or_else
after_file i is own id h f = elim (Bool-cases (str_eq i.id id)) [
  | inr e ↦ rw (find_item, e) refl
  | inl e ↦
      let same = (str_eq_iff i.id id).0 e in
      let dir : is_dir_name id ≡ false = ap is_dir_name (sym same) ∙ h in
      let once : find_item id is ≡ none = ap (λ j. find_item j is) (sym same) ∙ f in
      rw (after_restore, find_item, dir, once, e) refl
]

module _ (takes : Str → Bool) where
  archive_of-IsRestored :
      (is : List Item)
      → AreItems is
      → All (CanWrite takes) is
      → (es : List Entry) × (archive_of takes is ≡ ok es)
        × ((k : Keyring) → IsRestored k es (λ id. find_item id is))
  unfolding archive_of restore AreItems find_item after_restore or_else write_item
  archive_of-IsRestored [] _ _ = ([], refl, λ k. record { done = refl; held = λ id. ground arith })
  archive_of-IsRestored (i ∷ is) (n, f, h) (w, ws) =
      let (es, e, restored) = archive_of-IsRestored is h ws in
      elim (Bool-cases (is_dir_name i.id)) [
        | inl dir ↦ (
          dir_entry i.id ∷ es,
          rw (archive_of, e) (ground (arith, w.taken, w.no_directory_data, dir)),
          λ k. record {
            done = (restored k).done;
            held = λ id. (restored k).held id ∙ after_dir i is (Assoc.lookup id k.items) id dir;
          },
        )
        | inr file ↦ (
          file_entry i.id i.data_ ∷ es,
          rw (archive_of, e) (ground (arith, w.taken, file)),
          λ k.
              let next : Keyring = record k { items = Assoc.insert i.id i.data_ k.items } in
              let stored = restore-file_entry k i es n in
              record {
                done = ap (λ r. r.0) stored ∙ (restored next).done;
                held = λ id.
                    ap (λ r. Assoc.lookup id r.1.items) stored
                    ∙ (restored next).held id
                    ∙ ap (after_restore id (find_item id is))
                        (lookup-insert i.id id i.data_ k.items)
                    ∙ after_file i is (Assoc.lookup id k.items) id file f;
              },
        )
      ]

  -- Where archive/tar can write a header for each item, and no item whose identifier ends in a
  -- slash has data, the backup of a keyring succeeds, and restoring it into another succeeds.
  -- Afterwards each identifier has the data of the backup, or, where that has none or the
  -- identifier ends in a slash, what the other keyring had. The entries of the first have
  -- identifiers, each once, as `Set` and `Delete` keep them.
  pub restore-backup :
      (k t : Keyring)
      → IsKeyring k
      → All (CanWrite takes) (items_of k [])
      → (es : List Entry) × (backup takes k ≡ ok es)
        × ((restore t es).0 ≡ ok tt)
        × ((id : Str)
            → get (restore t es).1 id ≡ (do
              mine ← get k id
              own ← get t id
              ok (if is_dir_name id then own else or_else mine own)))
  unfolding IsKeyring backup get items_of after_restore
  restore-backup k t h writable =
      let items = items_with [] k.items in
      let (es, e, restored) =
        archive_of-IsRestored (sort_items items)
          (sort_items-AreItems items (items_with-AreItems k.items h)) writable in
      (
        es,
        e,
        (restored t).done,
        λ id.
            let same =
              (restored t).held id
              ∙ ap (λ o. after_restore id o (Assoc.lookup id t.items))
                  (find_item-sort_items id items ∙ find_item-items_with id k.items) in
            ground (arith, same),
      )
