-- ===== src/Keyring/Examples.antt =====
-- Runs of the theorems of the keyring at concrete keyrings.
use keys.Common.{
  Str, Bool, true, List, All, if◌then◌else◌, [], ◌∷◌, codes, str_eq, str_ltb, has_prefix, ok, err,
  ◌≡◌, refl, ◌>>=◌,
}
use keys.Common.Assoc
use keys.Keyring.{
  Entry, archive_of, write_item, is_dir_name, write_too_long, Keyring, get, set, delete, reset,
  reset_all, ids, backup, restore, delete_ids, ids_from, items_of, items_with, insert_item,
  sort_items, new_mem, other_entry, dir_entry, invalid_tar_flag,
}
use keys.Keyring.Backup.{CanWrite, or_else, restore-backup}
use keys.Keyring.Items.{IsKeyring, HaveIds, set-IsKeyring, delete-IsKeyring}

abbrev first : Keyring
first =
    (set (set (set new_mem (codes "d/") []).1 (codes "b") (codes "2")).1 (codes "a") (codes "1")).1

abbrev second : Keyring
second = (set (set new_mem (codes "b") (codes "9")).1 (codes "c") (codes "3")).1

new_mem-IsKeyring : IsKeyring new_mem
unfolding IsKeyring HaveIds new_mem
new_mem-IsKeyring = tt

first-IsKeyring : IsKeyring first
first-IsKeyring =
    let one = (set new_mem (codes "d/") []).1 in
    set-IsKeyring (set one (codes "b") (codes "2")).1 (codes "a") (codes "1") (
      set-IsKeyring one (codes "b") (codes "2")
        (set-IsKeyring new_mem (codes "d/") [] new_mem-IsKeyring))

erases : IsKeyring (delete first (codes "b")).1
erases = delete-IsKeyring first (codes "b") first-IsKeyring

-- Every name can be written.
takes_all : Str → Bool
takes_all name = true

first-CanWrite : All (CanWrite takes_all) (items_of first [])
unfolding takes_all items_of sort_items insert_item items_with has_prefix new_mem set Assoc.insert
    str_eq str_ltb is_dir_name
first-CanWrite = (
  record { taken = refl; no_directory_data = refl },
  (
    record { taken = refl; no_directory_data = refl },
    (record { taken = refl; no_directory_data = refl }, tt),
  ),
)

restore-backup_example :
    (es : List Entry) × (backup takes_all first ≡ ok es)
    × ((restore second es).0 ≡ ok tt)
    × ((id : Str)
        → get (restore second es).1 id ≡ (do
          mine ← get first id
          own ← get second id
          ok (if is_dir_name id then own else or_else mine own)))
restore-backup_example = restore-backup takes_all first second first-IsKeyring first-CanWrite

-- A directory with data cannot be archived.
refuses_data : backup takes_all (set new_mem (codes "d/") (codes "data")).1 ≡ err write_too_long
unfolding takes_all backup archive_of write_item is_dir_name set new_mem Assoc.insert str_eq
    items_of sort_items insert_item items_with has_prefix
refuses_data = refl

-- What a run computes with.
run_keyring : {A : Type 0} → A → A
unfolding get set ids reset_all restore backup delete new_mem Assoc.insert Assoc.lookup str_eq
run_keyring a = a

lists_sorted : ids first [] ≡ codes "a" ∷ codes "b" ∷ codes "d/" ∷ []
unfolding run_keyring ids_from items_of sort_items items_with has_prefix insert_item str_ltb
lists_sorted = refl

resets : (reset_all first).1 ≡ reset first
unfolding run_keyring reset delete_ids ids_from items_of sort_items items_with has_prefix
    insert_item str_ltb Assoc.erase
resets = refl

skips_directory :
    (restore second (dir_entry (codes "d") ∷ other_entry (codes "l") ∷ [])).0 ≡ err invalid_tar_flag
unfolding restore
skips_directory = refl
