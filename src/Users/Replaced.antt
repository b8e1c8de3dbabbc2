-- ===== src/Users/Replaced.antt =====
-- users/users.go: what the index does with the user that a key had before.
use keys.Common.{
  [], ◌∷◌, Option, none, some, true, Str, str_eq_ne, ok, ◌≡◌, ◌≢◌, refl, ap, ap₂, arith, ◌∙◌,
  Bool-cases, inl, inr,
}
use keys.Tsutil.{Time}
use keys.Dstore.Path.Laws.{IsComponent}
use keys.Dstore.Mem.{Mem, document}
use keys.User.User.{User, user_id}
use keys.User.Result.{UserResult}
use keys.Users.{
  KeyDocument, KeyJson, kid_index, user_index, search_index, service_index, index_user_key,
  and_then, unindex_user, unindex_result, is_new_result_different, remove_existing, is_indexed,
  get_entry, write_index, index, result_of, lookup_user,
}
use keys.Users.Entries.{entry_path, entry_path-ne, entry_path-ne_collection, set_entry-kept}
use keys.Users.UserEntries.{
  IsIndexable, user_key, service_key, kid-IsComponent, user-IsComponent, service-IsComponent,
  search-IsComponent, user_key-IsComponent, service_key-IsComponent, IsApart, index_user-ok,
  index_user-kept, unindex_user-kept, unindex_user-gone,
}
use keys.Users.Indexed.{indexed_lem, unindexed_lem, with_kid, get_entry-none}

-- The entry of another user is none of the entries of `u`.
other-IsApart :
    (u v : User)
    → IsIndexable u
    → IsIndexable v
    → user_id u ≢ user_id v
    → IsApart u user_index (user_key v)
unfolding user_id index_user_key
other-IsApart u v hu hv ne =
    let key = user_key-IsComponent v hv in
    record {
      no_user =
          entry_path-ne user_index (user_key u) user_index (user_key v) user-IsComponent
            (user_key-IsComponent u hu) user-IsComponent key (λ e. ne (cons_key e));
      no_service =
          entry_path-ne_collection service_index (service_key u) user_index (user_key v)
            service-IsComponent (service_key-IsComponent u hu) user-IsComponent key (λ e. cc);
      no_search =
          entry_path-ne_collection search_index (user_key u) user_index (user_key v)
            search-IsComponent (user_key-IsComponent u hu) user-IsComponent key (λ e. cc);
    }
  where
    cons_key : user_index ∷ user_key u ∷ [] ≡ user_index ∷ user_key v ∷ [] → user_id u ≡ user_id v
    cons_key e = cc

is_different :
    (r old : UserResult) (u v : User)
    → r.user ≡ some u
    → old.user ≡ some v
    → user_id u ≢ user_id v
    → is_new_result_different (some r) (some old) ≡ true
unfolding is_new_result_different
is_different r old u v eu ev ne = ground (arith, eu, ev, str_eq_ne (user_id u) (user_id v) ne)

removes_different :
    (new : Option UserResult) (existing : KeyDocument) (old : UserResult) (v : User) (m : Mem)
    → is_new_result_different new existing.result ≡ true
    → existing.result ≡ some old
    → old.user ≡ some v
    → remove_existing new (some existing) m ≡ (ok tt, unindex_user v m)
unfolding remove_existing unindex_result
removes_different new existing old v m different eo ev = ground (arith, different, eo, ev)

module _ (j : KeyJson) (decode : Str → Option Str) (d : KeyDocument) (b : Str) (now : Time)
    (hk : IsComponent d.doc_kid) (em : j.marshal d ≡ some b) (back : j.unmarshal b ≡ some d)
    (r : UserResult) (u : User) (hu : IsIndexable u) (er : d.result ≡ some r)
    (eu : r.user ≡ some u) where
  write_index-ok : (m : Mem) → (write_index j decode d now m).0 ≡ ok tt
  write_index-ok m = elim (Bool-cases (is_indexed r now)) [
    | inl i ↦
        ap (λ x. x.0) (indexed_lem j decode d b now hk em back r u hu er eu m i)
        ∙ index_user-ok u hu decode b _ (with_kid j decode d b now hk em back m)
    | inr i ↦ ap (λ x. x.0) (unindexed_lem j decode d b now hk em back r u hu er eu m i)
  ]

  with_kid-kept :
      (m : Mem) (v : User)
      → IsIndexable v
      → document (with_kid j decode d b now hk em back m) (entry_path user_index (user_key v))
        ≡ document m (entry_path user_index (user_key v))
  unfolding with_kid
  with_kid-kept m v hv =
      set_entry-kept decode kid_index d.doc_kid b kid-IsComponent hk m user_index (user_key v) (
        entry_path-ne_collection kid_index d.doc_kid user_index (user_key v) kid-IsComponent hk
          user-IsComponent (user_key-IsComponent v hv) (λ e. cc))

  -- Writing the index of `u` leaves the entry of another user.
  write_index-kept :
      (m : Mem) (v : User)
      → IsIndexable v
      → user_id u ≢ user_id v
      → document (write_index j decode d now m).1 (entry_path user_index (user_key v))
        ≡ document m (entry_path user_index (user_key v))
  write_index-kept m v hv ne =
      let apart = other-IsApart u v hu hv ne in
      elim (Bool-cases (is_indexed r now)) [
        | inl i ↦
            ap (λ x. document x.1 (entry_path user_index (user_key v)))
              (indexed_lem j decode d b now hk em back r u hu er eu m i)
            ∙ index_user-kept u hu decode b _ _ user_index (user_key v) apart
            ∙ with_kid-kept m v hv
        | inr i ↦
            ap (λ x. document x.1 (entry_path user_index (user_key v)))
              (unindexed_lem j decode d b now hk em back r u hu er eu m i)
            ∙ unindex_user-kept u hu _ user_index (user_key v) apart
            ∙ with_kid-kept m v hv
      ]

  -- A key without a document before: the index succeeds.
  pub index-new :
      (m : Mem)
      → get_entry j decode m kid_index d.doc_kid ≡ ok none
      → (index j decode d now m).0 ≡ ok tt
  unfolding index and_then remove_existing
  index-new m e = rw (index, e, remove_existing, and_then) (write_index-ok m)

  module _ (m : Mem) (existing : KeyDocument) (old : UserResult) (v : User) (hv : IsIndexable v)
      (there : get_entry j decode m kid_index d.doc_kid ≡ ok (some existing))
      (eo : existing.result ≡ some old) (ev : old.user ≡ some v) (ne : user_id u ≢ user_id v) where
    removes_old : index j decode d now m ≡ write_index j decode d now (unindex_user v m)
    unfolding index and_then
    removes_old =
        rw (index, there)
          (ap (λ x. and_then x (write_index j decode d now))
            (removes_different d.result existing old v m
              (ap₂ is_new_result_different er eo ∙ is_different r old u v eu ev ne) eo ev))

    -- Where a key had an indexed result of another user, `index` of a new result with a user
    -- succeeds, and the user of before is found no more. The names are without slashes, and the
    -- JSON of the document is read back.
    pub lookup_user-replaced :
        ((index j decode d now m).0 ≡ ok tt)
        × (lookup_user j decode (index j decode d now m).1 (user_id v) ≡ ok none)
    unfolding lookup_user result_of user_id index_user_key
    lookup_user-replaced =
        let gone = write_index-kept (unindex_user v m) v hv ne ∙ unindex_user-gone v hv m in
        (
          ap (λ x. x.0) removes_old ∙ write_index-ok (unindex_user v m),
          rw
              (
                lookup_user,
                removes_old,
                get_entry-none j decode _ user_index (user_key v) user-IsComponent
                    (user_key-IsComponent v hv) gone,
                result_of,
              )
              refl,
        )
