-- ===== src/Users/Indexed.antt =====
-- users/users.go: what the index gives after a key's document was indexed.
use keys.Common.{
  [], ◌∷◌, Option, none, some, true, false, Str, str_eq, str_eq_ne, codes, if◌then◌else◌, Result,
  ok, err, ◌≡◌, refl, ap, arith, ◌∙◌, Result-cases, Bool-cases, inl, inr,
}
use keys.Tsutil.{Time}
use keys.Dstore.Path.Laws.{IsComponent, path_of-path_of}
use keys.Dstore.Mem
use keys.Dstore.Mem.{Mem, document}
use keys.User.User.{User, user_id}
use keys.User.Result.{UserResult}
use keys.Users.{
  KeyDocument, KeyJson, Error, kid_index, user_index, index_user_key, and_then, set_entry,
  index_user, unindex_user, unindex_result, remove_existing, is_indexed, index_result,
  key_document_from, get_entry, write_index, index, result_of, get, lookup_user,
}
use keys.Users.Entries.{
  entry_path, entry_path-is_odd, IsHeld, IsHeld-eq, set_entry-ok, set_entry-IsHeld, and_then_lem,
}
use keys.Users.UserEntries.{
  IsIndexable, user_key, kid-IsComponent, user-IsComponent, user_key-IsComponent, kid-IsApart,
  index_user-kept, index_user-IsHeld, unindex_user-kept, unindex_user-gone,
}

module _ (j : KeyJson) (decode : Str → Option Str) where
  -- What `get` reads of a document that is held, and of none.
  get_entry-IsHeld :
      (m : Mem) (i v b : Str) (d : KeyDocument)
      → IsComponent i
      → IsComponent v
      → IsHeld decode m (entry_path i v) b
      → j.unmarshal b ≡ some d
      → get_entry j decode m i v ≡ ok (some d)
  unfolding get_entry key_document_from Mem.get
  get_entry-IsHeld m i v b d hi hv h back = rw (
    get_entry,
    str_eq_ne v [] hv.0,
    Mem.get,
    path_of-path_of (i ∷ v ∷ []),
    entry_path-is_odd i v hi hv,
    h.found,
    key_document_from,
    h.read,
    back,
  )

  pub get_entry-none :
      (m : Mem) (i v : Str)
      → IsComponent i
      → IsComponent v
      → document m (entry_path i v) ≡ none
      → get_entry j decode m i v ≡ ok none
  unfolding get_entry Mem.get
  get_entry-none m i v hi hv h = rw (
    get_entry,
    str_eq_ne v [] hv.0,
    Mem.get,
    path_of-path_of (i ∷ v ∷ []),
    entry_path-is_odd i v hi hv,
    h,
  )

  and_then-err :
      (r : Result Error Unit × Mem) (next : Mem → Result Error Unit × Mem)
      → (and_then r next).0 ≡ ok tt
      → and_then r next ≡ next r.1
  unfolding and_then
  and_then-err (ok _, m) next h = refl
  and_then-err (err e, m) next h = ground arith

  -- Where `index` succeeds, it has written the index over some store.
  index-eq-ok :
      (d : KeyDocument) (now : Time) (m : Mem)
      → (index j decode d now m).0 ≡ ok tt
      → (before : Mem) × (index j decode d now m ≡ write_index j decode d now before)
  unfolding index
  index-eq-ok d now m h = elim (Result-cases (get_entry j decode m kid_index d.doc_kid)) [
    | inr (e, f) ↦ ground (arith, f)
    | inl (existing, f) ↦ (
      (remove_existing d.result existing m).1,
      rw (index, f) (and_then-err _ _ (rw (index, f) at h)),
    )
  ]

  -- A key's document whose JSON is read back, of a key that makes a component of a path.
  module _ (d : KeyDocument) (b : Str) (now : Time) (hk : IsComponent d.doc_kid)
      (em : j.marshal d ≡ some b) (back : j.unmarshal b ≡ some d) where
    unfoldable pub with_kid : Mem → Mem
    with_kid m = (set_entry kid_index d.doc_kid b m).1

    write_index_lem :
        (m : Mem) → write_index j decode d now m ≡ index_result d.result b now (with_kid m)
    unfolding write_index with_kid
    write_index_lem m =
        rw (write_index, em)
          (and_then_lem _ _ (set_entry-ok decode kid_index d.doc_kid b kid-IsComponent hk m))

    with_kid-IsHeld : (m : Mem) → IsHeld decode (with_kid m) (entry_path kid_index d.doc_kid) b
    unfolding with_kid
    with_kid-IsHeld m = set_entry-IsHeld decode kid_index d.doc_kid b kid-IsComponent hk m

    module _ (r : UserResult) (u : User) (hu : IsIndexable u) (er : d.result ≡ some r)
        (eu : r.user ≡ some u) where
      pub indexed_lem :
          (m : Mem)
          → is_indexed r now ≡ true
          → write_index j decode d now m
            ≡ index_user u b (str_eq u.service (codes "echo")) (with_kid m)
      unfolding index_result
      indexed_lem m i = write_index_lem m ∙ rw (er, index_result, i, eu) refl

      pub unindexed_lem :
          (m : Mem)
          → is_indexed r now ≡ false
          → write_index j decode d now m ≡ (ok tt, unindex_user u (with_kid m))
      unfolding index_result unindex_result
      unindexed_lem m i = write_index_lem m ∙ rw (er, index_result, i, unindex_result, eu) refl

      -- The document of the key is held in both cases.
      write_index-IsHeld :
          (m : Mem)
          → IsHeld decode (write_index j decode d now m).1 (entry_path kid_index d.doc_kid) b
      write_index-IsHeld m =
          let apart = kid-IsApart u hu d.doc_kid hk in
          elim (Bool-cases (is_indexed r now)) [
            | inl i ↦
                IsHeld-eq
                  (ap (λ x. document x.1 (entry_path kid_index d.doc_kid)) (indexed_lem m i)
                    ∙ index_user-kept u hu decode b _ (with_kid m) kid_index d.doc_kid apart)
                  (with_kid-IsHeld m)
            | inr i ↦
                IsHeld-eq
                  (ap (λ x. document x.1 (entry_path kid_index d.doc_kid)) (unindexed_lem m i)
                    ∙ unindex_user-kept u hu (with_kid m) kid_index d.doc_kid apart)
                  (with_kid-IsHeld m)
          ]

      -- Where `index` of a result with a user succeeds, `Get` of the key gives that result. The
      -- names are without slashes, and the JSON of the document is read back.
      pub get-index :
          (m : Mem)
          → (index j decode d now m).0 ≡ ok tt
          → get j decode (index j decode d now m).1 d.doc_kid ≡ ok (some r)
      unfolding get result_of
      get-index m h =
          let (before, e) = index-eq-ok d now m h in
          rw
            (
              get,
              e,
              get_entry-IsHeld _ kid_index d.doc_kid b d kid-IsComponent hk
                  (write_index-IsHeld before) back,
              result_of,
              er,
            )
            refl

      -- Where `index` of a result with a user succeeds, `User` of the name gives that result if it
      -- is one to be indexed, and nothing if not. The names are without slashes, and the JSON of
      -- the document is read back.
      pub lookup_user-index :
          (m : Mem)
          → (index j decode d now m).0 ≡ ok tt
          → lookup_user j decode (index j decode d now m).1 (user_id u)
            ≡ ok (if is_indexed r now then some r else none)
      unfolding lookup_user result_of user_id index_user_key
      lookup_user-index m h =
          let (before, e) = index-eq-ok d now m h in
          elim (Bool-cases (is_indexed r now)) [
            | inl i ↦
                rw
                  (
                    lookup_user,
                    e,
                    indexed_lem before i,
                    get_entry-IsHeld _ user_index (user_key u) b d user-IsComponent
                        (user_key-IsComponent u hu)
                        (index_user-IsHeld u hu decode b (str_eq u.service (codes "echo"))
                          (with_kid before))
                        back,
                    result_of,
                    er,
                    i,
                  )
                  refl
            | inr i ↦
                rw
                  (
                    lookup_user,
                    e,
                    unindexed_lem before i,
                    get_entry-none _ user_index (user_key u) user-IsComponent
                        (user_key-IsComponent u hu) (unindex_user-gone u hu (with_kid before)),
                    result_of,
                    i,
                  )
                  refl
          ]
