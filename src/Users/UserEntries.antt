-- ===== src/Users/UserEntries.antt =====
-- users/users.go: the three entries of a user, and what stays when they are written or deleted.
use keys.Common.{
  ℕ, [], ◌∷◌, ◌++◌, Option, none, Bool, true, false, Str, str_eq, codes, All-append, if◌then◌else◌,
  ok, ◌≡◌, ◌≢◌, ap, arith, ◌∙◌,
}
use keys.Common.Split.{Lacks}
use keys.Dstore.Path.Laws.{IsComponent}
use keys.Dstore.Mem.{Mem, document}
use keys.User.User.{User}
use keys.Users.{
  kid_index, user_index, search_index, service_index, index_user_key, index_service_key, set_entry,
  index_user, unindex_user,
}
use keys.Users.Entries.{
  entry_path, IsHeld, IsHeld-eq, set_entry-ok, set_entry-IsHeld, set_entry-kept,
  entry_path-ne_collection, delete_entry-kept, delete_entry-gone, and_then_lem,
}

-- A user whose name and service make components of a path.
pub record IsIndexable (u : User) : Type 0 where
  pub plain_name : Lacks b'/' u.name
  pub plain_service : Lacks b'/' u.service

append_ne : (s t u : Str) (c : ℕ) → s ++ (c ∷ t) ++ u ≢ []
append_ne [] t u c e = cc
append_ne (x ∷ s) t u c e = cc

key-IsComponent : (s t : Str) → Lacks b'/' s → Lacks b'/' t → IsComponent (s ++ codes "@" ++ t)
key-IsComponent s t hs ht = (
  append_ne s [] t b'@',
  All-append (λ c. c ≢ b'/') (s ++ codes "@") t
      (All-append (λ c. c ≢ b'/') s (codes "@") hs (omega arith, tt)) ht,
)

pub kid-IsComponent : IsComponent kid_index
kid-IsComponent = (cc, (omega arith, (omega arith, (omega arith, tt))))

pub user-IsComponent : IsComponent user_index
user-IsComponent = (cc, (omega arith, (omega arith, (omega arith, (omega arith, tt)))))

pub service-IsComponent : IsComponent service_index
service-IsComponent = (
  cc,
  (
    omega arith,
    (omega arith, (omega arith, (omega arith, (omega arith, (omega arith, (omega arith, tt)))))),
  ),
)

pub search-IsComponent : IsComponent search_index
search-IsComponent = (
  cc,
  (omega arith, (omega arith, (omega arith, (omega arith, (omega arith, (omega arith, tt)))))),
)

abbrev pub user_key : User → Str
user_key u = index_user_key u.service u.name

abbrev pub service_key : User → Str
service_key u = index_service_key u.service u.name

pub user_key-IsComponent : (u : User) → IsIndexable u → IsComponent (user_key u)
unfolding index_user_key
user_key-IsComponent u h = key-IsComponent u.name u.service h.plain_name h.plain_service

pub service_key-IsComponent : (u : User) → IsIndexable u → IsComponent (service_key u)
unfolding index_service_key
service_key-IsComponent u h = key-IsComponent u.service u.name h.plain_service h.plain_name

-- A path that is none of the three entries of a user.
pub record IsApart (u : User) (j v : Str) : Type 0 where
  pub no_user : str_eq (entry_path user_index (user_key u)) (entry_path j v) ≡ false
  pub no_service : str_eq (entry_path service_index (service_key u)) (entry_path j v) ≡ false
  pub no_search : str_eq (entry_path search_index (user_key u)) (entry_path j v) ≡ false

module _ (u : User) (hu : IsIndexable u) where
  pub kid-IsApart : (kid : Str) → IsComponent kid → IsApart u kid_index kid
  kid-IsApart kid hk =
      let key = user_key-IsComponent u hu in
      record {
        no_user =
            entry_path-ne_collection user_index (user_key u) kid_index kid user-IsComponent key
              kid-IsComponent hk (λ e. cc);
        no_service =
            entry_path-ne_collection service_index (service_key u) kid_index kid service-IsComponent
              (service_key-IsComponent u hu) kid-IsComponent hk (λ e. cc);
        no_search =
            entry_path-ne_collection search_index (user_key u) kid_index kid search-IsComponent key
              kid-IsComponent hk (λ e. cc);
      }

  module _ (decode : Str → Option Str) (b : Str) where
    -- The stores that `indexUser` goes through.
    with_user : Mem → Mem
    with_user m = (set_entry user_index (user_key u) b m).1

    with_service : Mem → Mem
    with_service m = (set_entry service_index (service_key u) b (with_user m)).1

    index_user_lem :
        (skip : Bool) (m : Mem)
        → index_user u b skip m ≡ (
            if skip
            then (ok tt, with_service m)
            else set_entry search_index (user_key u) b (with_service m))
    unfolding index_user with_service with_user
    index_user_lem skip m =
        and_then_lem _ _ (
          set_entry-ok decode user_index (user_key u) b user-IsComponent (user_key-IsComponent u hu)
            m)
        ∙ and_then_lem _ _ (
            set_entry-ok decode service_index (service_key u) b service-IsComponent
              (service_key-IsComponent u hu) (with_user m))

    with_service-kept :
        (m : Mem) (j v : Str)
        → str_eq (entry_path service_index (service_key u)) (entry_path j v) ≡ false
        → document (with_service m) (entry_path j v) ≡ document (with_user m) (entry_path j v)
    unfolding with_service
    with_service-kept m j v ne =
        set_entry-kept decode service_index (service_key u) b service-IsComponent
          (service_key-IsComponent u hu) (with_user m) j v ne

    -- The last step touches the search only.
    last-kept :
        (skip : Bool) (m : Mem) (j v : Str)
        → str_eq (entry_path search_index (user_key u)) (entry_path j v) ≡ false
        → document (index_user u b skip m).1 (entry_path j v)
          ≡ document (with_service m) (entry_path j v)
    last-kept true m j v ne = ap (λ r. document r.1 (entry_path j v)) (index_user_lem true m)
    last-kept false m j v ne =
        ap (λ r. document r.1 (entry_path j v)) (index_user_lem false m)
        ∙ set_entry-kept decode search_index (user_key u) b search-IsComponent
            (user_key-IsComponent u hu) (with_service m) j v ne

    pub index_user-ok : (skip : Bool) (m : Mem) → (index_user u b skip m).0 ≡ ok tt
    index_user-ok true m = ap (λ r. r.0) (index_user_lem true m)
    index_user-ok false m =
        ap (λ r. r.0) (index_user_lem false m)
        ∙ set_entry-ok decode search_index (user_key u) b search-IsComponent
            (user_key-IsComponent u hu) (with_service m)

    pub index_user-kept :
        (skip : Bool) (m : Mem) (j v : Str)
        → IsApart u j v
        → document (index_user u b skip m).1 (entry_path j v) ≡ document m (entry_path j v)
    unfolding with_user
    index_user-kept skip m j v a =
        last-kept skip m j v a.no_search
        ∙ with_service-kept m j v a.no_service
        ∙ set_entry-kept decode user_index (user_key u) b user-IsComponent
            (user_key-IsComponent u hu) m j v a.no_user

    pub index_user-IsHeld :
        (skip : Bool) (m : Mem)
        → IsHeld decode (index_user u b skip m).1 (entry_path user_index (user_key u)) b
    unfolding with_user
    index_user-IsHeld skip m =
        let key = user_key-IsComponent u hu in
        IsHeld-eq
          (last-kept skip m user_index (user_key u) (
              entry_path-ne_collection search_index (user_key u) user_index (user_key u)
                search-IsComponent key user-IsComponent key (λ e. cc))
            ∙ with_service-kept m user_index (user_key u) (
                entry_path-ne_collection service_index (service_key u) user_index (user_key u)
                  service-IsComponent (service_key-IsComponent u hu) user-IsComponent key
                  (λ e. cc)))
          (set_entry-IsHeld decode user_index (user_key u) b user-IsComponent key m)

  pub unindex_user-kept :
      (m : Mem) (j v : Str)
      → IsApart u j v
      → document (unindex_user u m) (entry_path j v) ≡ document m (entry_path j v)
  unfolding unindex_user
  unindex_user-kept m j v a =
      delete_entry-kept search_index (user_key u) j v _ a.no_search
      ∙ delete_entry-kept service_index (service_key u) j v _ a.no_service
      ∙ delete_entry-kept user_index (user_key u) j v m a.no_user

  pub unindex_user-gone :
      (m : Mem) → document (unindex_user u m) (entry_path user_index (user_key u)) ≡ none
  unfolding unindex_user
  unindex_user-gone m =
      let key = user_key-IsComponent u hu in
      delete_entry-kept search_index (user_key u) user_index (user_key u) _ (
        entry_path-ne_collection search_index (user_key u) user_index (user_key u)
          search-IsComponent key user-IsComponent key (λ e. cc))
      ∙ delete_entry-kept service_index (service_key u) user_index (user_key u) _ (
          entry_path-ne_collection service_index (service_key u) user_index (user_key u)
            service-IsComponent (service_key-IsComponent u hu) user-IsComponent key (λ e. cc))
      ∙ delete_entry-gone user_index (user_key u) m
