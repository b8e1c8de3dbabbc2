-- ===== src/Dstore/Mem/Listed.antt =====
-- dstore/mem.go: what a listing of a consistent store returns.
use mathlib.Core.Bool.{false≢true}
use keys.Common.{
  List, [], ◌∷◌, none, some, Bool, true, ◌&&◌, Str, str_eq_iff, str_eq_ne, codes, str_ltb, All,
  if◌then◌else◌, ok, ◌≡◌, ◌≢◌, refl, arith, Option-cases, Bool-cases, inl, inr, ap, ◌∙◌, sym,
}
use keys.Common.Int.{pos}
use keys.Common.Sort.{mem, IsSorted}
use keys.Dstore.Path.{path_of}
use keys.Dstore.StringSet
use keys.Dstore.StringSet.Laws.{sorted_lem}
use keys.Dstore.Document.{Document, paths_of}
use keys.Dstore.Options.{new_options, ListOption}
use keys.Dstore.Mem.{Mem, document}
use keys.Dstore.Mem.Invariant.{IsConsistent, is_some}
use keys.Dstore.Mem.Listing.{
  is_listed, no_data_copy, list_loop, list_prefix, from_index, up_to_limit, list,
}

-- The paths that a test keeps.
filter : (Str → Bool) → List Str → List Str
filter test [] = []
filter test (p ∷ ps) = if test p then p ∷ filter test ps else filter test ps

mem-filter :
    (test : Str → Bool) (k : Str) (ps : List Str) → mem k (filter test ps) ≡ (mem k ps && test k)
unfolding filter mem
mem-filter test k [] = refl
mem-filter test k (p ∷ ps) = ground (arith, mem-filter test k ps, str_eq_iff p k)

All-filter :
    (test : Str → Bool) (r : Str) (ps : List Str)
    → All (λ t. str_ltb r t ≡ true) ps
    → All (λ t. str_ltb r t ≡ true) (filter test ps)
unfolding filter
All-filter test r [] _ = tt
All-filter test r (p ∷ ps) (h, hs) = ground (arith, All-filter test r ps hs)

filter-IsSorted : (test : Str → Bool) (ps : List Str) → IsSorted ps → IsSorted (filter test ps)
unfolding filter
filter-IsSorted test [] _ = tt
filter-IsSorted test (p ∷ ps) (h, hs) =
    ground (arith, filter-IsSorted test ps hs, All-filter test p ps h)

-- A document as a listing shows it: one that the store holds at its path, with its values, or
-- without them where no data is asked for.
pub record IsShown (m : Mem) (no_data : Bool) (shown : Document) : Type 0 where
  pub doc : Document
  pub held : document m shown.doc_path ≡ some doc
  pub same_path : shown.doc_path ≡ doc.doc_path
  pub same_values : shown.values ≡ (if no_data then none else doc.values)
  pub same_created : shown.created_at ≡ doc.created_at
  pub same_updated : shown.updated_at ≡ doc.updated_at

module _ {m : Mem} (c : IsConsistent m) (listed : Str → Bool) (no_data : Bool) where
  shows :
      (p : Str) (d : Document)
      → document m p ≡ some d
      → IsShown m no_data (if no_data then no_data_copy d else d)
  unfolding no_data_copy
  shows p d found = elim (Bool-cases no_data) [
    | inl e ↦ rw e (record {
      doc = d;
      held = at_own_path;
      same_path = refl;
      same_values = refl;
      same_created = refl;
      same_updated = refl;
    })
    | inr e ↦ rw e (record {
      doc = d;
      held = at_own_path;
      same_path = refl;
      same_values = refl;
      same_created = refl;
      same_updated = refl;
    })
  ]
    where
      at_own_path : document m d.doc_path ≡ some d
      at_own_path = ap (document m) (c.named p d found).0 ∙ found

  -- The loop finds a document at each path, so it does not fail, and shows them in the order of the
  -- paths.
  list_loop_lem :
      (ps : List Str)
      → ((k : Str) → mem k ps ≡ true → is_some (document m k) ≡ true)
      → (docs : List Document) × (list_loop m listed no_data ps ≡ ok docs)
        × (paths_of docs ≡ filter listed ps)
        × All (IsShown m no_data) docs
  unfolding list_loop paths_of filter no_data_copy
  list_loop_lem [] h = ([], refl, refl, tt)
  list_loop_lem (p ∷ ps) h =
      let (docs, e, n, all) = list_loop_lem ps (λ k e. h k (unfold mem in ground (arith, e))) in
      elim (Bool-cases (listed p)) [
        | inr skip ↦ (docs, ground (arith, skip, e), ground (arith, skip, n), all)
        | inl keep ↦ elim (Option-cases (document m p)) [
          | inl missing ↦ absurd (
              false≢true
                (ap is_some (sym missing) ∙ h p (unfold mem in ground (arith, str_eq_iff p p))))
          | inr (d, found) ↦ (
            (if no_data then no_data_copy d else d) ∷ docs,
            ground (arith, keep, found, e),
            ground (arith, keep, n, c.named p d found),
            (shows p d found, all),
          )
        ]
      ]

-- A listing, without an index or a limit, of a consistent store below a parent other than the root
-- succeeds, and returns, in increasing order of their paths, exactly the documents below the parent
-- whose path has the prefix asked for, each with its times, and with its values, or with none where
-- no data is asked for.
pub list_lem :
    (m : Mem) (parent : Str) (opts : List ListOption)
    → IsConsistent m
    → path_of (parent ∷ []) ≢ codes "/"
    → (new_options opts).index ≡ pos 0
    → (new_options opts).limit ≡ pos 0
    → (docs : List Document) × (list m parent opts ≡ ok docs)
      × IsSorted (paths_of docs)
      × ((k : Str)
          → mem k (paths_of docs) ≡ (
              is_some (document m k)
              && is_listed
                  (path_of (parent ∷ []))
                  (list_prefix (path_of (parent ∷ [])) (new_options opts).prefix)
                  k))
      × All (IsShown m (new_options opts).no_data) docs
unfolding list from_index up_to_limit
list_lem m parent opts c not_root no_index no_limit =
    let (sorted, members) = sorted_lem c.valid in
    let listed =
      is_listed (path_of (parent ∷ []))
        (list_prefix (path_of (parent ∷ [])) (new_options opts).prefix) in
    let (docs, e, n, all) =
      list_loop_lem c listed (new_options opts).no_data (StringSet.sorted m.paths)
        (λ k h. sym (c.agree k) ∙ sym (members k) ∙ h) in
    (
      docs,
      rw (list, str_eq_ne _ _ not_root, e, no_index, no_limit),
      rw n (filter-IsSorted listed _ sorted),
      λ k. rw (n, mem-filter, members k, c.agree k),
      all,
    )
