-- ===== src/Dstore/PartExamples.antt =====
-- dstore: concrete paths, sets, documents and iterators.
use keys.Common.{[], ◌∷◌, none, codes, ◌≡◌, refl}
use keys.Common.Split.{split, join}
use keys.Tsutil.{zero_time}
use keys.Dstore.Path.{non_empty, expand, to_string, path_of}
use keys.Dstore.Path.Laws.{path_of-injective}
use keys.Dstore.StringSet.{StringSet, new_string_set, add, remove}
use keys.Dstore.StringSet.Laws.{IsValid, new_string_set-IsValid, add-IsValid, remove-IsValid}
use keys.Dstore.Document.{Document}

same_components : expand (codes "a//b" ∷ codes "/c/" ∷ []) ≡ expand (codes "/a/b/c" ∷ [])
unfolding path_of to_string expand non_empty split join
same_components = path_of-injective (codes "a//b" ∷ codes "/c/" ∷ []) (codes "/a/b/c" ∷ []) refl

abbrev two : StringSet
two = add (add (new_string_set []) (codes "b")) (codes "a")

two-IsValid : IsValid two
two-IsValid = add-IsValid (add-IsValid new_string_set-IsValid (codes "b")) (codes "a")

two-without_b : IsValid (remove two (codes "b"))
two-without_b = remove-IsValid two-IsValid (codes "b")

abbrev alice : Document
alice = record {
  doc_path = codes "/user/alice";
  values = none;
  created_at = zero_time;
  updated_at = zero_time;
}
