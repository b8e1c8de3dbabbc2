-- ===== src/Dstore/Document/Laws.antt =====
-- dstore/document.go: reads after writes.
use keys.Common.{
  [], ◌∷◌, Option, some, Str, str_eq, if◌then◌else◌, ◌≡◌, refl, Option-cases, inl, inr, ap, ◌∙◌,
}
use keys.Common.Assoc
use keys.Common.Assoc.{Assoc, lookup-insert}
use keys.Dstore.Document.{Value, Document, set_value, get_value, set_values}

pub get_value-set_value :
    (d : Document) (k j : Str) (v : Value)
    → get_value (set_value d k v) j ≡ (if str_eq k j then some v else get_value d j)
unfolding get_value set_value Assoc.lookup
get_value-set_value d k j v = elim (Option-cases d.values) [
  | inl e ↦ rw e (lookup-insert k j v [])
  | inr (m, e) ↦ rw e (lookup-insert k j v m)
]

-- The last binding of a name in the written values, if there is one.
unfoldable pub last_value : Str → Assoc Value → Option Value → Option Value
last_value j [] old = old
last_value j ((k, v) ∷ vs) old = last_value j vs (if str_eq k j then some v else old)

-- After a merge of values, a name has the last value that the merge gives it, and its old value if
-- it gives none.
pub get_value-set_values :
    (d : Document) (vs : Assoc Value) (j : Str)
    → get_value (set_values d vs) j ≡ last_value j vs (get_value d j)
unfolding set_values last_value
get_value-set_values d [] j = refl
get_value-set_values d ((k, v) ∷ vs) j =
    get_value-set_values (set_value d k v) vs j ∙ ap (last_value j vs) (get_value-set_value d k j v)

pub doc_path-set_values :
    (d : Document) (vs : Assoc Value) → (set_values d vs).doc_path ≡ d.doc_path
unfolding set_values set_value
doc_path-set_values d [] = refl
doc_path-set_values d ((k, v) ∷ vs) = doc_path-set_values (set_value d k v) vs
