-- ===== src/Users/Entries.antt =====
-- users/users.go: the entries of the index in the document store, each at the path of a collection
-- and a text without slashes.
use keys.Common.{
  List, [], ◌∷◌, Option, none, some, false, Str, str_eq, str_eq_ne, str_eq_self, if◌then◌else◌,
  Result, ok, err, map_err, ◌≡◌, ◌≢◌, refl, sym, ap, arith, ◌∙◌, codes,
}
use keys.Tsutil.{Time}
use keys.Dstore.Path.{path_of, path_components, new_path_from_strings, non_empty, expand}
use keys.Dstore.Path.Laws.{IsComponent, expand_lem, path_components-path_of, path_of-path_of}
use keys.Dstore.Document.{Document, of_data, data_of, get_bytes, get_value, new_document}
use keys.Dstore.Options.{new_set_options}
use keys.Dstore.Mem.{Mem, document, is_odd, check_path, written, now}
use keys.Dstore.Mem.View.{IsDocumentPath, view-set_document, view-delete}
use keys.Common.Split.{split}
use keys.Common.Assoc.{lookup}
use keys.Users.{Error, store_error, set_entry, delete_entry, and_then}

abbrev pub entry_path : Str → Str → Str
entry_path index val = path_of (index ∷ val ∷ [])

expand-entry :
    (index val : Str)
    → IsComponent index
    → IsComponent val
    → expand (index ∷ val ∷ []) ≡ index ∷ val ∷ []
expand-entry index val h k = expand_lem (index ∷ val ∷ []) (h, (k, tt))

components_of_entry :
    (index val : Str)
    → IsComponent index
    → IsComponent val
    → path_components (entry_path index val) ≡ index ∷ val ∷ []
components_of_entry index val h k =
    path_components-path_of (index ∷ val ∷ []) ∙ expand-entry index val h k

pub entry_path-is_odd :
    (index val : Str) → IsComponent index → IsComponent val → is_odd (entry_path index val) ≡ false
unfolding is_odd
entry_path-is_odd index val h k = rw (is_odd, components_of_entry index val h k) refl

components_of_root : path_components (codes "/") ≡ []
unfolding path_components split non_empty new_path_from_strings expand
components_of_root = refl

entry_path-IsDocumentPath :
    (index val : Str) → IsComponent index → IsComponent val → IsDocumentPath (entry_path index val)
unfolding check_path
entry_path-IsDocumentPath index val h k =
    rw (path_of-path_of (index ∷ val ∷ []))
      (ground (arith, entry_path-is_odd index val h k, not_root))
  where
    two_parts : index ∷ val ∷ [] ≡ [] → ⊥
    two_parts e = cc

    not_root : str_eq (entry_path index val) (codes "/") ≡ false
    not_root = str_eq_ne (entry_path index val) (codes "/") λ e.
        two_parts
          (sym (components_of_entry index val h k) ∙ ap path_components e ∙ components_of_root)

-- Different collections, or different texts, are different paths.
pub entry_path-ne :
    (i v j u : Str)
    → IsComponent i
    → IsComponent v
    → IsComponent j
    → IsComponent u
    → i ∷ v ∷ [] ≢ j ∷ u ∷ []
    → str_eq (entry_path i v) (entry_path j u) ≡ false
entry_path-ne i v j u hi hv hj hu ne = str_eq_ne _ _ λ e.
    ne (sym (components_of_entry i v hi hv) ∙ ap path_components e ∙ components_of_entry j u hj hu)

pub entry_path-ne_collection :
    (i v j u : Str)
    → IsComponent i
    → IsComponent v
    → IsComponent j
    → IsComponent u
    → i ≢ j
    → str_eq (entry_path i v) (entry_path j u) ≡ false
entry_path-ne_collection i v j u hi hv hj hu ne =
    entry_path-ne i v j u hi hv hj hu (λ e. ne (ap head e))
  where
    head : List Str → Str
    head [] = []
    head (s ∷ ss) = s

-- The document that holds some bytes.
pub record IsHeld (decode : Str → Option Str) (m : Mem) (path b : Str) : Type 0 where
  pub held_doc : Document
  pub found : document m path ≡ some held_doc
  pub read : data_of decode held_doc ≡ some b

data_of-written :
    (decode : Str → Option Str) (old : Option Document) (path b : Str) (at : Time)
    → data_of decode (written old path (some (of_data b)) false at) ≡ some b
unfolding written data_of get_bytes get_value of_data new_document lookup str_eq
data_of-written decode none path b at = refl
data_of-written decode (some d) path b at = refl

module _ (decode : Str → Option Str) (i v b : Str) (hi : IsComponent i) (hv : IsComponent v)
    (m : Mem) where
  pub set_entry-ok : (set_entry i v b m).0 ≡ ok tt
  unfolding set_entry
  set_entry-ok =
      ap (map_err store_error)
        (view-set_document m (entry_path i v) (entry_path i v) (some (of_data b)) []
          (entry_path-IsDocumentPath i v hi hv)).0

  -- What `Set` leaves at a path, in terms of normal paths.
  document-set_entry :
      (j u : Str)
      → document (set_entry i v b m).1 (entry_path j u) ≡ (
          if str_eq (entry_path i v) (entry_path j u)
          then some (
              written
                (document m (entry_path i v))
                (entry_path i v)
                (some (of_data b))
                false
                (now m).0)
          else document m (entry_path j u))
  unfolding set_entry new_set_options
  document-set_entry j u =
      rw (path_of-path_of (i ∷ v ∷ []), path_of-path_of (j ∷ u ∷ [])) at
        (view-set_document m (entry_path i v) (entry_path j u) (some (of_data b)) []
          (entry_path-IsDocumentPath i v hi hv)).1

  pub set_entry-IsHeld : IsHeld decode (set_entry i v b m).1 (entry_path i v) b
  set_entry-IsHeld = record {
    held_doc = _;
    found = document-set_entry i v ∙ rw (str_eq_self (entry_path i v)) refl;
    read = data_of-written decode (document m (entry_path i v)) (entry_path i v) b (now m).0;
  }

  pub set_entry-kept :
      (j u : Str)
      → str_eq (entry_path i v) (entry_path j u) ≡ false
      → document (set_entry i v b m).1 (entry_path j u) ≡ document m (entry_path j u)
  set_entry-kept j u ne = document-set_entry j u ∙ rw ne refl

document-delete_entry :
    (i v j u : Str) (m : Mem)
    → document (delete_entry i v m) (entry_path j u)
      ≡ (if str_eq (entry_path i v) (entry_path j u) then none else document m (entry_path j u))
unfolding delete_entry
document-delete_entry i v j u m =
    rw (path_of-path_of (i ∷ v ∷ []), path_of-path_of (j ∷ u ∷ [])) at
      (view-delete m (entry_path i v) (entry_path j u)).1

pub delete_entry-kept :
    (i v j u : Str) (m : Mem)
    → str_eq (entry_path i v) (entry_path j u) ≡ false
    → document (delete_entry i v m) (entry_path j u) ≡ document m (entry_path j u)
delete_entry-kept i v j u m ne = document-delete_entry i v j u m ∙ rw ne refl

pub delete_entry-gone :
    (i v : Str) (m : Mem) → document (delete_entry i v m) (entry_path i v) ≡ none
delete_entry-gone i v m = document-delete_entry i v i v m ∙ rw (str_eq_self (entry_path i v)) refl

pub IsHeld-eq :
    {decode : Str → Option Str} {m n : Mem} {path b : Str}
    → document n path ≡ document m path
    → IsHeld decode m path b
    → IsHeld decode n path b
IsHeld-eq e h = record { held_doc = h.held_doc; found = e ∙ h.found; read = h.read }

pub and_then_lem :
    (r : Result Error Unit × Mem) (next : Mem → Result Error Unit × Mem)
    → r.0 ≡ ok tt
    → and_then r next ≡ next r.1
unfolding and_then
and_then_lem (ok _, m) next h = refl
and_then_lem (err e, m) next h = ground arith
