-- ===== src/Id/Set.antt =====
-- id.go: `IDSet`, a set of identifiers in the order of insertion.
use keys.Common.{
  ℕ, List, [], ◌∷◌, ◌++◌, none, some, Bool, true, false, Str, str_eq_iff, length, if◌then◌else◌,
  ◌≡◌, refl, arith,
}
use keys.Common.Assoc
use keys.Common.Assoc.{Assoc, lookup-insert}
use keys.Common.Sort.{mem, IsNodup, mem-append, IsNodup-append}

pub record IdSet : Type 0 where
  pub keys_map : Assoc Bool
  pub ids : List Str

-- The loop of `newIDSet`.
fill : List Str → IdSet → IdSet
fill [] s = s
fill (v ∷ vs) s =
    fill vs (record { keys_map = Assoc.insert v true s.keys_map; ids = s.ids ++ v ∷ [] })

unfoldable pub new_id_set : List Str → IdSet
unfolding fill
new_id_set ids = fill ids (record { keys_map = []; ids = [] })

unfoldable pub contains : IdSet → Str → Bool
contains s id = elim (Assoc.lookup id s.keys_map) [ none ↦ false | some b ↦ b ]

unfoldable pub add : IdSet → Str → IdSet
add s id =
    if contains s id
    then s
    else record { keys_map = Assoc.insert id true s.keys_map; ids = s.ids ++ id ∷ [] }

unfoldable pub add_all : IdSet → List Str → IdSet
add_all s [] = s
add_all s (id ∷ ids) = add_all (add s id) ids

unfoldable pub clear : IdSet → IdSet
clear s = record { keys_map = []; ids = [] }

unfoldable pub size : IdSet → ℕ
size s = length s.ids

-- The list has each identifier of the map once.
pub record IsIdSet (s : IdSet) : Type 0 where
  pub agree : (k : Str) → contains s k ≡ mem k s.ids
  pub nodup : IsNodup s.ids

pub new_id_set-IsIdSet : IsIdSet (new_id_set [])
unfolding new_id_set contains mem Assoc.lookup
new_id_set-IsIdSet = record { agree = λ k. refl; nodup = tt }

add-IsIdSet : (s : IdSet) → IsIdSet s → (k : Str) → IsIdSet (add s k)
unfolding add contains mem
add-IsIdSet s v k = record {
  agree = λ j. ground (
    arith,
    v.agree k,
    v.agree j,
    lookup-insert k j true s.keys_map,
    mem-append j s.ids (k ∷ []),
    str_eq_iff k j,
  );
  nodup = ground (arith, v.agree k, v.nodup, IsNodup-append s.ids k v.nodup);
}

-- Adding identifiers in any number keeps a set of them valid: the list has exactly the identifiers
-- of the map, each once.
pub add_all-IsIdSet : (s : IdSet) (ids : List Str) → IsIdSet s → IsIdSet (add_all s ids)
unfolding add_all
add_all-IsIdSet s [] v = v
add_all-IsIdSet s (id ∷ ids) v = add_all-IsIdSet (add s id) ids (add-IsIdSet s v id)
