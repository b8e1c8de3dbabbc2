-- ===== src/Dstore/StringSet/Laws.antt =====
-- dstore/set.go: the map and the list of a set agree, and the operations are those of a set.
use keys.Common.{
  ◌+◌, [], ◌∷◌, true, false, ◌||◌, Str, str_eq, str_eq_iff, length-append, if◌then◌else◌, ◌≡◌, refl,
  arith,
}
use keys.Common.Assoc
use keys.Common.Assoc.{lookup-insert, lookup-erase}
use keys.Common.Sort.{
  mem, IsNodup, mem-append, mem-without, IsNodup-append, IsNodup-without, IsSorted, sort-IsSorted,
  mem-sort,
}
use keys.Dstore.StringSet.{StringSet, new_string_set, contains, add, remove, size, sorted}

-- The list has each string of the map once.
pub record IsValid (s : StringSet) : Type 0 where
  pub agree : (k : Str) → contains s k ≡ mem k s.strs
  pub nodup : IsNodup s.strs

pub new_string_set-IsValid : IsValid (new_string_set [])
unfolding new_string_set contains mem Assoc.lookup
new_string_set-IsValid = record { agree = λ k. refl; nodup = tt }

-- Adding a string adds that one and no other.
pub contains-add : (s : StringSet) (k j : Str) → contains (add s k) j ≡ (str_eq k j || contains s j)
unfolding add contains
contains-add s k j = ground (arith, lookup-insert k j true s.strs_map, str_eq_iff k j)

pub contains-remove :
    (s : StringSet) (k j : Str)
    → contains (remove s k) j ≡ (if str_eq k j then false else contains s j)
unfolding remove contains
contains-remove s k j = ground (arith, lookup-erase k j s.strs_map)

module _ {s : StringSet} (v : IsValid s) where
  mem-add : (k j : Str) → mem j (add s k).strs ≡ (str_eq k j || mem j s.strs)
  unfolding add mem
  mem-add k j = ground (arith, v.agree k, mem-append j s.strs (k ∷ []), str_eq_iff k j)

  add-IsNodup : (k : Str) → IsNodup (add s k).strs
  unfolding add
  add-IsNodup k = ground (arith, v.agree k, v.nodup, IsNodup-append s.strs k v.nodup)

  pub add-IsValid : (k : Str) → IsValid (add s k)
  add-IsValid k = record {
    agree = λ j. ground (arith, contains-add s k j, mem-add k j, v.agree j);
    nodup = add-IsNodup k;
  }

  -- Removing a string keeps a set valid: the list of a valid set has exactly the strings of its
  -- map, each once.
  pub remove-IsValid : (k : Str) → IsValid (remove s k)
  remove-IsValid k = record {
    agree = λ j.
        unfold remove in ground (arith, contains-remove s k j, mem-without k j s.strs, v.agree j);
    nodup = unfold remove in IsNodup-without k s.strs v.nodup;
  }

  -- The sorted strings of a valid set are in strictly increasing order, and exactly those that the
  -- set contains.
  pub sorted_lem : IsSorted (sorted s) × ((k : Str) → mem k (sorted s) ≡ contains s k)
  unfolding sorted
  sorted_lem = (sort-IsSorted s.strs v.nodup, λ k. ground (arith, mem-sort k s.strs, v.agree k))

  -- The size grows by one exactly when the string is new.
  pub size-add : (k : Str) → size (add s k) ≡ (if contains s k then size s else size s + 1)
  unfolding size add
  size-add k = ground (arith, length-append s.strs (k ∷ []))
