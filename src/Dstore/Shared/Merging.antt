-- ===== src/Dstore/Shared/Merging.antt =====
-- dstore/document.go: what a merge changes of the maps.
use keys.Common.{
  ℕ, ◌≤◌, ◌<◌, [], ◌∷◌, Option, none, some, Str, str_eq, str_eq_iff, if◌then◌else◌, ◌≡◌, ◌≢◌, ◌⊎◌,
  inl, inr, refl, ap, arith, ◌∙◌, Option-cases,
}
use keys.Common.Assoc
use keys.Common.Assoc.{Assoc, lookup-insert}
use keys.Dstore.Document.{Document, Value, set_value, set_values, get_value}
use keys.Dstore.Shared.{Maps, read, put, set_entry, set_entries}

-- A map has each key once.
unfoldable pub IsMap : Assoc Value → Type 0
IsMap [] = Unit
IsMap ((k, v) ∷ vs) = (Assoc.lookup k vs ≡ none) × IsMap vs

-- The value of a map, or else another.
unfoldable pub or_else : Option Value → Option Value → Option Value
or_else none w = w
or_else (some v) w = some v

get_value-set_value :
    (d : Document) (k : Str) (v : Value) (name : Str)
    → get_value (set_value d k v) name ≡ (if str_eq k name then some v else get_value d name)
unfolding get_value set_value Assoc.lookup
get_value-set_value d k v name = elim (Option-cases d.values) [
  | inl e ↦ rw (get_value, set_value, e) (lookup-insert k name v [])
  | inr (m, e) ↦ rw (get_value, set_value, e) (lookup-insert k name v m)
]

-- A value after a merge.
pub get_value-set_values :
    (d : Document) (vs : Assoc Value) (name : Str)
    → IsMap vs
    → get_value (set_values d vs) name ≡ or_else (Assoc.lookup name vs) (get_value d name)
unfolding set_values IsMap or_else Assoc.lookup
get_value-set_values d [] name _ = refl
get_value-set_values d ((k, v) ∷ vs) name (once, h) =
    get_value-set_values (set_value d k v) vs name h ∙ first
  where
    after : get_value (set_value d k v) name ≡ (if str_eq k name then some v else get_value d name)
    after = get_value-set_value d k v name

    first :
        or_else (Assoc.lookup name vs) (get_value (set_value d k v) name)
        ≡ or_else (Assoc.lookup name ((k, v) ∷ vs)) (get_value d name)
    first = ground (arith, after, once, str_eq_iff k name)

pub set_entries-frame :
    (h : Maps) (a : Option ℕ) (vs : Assoc Value) (b : ℕ)
    → b < h.next
    → a ≢ some b
    → (set_entries h a vs).1.cell b ≡ h.cell b
unfolding set_entries set_entry put
set_entries-frame h a [] b below apart = refl
set_entries-frame h none ((k, v) ∷ vs) b below apart =
    set_entries-frame (set_entry h none k v).1 (some h.next) vs b (omega (arith, below))
      (λ e. ground (arith, e, below))
    ∙ ground (arith, below)
set_entries-frame h (some a) ((k, v) ∷ vs) b below apart =
    set_entries-frame (set_entry h (some a) k v).1 (some a) vs b below apart
    ∙ ground (arith, λ (e : a ≡ b). apart (ap some e))

new_cell : (h : Maps) (k : Str) (v : Value) → (k, v) ∷ [] ≡ (set_entry h none k v).1.cell h.next
unfolding set_entry put
new_cell h k v = ground arith

own_cell :
    (h : Maps) (a : ℕ) (k : Str) (v : Value)
    → Assoc.insert k v (h.cell a) ≡ (set_entry h (some a) k v).1.cell a
unfolding set_entry put
own_cell h a k v = ground arith

pub read-set_entries :
    (d : Document) (h : Maps) (a : Option ℕ) (vs : Assoc Value)
    → set_values (record d { values = read h a }) vs
      ≡ record d { values = read (set_entries h a vs).1 (set_entries h a vs).0 }
unfolding set_values set_value set_entries set_entry read put Assoc.insert
read-set_entries d h a [] = refl
read-set_entries d h none ((k, v) ∷ vs) =
    ap (λ m. set_values (record d { values = some m }) vs) (new_cell h k v)
    ∙ read-set_entries d (set_entry h none k v).1 (some h.next) vs
read-set_entries d h (some a) ((k, v) ∷ vs) =
    ap (λ m. set_values (record d { values = some m }) vs) (own_cell h a k v)
    ∙ read-set_entries d (set_entry h (some a) k v).1 (some a) vs

-- Where the map of a document is after a merge: where it was, or in new space.
pub record IsMoved (h : Maps) (a : Option ℕ) (after : Option ℕ × Maps) : Type 0 where
  pub grows : h.next ≤ after.1.next
  pub there : (c : ℕ) → after.0 ≡ some c → (a ≡ some c) ⊎ ((h.next ≤ c) × (c < after.1.next))

pub set_entries-IsMoved :
    (h : Maps) (a : Option ℕ) (vs : Assoc Value) → IsMoved h a (set_entries h a vs)
unfolding set_entries set_entry put
set_entries-IsMoved h a [] = record { grows = omega arith; there = λ c e. inl e }
set_entries-IsMoved h none ((k, v) ∷ vs) =
    let rest = set_entries-IsMoved (set_entry h none k v).1 (some h.next) vs in
    record {
      grows = omega (arith, rest.grows);
      there = λ c e. elim (rest.there c e) [
        | inl same ↦ inr (ground (arith, same), ground (arith, same, rest.grows))
        | inr (low, high) ↦ inr (omega (arith, low), high)
      ];
    }
set_entries-IsMoved h (some a) ((k, v) ∷ vs) =
    let rest = set_entries-IsMoved (set_entry h (some a) k v).1 (some a) vs in
    record { grows = rest.grows; there = rest.there }
