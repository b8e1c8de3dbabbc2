-- ===== src/Keyring/Items.antt =====
-- keyring/mem.go: the items of a keyring, each once, and how they are found.
use keys.Common.{
  List, [], ◌∷◌, Option, none, some, false, Str, str_eq, str_eq_iff, str_eq_self, str_ltb,
  str_ltb_irrefl, has_prefix, if◌then◌else◌, ◌≡◌, refl, ap, arith, ◌∙◌, Bool-cases, Option-cases,
  inl, inr,
}
use keys.Common.Assoc
use keys.Common.Assoc.{Assoc, lookup-insert, lookup-erase}
use keys.Keyring.{Item, Keyring, set, delete, items_with, insert_item, sort_items}

-- The data of the first item with an identifier.
unfoldable pub find_item : Str → List Item → Option Str
find_item id [] = none
find_item id (i ∷ is) = if str_eq i.id id then some i.data_ else find_item id is

pub find_item-insert_item :
    (id : Str) (i : Item) (is : List Item)
    → find_item id (insert_item i is) ≡ (if str_eq i.id id then some i.data_ else find_item id is)
unfolding find_item insert_item
find_item-insert_item id i [] = refl
find_item-insert_item id i (j ∷ is) = ground (
  arith,
  find_item-insert_item id i is,
  str_eq_iff i.id id,
  str_eq_iff j.id id,
  str_ltb_irrefl id,
)

pub find_item-sort_items :
    (id : Str) (is : List Item) → find_item id (sort_items is) ≡ find_item id is
unfolding find_item sort_items
find_item-sort_items id [] = refl
find_item-sort_items id (i ∷ is) =
    find_item-insert_item id i (sort_items is)
    ∙ ap (λ o. if str_eq i.id id then some i.data_ else o) (find_item-sort_items id is)

-- Items with identifiers, each of them once.
unfoldable pub AreItems : List Item → Type 0
AreItems [] = Unit
AreItems (i ∷ is) = (str_eq i.id [] ≡ false) × (find_item i.id is ≡ none) × AreItems is

pub insert_item-AreItems :
    (i : Item) (is : List Item)
    → str_eq i.id [] ≡ false
    → find_item i.id is ≡ none
    → AreItems is
    → AreItems (insert_item i is)
unfolding insert_item AreItems find_item
insert_item-AreItems i [] n f _ = (n, refl, tt)
insert_item-AreItems i (j ∷ is) n f (jn, jf, h) = elim (Bool-cases (str_ltb j.id i.id)) [
  | inr l ↦ rw (insert_item, l, AreItems) (n, f, (jn, jf, h))
  | inl l ↦
      rw (insert_item, l, AreItems)
        (
          jn,
          rw (find_item-insert_item j.id i is)
              (ground (arith, f, jf, str_eq_iff i.id j.id, str_eq_iff j.id i.id, str_eq_self i.id)),
          insert_item-AreItems i is n (ground (arith, f, str_eq_iff j.id i.id)) h,
        )
]

pub sort_items-AreItems : (is : List Item) → AreItems is → AreItems (sort_items is)
unfolding sort_items AreItems
sort_items-AreItems [] _ = tt
sort_items-AreItems (i ∷ is) (n, f, h) =
    insert_item-AreItems i (sort_items is) n (find_item-sort_items i.id is ∙ f)
      (sort_items-AreItems is h)

-- The entries of a map, under keys that are not empty.
unfoldable pub HaveIds : Assoc Str → Type 0
HaveIds [] = Unit
HaveIds ((id, b) ∷ kvs) = (str_eq id [] ≡ false) × (Assoc.lookup id kvs ≡ none) × HaveIds kvs

pub find_item-items_with :
    (id : Str) (kvs : Assoc Str) → find_item id (items_with [] kvs) ≡ Assoc.lookup id kvs
unfolding find_item items_with has_prefix Assoc.lookup
find_item-items_with id [] = refl
find_item-items_with id ((k, b) ∷ kvs) =
    ap (λ o. if str_eq k id then some b else o) (find_item-items_with id kvs)

pub items_with-AreItems : (kvs : Assoc Str) → HaveIds kvs → AreItems (items_with [] kvs)
unfolding items_with has_prefix AreItems HaveIds
items_with-AreItems [] _ = tt
items_with-AreItems ((k, b) ∷ kvs) (n, f, h) =
    (n, find_item-items_with k kvs ∙ f, items_with-AreItems kvs h)

-- A keyring as its operations keep it.
unfoldable pub IsKeyring : Keyring → Type 0
IsKeyring k = HaveIds k.items

insert-HaveIds :
    (id b : Str) (kvs : Assoc Str)
    → str_eq id [] ≡ false
    → HaveIds kvs
    → HaveIds (Assoc.insert id b kvs)
unfolding HaveIds Assoc.insert Assoc.lookup
insert-HaveIds id b [] n _ = (n, refl, tt)
insert-HaveIds id b ((k, d) ∷ kvs) n (kn, f, h) = elim (Bool-cases (str_eq k id)) [
  | inl e ↦ let same = (str_eq_iff k id).0 e in rw (Assoc.insert, e, HaveIds) (n, (rw same at f), h)
  | inr e ↦
      rw (Assoc.insert, e, HaveIds)
        (
          kn,
          rw (lookup-insert id k b kvs)
              (ground (arith, f, str_eq_iff id k, str_eq_iff k id, str_eq_self k)),
          insert-HaveIds id b kvs n h,
        )
]

erase-HaveIds : (id : Str) (kvs : Assoc Str) → HaveIds kvs → HaveIds (Assoc.erase id kvs)
unfolding HaveIds Assoc.erase Assoc.lookup
erase-HaveIds id [] _ = tt
erase-HaveIds id ((k, d) ∷ kvs) (kn, f, h) = elim (Bool-cases (str_eq k id)) [
  | inl e ↦ rw (Assoc.erase, e) (erase-HaveIds id kvs h)
  | inr e ↦
      rw (Assoc.erase, e, HaveIds)
        (kn, rw (lookup-erase id k kvs) (ground (arith, f)), erase-HaveIds id kvs h)
]

pub set-IsKeyring : (k : Keyring) (id b : Str) → IsKeyring k → IsKeyring (set k id b).1
unfolding IsKeyring set
set-IsKeyring k id b h = elim (Bool-cases (str_eq id [])) [
  | inl e ↦ rw (set, e) h
  | inr e ↦ rw (set, e) (insert-HaveIds id b k.items e h)
]

pub delete-IsKeyring : (k : Keyring) (id : Str) → IsKeyring k → IsKeyring (delete k id).1
unfolding IsKeyring delete
delete-IsKeyring k id h = elim (Bool-cases (str_eq id [])) [
  | inl e ↦ rw (delete, e) h
  | inr e ↦ elim (Option-cases (Assoc.lookup id k.items)) [
    | inl l ↦ rw (delete, e, l) h
    | inr (b, l) ↦ rw (delete, e, l) (erase-HaveIds id k.items h)
  ]
]
