-- ===== src/Address/Canonical.antt =====
-- address.go: the identifiers of an address, in an order that does not depend on the one given.
use keys.Common.{
  List, [], ◌∷◌, none, some, Bool, true, false, Str, str_eq, str_eq_iff, str_eq_self, str_ltb,
  str_ltb_irrefl, str_ltb_total, ok, ◌≡◌, ◌≢◌, refl, sym, ap, ap₂, arith, ◌∙◌, All, Bool-cases,
  Option-cases, Result-cases, inl, inr,
}
use keys.Common.Assoc
use keys.Common.Assoc.{Assoc, lookup-insert}
use keys.Common.Sort.{
  mem, sort, insert_sorted, IsNodup, IsSorted, mem-sort, mem-insert_sorted, sort-IsSorted,
  All-below,
}
use keys.Address.{Address, fill_idmap, new_address, contains, contains_in}

contains_in-mem : (id : Str) (rs : List Str) → contains_in id rs ≡ mem id rs
unfolding contains_in mem
contains_in-mem id [] = refl
contains_in-mem id (r ∷ rs) = ground (arith, contains_in-mem id rs)

-- What the loop takes has no identifier twice, and none of those entered before.
fill_idmap-IsNodup :
    (rs : List Str) (before after : Assoc Bool)
    → ((k : Str) → Assoc.lookup k before ≢ some false)
    → fill_idmap rs before ≡ ok after
    → IsNodup rs × ((k : Str) → mem k rs ≡ true → Assoc.lookup k before ≡ none)
unfolding fill_idmap mem
fill_idmap-IsNodup [] before after set h = (tt, λ k m. ground arith)
fill_idmap-IsNodup (r ∷ rs) before after set h = elim (Option-cases (Assoc.lookup r before)) [
  | inr (true, e) ↦ ground (arith, e)
  | inr (false, e) ↦ absurd (set r e)
  | inl e ↦
      let (nodup, new) =
        fill_idmap-IsNodup rs (Assoc.insert r true before) after
          (λ k. rw (lookup-insert r k true before) (ground (arith, set k))) (ground (arith, e)) in
      (
        (
          elim (Bool-cases (mem r rs)) [
            | inr h ↦ h
            | inl more ↦
                let found = new r more in
                ground (arith, lookup-insert r r true before, str_eq_self r, found)
          ],
          nodup,
        ),
        λ k m. elim (Bool-cases (str_eq r k)) [
          | inl same ↦ ap (λ j. Assoc.lookup j before) (sym ((str_eq_iff r k).0 same)) ∙ e
          | inr other ↦
              let found = new k (ground (arith, other, m)) in
              ground (arith, lookup-insert r k true before, other, found)
        ],
      )
]

mem-below : (r : Str) (ss : List Str) → All (λ t. str_ltb r t ≡ true) ss → mem r ss ≡ false
unfolding mem
mem-below r [] _ = refl
mem-below r (s ∷ ss) (h, hs) = ground (arith, mem-below r ss hs, str_eq_iff s r, str_ltb_irrefl s)

mem-first : (s : Str) (ss : List Str) → mem s (s ∷ ss) ≡ true
unfolding mem
mem-first s ss = rw (str_eq_self s) refl

-- What is in a list in increasing order is not below its first string.
not_below :
    (s t : Str) (ts : List Str)
    → All (λ u. str_ltb t u ≡ true) ts
    → mem s (t ∷ ts) ≡ true
    → str_ltb s t ≡ false
not_below s t ts ht m = elim (Bool-cases (str_ltb s t)) [
  | inr h ↦ h
  | inl h ↦ cc (m, mem-below s (t ∷ ts) (h, All-below s t ts h ht))
]

-- Lists in strictly increasing order with the same strings are the same.
sorted_unique :
    (ss ts : List Str) → IsSorted ss → IsSorted ts → ((k : Str) → mem k ss ≡ mem k ts) → ss ≡ ts
unfolding mem
sorted_unique [] [] _ _ _ = refl
sorted_unique [] (t ∷ ts) _ _ same = ground (arith, same t, str_eq_self t)
sorted_unique (s ∷ ss) [] _ _ same = ground (arith, same s, str_eq_self s)
sorted_unique (s ∷ ss) (t ∷ ts) (hs, hss) (ht, hts) same =
    let first : s ≡ t =
      str_ltb_total s t (not_below s t ts ht (sym (same s) ∙ mem-first s ss))
        (not_below t s ss hs (same t ∙ mem-first t ts)) in
    ap₂ (λ r rs. r ∷ rs) first
      (sorted_unique ss ts hss hts (λ k. ground (
        arith,
        same k,
        first,
        str_eq_iff s k,
        str_eq_iff t k,
        mem-below s ss hs,
        mem-below t ts ht,
      )))

-- The identifiers of an address that `NewAddress` makes.
pub record IsAddress (is : List Str) (a : Address) : Type 0 where
  pub ordered : IsSorted a.ids
  pub same : (k : Str) → contains a k ≡ mem k is

insert_sorted-IsNodup :
    (k : Str) (ss : List Str) → IsNodup (insert_sorted k ss) → (mem k ss ≡ false) × IsNodup ss
unfolding insert_sorted mem
insert_sorted-IsNodup k [] h = (refl, tt)
insert_sorted-IsNodup k (s ∷ ss) h =
    ground
      (arith, insert_sorted-IsNodup k ss, mem-insert_sorted k s ss, str_eq_iff s k, str_eq_iff k s)

sort-IsNodup : (ss : List Str) → IsNodup (sort ss) → IsNodup ss
unfolding sort
sort-IsNodup [] _ = tt
sort-IsNodup (s ∷ ss) h =
    let (new, rest) = insert_sorted-IsNodup s (sort ss) h in
    (sym (mem-sort s ss) ∙ new, sort-IsNodup ss rest)

filled-IsNodup :
    (is : List Str) (idmap : Assoc Bool) → fill_idmap (sort is) [] ≡ ok idmap → IsNodup is
unfolding Assoc.lookup
filled-IsNodup is idmap h =
    sort-IsNodup is (fill_idmap-IsNodup (sort is) [] idmap (λ k e. ground (arith, e)) h).0

-- What `NewAddress` makes of identifiers.
pub new_address-eq-ok :
    (is : List Str) (a : Address)
    → new_address is ≡ ok a
    → IsNodup is × (a.ids ≡ sort is) × (fill_idmap a.ids [] ≡ ok a.idmap)
unfolding new_address
new_address-eq-ok [] a h = ground arith
new_address-eq-ok (i ∷ is) a h = elim (Result-cases (fill_idmap (sort (i ∷ is)) [])) [
  | inr (e, f) ↦ ground (arith, f)
  | inl (idmap, f) ↦
      let made : record { ids = sort (i ∷ is); idmap = idmap } ≡ a = ground (arith, f) in
      let listed = ap (λ b. b.ids) made in
      (
        filled-IsNodup (i ∷ is) idmap f,
        sym listed,
        ap (λ l. fill_idmap l []) (sym listed) ∙ f ∙ ap (λ b. ok b.idmap) made,
      )
]

pub new_address-IsAddress : (is : List Str) (a : Address) → new_address is ≡ ok a → IsAddress is a
unfolding contains
new_address-IsAddress is a h =
    let (nodup, listed, _) = new_address-eq-ok is a h in
    record {
      ordered = rw listed (sort-IsSorted is nodup);
      same = λ k. contains_in-mem k a.ids ∙ ap (mem k) listed ∙ mem-sort k is;
    }

-- Where `NewAddress` succeeds for two lists with the same identifiers, in whatever order, it makes
-- the same address.
pub new_address-same :
    (is js : List Str) (a b : Address)
    → new_address is ≡ ok a
    → new_address js ≡ ok b
    → ((k : Str) → mem k is ≡ mem k js)
    → a ≡ b
new_address-same is js a b h g same =
    let (na, la, ma) = new_address-eq-ok is a h in
    let (nb, lb, mb) = new_address-eq-ok js b g in
    let listed : a.ids ≡ b.ids =
      la
      ∙ sorted_unique (sort is) (sort js) (sort-IsSorted is na) (sort-IsSorted js nb)
          (λ k. mem-sort k is ∙ same k ∙ sym (mem-sort k js))
      ∙ sym lb in
    let mapped : ok a.idmap ≡ ok b.idmap = sym ma ∙ ap (λ l. fill_idmap l []) listed ∙ mb in
    ap₂ (λ l m. record { ids = l; idmap = m }) listed (cc mapped)

pub new_address-ids : (is : List Str) (a : Address) → new_address is ≡ ok a → a.ids ≢ []
unfolding new_address mem
new_address-ids [] a h = ground arith
new_address-ids (i ∷ is) a h = λ e.
    let (_, listed, _) = new_address-eq-ok (i ∷ is) a h in
    cc (mem-sort i (i ∷ is) ∙ mem-first i is, ap (mem i) (sym listed ∙ e))
