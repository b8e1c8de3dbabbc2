-- ===== src/Common/Sort.antt =====
-- Lists of distinct strings: membership, and `sort.Strings`.
use mathlib.Core.Path.{◌≡◌, refl, ◌∙◌}
use mathlib.Core.Bool.{Bool, true, false, ◌||◌}
use mathlib.Core.List.{List, [], ◌∷◌, ◌++◌}
use native.Mathlib.Omega.{arith}
use keys.Common.Tests.{if◌then◌else◌}
use keys.Common.Lists.{All}
use keys.Common.Text.{Str, str_eq, str_eq_iff, str_ltb, str_ltb_trans, str_ltb_total}

-- The string is in the list.
unfoldable pub mem : Str → List Str → Bool
mem k [] = false
mem k (s ∷ ss) = str_eq s k || mem k ss

-- No string stands twice.
abbrev pub IsNodup : List Str → Type 0
IsNodup [] = Unit
IsNodup (s ∷ ss) = (mem s ss ≡ false) × IsNodup ss

-- The strings of the list but `k`.
unfoldable pub without : Str → List Str → List Str
without k [] = []
without k (s ∷ ss) = let rest = without k ss in if str_eq s k then rest else s ∷ rest

unfoldable pub insert_sorted : Str → List Str → List Str
insert_sorted k [] = k ∷ []
insert_sorted k (s ∷ ss) = if str_ltb s k then s ∷ insert_sorted k ss else k ∷ s ∷ ss

-- `sort.Strings`.
unfoldable pub sort : List Str → List Str
unfolding insert_sorted
sort [] = []
sort (s ∷ ss) = insert_sorted s (sort ss)

pub mem-append : (k : Str) (ss ts : List Str) → mem k (ss ++ ts) ≡ (mem k ss || mem k ts)
unfolding mem
mem-append k [] ts = refl
mem-append k (s ∷ ss) ts = ground (arith, mem-append k ss ts)

pub mem-without :
    (k j : Str) (ss : List Str) → mem j (without k ss) ≡ (if str_eq k j then false else mem j ss)
unfolding mem without
mem-without k j [] = ground arith
mem-without k j (s ∷ ss) =
    ground (arith, mem-without k j ss, str_eq_iff s k, str_eq_iff s j, str_eq_iff k j)

pub mem-insert_sorted :
    (k j : Str) (ss : List Str) → mem j (insert_sorted k ss) ≡ (str_eq k j || mem j ss)
unfolding mem insert_sorted
mem-insert_sorted k j [] = refl
mem-insert_sorted k j (s ∷ ss) = ground (arith, mem-insert_sorted k j ss)

-- Sorting keeps the elements.
pub mem-sort : (k : Str) (ss : List Str) → mem k (sort ss) ≡ mem k ss
unfolding sort mem
mem-sort k [] = refl
mem-sort k (s ∷ ss) = ground (arith, mem-insert_sorted s k (sort ss), mem-sort k ss)

pub IsNodup-append :
    (ss : List Str) (k : Str) → IsNodup ss → mem k ss ≡ false → IsNodup (ss ++ k ∷ [])
unfolding mem
IsNodup-append [] k _ _ = (refl, tt)
IsNodup-append (s ∷ ss) k (h, hs) new = (
  ground (arith, mem-append s ss (k ∷ []), str_eq_iff k s, str_eq_iff s k),
  IsNodup-append ss k hs (ground arith),
)

pub IsNodup-without : (k : Str) (ss : List Str) → IsNodup ss → IsNodup (without k ss)
unfolding without
IsNodup-without k [] _ = tt
IsNodup-without k (s ∷ ss) (h, hs) = ground (arith, IsNodup-without k ss hs, mem-without k s ss)

-- Each string is below all that follow it.
abbrev pub IsSorted : List Str → Type 0
IsSorted [] = Unit
IsSorted (s ∷ ss) = All (λ t. str_ltb s t ≡ true) ss × IsSorted ss

pub All-below :
    (r s : Str) (ss : List Str)
    → str_ltb r s ≡ true
    → All (λ t. str_ltb s t ≡ true) ss
    → All (λ t. str_ltb r t ≡ true) ss
All-below r s [] h _ = tt
All-below r s (t ∷ ss) h (k, ks) = (str_ltb_trans r s t h k, All-below r s ss h ks)

All-insert_sorted :
    (r k : Str) (ss : List Str)
    → str_ltb r k ≡ true
    → All (λ t. str_ltb r t ≡ true) ss
    → All (λ t. str_ltb r t ≡ true) (insert_sorted k ss)
unfolding insert_sorted
All-insert_sorted r k [] h _ = (h, tt)
All-insert_sorted r k (s ∷ ss) h (hs, hss) = ground (arith, All-insert_sorted r k ss h hss)

insert_sorted-IsSorted :
    (k : Str) (ss : List Str) → mem k ss ≡ false → IsSorted ss → IsSorted (insert_sorted k ss)
unfolding insert_sorted mem
insert_sorted-IsSorted k [] _ _ = (tt, tt)
insert_sorted-IsSorted k (s ∷ ss) new (hs, hss) = ground (
  arith,
  insert_sorted-IsSorted k ss,
  All-insert_sorted s k ss,
  All-below k s ss,
  str_ltb_total k s,
  str_eq_iff s k,
)

-- Distinct strings are sorted into strictly increasing order.
pub sort-IsSorted : (ss : List Str) → IsNodup ss → IsSorted (sort ss)
unfolding sort
sort-IsSorted [] _ = tt
sort-IsSorted (s ∷ ss) (h, hs) =
    insert_sorted-IsSorted s (sort ss) (mem-sort s ss ∙ h) (sort-IsSorted ss hs)
