-- ===== src/Dstore/Iterator.antt =====
-- dstore/iterator.go: an iterator over a slice of documents or collections.
use native.Mathlib.Numerals.{add-one}
use keys.Common.{
  ℕ, zero, suc, ◌+◌, ◌≤◌, ◌<◌, List, [], ◌∷◌, ◌++◌, Option, none, some, length, get_elem?, drop,
  leb, if◌then◌else◌, ◌≡◌, refl, arith, append-nil, append_assoc, false, Bool-cases, inl, inr,
}

-- `docs` is nil after a release, which reads as the empty slice.
pub record Iterator (A : Type 0) : Type 0 where
  pub docs : List A
  pub index : ℕ

unfoldable pub new_iterator : {A : Type 0} → List A → Iterator A
new_iterator docs = record { docs = docs; index = 0 }

-- `none` is the nil document at the end.
unfoldable pub next : {A : Type 0} → Iterator A → Option A × Iterator A
next i =
    if leb (length i.docs) i.index
    then (none, i)
    else (get_elem? i.docs i.index, record i { index = i.index + 1 })

unfoldable pub release : {A : Type 0} → Iterator A → Iterator A
release i = record i { docs = [] }

-- `for { doc := iter.Next(); if doc == nil { break }; out = append(out, doc) }`, for at most `fuel`
-- rounds; `none` means that the rounds ran out.
unfoldable pub drain : {A : Type 0} → ℕ → Iterator A → List A → Option (List A)
drain zero i out = none
drain (suc fuel) i out = elim (next i).0 [
  | none ↦ some out
  | some d ↦ drain fuel (next i).1 (out ++ d ∷ [])
]

module _ {A : Type 0} where
  drop-get_elem? :
      (xs : List A) (n : ℕ)
      → n < length xs
      → (x : A) × (get_elem? xs n ≡ some x) × (drop n xs ≡ x ∷ drop (n + 1) xs)
  drop-get_elem? [] n h = absurd (omega arith)
  drop-get_elem? (x ∷ xs) zero h = (x, refl, refl)
  drop-get_elem? (x ∷ xs) (suc n) h = rw add-one (rw add-one at (drop-get_elem? xs n (omega arith)))

  drop-length : (xs : List A) (n : ℕ) → length xs ≤ n → drop n xs ≡ []
  drop-length [] zero h = refl
  drop-length [] (suc n) h = refl
  drop-length (x ∷ xs) zero h = absurd (omega arith)
  drop-length (x ∷ xs) (suc n) h = drop-length xs n (omega arith)

  drain-drop :
      (fuel : ℕ) (docs : List A) (index : ℕ) (out : List A)
      → length docs < fuel + index
      → 0 < fuel
      → drain fuel (record { docs = docs; index = index }) out ≡ some (out ++ drop index docs)
  unfolding drain next
  drain-drop zero docs index out h k = absurd (omega arith)
  drain-drop (suc fuel) docs index out h k = elim (Bool-cases (leb (length docs) index)) [
    | inl over ↦ ground (arith, drop-length docs index, append-nil out)
    | inr more ↦
        step more (drop-get_elem? docs index (ground arith))
          (λ x. drain-drop fuel docs (index + 1) (out ++ x ∷ []) (omega arith) (ground arith))
  ]
    where
      step :
          leb (length docs) index ≡ false
          → ((x : A) × (get_elem? docs index ≡ some x)
              × (drop index docs ≡ x ∷ drop (index + 1) docs))
          → ((x : A)
              → drain fuel (record { docs = docs; index = index + 1 }) (out ++ x ∷ [])
                ≡ some ((out ++ x ∷ []) ++ drop (index + 1) docs))
          → drain (suc fuel) (record { docs = docs; index = index }) out
            ≡ some (out ++ drop index docs)
      step more (x, found, rest) ih =
          ground (arith, more, found, rest, ih x, append_assoc out (x ∷ []) (drop (index + 1) docs))

-- Reading a new iterator until it is at its end takes one round more than there are elements, and
-- gives these in order.
pub drain-new_iterator :
    {A : Type 0} (docs : List A) → drain (length docs + 1) (new_iterator docs) [] ≡ some docs
unfolding new_iterator
drain-new_iterator docs = drain-drop (length docs + 1) docs 0 [] (omega arith) (omega arith)
