-- ===== src/Common/Indices.antt =====
-- Where the elements of a list stand: its indices and its last element.
use Prim.Native.Nat.{ℕ, zero, suc, ◌<◌}
use mathlib.Core.Path.{◌≡◌, refl, ap}
use mathlib.Core.Logic.{◌⊎◌, inl, inr}
use mathlib.Core.List.{List, [], ◌∷◌, ◌++◌}
use mathlib.Core.Option.{none, some}
use native.Mathlib.Omega.{arith}
use keys.Common.Lists.{length, get_elem?, get_last?}

pub get_last?-get_elem? :
    {A : Type 0} (xs : List A) (x : A)
    → get_last? xs ≡ some x
    → (n : ℕ) × (length xs ≡ suc n) × (get_elem? xs n ≡ some x)
get_last?-get_elem? [] x h = cc
get_last?-get_elem? (y ∷ []) x h = (0, refl, h)
get_last?-get_elem? (y ∷ z ∷ zs) x h =
    let (n, l, e) = get_last?-get_elem? (z ∷ zs) x h in (suc n, ap suc l, e)

pub get_last?-none : {A : Type 0} (xs : List A) → get_last? xs ≡ none → length xs ≡ 0
get_last?-none [] h = refl
get_last?-none (y ∷ []) h = cc
get_last?-none (y ∷ z ∷ zs) h = absurd (cc (get_last?-none (z ∷ zs) h))

pub get_last?-length_zero : {A : Type 0} (xs : List A) → length xs ≡ 0 → get_last? xs ≡ none
get_last?-length_zero [] h = refl
get_last?-length_zero (y ∷ ys) h = absurd (omega arith)

pub get_last?-get_elem?_last :
    {A : Type 0} (xs : List A) (n : ℕ) (x : A)
    → length xs ≡ suc n
    → get_elem? xs n ≡ some x
    → get_last? xs ≡ some x
get_last?-get_elem?_last [] n x l h = cc
get_last?-get_elem?_last (y ∷ []) zero x l h = h
get_last?-get_elem?_last (y ∷ []) (suc n) x l h = absurd (omega arith)
get_last?-get_elem?_last (y ∷ z ∷ zs) zero x l h = absurd (omega arith)
get_last?-get_elem?_last (y ∷ z ∷ zs) (suc n) x l h =
    get_last?-get_elem?_last (z ∷ zs) n x (omega arith) h

-- An element of a list with one more is one of the list, or the last.
pub get_elem?-append_cases :
    {A : Type 0} (xs : List A) (x y : A) (i : ℕ)
    → get_elem? (xs ++ x ∷ []) i ≡ some y
    → ((i < length xs) × (get_elem? xs i ≡ some y)) ⊎ ((i ≡ length xs) × (y ≡ x))
get_elem?-append_cases [] x y zero h = inr (refl, ground arith)
get_elem?-append_cases [] x y (suc i) h = cc
get_elem?-append_cases (z ∷ xs) x y zero h = inl (omega arith, h)
get_elem?-append_cases (z ∷ xs) x y (suc i) h = elim (get_elem?-append_cases xs x y i h) [
  | inl (l, e) ↦ inl (omega arith, e)
  | inr (l, e) ↦ inr (ap suc l, e)
]

pub get_elem?-lt-length :
    {A : Type 0} (xs : List A) (i : ℕ) (x : A) → get_elem? xs i ≡ some x → i < length xs
get_elem?-lt-length [] i x h = cc
get_elem?-lt-length (y ∷ ys) zero x h = omega arith
get_elem?-lt-length (y ∷ ys) (suc i) x h = omega (arith, get_elem?-lt-length ys i x h)

pub get_elem?-of_lt :
    {A : Type 0} (xs : List A) (i : ℕ) → i < length xs → (x : A) × (get_elem? xs i ≡ some x)
get_elem?-of_lt [] i h = absurd (omega arith)
get_elem?-of_lt (y ∷ ys) zero h = (y, refl)
get_elem?-of_lt (y ∷ ys) (suc i) h = get_elem?-of_lt ys i (omega arith)
