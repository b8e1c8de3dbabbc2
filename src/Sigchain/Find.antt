-- ===== src/Sigchain/Find.antt =====
-- sigchain.go: what is revoked, and what the searches of a chain find.
use mathlib.Core.List.{reverse_aux}
use keys.Common.{
  List, [], ◌∷◌, Option, none, some, false, not, ◌||◌, ◌&&◌, Str, str_eq, str_eq_ne, get_last?,
  get_last?-none, if◌then◌else◌, ok, Result-cases, Option-cases, ◌≡◌, ◌≢◌, inl, inr, refl, arith,
  ◌∙◌,
}
use keys.Common.Int.{ℤ, pos, negsuc, int_eq, int_ltb}
use keys.Crypto.{Crypto}
use keys.EdX25519
use keys.Statement
use keys.Statement.{Statement}
use keys.Sigchain.{
  Sigchain, statement_error, last, is_revoked, append, check_add, add, new_revoke_statement,
  revoke_statement, previous_hash, find_last, find_last_in,
}
use keys.Sigchain.Create.{map_err-eq-ok, revoke_draft}
use keys.Sigchain.Revokes.{lookup_revoke-insert_revoke}

-- Adding a statement revokes what it names, and nothing else.
pub is_revoked-append :
    (s : Sigchain) (st : Statement) (n : ℤ)
    → is_revoked (append s st) n
      ≡ ((not (int_eq st.revoke (pos 0)) && int_eq st.revoke n) || is_revoked s n)
unfolding is_revoked append
is_revoked-append s st n = ground (arith, lookup_revoke-insert_revoke st.revoke n st s.revokes)

at_least_one : (n : ℤ) → int_ltb n (pos 1) ≡ false → int_eq n (pos 0) ≡ false
at_least_one (pos n) h = ground arith
at_least_one (negsuc n) h = refl

module _ (c : Crypto) where
  revoke-sign :
      (st signed : Statement) (sk : EdX25519.Key)
      → Statement.sign c st sk ≡ ok signed
      → signed.revoke ≡ st.revoke
  unfolding Statement.sign
  revoke-sign st signed sk h = ground arith

  revoke-new_revoke_statement :
      (s : Sigchain) (n : ℤ) (sk : EdX25519.Key) (st : Statement)
      → new_revoke_statement c s n sk ≡ ok st
      → (st.revoke ≡ n) × (int_eq n (pos 0) ≡ false)
  unfolding new_revoke_statement
  revoke-new_revoke_statement s n sk st h = elim (Result-cases (previous_hash c (last s))) [
    | inr (x, e) ↦ ground (arith, e)
    | inl (prev, e) ↦
        (let signed : Statement.sign c (revoke_draft s n prev) sk ≡ ok st =
            map_err-eq-ok statement_error (Statement.sign c (revoke_draft s n prev) sk)
              (ground (arith, e)) in
          (revoke-sign (revoke_draft s n prev) st sk signed, at_least_one n (ground (arith, e))))
  ]

  -- Where `Revoke` succeeds, the chain gives the number asked for as revoked, and all others as
  -- before.
  pub is_revoked-revoke_statement :
      (s : Sigchain) (n m : ℤ) (sk : EdX25519.Key) (st : Statement)
      → (revoke_statement c s n sk).0 ≡ ok st
      → is_revoked (revoke_statement c s n sk).1 m ≡ (int_eq n m || is_revoked s m)
  unfolding revoke_statement add
  is_revoked-revoke_statement s n m sk st h = elim (Result-cases (new_revoke_statement c s n sk)) [
    | inr (x, e) ↦ ground (arith, e)
    | inl (new, e) ↦
        (let (r, nonzero) = revoke-new_revoke_statement s n sk new e in
          elim (Result-cases (check_add c s new)) [
            | inr (x, f) ↦ ground (arith, e, f)
            | inl (_, f) ↦
                rw (revoke_statement, e, add, f, add, f)
                  ((is_revoked-append s new m ∙ rw (r, nonzero)))
          ])
  ]

-- The statements of a type, in order.
unfoldable pub of_type : Str → List Statement → List Statement
of_type typ [] = []
of_type typ (st ∷ sts) = if str_eq st.typ typ then st ∷ of_type typ sts else of_type typ sts

-- A statement where it is not revoked.
unfoldable pub unless_revoked : Sigchain → Statement → Option Statement
unless_revoked s st = if is_revoked s st.seq then none else some st

get_last?-cons :
    {A : Type 0} (x : A) (xs : List A)
    → get_last? (x ∷ xs) ≡ elim (get_last? xs) [ none ↦ some x | some y ↦ some y ]
get_last?-cons x [] = refl
get_last?-cons x (y ∷ []) = refl
get_last?-cons x (y ∷ z ∷ zs) = elim (Option-cases (get_last? (z ∷ zs))) [
  | inl e ↦ absurd (omega (arith, get_last?-none (z ∷ zs) e))
  | inr (w, e) ↦ rw e
]

find_last_in-reverse_aux :
    (s : Sigchain) (typ : Str) (xs r : List Statement)
    → typ ≢ []
    → find_last_in s typ (reverse_aux xs r) ≡ elim (get_last? (of_type typ xs)) [
      | none ↦ find_last_in s typ r
      | some st ↦ unless_revoked s st
    ]
unfolding find_last_in of_type unless_revoked
find_last_in-reverse_aux s typ [] r h = refl
find_last_in-reverse_aux s typ (x ∷ xs) r h =
    find_last_in-reverse_aux s typ xs (x ∷ r) h
    ∙ ground (arith, str_eq_ne typ [] h, get_last?-cons x (of_type typ xs))

find_last_in-untyped :
    (s : Sigchain) (xs r : List Statement)
    → find_last_in s [] (reverse_aux xs r)
      ≡ elim (get_last? xs) [ none ↦ find_last_in s [] r | some st ↦ some st ]
unfolding find_last_in str_eq
find_last_in-untyped s [] r = refl
find_last_in-untyped s (x ∷ xs) r =
    find_last_in-untyped s xs (x ∷ r) ∙ ground (arith, get_last?-cons x xs)

elim_self : {A : Type 0} (o : Option A) → elim o [ none ↦ none | some a ↦ some a ] ≡ o
elim_self none = refl
elim_self (some a) = refl

-- `FindLast` of a type that is not empty finds the last statement of that type, and nothing where
-- that one is revoked, although there may be one before it that is not.
pub find_last_lem :
    (s : Sigchain) (typ : Str)
    → typ ≢ []
    → find_last s typ
      ≡ elim (get_last? (of_type typ s.statements)) [ none ↦ none | some st ↦ unless_revoked s st ]
unfolding find_last find_last_in
find_last_lem s typ h = find_last_in-reverse_aux s typ s.statements [] h

-- `FindLast` of no type finds the last statement, revoked or not.
pub find_last_untyped : (s : Sigchain) → find_last s [] ≡ last s
unfolding find_last last find_last_in
find_last_untyped s = find_last_in-untyped s s.statements [] ∙ elim_self (last s)
