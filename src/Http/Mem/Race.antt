-- ===== src/Http/Mem/Race.antt =====
-- http/mem.go: two calls of `NonceCheck` at the same time, whose calls of `Get`, `Set` and `Expire`
-- take the lock one by one.
use keys.Common.{
  [], none, true, false, Str, str_eq, codes, if◌then◌else◌, ok, err, ◌≡◌, refl, arith, ap, sym,
  Bool-cases, Result-cases, inl, inr,
}
use keys.Common.Assoc
use keys.Http.Mem.{Mem, find, get, set, expire_after, hour, nonce_check}
use keys.Http.Mem.Nonce.{find-set}

-- How far a call has come; `crashed` is the panic on a nil entry.
pub data Phase : Type 0 where
  begun read stored passed refused crashed : Phase

-- The next of the three calls of a check of a nonce.
unfoldable pub advance : Str → Mem → Phase → Phase × Mem
advance nonce m begun = (if str_eq (get m nonce).0 [] then read else refused, (get m nonce).1)
advance nonce m read = (stored, set m nonce (codes "1"))
advance nonce m stored = elim (expire_after m nonce hour).0 [
  | err _ ↦ (crashed, (expire_after m nonce hour).1)
  | ok _ ↦ (passed, (expire_after m nonce hour).1)
]
advance nonce m passed = (passed, m)
advance nonce m refused = (refused, m)
advance nonce m crashed = (crashed, m)

-- A store and two calls.
pub record System : Type 0 where
  pub store : Mem
  pub one : Phase
  pub two : Phase

unfoldable pub advance_one : Str → System → System
advance_one nonce s = record s {
  store = (advance nonce s.store s.one).1;
  one = (advance nonce s.store s.one).0;
}

unfoldable pub advance_two : Str → System → System
advance_two nonce s = record s {
  store = (advance nonce s.store s.two).1;
  two = (advance nonce s.store s.two).0;
}

-- Either call takes the lock next.
pub data Step (nonce : Str) (s : System) (t : System) : Type 0 where
  by_one : t ≡ advance_one nonce s → Step nonce s t
  by_two : t ≡ advance_two nonce s → Step nonce s t

pub data Reach (nonce : Str) (s : System) : System → Type 0 where
  here : Reach nonce s s
  next : {t u : System} → Reach nonce s t → Step nonce t u → Reach nonce s u

-- A call alone comes to what `NonceCheck` gives.
unfoldable pub alone : Str → Mem → Phase × Mem
alone nonce m =
    let a = advance nonce m begun in let b = advance nonce a.1 a.0 in advance nonce b.1 b.0

get-new : (m : Mem) (nonce : Str) → Assoc.lookup nonce m.kv ≡ none → get m nonce ≡ ([], m)
unfolding get find
get-new m nonce h = rw (get, find, h) refl

expire_after-set :
    (m : Mem) (nonce : Str) → (expire_after (set m nonce (codes "1")) nonce hour).0 ≡ ok tt
unfolding expire_after
expire_after-set m nonce = rw (expire_after, find-set m nonce (codes "1")) refl

-- The calls after the first, from what that has left.
calls_after : Str → Phase × Mem → Phase × Mem
calls_after nonce (phase, m) = let b = advance nonce m phase in advance nonce b.1 b.0

alone-new :
    (m : Mem) (nonce : Str)
    → str_eq (get m nonce).0 [] ≡ true
    → alone nonce m ≡ advance nonce (set (get m nonce).1 nonce (codes "1")) stored
unfolding alone calls_after advance
alone-new m nonce new =
    ap (calls_after nonce) {y = (read, (get m nonce).1)} (rw (advance, new) refl)

alone-old :
    (m : Mem) (nonce : Str)
    → str_eq (get m nonce).0 [] ≡ false
    → alone nonce m ≡ (refused, (get m nonce).1)
unfolding alone calls_after advance
alone-old m nonce old =
    ap (calls_after nonce) {y = (refused, (get m nonce).1)} (rw (advance, old) refl)

-- Undisturbed, the three calls of a check leave the store that `NonceCheck` leaves, and pass where
-- it passes.
pub alone-nonce_check :
    (m : Mem) (nonce : Str)
    → ((alone nonce m).1 ≡ (nonce_check m nonce).1)
      × ((nonce_check m nonce).0 ≡ ok tt → (alone nonce m).0 ≡ passed)
unfolding advance nonce_check
alone-nonce_check m nonce = elim (Bool-cases (str_eq (get m nonce).0 [])) [
  | inr old ↦ (rw (alone-old m nonce old, nonce_check, old) refl, λ h. ground (arith, old, h))
  | inl new ↦
      elim (Result-cases (expire_after (set (get m nonce).1 nonce (codes "1")) nonce hour).0) [
        | inl (_, e) ↦ (
          rw (alone-new m nonce new, advance, nonce_check, new, e) refl,
          λ h. rw (alone-new m nonce new, advance, e) refl,
        )
        | inr (x, e) ↦ (
          rw (alone-new m nonce new, advance, nonce_check, new, e) refl,
          λ h. ground (arith, new, e, h),
        )
      ]
]

advance-begun :
    (m : Mem) (nonce : Str) → Assoc.lookup nonce m.kv ≡ none → advance nonce m begun ≡ (read, m)
unfolding advance str_eq
advance-begun m nonce h = rw (advance, get-new m nonce h) refl

-- Setting and expiring: a call that has read goes on to pass, whatever the other has done.
after_set : Str → Mem → Mem
after_set nonce m = (expire_after (set m nonce (codes "1")) nonce hour).1

advance-stored :
    (m : Mem) (nonce : Str)
    → advance nonce (set m nonce (codes "1")) stored ≡ (passed, after_set nonce m)
unfolding advance after_set
advance-stored m nonce = rw (advance, expire_after-set m nonce) refl

-- Two calls of `NonceCheck`, for a nonce that the store does not have, whose calls of `Get`, `Set`
-- and `Expire` each take the lock in turn, can come in an order after which both have passed.
pub both_pass :
    (m : Mem) (nonce : Str)
    → Assoc.lookup nonce m.kv ≡ none
    → (t : System) × Reach nonce (record { store = m; one = begun; two = begun }) t
      × (t.one ≡ passed)
      × (t.two ≡ passed)
unfolding advance_one advance_two advance
both_pass m nonce h =
    let new = advance-begun m nonce h in
    let m1 = set m nonce (codes "1") in
    let m2 = after_set nonce m in
    let m3 = set m2 nonce (codes "1") in
    let m4 = after_set nonce m2 in
    let s1 : System = record { store = m; one = read; two = begun } in
    let s2 : System = record { store = m; one = read; two = read } in
    let s3 : System = record { store = m1; one = stored; two = read } in
    let s4 : System = record { store = m2; one = passed; two = read } in
    let s5 : System = record { store = m3; one = passed; two = stored } in
    let s6 : System = record { store = m4; one = passed; two = passed } in
    (
      s6,
      next
          (next
            (next
              (next
                (next
                  (next here
                    (by_one (ap (λ a. record { store = a.1; one = a.0; two = begun }) (sym new))))
                  (by_two (ap (λ a. record { store = a.1; one = read; two = a.0 }) (sym new))))
                (by_one refl))
              (by_one (
                ap (λ a. record { store = a.1; one = a.0; two = read })
                  (sym (advance-stored m nonce)))))
            (by_two refl))
          (by_two (
            ap (λ a. record { store = a.1; one = passed; two = a.0 })
              (sym (advance-stored m2 nonce)))),
      refl,
      refl,
    )
