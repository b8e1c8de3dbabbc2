-- ===== src/Http/Mem/Nonce.antt =====
-- http/mem.go: a nonce that was accepted is refused until it expires.
use keys.Common.{
  ℕ, ◌+◌, List, [], ◌∷◌, none, some, false, leb, Str, str_eq, str_eq_iff, str_eq_self, str_eq_ne,
  codes, if◌then◌else◌, ok, err, ◌≡◌, ◌≢◌, refl, arith, ap, ◌∙◌, sym, Option-cases, Bool-cases, inl,
  inr,
}
use keys.Common.Sort.{mem}
use keys.Common.Assoc
use keys.Common.Assoc.{lookup-insert}
use keys.Http.Mem.{
  Mem, Entry, nonce_collision, now, find, put, get, set, expire_after, hour, nonce_check,
}

-- Reading changes no entry.
kv-find : (m : Mem) (k : Str) → (find m k).1.kv ≡ m.kv
unfolding find now
kv-find m k = elim (Option-cases (Assoc.lookup k m.kv)) [
  | inl e ↦ rw (find, e)
  | inr (e, h) ↦ elim (Option-cases e.expire) [
    | inl x ↦ rw (find, h, x)
    | inr (t, x) ↦ rw (find, h, x)
  ]
]

kv-get : (m : Mem) (k : Str) → (get m k).1.kv ≡ m.kv
unfolding get
kv-get m k = kv-find m k

-- The entry that a check leaves at the time `t`.
abbrev pub held : ℕ → Entry
held t = record { value = codes "1"; expire = some (t + hour) }

pub find-set :
    (m : Mem) (k v : Str)
    → find (now (set m k v)).1 k ≡ (some (record { value = v; expire = none }), (now (set m k v)).1)
unfolding find set put now
find-set m k v = rw (find, lookup-insert k k _ m.kv, str_eq_self k)

lookup-put :
    (m : Mem) (k j : Str) (e : Entry)
    → Assoc.lookup j (put m k e).kv ≡ (if str_eq k j then some e else Assoc.lookup j m.kv)
unfolding put
lookup-put m k j e = lookup-insert k j e m.kv

pub lookup-find-set :
    (m : Mem) (k j v : Str)
    → Assoc.lookup j (find (now (set m k v)).1 k).1.kv
      ≡ (if str_eq k j then some (record { value = v; expire = none }) else Assoc.lookup j m.kv)
unfolding now set
lookup-find-set m k j v = ap (Assoc.lookup j) (kv-find _ k) ∙ lookup-put m k j _

-- A check of a nonce without a value stores it until an hour from then, and changes no other entry.
pub nonce_check-fresh :
    (m : Mem) (nonce j : Str)
    → (get m nonce).0 ≡ []
    → ((nonce_check m nonce).0 ≡ ok tt)
      × (Assoc.lookup j (nonce_check m nonce).1.kv
          ≡ (if str_eq nonce j then some (held (now (get m nonce).1).0) else Assoc.lookup j m.kv))
unfolding nonce_check expire_after str_eq set put now
nonce_check-fresh m nonce j h = (
  rw (nonce_check, h, expire_after, find-set (get m nonce).1 nonce (codes "1")),
  rw (nonce_check, h, expire_after, find-set (get m nonce).1 nonce (codes "1"))
      (lookup-put (find (now (set (get m nonce).1 nonce (codes "1"))).1 nonce).1 nonce j
          (held (now (get m nonce).1).0)
        ∙ ground (
          arith,
          lookup-find-set (get m nonce).1 nonce j (codes "1"),
          ap (Assoc.lookup j) (kv-get m nonce),
        )),
)

-- A check of a nonce with a value is refused, and changes no entry.
nonce_check-refused :
    (m : Mem) (nonce j : Str)
    → (get m nonce).0 ≢ []
    → ((nonce_check m nonce).0 ≡ err nonce_collision)
      × (Assoc.lookup j (nonce_check m nonce).1.kv ≡ Assoc.lookup j m.kv)
unfolding nonce_check
nonce_check-refused m nonce j h = (
  rw (nonce_check, str_eq_ne (get m nonce).0 [] h),
  rw (nonce_check, str_eq_ne (get m nonce).0 [] h) (ap (Assoc.lookup j) (kv-get m nonce)),
)

-- What a check finds of a held entry depends on the clock.
get-held :
    (m : Mem) (nonce : Str) (t : ℕ)
    → Assoc.lookup nonce m.kv ≡ some (held t)
    → (get m nonce).0 ≡ (if leb (t + hour) (now m).0 then [] else codes "1")
unfolding get find
get-held m nonce t h = rw (get, find, h) (ground arith)

not_held : [] ≢ codes "1"
not_held h = cc

-- A check of a nonce that was accepted at the time `t` is refused for an hour, and accepted again
-- from then on.
nonce_check-held :
    (m : Mem) (nonce : Str) (t : ℕ)
    → Assoc.lookup nonce m.kv ≡ some (held t)
    → (nonce_check m nonce).0 ≡ (if leb (t + hour) (now m).0 then ok tt else err nonce_collision)
nonce_check-held m nonce t h = elim (Bool-cases (leb (t + hour) (now m).0)) [
  | inl over ↦ rw over (nonce_check-fresh m nonce nonce (get-held m nonce t h ∙ rw over)).0
  | inr early ↦
      rw early
        (nonce_check-refused m nonce nonce
          (λ e. not_held (sym e ∙ (get-held m nonce t h ∙ rw early)))).0
]

-- Checks in any number.
unfoldable pub nonce_check_all : Mem → List Str → Mem
nonce_check_all m [] = m
nonce_check_all m (k ∷ ks) = nonce_check_all (nonce_check m k).1 ks

lookup-nonce_check :
    (m : Mem) (k j : Str)
    → str_eq k j ≡ false
    → Assoc.lookup j (nonce_check m k).1.kv ≡ Assoc.lookup j m.kv
lookup-nonce_check m k j h = elim (Bool-cases (str_eq (get m k).0 [])) [
  | inl fresh ↦ (nonce_check-fresh m k j ((str_eq_iff (get m k).0 []).0 fresh)).1 ∙ rw h
  | inr refused ↦
      (nonce_check-refused m k j (λ e. ground (arith, refused, str_eq_iff (get m k).0 [], e))).1
]

lookup-nonce_check_all :
    (m : Mem) (ks : List Str) (j : Str)
    → mem j ks ≡ false
    → Assoc.lookup j (nonce_check_all m ks).kv ≡ Assoc.lookup j m.kv
unfolding nonce_check_all mem
lookup-nonce_check_all m [] j h = refl
lookup-nonce_check_all m (k ∷ ks) j h =
    lookup-nonce_check_all (nonce_check m k).1 ks j (ground arith)
    ∙ lookup-nonce_check m k j (ground arith)

-- After `NonceCheck` of a nonce without a value, and of other nonces in any number, the nonce is
-- refused as long as the clock stands less than an hour behind the time of the first check, and
-- accepted from then on.
pub nonce_check-nonce_check_all :
    (m : Mem) (nonce : Str) (others : List Str)
    → (get m nonce).0 ≡ []
    → mem nonce others ≡ false
    → let after = nonce_check_all (nonce_check m nonce).1 others in
      (nonce_check after nonce).0
      ≡ (if leb ((now (get m nonce).1).0 + hour) (now after).0 then ok tt else err nonce_collision)
nonce_check-nonce_check_all m nonce others fresh apart =
    nonce_check-held _ nonce (now (get m nonce).1).0 (
      lookup-nonce_check_all (nonce_check m nonce).1 others nonce apart
      ∙ ((nonce_check-fresh m nonce nonce fresh).1 ∙ rw (str_eq_self nonce)))
