-- ===== src/Sigchains/Stored.antt =====
-- sigchains.go: what is loaded is a valid chain, and what is saved is there.
use keys.Common.{
  ℕ, zero, suc, ◌+◌, ◌<◌, List, [], ◌∷◌, Option, some, true, ◌==◌, Str, str_eq_self, codes, length,
  ok, ◌≡◌, subst, refl, arith, ap, ◌∙◌, Option-cases, Result-cases, Bool-cases, inl, inr,
}
use keys.Common.Int.{pos, int_ltb, max_int}
use keys.Crypto.{Crypto}
use keys.EdX25519.{PublicKey}
use keys.Statement
use keys.Statement.{Statement, statement_id}
use keys.Sigchain
use keys.Sigchain.{Sigchain, new_sigchain}
use keys.Sigchain.Invariant.{IsValid, new_sigchain-IsValid}
use keys.Sigchain.Adding.{add-IsValid, length-add}
use keys.Dstore.Document.{Document}
use keys.Common.Assoc.{Assoc}
use keys.Dstore.Path.{path_of}
use keys.Dstore.Document.{Value}
use keys.Dstore.Options.{SetOption}
use keys.Dstore.Mem.{Mem, set_document, exists, check_path}
use keys.Dstore.Mem.View.{view-set_document, write-invalid}
use keys.Dstore.Mem.Listing.{list}
use keys.Dstore.Options.{with_prefix}
use keys.Common.{get_elem?}
use keys.EdX25519.{public_key_from_id}
use keys.Id.{type_of, KeyType, edx25519, x25519, unknown}
use keys.Dstore.Document.{of_data}
use keys.Sigchain.Create.{map_err-eq-ok}
use keys.Sigchains.{
  statement_path, store_data, index, save_statement, save_statements, save, store_error,
  statement_from_document, load_from, load,
}

-- Where a document was set, there is one.
exists-set_document :
    (m : Mem) (p : Str) (values : Option (Assoc Value)) (opts : List SetOption)
    → (set_document m p values opts).0 ≡ ok tt
    → exists (set_document m p values opts).1 p ≡ true
unfolding exists
exists-set_document m p values opts h = elim (Result-cases (check_path (path_of (p ∷ [])))) [
  | inl (_, k) ↦
      ground (arith, (view-set_document m p p values opts k).1, str_eq_self (path_of (p ∷ [])))
  | inr (e, k) ↦ ground (arith, h, ap (λ r. r.0) (write-invalid m p values opts e k).1)
]

-- Setting a document removes none.
exists-set_document_kept :
    (m : Mem) (p q : Str) (values : Option (Assoc Value)) (opts : List SetOption)
    → exists m q ≡ true
    → exists (set_document m p values opts).1 q ≡ true
unfolding exists
exists-set_document_kept m p q values opts h = elim (Result-cases (check_path (path_of (p ∷ [])))) [
  | inl (_, k) ↦ ground (arith, (view-set_document m p q values opts k).1, h)
  | inr (e, k) ↦ ap (λ r. exists r.1 q) (write-invalid m p values opts e k).1 ∙ h
]

module _ (c : Crypto) (unmarshal : Str → Option Statement) (decode : Str → Option Str)
    (x25519_id : PublicKey → Str) where
  load_from-IsValid :
      (sc : Sigchain) (docs : List Document) (loaded : Sigchain)
      → IsValid c sc
      → length sc.statements + length docs < max_int
      → load_from c unmarshal decode x25519_id sc docs ≡ ok loaded
      → IsValid c loaded
  unfolding load_from
  load_from-IsValid sc [] loaded v fits h =
      let same : sc ≡ loaded = ground arith in subst (IsValid c) same v
  load_from-IsValid sc (doc ∷ docs) loaded v fits h =
      elim (Result-cases (statement_from_document c unmarshal decode x25519_id doc)) [
        | inr (e, f) ↦ ground (arith, f)
        | inl (st, f) ↦ elim (Result-cases (Sigchain.add c sc st).0) [
          | inr (e, g) ↦ ground (arith, f, g)
          | inl (_, g) ↦
              load_from-IsValid (Sigchain.add c sc st).1 docs loaded
                (add-IsValid c sc st v (omega arith)) (omega (arith, length-add c sc st))
                (ground (arith, f, g))
        ]
      ]

  -- A chain that `Sigchain` loads from any store is valid, if the listing of its documents has less
  -- than 2^63 - 1 of them.
  pub load-IsValid :
      (m : Mem) (kid : Str) (docs : List Document) (loaded : Sigchain)
      → list m (codes "sigchain") (with_prefix kid ∷ []) ≡ ok docs
      → length docs < max_int
      → load c unmarshal decode x25519_id m kid ≡ ok loaded
      → IsValid c loaded
  unfolding load new_sigchain
  load-IsValid m kid docs loaded listed fits h =
      load_from-IsValid (new_sigchain kid) docs loaded (new_sigchain-IsValid c kid) (omega arith)
        (ground (arith, listed))

store_data-exists :
    (m : Mem) (p b : Str) → (store_data m p b).0 ≡ ok tt → exists (store_data m p b).1 p ≡ true
unfolding store_data
store_data-exists m p b h =
    exists-set_document m p (some (of_data b)) [] (map_err-eq-ok store_error _ h)

store_data-kept : (m : Mem) (p q b : Str) → exists m q ≡ true → exists (store_data m p b).1 q ≡ true
unfolding store_data
store_data-kept m p q b h = exists-set_document_kept m p q (some (of_data b)) [] h

module _ (c : Crypto) (unmarshal : Str → Option Statement) (decode : Str → Option Str)
    (x25519_id : PublicKey → Str) where
  save_statement-kept :
      (m : Mem) (st : Statement) (q : Str)
      → exists m q ≡ true
      → exists (save_statement c unmarshal decode x25519_id m st).1 q ≡ true
  unfolding save_statement
  save_statement-kept m st q h = elim (Result-cases (Statement.bytes c st)) [
    | inr (e, f) ↦ rw (save_statement, f) h
    | inl (b, f) ↦ elim (Bool-cases (int_ltb st.seq (pos 1))) [
      | inl low ↦ rw (save_statement, f, low) h
      | inr high ↦ elim (Option-cases (statement_id st.kid st.seq)) [
        | inl g ↦ rw (save_statement, f, high, g) h
        | inr (id, g) ↦
            rw (save_statement, f, high, g) (store_data-kept m (statement_path id) q b h)
      ]
    ]
  ]

  save_statement-exists :
      (m : Mem) (st : Statement) (id : Str)
      → statement_id st.kid st.seq ≡ some id
      → (save_statement c unmarshal decode x25519_id m st).0 ≡ ok tt
      → exists (save_statement c unmarshal decode x25519_id m st).1 (statement_path id) ≡ true
  unfolding save_statement
  save_statement-exists m st id g h = elim (Result-cases (Statement.bytes c st)) [
    | inr (e, f) ↦ ground (arith, f)
    | inl (b, f) ↦ elim (Bool-cases (int_ltb st.seq (pos 1))) [
      | inl low ↦ ground (arith, f, low)
      | inr high ↦
          rw (save_statement, f, high, g)
            (store_data-exists m (statement_path id) b (ground (arith, f, high, g)))
    ]
  ]

  save_statements-kept :
      (m : Mem) (sts : List Statement) (q : Str)
      → exists m q ≡ true
      → exists (save_statements c unmarshal decode x25519_id m sts).1 q ≡ true
  unfolding save_statements
  save_statements-kept m [] q h = h
  save_statements-kept m (st ∷ sts) q h =
      let k = save_statement-kept m st q h in
      elim (Result-cases (save_statement c unmarshal decode x25519_id m st).0) [
        | inr (e, f) ↦ rw (save_statements, f) k
        | inl (_, f) ↦
            rw (save_statements, f)
              (save_statements-kept (save_statement c unmarshal decode x25519_id m st).1 sts q k)
      ]

  save_statements-exists :
      (m : Mem) (sts : List Statement) (i : ℕ) (st : Statement) (id : Str)
      → get_elem? sts i ≡ some st
      → statement_id st.kid st.seq ≡ some id
      → (save_statements c unmarshal decode x25519_id m sts).0 ≡ ok tt
      → exists (save_statements c unmarshal decode x25519_id m sts).1 (statement_path id) ≡ true
  unfolding save_statements
  save_statements-exists m [] i st id at g h = cc
  save_statements-exists m (s ∷ sts) zero st id here g h =
      elim (Result-cases (save_statement c unmarshal decode x25519_id m s).0) [
        | inr (e, f) ↦ ground (arith, f)
        | inl (_, f) ↦
            (let same : s ≡ st = ground arith in
              rw (save_statements, f)
                (save_statements-kept (save_statement c unmarshal decode x25519_id m s).1 sts
                  (statement_path id)
                  (save_statement-exists m s id (ap (λ t. statement_id t.kid t.seq) same ∙ g) f)))
      ]
  save_statements-exists m (s ∷ sts) (suc j) st id there g h =
      elim (Result-cases (save_statement c unmarshal decode x25519_id m s).0) [
        | inr (e, f) ↦ ground (arith, f)
        | inl (_, f) ↦
            rw (save_statements, f)
              (save_statements-exists (save_statement c unmarshal decode x25519_id m s).1 sts j st
                id there g (ground (arith, f)))
      ]

  index-kept :
      (m : Mem) (kid q : Str)
      → exists m q ≡ true
      → exists (index c unmarshal decode x25519_id m kid).1 q ≡ true
  unfolding index
  index-kept m kid q h = of_type (type_of kid) refl
    where
      of_type :
          (t : KeyType)
          → type_of kid ≡ t
          → exists (index c unmarshal decode x25519_id m kid).1 q ≡ true
      of_type x25519 e = rw (index, e) h
      of_type unknown e = rw (index, e) h
      of_type edx25519 e = elim (Result-cases (public_key_from_id kid)) [
        | inr (x, f) ↦ rw (index, e, f) h
        | inl (pk, f) ↦ rw (index, e, f) (store_data-kept m _ q kid h)
      ]

  -- Where `Save` of a chain succeeds, there is afterwards a document at the path of each statement
  -- of the chain.
  pub exists-save :
      (m : Mem) (sc : Sigchain) (i : ℕ) (st : Statement) (id : Str)
      → (save c unmarshal decode x25519_id m sc).0 ≡ ok tt
      → get_elem? sc.statements i ≡ some st
      → statement_id st.kid st.seq ≡ some id
      → exists (save c unmarshal decode x25519_id m sc).1 (statement_path id) ≡ true
  unfolding save
  exists-save m sc i st id h at g = elim (Bool-cases (length sc.statements == 0)) [
    | inl none_there ↦ ground (arith, none_there)
    | inr some_there ↦
        elim (Result-cases (save_statements c unmarshal decode x25519_id m sc.statements).0) [
          | inr (e, f) ↦ ground (arith, some_there, f)
          | inl (_, f) ↦
              rw (save, some_there, f)
                (index-kept _ sc.kid (statement_path id)
                  (save_statements-exists m sc.statements i st id at g f))
        ]
  ]
