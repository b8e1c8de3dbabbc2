-- ===== src/Sigchains.antt =====
-- sigchains.go: sigchains kept in a document store, which is the memory store here. Reading a
-- statement from JSON, the decoding of a value that is a text, and the identifier of the X25519 key
-- of an EdX25519 key are parameters. The clock of a `Sigchains` is not read by any of its methods.
pub mod Stored
mod Examples
use keys.Common.{
  ℕ, List, [], ◌∷◌, ◌++◌, Option, none, some, Bool, true, false, not, ◌==◌, Str, str_eq, codes,
  length, if◌then◌else◌, Result, ok, err, ◌>>=◌, ◌>>◌, fail_if, map_err,
}
use keys.Common.Int.{ℤ, pos, int_ltb}
use keys.Common.Split.{split}
use keys.Crypto.{Crypto}
use keys.EdX25519
use keys.EdX25519.{PublicKey, public_key_from_id}
use keys.Id
use keys.Id.{parse_id, type_of, edx25519, x25519, unknown}
use keys.Id.Set.{IdSet, new_id_set}
use keys.Id.Set
use keys.Statement
use keys.Statement.{Statement, statement_id}
use keys.Sigchain
use keys.Sigchain.{Sigchain, new_sigchain}
use keys.Dstore.Path.{path_of, path_last}
use keys.Dstore.Document.{Document, of_data, data_of, paths_of}
use keys.Dstore.Options.{with_prefix, without_data}
use keys.Dstore.Mem
use keys.Dstore.Mem.{Mem, set_document, delete_all, exists, get}
use keys.Dstore.Mem.Listing.{list}

-- `no_path` is the panic of `WithSeq`, which the test on the sequence number rules out.
pub data Error : Type 0 where
  statement_error : Statement.Error → Error
  chain_error : Sigchain.Error → Error
  store_error : Mem.Error → Error
  id_error : Id.Error → Error
  key_error : EdX25519.Error → Error
  no_statements sequence_missing no_path invalid_statement : Error

-- `dstore.Path("sigchain", StatementID(kid, seq))`.
unfoldable pub statement_path : Str → Str
statement_path id = path_of (codes "sigchain" ∷ id ∷ [])

-- `if err := s.ds.Set(...); err != nil { return err }`.
unfoldable pub store_data : Mem → Str → Str → Result Error Unit × Mem
store_data m path b =
    let s = set_document m path (some (of_data b)) [] in (map_err store_error s.0, s.1)

-- `s.sigchainPaths(kid)`.
unfoldable pub sigchain_paths : Mem → Str → Result Error (List Str)
sigchain_paths m kid = do
  docs ← map_err store_error (list m (codes "sigchain") (with_prefix kid ∷ without_data ∷ []))
  ok (paths_of docs)

-- `s.Delete(kid)`.
unfoldable pub delete_sigchain : Mem → Str → Result Error Bool × Mem
delete_sigchain m kid = elim (sigchain_paths m kid) [
  | err e ↦ (err e, m)
  | ok paths ↦ if length paths == 0 then (ok false, m) else (ok true, delete_all m paths)
]

-- `s.Exists(kid)`, with the path of sequence number 1; `none` is the panic of `StatementID`.
unfoldable pub exists_sigchain : Mem → Str → Option Bool
exists_sigchain m kid = elim (statement_id kid (pos 1)) [
  | none ↦ none
  | some id ↦ some (exists m (statement_path id))
]

-- The loop of `KIDs`: the identifier before the dash of the last component of each path.
unfoldable pub kids_from : List Document → IdSet → Result Error IdSet
kids_from [] ids = ok ids
kids_from (doc ∷ docs) ids =
    elim (parse_id (elim (split (path_last doc.doc_path) b'-') [ [] ↦ [] | s ∷ _ ↦ s ])) [
      | err e ↦ err (id_error e)
      | ok id ↦ kids_from docs (Set.add ids id)
    ]

-- `s.KIDs()`.
unfoldable pub kids : Mem → Result Error (List Str)
kids m = do
  docs ← map_err store_error (list m (codes "sigchain") (without_data ∷ []))
  ids ← kids_from docs (new_id_set [])
  ok ids.ids

module _ (c : Crypto) (unmarshal : Str → Option Statement) (decode : Str → Option Str)
    (x25519_id : PublicKey → Str) where
  -- `s.Index(key)` of an identifier.
  unfoldable pub index : Mem → Str → Result Error Unit × Mem
  index m kid = elim (type_of kid) [
    | edx25519 ↦ elim (public_key_from_id kid) [
      | err e ↦ (err (key_error e), m)
      | ok pk ↦ store_data m (path_of (codes "rkl" ∷ x25519_id pk ∷ [])) kid
    ]
    | x25519 ↦ (ok tt, m)
    | unknown ↦ (ok tt, m)
  ]

  -- What the loop of `Save` does with a statement.
  unfoldable pub save_statement : Mem → Statement → Result Error Unit × Mem
  save_statement m st = elim (Statement.bytes c st) [
    | err e ↦ (err (statement_error e), m)
    | ok b ↦
        if int_ltb st.seq (pos 1)
        then (err sequence_missing, m)
        else elim (statement_id st.kid st.seq) [
          | none ↦ (err no_path, m)
          | some id ↦ store_data m (statement_path id) b
        ]
  ]

  -- The loop of `Save`.
  unfoldable pub save_statements : Mem → List Statement → Result Error Unit × Mem
  save_statements m [] = (ok tt, m)
  save_statements m (st ∷ sts) = elim (save_statement m st).0 [
    | err e ↦ (err e, (save_statement m st).1)
    | ok _ ↦ save_statements (save_statement m st).1 sts
  ]

  -- `s.Save(sc)`.
  unfoldable pub save : Mem → Sigchain → Result Error Unit × Mem
  save m sc =
      if length sc.statements == 0
      then (err no_statements, m)
      else elim (save_statements m sc.statements).0 [
        | err e ↦ (err e, (save_statements m sc.statements).1)
        | ok _ ↦ index (save_statements m sc.statements).1 sc.kid
      ]

  -- `statementFromDocument(doc)`.
  unfoldable pub statement_from_document : Document → Result Error Statement
  statement_from_document doc =
      elim (unmarshal (elim (data_of decode doc) [ none ↦ [] | some b ↦ b ])) [
        | none ↦ err invalid_statement
        | some st ↦ ok st
      ]

  -- The loop of `Sigchain`.
  unfoldable pub load_from : Sigchain → List Document → Result Error Sigchain
  load_from sc [] = ok sc
  load_from sc (doc ∷ docs) = elim (statement_from_document doc) [
    | err e ↦ err e
    | ok st ↦ elim (Sigchain.add c sc st).0 [
      | err e ↦ err (chain_error e)
      | ok _ ↦ load_from (Sigchain.add c sc st).1 docs
    ]
  ]

  -- `s.Sigchain(kid)`.
  unfoldable pub load : Mem → Str → Result Error Sigchain
  load m kid = do
    docs ← map_err store_error (list m (codes "sigchain") (with_prefix kid ∷ []))
    load_from (new_sigchain kid) docs

  -- `s.Lookup(kid)`; the empty text is no key.
  unfoldable pub lookup_key : Mem → Str → Result Error Str
  lookup_key m kid = do
    found ← map_err store_error (get m (path_of (codes "rkl" ∷ kid ∷ [])))
    elim found [
      | none ↦ ok []
      | some doc ↦
          map_err id_error (parse_id (elim (data_of decode doc) [ none ↦ [] | some b ↦ b ]))
    ]
