-- ===== src/Sigchains/Examples.antt =====
-- sigchains.go: the chain of one statement, saved and loaded.
use keys.Common.{
  [], ◌∷◌, ◌++◌, Option, none, some, true, Str, has_prefix, codes, ok, ◌≡◌, refl, arith,
}
use keys.Common.Int.{pos}
use keys.Common.Sort.{sort}
use keys.EdX25519.{PublicKey}
use keys.Id.{type_of, with_seq, pad_15}
use keys.Statement.{Statement, statement_id}
use keys.Sigchain
use keys.Sigchain.{check_add, verify_statement, verify_link, verify_revoke}
use keys.Sigchain.Examples.{toy, kid, first, chain, run_chain}
use keys.Sigchain.Invariant.{IsValid}
use keys.Dstore.StringSet
use keys.Dstore.Document.{Document, of_data, data_of, get_bytes, get_value}
use keys.Dstore.Options.{with_prefix, new_options, new_set_options}
use keys.Dstore.Mem.{Mem, new_mem, exists, set_document}
use keys.Dstore.Mem.Listing.{list, list_loop, list_prefix, is_listed, from_index, up_to_limit}
use keys.Dstore.Examples.{clock, run_write}
use keys.Sigchains.{
  statement_path, store_data, index, save_statement, save_statements, save, statement_from_document,
  load_from, load,
}
use keys.Sigchains.Stored.{exists-save, load-IsValid}
use keys.Tsutil.{unix_nano}

-- Every text is read as the first statement of the chain.
unmarshal : Str → Option Statement
unmarshal b = some first

no_decoding : Str → Option Str
no_decoding s = none

x25519_id : PublicKey → Str
x25519_id pk = codes "kbx1"

saved : (save toy unmarshal no_decoding x25519_id (new_mem clock) chain).0 ≡ ok tt
unfolding run_chain run_write save save_statements save_statement store_data index statement_path
    statement_id with_seq pad_15 type_of of_data new_set_options x25519_id StringSet.contains
saved = refl

exists-save_example :
    exists
      (save toy unmarshal no_decoding x25519_id (new_mem clock) chain).1
      (statement_path (kid ++ codes "-000000000000001"))
    ≡ true
unfolding statement_id with_seq pad_15 run_chain
exists-save_example =
    exists-save toy unmarshal no_decoding x25519_id (new_mem clock) chain 0 first
      (kid ++ codes "-000000000000001") saved refl refl

-- A store with a document of that statement.
abbrev store : Mem
store =
    (set_document (new_mem clock) (codes "sigchain/" ++ kid ++ codes "-000000000000001")
      (some (of_data (codes "{}"))) []).1

abbrev doc : Document
doc = record {
  doc_path = codes "/sigchain/" ++ kid ++ codes "-000000000000001";
  values = some (of_data (codes "{}"));
  created_at = unix_nano (pos 0);
  updated_at = unix_nano (pos 0);
}

listed : list store (codes "sigchain") (with_prefix kid ∷ []) ≡ ok (doc ∷ [])
unfolding run_write list list_loop list_prefix is_listed from_index up_to_limit new_options
    with_prefix has_prefix StringSet.sorted StringSet.contains new_set_options of_data sort
listed = refl

loaded : load toy unmarshal no_decoding x25519_id store kid ≡ ok chain
unfolding run_chain run_write load load_from statement_from_document Sigchain.add check_add
    verify_statement verify_link verify_revoke unmarshal data_of get_bytes get_value of_data list
    list_loop list_prefix is_listed from_index up_to_limit new_options with_prefix has_prefix
    StringSet.sorted StringSet.contains new_set_options sort
loaded = refl

load-IsValid_example : IsValid toy chain
load-IsValid_example =
    load-IsValid toy unmarshal no_decoding x25519_id store kid (doc ∷ []) chain listed (omega arith)
      loaded
