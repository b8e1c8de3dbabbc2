-- ===== src/Users/Examples.antt =====
-- users: the index of a store with one key, whose user is changed, and a search.
use keys.Common.{
  [], ◌∷◌, Option, none, some, false, Str, str_eq, has_prefix, codes, ok, ◌≡◌, refl, arith, ◌≤◌,
  length, if◌then◌else◌,
}
use keys.Common.Int.{pos, minus, saturate, times, wrap}
use keys.Common.Sort.{sort}
use keys.Dstore.StringSet
use keys.Dstore.Document.{of_data, data_of, get_bytes, get_value}
use keys.Dstore.Options.{new_set_options, new_options, with_prefix}
use keys.Dstore.Mem
use keys.Dstore.Mem.{Mem, new_mem, delete}
use keys.Dstore.Mem.Listing.{
  document_iterator, list, list_loop, list_prefix, is_listed, from_index, up_to_limit,
}
use keys.Dstore.Iterator.{new_iterator}
use keys.Dstore.Path.Laws.{IsComponent}
use keys.Common.Assoc
use keys.Dstore.Examples.{clock, run_write}
use keys.EdX25519.{PublicKey}
use keys.Sigchain.{Sigchain, find_last, find_last_in, is_revoked, lookup_revoke}
use keys.Sigchain.Examples.{kid}
use keys.User.Examples.{world, message, bob_statement, run_service}
use keys.User.Examples
use keys.User.User.{find_in_sigchain}
use keys.User.Services.{other_error, requester_of, https_service}
use keys.User.Services.{connection_error}
use keys.User.Services.Requested.{requester_of-IsSoundRequest}
use keys.User.Services.Accepted.{requester_of-IsSoundCheck}
use keys.User.Validate.{https}
use keys.Dstore.Path.Laws.{IsComponent}
use keys.User.Examples.{run_user}
use keys.Users.{search_index}
use keys.Users.{result_of}
use keys.Users.Checked.{IsSoundChoice, IsChecked, check_sigchain-IsChecked}
use keys.Users.Failed.{lookup_user-update_loaded}
use keys.Users.Listing.{iterated}
use keys.Users.Search.{SearchResult, search, search_users, search_docs, limit_of, length-search}
use keys.Users.Update.{Setting, check_sigchain, check_user, start, lookup_requester, update_loaded}
use keys.Statement.{Statement}
use keys.Tsutil.{Time, unix_nano, time_sub, parse_millis}
use keys.User.User.{User, user_id}
use keys.User.Services.{status_ok, status_conn_failure}
use keys.User.Result.{UserResult}
use keys.Users.{
  KeyDocument, KeyJson, index_user_key, index_service_key, and_then, set_entry, delete_entry,
  index_user, unindex_user, is_new_result_different, unindex_result, remove_existing, is_indexed,
  index_result, key_document_from, get_entry, write_index, index, get, lookup_user, kid_index,
}
use keys.Users.UserEntries.{IsIndexable}
use keys.Users.Indexed.{lookup_user-index}
use keys.Users.Replaced.{index-new, lookup_user-replaced}

abbrev alice : User
alice = record {
  name = codes "alice";
  kid = codes "kex1a";
  seq = pos 1;
  service = codes "echo";
  url = [];
}

abbrev bob : User
bob = record alice { name = codes "bob" }

abbrev result_for : User → UserResult
result_for u = record {
  failure = none;
  status = status_ok;
  timestamp = pos 5000;
  user = some u;
  statement = codes "statement";
  proxied = false;
  verified_at = pos 5000;
}

abbrev document_for : User → KeyDocument
document_for u = record { doc_kid = codes "kex1a"; result = some (result_for u) }

-- The texts of the two documents.
abbrev json : KeyJson
json = record {
  marshal = λ d. elim d.result [
    | none ↦ none
    | some r ↦ elim r.user [ none ↦ none | some u ↦ some u.name ]
  ];
  unmarshal = λ b. some (if str_eq b (codes "bob") then document_for bob else document_for alice);
}

no_decoding : Str → Option Str
no_decoding s = none

abbrev at : Time
at = unix_nano (pos 6_000_000_000)

-- The store after alice was indexed.
abbrev with_alice : Mem
with_alice = (index json no_decoding (document_for alice) at (new_mem clock)).1

-- What the index computes with.
run_index : {A : Type 0} → A → A
unfolding run_write Mem.get index get_entry key_document_from write_index index_result index_user
    unindex_user unindex_result remove_existing is_new_result_different is_indexed and_then
    set_entry delete_entry index_user_key index_service_key user_id new_set_options of_data data_of
    get_bytes get_value StringSet.contains delete
run_index r = r

kid-IsComponent : IsComponent (codes "kex1a")
kid-IsComponent = (cc, omega arith)

alice-IsIndexable : IsIndexable alice
alice-IsIndexable = record { plain_name = omega arith; plain_service = omega arith }

bob-IsIndexable : IsIndexable bob
bob-IsIndexable = record { plain_name = omega arith; plain_service = omega arith }

indexed : (index json no_decoding (document_for alice) at (new_mem clock)).0 ≡ ok tt
unfolding run_index
indexed = refl

lookup_user-index_example :
    lookup_user json no_decoding with_alice (codes "alice@echo") ≡ ok (some (result_for alice))
unfolding str_eq is_indexed user_id
lookup_user-index_example =
    lookup_user-index json no_decoding (document_for alice) (codes "alice") at kid-IsComponent refl
      refl (result_for alice) alice alice-IsIndexable refl refl (new_mem clock) indexed

there :
    get_entry json no_decoding with_alice kid_index (codes "kex1a") ≡ ok (some (document_for alice))
unfolding run_index
there = refl

lookup_user-replaced_example :
    ((index json no_decoding (document_for bob) at with_alice).0 ≡ ok tt)
    × (lookup_user json no_decoding
          (index json no_decoding (document_for bob) at with_alice).1
          (codes "alice@echo")
        ≡ ok none)
unfolding str_eq user_id
lookup_user-replaced_example =
    lookup_user-replaced json no_decoding (document_for bob) (codes "bob") at kid-IsComponent refl
      refl (result_for bob) bob bob-IsIndexable refl refl with_alice (document_for alice)
      (result_for alice) alice alice-IsIndexable there refl refl (λ e. cc)

-- The check of the chain of bob's key in a store without results.
abbrev setting : Setting
setting = record {
  world = world;
  token = [];
  chosen = λ usr. none;
  client = λ urs headers. other_error;
  checked_at = at;
  indexed_at = at;
}

abbrev bob_chain : Sigchain
bob_chain = record { kid = kid; statements = bob_statement ∷ []; revokes = [] }

abbrev bob_checked : UserResult
bob_checked = record {
  failure = none;
  status = status_ok;
  timestamp = pos 6000;
  user = some Examples.bob;
  statement = message;
  proxied = false;
  verified_at = pos 6000;
}

checked : check_sigchain json no_decoding setting (new_mem clock) bob_chain ≡ ok (some bob_checked)
unfolding run_index run_service check_sigchain check_user start lookup_requester find_in_sigchain
    find_last find_last_in is_revoked lookup_revoke get result_of
checked = refl

no_choice : IsSoundChoice setting
no_choice usr r e = cc

check_sigchain-IsChecked_example :
    (usr : User) × (find_in_sigchain world.urls world.unmarshal bob_chain ≡ ok (some usr))
    × IsChecked json no_decoding setting no_choice (new_mem clock) kid usr bob_checked
check_sigchain-IsChecked_example =
    check_sigchain-IsChecked json no_decoding setting no_choice (new_mem clock) bob_chain
      bob_checked checked

-- A check of bob that failed, after one of alice that had succeeded.
abbrev bob_failed : UserResult
bob_failed = record {
  failure = some connection_error;
  status = status_conn_failure;
  timestamp = pos 6000;
  user = some Examples.bob;
  statement = [];
  proxied = false;
  verified_at = pos 5000;
}

chain-IsComponent : IsComponent kid
chain-IsComponent = (cc, omega arith)

chain_bob-IsIndexable : IsIndexable Examples.bob
chain_bob-IsIndexable = record { plain_name = omega arith; plain_service = omega arith }

-- Alice is indexed for the key of bob, whose documents go by the names of their users.
abbrev of_key : UserResult → KeyDocument
of_key r = record { doc_kid = kid; result = some r }

abbrev names : KeyJson
names = record {
  marshal = λ d. json.marshal d;
  unmarshal = λ b. some (of_key (if str_eq b (codes "bob") then bob_failed else result_for alice));
}

abbrev after_alice : Mem
after_alice = (index names no_decoding (of_key (result_for alice)) at (new_mem clock)).1

-- Every user is asked for at its own address, which does not answer.
abbrev unanswered : Setting
unanswered = record setting { chosen = λ usr. some (requester_of world [] https) }

unanswered-IsSoundChoice : IsSoundChoice unanswered
unanswered-IsSoundChoice usr r e =
    let same : requester_of world [] https ≡ r = ground (arith, e) in
    rw (← same)
      (requester_of-IsSoundRequest world [] https, requester_of-IsSoundCheck world [] https)

alice_before : get names no_decoding after_alice kid ≡ ok (some (result_for alice))
unfolding run_index get result_of
alice_before = refl

bob_in_chain : find_in_sigchain world.urls world.unmarshal bob_chain ≡ ok (some Examples.bob)
unfolding run_service find_in_sigchain find_last find_last_in is_revoked lookup_revoke
bob_in_chain = refl

update_fails :
    (update_loaded names no_decoding unanswered after_alice kid bob_chain).0 ≡ ok (some bob_failed)
unfolding run_index run_service https_service update_loaded check_sigchain check_user start
    lookup_requester find_in_sigchain find_last find_last_in is_revoked lookup_revoke get result_of
    Assoc.erase time_sub parse_millis saturate minus times
update_fails = refl

lookup_user-update_loaded_example :
    lookup_user names no_decoding
      (update_loaded names no_decoding unanswered after_alice kid bob_chain).1
      (user_id Examples.bob)
    ≡ ok (some bob_failed)
unfolding time_sub parse_millis minus saturate times wrap str_eq
lookup_user-update_loaded_example =
    lookup_user-update_loaded names no_decoding unanswered unanswered-IsSoundChoice after_alice
      bob_chain (result_for alice) bob_failed Examples.bob (codes "bob") chain-IsComponent
      chain_bob-IsIndexable refl refl alice_before bob_in_chain update_fails refl

no_statements : Str → Option Statement
no_statements b = none

no_x25519 : PublicKey → Str
no_x25519 pk = []

abbrev alice_found : SearchResult
alice_found = record {
  found_kid = codes "kex1a";
  found_result = some (result_for alice);
  field = [];
}

searched :
    search json no_decoding setting no_statements no_x25519
      (set_entry search_index (codes "alice@echo") (codes "alice") (new_mem clock)).1
      (record { query = codes "ali"; limit = pos 1 })
    ≡ ok (alice_found ∷ [])
unfolding run_index run_user search search_users search_docs limit_of iterated document_iterator
    list list_loop list_prefix is_listed from_index up_to_limit new_options with_prefix new_iterator
    StringSet.sorted sort has_prefix
searched = refl

length-search_example : length (alice_found ∷ []) ≤ 1
length-search_example =
    length-search json no_decoding setting no_statements no_x25519
      (set_entry search_index (codes "alice@echo") (codes "alice") (new_mem clock)).1
      (record { query = codes "ali"; limit = pos 1 }) (alice_found ∷ []) searched

new_key : get_entry json no_decoding (new_mem clock) kid_index (codes "kex1a") ≡ ok none
unfolding run_index
new_key = refl

indexes_new : (index json no_decoding (document_for alice) at (new_mem clock)).0 ≡ ok tt
unfolding str_eq
indexes_new =
    index-new json no_decoding (document_for alice) (codes "alice") at kid-IsComponent refl refl
      (result_for alice) alice alice-IsIndexable refl refl (new_mem clock) new_key
