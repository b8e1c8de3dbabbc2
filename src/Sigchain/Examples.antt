-- ===== src/Sigchain/Examples.antt =====
-- sigchain.go: a chain of a key, with a stand-in for the cryptography.
use keys.Common.{
  ℕ, zero, suc, ◌<◌, [], ◌∷◌, ◌++◌, none, some, true, Str, str_eq, codes, length, length-append,
  drop, replicate, All, Result, ok, ◌≡◌, subst, ap, refl, arith,
}
use keys.Common.Int.{pos, itoa, quot, incr}
use keys.Crypto.{Crypto, IsCrypto}
use keys.Bech32
use keys.Bech32.{
  encode, decode, split_last, digits_of, decode_parts, index_from, has_invalid_character, chars_of,
  char_of,
}
use keys.Bech32.Bits.{convert_bits, convert_from, shift_in, emit, top_digit, finish, pad_digit}
use keys.Bech32.Case.{to_lower, to_upper, lower_char, upper_char, is_mixed}
use keys.Bech32.Checksum.{
  verify_checksum, create_checksum, polymod, polymod_from, polymod_step, apply_generators,
  apply_generator, hrp_expand, checksum_digits, checksum_digit,
}
use keys.Encoding.Base64
use keys.Encoding.Is.{is_alpha_numeric, all_alpha_numeric, is_alpha_numeric_char, is_ascii}
use keys.Common.Split.{join}
use keys.Json
use keys.EdX25519
use keys.EdX25519.{PublicKey, Key, set_private_key}
use keys.EdX25519.Laws.{IsKeyOf}
use keys.Tsutil.{zero_time, unix_nano, is_zero, millis_of}
use keys.Statement
use keys.Statement.{Statement}
use keys.Statement.Laws.{verify-sign}
use keys.Sigchain.{
  Sigchain, new_sigchain, last, last_seq, sigchain_hash, is_revoked, lookup_revoke, statement_at,
  previous_hash, add, append, new_sigchain_statement, new_revoke_statement, revoke_statement,
}
use keys.Sigchain.Invariant.{IsValid, new_sigchain-IsValid}
use keys.Sigchain.Adding.{add-IsValid}
use keys.Sigchain.Create.{add-new_sigchain_statement, add-new_revoke_statement}
use keys.Sigchain.Find.{is_revoked-revoke_statement}

-- Hashes and signatures of the right length.
abbrev pub toy : Crypto
toy = record {
  sha256 = λ b. replicate 32 (length b);
  sign = λ sk b. replicate 64 1 ++ b;
  sign_open = λ pk b. true;
}

length-replicate : (n : ℕ) (a : ℕ) → length (replicate n a) ≡ n
length-replicate zero a = refl
length-replicate (suc n) a = omega (arith, length-replicate n a)

pub toy-IsCrypto : IsCrypto toy
toy-IsCrypto = record {
  length-sha256 = λ b. length-replicate 32 (length b);
  length-sign = λ sk b. omega (arith, length-append (replicate 64 1) b, length-replicate 64 1);
  sign_open-sign = λ sk b h. refl;
}

abbrev pub seed : Str
seed = replicate 32 9 ++ replicate 32 7

abbrev pub kid : Str
kid = codes "kex1qurswpc8qurswpc8qurswpc8qurswpc8qurswpc8qurswpc8qurs8hmgn5"

abbrev pub key : Key
key = record { private_key = seed; public = record { id = kid; public_key = replicate 32 7 } }

-- What encoding an identifier computes with.
unfoldable pub run_encode : Result Bech32.Error Str → Result Bech32.Error Str
unfolding encode has_invalid_character chars_of char_of convert_bits convert_from shift_in emit
    top_digit finish pad_digit to_lower to_upper lower_char upper_char is_mixed create_checksum
    polymod polymod_from polymod_step apply_generators apply_generator hrp_expand checksum_digits
    checksum_digit str_eq
run_encode r = r

pub encode_kid : Bech32.encode (codes "kex") (replicate 32 7) ≡ ok kid
unfolding run_encode
encode_kid = refl

pub key-IsKeyOf : IsKeyOf seed key
key-IsKeyOf = record { private = refl; whole = refl; public_half = refl; identified = encode_kid }

abbrev no_statement : Statement
no_statement = record {
  sig = none;
  kid = kid;
  contents = some (codes "data");
  seq = pos 1;
  prev = none;
  revoke = pos 0;
  typ = codes "test";
  timestamp = unix_nano (pos 1_600_000_000_000_000_000);
  nonce = none;
}

-- The first statement of the chain of the key.
abbrev pub first : Statement
first = record no_statement { sig = some (replicate 64 1) }

-- What the run of a whole chain computes with.
unfoldable pub run_chain : {A : Type 0} → A → A
unfolding run_encode decode split_last digits_of decode_parts index_from verify_checksum
    Base64.encode Base64.char_of is_alpha_numeric all_alpha_numeric is_alpha_numeric_char is_ascii
    Json.all_quotes Json.needs_escape Json.marshal_text Json.marshal_all Json.marshal join itoa quot
    is_zero millis_of EdX25519.public_key_from_id EdX25519.verify EdX25519.verify_detached
    EdX25519.sign_detached Statement.bytes_entry Statement.number_entry Statement.statement_entries
    Statement.statement_bytes Statement.bytes_to_sign Statement.sign Statement.verify
    Statement.bytes new_sigchain last last_seq append sigchain_hash previous_hash
    new_sigchain_statement new_revoke_statement incr
run_chain r = r

first_made :
    new_sigchain_statement toy
      (new_sigchain kid)
      (some (codes "data"))
      key
      (codes "test")
      (unix_nano (pos 1_600_000_000_000_000_000))
    ≡ ok first
unfolding run_chain
first_made = refl

-- The chain with that statement, and a revoke of it.
abbrev pub chain : Sigchain
chain = record { kid = kid; statements = first ∷ []; revokes = [] }

abbrev revoke : Statement
revoke = record {
  sig = some (replicate 64 1);
  kid = kid;
  contents = none;
  seq = pos 2;
  prev = some (replicate 32 229);
  revoke = pos 1;
  typ = codes "revoke";
  timestamp = zero_time;
  nonce = none;
}

revoke_made : new_revoke_statement toy chain (pos 1) key ≡ ok revoke
unfolding run_chain is_revoked lookup_revoke
revoke_made = refl

pub bytes-half : All (λ x. x < 256) (drop 32 seed)
bytes-half = omega arith

empty-IsValid : IsValid toy (new_sigchain kid)
empty-IsValid = new_sigchain-IsValid toy kid

add_first : add toy (new_sigchain kid) first ≡ (ok tt, chain)
unfolding new_sigchain append
add_first =
    add-new_sigchain_statement toy toy-IsCrypto seed key key-IsKeyOf bytes-half (new_sigchain kid)
      (codes "data") (codes "test") _ first (λ h. cc) first_made

chain-IsValid : IsValid toy chain
chain-IsValid =
    subst (IsValid toy) (ap (λ r. r.1) add_first)
      (add-IsValid toy (new_sigchain kid) first empty-IsValid (unfold new_sigchain in omega arith))

verify-sign_example : Statement.verify toy first ≡ ok tt
unfolding run_chain
verify-sign_example =
    verify-sign toy toy-IsCrypto seed key key-IsKeyOf no_statement first bytes-half refl

add-IsValid_example : IsValid toy (add toy chain revoke).1
add-IsValid_example = add-IsValid toy chain revoke chain-IsValid (omega arith)

last_seq-eq-length_one : last_seq chain ≡ pos 1
unfolding last_seq last
last_seq-eq-length_one = refl

add-new_sigchain_statement_example :
    add toy (new_sigchain kid) first ≡ (ok tt, append (new_sigchain kid) first)
add-new_sigchain_statement_example =
    add-new_sigchain_statement toy toy-IsCrypto seed key key-IsKeyOf bytes-half (new_sigchain kid)
      (codes "data") (codes "test") (unix_nano (pos 1_600_000_000_000_000_000)) first (λ h. cc)
      first_made

add_revoke : add toy chain revoke ≡ (ok tt, append chain revoke)
unfolding statement_at
add_revoke =
    add-new_revoke_statement toy toy-IsCrypto seed key key-IsKeyOf bytes-half chain (pos 1) first
      revoke last_seq-eq-length_one (omega arith) refl refl revoke_made

add-new_revoke_statement_example : add toy chain revoke ≡ (ok tt, append chain revoke)
unfolding statement_at
add-new_revoke_statement_example =
    add-new_revoke_statement toy toy-IsCrypto seed key key-IsKeyOf bytes-half chain (pos 1) first
      revoke last_seq-eq-length_one (omega arith) refl refl revoke_made

revoke_done : (revoke_statement toy chain (pos 1) key).0 ≡ ok revoke
unfolding revoke_statement
revoke_done = rw (revoke_statement, revoke_made, add_revoke)

is_revoked-revoke_statement_example :
    is_revoked (revoke_statement toy chain (pos 1) key).1 (pos 1) ≡ true
is_revoked-revoke_statement_example =
    is_revoked-revoke_statement toy chain (pos 1) (pos 1) key revoke revoke_done
