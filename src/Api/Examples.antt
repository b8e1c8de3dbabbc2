-- ===== src/Api/Examples.antt =====
-- Runs of the theorems of the keys of the API at concrete keys.
use keys.Common.{
  ◌<◌, All, [], ◌++◌, false, arith, none, some, Str, str_eq, codes, replicate, ok, err, ◌≡◌, refl,
}
use keys.Bech32
use keys.EdX25519.{set_private_key, new_public_key}
use keys.Id.{new_id}
use keys.Rsa.{Pkcs1, IsPkcs1}
use keys.Sigchain.Examples.{toy, seed, key, encode_kid, run_encode}
use keys.Encoding.Saltpack.{Base62, decode_saltpack}
use keys.Secretbox.{Box, decrypt_with_password, secret_box_open}
use keys.User.Examples.{run_find}
use keys.X25519
use keys.Api.Encode.{Msgpack, decode_key, key_of_brand}
use keys.Api.Decoded.{AreBytes, decode_key-check}
use keys.X25519.Convert.{Curve}
use keys.Api.{
  ApiKey, edx25519_key, new_key, as_key, as_edx25519_public, made_of, as_x25519_public, nil_pointer,
  check,
}
use keys.Api.Back.{IsMade, as_key-new_key}

abbrev easy : Curve
easy = record { sha512 = λ b. b; scalar_base_mult = λ b. b; mod_inverse = λ g n. some 3 }

abbrev plain : Pkcs1 Str Str
plain = record {
  public_part = λ k. k;
  parse_private = some;
  marshal_private = λ k. k;
  parse_public = some;
  marshal_public = λ k. k;
}

plain-IsPkcs1 : IsPkcs1 plain
plain-IsPkcs1 = record { private_back = λ k. refl; public_back = λ k. refl }

made : set_private_key seed ≡ ok key
unfolding set_private_key new_public_key new_id
made = rw (set_private_key, new_public_key, new_id, encode_kid) refl

as_key-new_key_example :
    as_key toy easy plain (new_key plain (edx25519_key key)) ≡ ok (some (some (edx25519_key key)))
unfolding IsMade
as_key-new_key_example = as_key-new_key toy easy plain (edx25519_key key) plain-IsPkcs1 (seed, made)

-- A key without usable bytes stops the program.
panics : as_x25519_public easy (made_of [] (codes "edx25519") none []) ≡ err nil_pointer
unfolding as_x25519_public as_edx25519_public made_of str_eq
panics = refl

abbrev box : Box
box = record {
  seal = λ b n k. n ++ b;
  open_box = λ e n k. some (replicate 32 9);
  id_key = λ p s. p;
}

abbrev seven : Curve
seven = record {
  sha512 = λ b. b;
  scalar_base_mult = λ b. replicate 32 7;
  mod_inverse = λ g n. none;
}

abbrev pack : Msgpack
pack = record { marshal = λ k. none; unmarshal = λ b. none }

abbrev codec : Base62
codec = record { encode = λ b. b; decode = λ s. some (replicate 40 1) }

nines : (b : Str) → replicate 32 9 ≡ b → All (λ y. y < 256) b
nines b same = rw (← same) (omega arith)

box-AreBytes : AreBytes box seven
box-AreBytes = record {
  opened = λ e n k b h. nines b (ground arith);
  multiplied = λ b. omega arith;
}

abbrev message : Str
message = codes "BEGIN X25519 KEY MESSAGE. abc. END X25519 KEY MESSAGE."

abbrev decoded : ApiKey
decoded =
    made_of (codes "kbx1qurswpc8qurswpc8qurswpc8qurswpc8qurswpc8qurswpc8qursq3n4yv")
      (codes "x25519") (some (replicate 32 9)) (replicate 32 7)

encode_kbx :
    Bech32.encode (codes "kbx") (replicate 32 7)
    ≡ ok (codes "kbx1qurswpc8qurswpc8qurswpc8qurswpc8qurswpc8qurswpc8qursq3n4yv")
unfolding run_encode
encode_kbx = refl

new_x25519 :
    X25519.new_key seven (replicate 32 9)
    ≡ ok (record {
      key_id = decoded.id;
      private_key = replicate 32 9;
      public = record { id = decoded.id; public_key = replicate 32 7 };
    })
unfolding X25519.new_key X25519.new_public_key new_id made_of
new_x25519 = rw (X25519.new_key, X25519.new_public_key, new_id, encode_kbx) refl

found : decode_saltpack codec (λ s. s) message false ≡ ok (replicate 40 1, codes "X25519 KEY")
unfolding run_find decode_saltpack str_eq
found = refl

opens : decrypt_with_password box (replicate 40 1) (codes "word") ≡ ok (replicate 32 9)
unfolding decrypt_with_password secret_box_open
opens = refl

branded : key_of_brand box pack seven (codes "X25519 KEY") (replicate 32 9) ≡ ok decoded
unfolding key_of_brand str_eq made_of
branded = rw (key_of_brand, new_x25519) refl

reads : decode_key box pack seven codec (λ s. s) message (codes "word") ≡ ok decoded
unfolding decode_key
reads = rw (decode_key, found, opens, branded) refl

decode_key-check_example : check decoded ≡ ok tt
decode_key-check_example =
    decode_key-check box pack seven box-AreBytes codec (λ s. s) message (codes "word") decoded reads
