-- ===== src/Lib.antt =====
-- keys: keys, signed statements and their chains, and the stores that hold them.
--
-- The program is a Go library. A key has an identifier, the Bech32 text of its public key. A
-- statement is data with the identifier of its key, a place in a chain and a signature; a sigchain
-- is the list of the statements of one key, where each holds the hash of the one before it, and may
-- revoke an earlier one. A document store keeps values at paths, and a second store keeps the
-- nonces of authorized requests.
--
-- Which file models which part:
--   Bech32, with Bech32/Case, Bech32/Bits and Bech32/Checksum: bech32/bech32.go. Bech32/Chars,
--     Bech32/Case/Laws, Bech32/Checksum/Linear and the files named RoundTrip and Valid hold proofs.
--   Id, Id/Set: id.go, an identifier being its text, and IDSet.
--   Crypto: the operations of crypto/sha256 and of NaCl signing that the code calls. They are
--     parameters, with what their packages document as the record IsCrypto.
--   EdX25519: edx25519.go, keys and signatures over those operations.
--   X25519, with X25519/Convert: x25519.go, ed25519.go and the conversions of edx25519.go. The inverse
--     modulo a number, SHA-512 and the multiplication of the base point are parameters. X25519/Match
--     holds proofs.
--   Rsa: rsa.go, over crypto/rsa and crypto/x509 as parameters. Secretbox: secretbox.go and
--     KeyForPassword, over NaCl boxes and argon2 as parameters.
--   Api, with Api/Encode: api/key.go, api/as.go and api/encode.go. Api/Back and Api/Decoded hold
--     proofs.
--   Env: env/paths.go and env/options.go, over what the operating system answers. Env/Unique holds
--     proofs.
--   Address: address.go. Address/Canonical and Address/Text hold proofs.
--   Json: json/marshal.go. Encoding: encoding/is.go (Is), encoding/encode.go and
--     encoding/options.go (Parse), encoding/parse.go and encoding/saltpack.go (Words), and the
--     Base64 of the standard library (Base64). Encoding/Saltpack: FindSaltpack and the forms of
--     encoding/saltpack.go, over Base62 as a parameter. Encoding/Codecs: Encode and Decode, and
--     encoding/bip39.go, over the encodings of other packages.
--   Tsutil: tsutil/tsutil.go.
--   Statement: statement.go. Sigchain: sigchain.go, a record of the key's identifier, the statements
--     and the map of revokes; a method takes the chain and gives its result and the chain that it
--     leaves. Sigchain/Revokes, Invariant, Adding, Create and Find hold proofs.
--   Dstore/Path, StringSet, Document, Options, Iterator: dstore/path.go, set.go, document.go,
--     options.go and iterator.go. Dstore/Mem, with Mem/Listing and Mem/Events: dstore/mem.go and
--     dstore/events, a record of the set of paths, the documents and the clock. The random
--     identifier of an event is given with its data, and reading an event from JSON is a parameter.
--     Mem/View, Mem/Invariant, Mem/Listed and Mem/Events/Consistent hold proofs. Dstore/Shared has
--     `set` and `Update` of dstore/mem.go, and `Set`, `SetAll` and `With` of dstore/document.go, once
--     more, where the values of a document are a reference to a map that others may have too. The
--     files in Dstore/Shared hold proofs.
--   Sigchains: sigchains.go over the memory store. Reading a statement from JSON and the identifier
--     of the X25519 key of a key are parameters. Sigchains/Stored holds proofs.
--   Http/Mem: http/mem.go, the store of nonces. Http/Mem/Nonce holds proofs, and Http/Mem/Race is a
--     step relation of two calls of NonceCheck at the same time.
--   Http/Auth: http/auth.go, over the parsing of URLs and the encodings as parameters. The files in
--     Http/Auth hold proofs.
--   Keyring: keyring/mem.go, keyring/keyring.go and keyring/backup.go, an archive being the list of
--     its entries. archive/tar makes a name with a slash at its end a directory, and of which names it
--     can write a header is a parameter. Keyring/Items and Keyring/Backup hold proofs.
--   User/Validate, with Validate/Url: user/validate, the five services as constructors of one type.
--     Parsing an address is a parameter. Validate/Names and Validate/Url/Owner hold proofs.
--   User/User, User/Result, User/Services: user/user.go, user/result.go, user/verify.go and
--     user/services, a request being answered by a client that is a parameter. User/Signing and
--     the files in User/Services hold proofs.
--   Users, with Users/Update, Users/Listing and Users/Search: the index of users/users.go over the
--     memory store, and users/search.go. The other files in Users hold proofs.
--   Common: what the parts share, with the lists, texts, maps, integers and results of Go.
--   The files whose names end in Examples run the code on concrete inputs.
--
-- How Go is read. A string is the list of its bytes, and letters are those of ASCII. An error is a
-- constructor of the component's error type, one for each place; a panic is one too, or `none` where
-- the function has no other failure. An int and an int64 have 64 bits, and a sum or a product that
-- can leave them wraps round. A map is an association list with one entry for a key. A clock is the
-- list of its readings, and a method that reads it takes the next. A method that holds a lock is one
-- step. A document or a statement is a value, except in Dstore/Shared: a map that is given to `Set`
-- or `Create` elsewhere is that of no other document, and that a caller changes a document or a
-- statement through a pointer which a store or a chain returned is not modelled.
--
-- Fuel. `emit` of Bech32/Bits has as many rounds as there are bits, and a round takes at least one.
-- `big_bytes` of X25519/Convert has 32 rounds for a number below 2^256, of which each takes a byte.
-- `digits` of Common/Int has one round more than the number, which has no more digits. `break_from`
-- of Encoding/Words has as many rounds as characters, and each round takes at least one.
--
-- Not modelled: what encoding/json and msgpack read by reflection, the client of HTTP, the keyrings
-- of operating systems and of files, gzip and tar, and what only calls cryptographic or system
-- packages.
pub mod Common
pub mod Tsutil
pub mod Encoding
pub mod Json
pub mod Id
pub mod Crypto
pub mod EdX25519
pub mod Statement
pub mod Sigchain
pub mod Dstore
pub mod Sigchains
pub mod Bech32
pub mod Http
pub mod User
pub mod Users
pub mod Keyring
pub mod Address
pub mod X25519
pub mod Rsa
pub mod Env
pub mod Secretbox
pub mod Api
pub mod Examples
