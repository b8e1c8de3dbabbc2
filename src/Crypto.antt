-- ===== src/Crypto.antt =====
-- The cryptography that the code calls and does not implement: `crypto/sha256`, and `sign.Sign` and
-- `sign.Open` of NaCl. Keys, hashes and messages are bytes.
use keys.Common.{ℕ, ◌+◌, Bool, true, Str, length, take, drop, ◌++◌, ◌≡◌}

pub record Crypto : Type 0 where
  -- `sha256.Sum256(b)`.
  pub sha256 : Str → Str
  -- `sign.Sign(nil, b, privateKey)`: the signature, and the message behind it.
  pub sign : Str → Str → Str
  -- Whether `sign.Open(nil, b, publicKey)` succeeds.
  pub sign_open : Str → Str → Bool

-- `sign.Overhead`, the length of a signature.
abbrev pub sign_overhead : ℕ
sign_overhead = 64

-- What the packages document. The public key is the second half of an Ed25519 private key.
pub record IsCrypto (c : Crypto) : Type 0 where
  pub length-sha256 : (b : Str) → length (c.sha256 b) ≡ 32
  pub length-sign : (sk b : Str) → length (c.sign sk b) ≡ sign_overhead + length b
  pub sign_open-sign :
      (sk b : Str)
      → length sk ≡ 64
      → c.sign_open (drop 32 sk) (take sign_overhead (c.sign sk b) ++ b) ≡ true
