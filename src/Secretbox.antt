-- ===== src/Secretbox.antt =====
-- secretbox.go and password.go: encryption with a key or a password. `nacl/secretbox` and `argon2` are
-- parameters, and the random salt and nonce are given.
mod Examples
use keys.Common.{
  ℕ, ◌-◌, ◌≤◌, [], ◌∷◌, ◌++◌, Option, none, some, Bool, true, false, ◌==◌, Str, str_eq, length,
  length-append, take, take-append, drop, drop-append, ltb, if◌then◌else◌, Result, ok, err, ◌>>=◌,
  ◌>>◌, fail_if, map_err, ◌≡◌, refl, sym, ap, Option-cases, inl, inr, arith, ◌∙◌,
}

pub record Box : Type 0 where
  -- `secretbox.Seal(nil, b, nonce, secretKey)`.
  pub seal : Str → Str → Str → Str
  -- `secretbox.Open`.
  pub open_box : Str → Str → Str → Option Str
  -- `argon2.IDKey(password, salt, 1, 64*1024, 4, 32)`, 32 bytes.
  pub id_key : Str → Str → Str

-- What the packages document.
pub record IsBox (x : Box) : Type 0 where
  pub open_box-seal :
      (b nonce key : Str) → length nonce ≡ 24 → x.open_box (x.seal b nonce key) nonce key ≡ some b

pub data Error : Type 0 where
  not_enough_bytes open_failed not_enough_for_password : Error
  failed_to_decrypt : Error → Error
  not_enough_salt empty_password : Error

module _ (x : Box) where
  -- `secretBoxSeal(b, nonce, secretKey)`.
  unfoldable pub secret_box_seal : Str → Str → Str → Str
  secret_box_seal b nonce key = nonce ++ x.seal b nonce key

  -- `secretBoxOpen(encrypted, secretKey)`.
  unfoldable pub secret_box_open : Str → Str → Result Error Str
  secret_box_open encrypted key = do
    fail_if (ltb (length encrypted) 24) not_enough_bytes
    elim (x.open_box (drop 24 encrypted) (take 24 encrypted) key) [
      | none ↦ err open_failed
      | some b ↦ ok b
    ]

  -- `EncryptWithPassword(b, password)` with a salt and a nonce.
  unfoldable pub encrypt_with_password : Str → Str → Str → Str → Str
  encrypt_with_password salt nonce b password =
      salt ++ secret_box_seal b nonce (x.id_key password salt)

  -- `DecryptWithPassword(encrypted, password)`.
  unfoldable pub decrypt_with_password : Str → Str → Result Error Str
  decrypt_with_password encrypted password = do
    fail_if (ltb (length encrypted) 16) not_enough_for_password
    map_err failed_to_decrypt
        (secret_box_open (drop 16 encrypted) (x.id_key password (take 16 encrypted)))

  -- `KeyForPassword(password, salt)`.
  unfoldable pub key_for_password : Str → Str → Result Error Str
  key_for_password password salt = do
    fail_if (ltb (length salt) 16) not_enough_salt
    fail_if (str_eq password []) empty_password
    ok (x.id_key password salt)

take-prefix : (n : ℕ) (s t : Str) → length s ≡ n → take n (s ++ t) ≡ s
take-prefix n s t h = ap (λ m. take m (s ++ t)) (sym h) ∙ take-append s t

drop-prefix : (n : ℕ) (s t : Str) → length s ≡ n → drop n (s ++ t) ≡ t
drop-prefix n s t h = ap (λ m. drop m (s ++ t)) (sym h) ∙ drop-append s t

module _ (x : Box) (laws : IsBox x) where
  secret_box_open-secret_box_seal :
      (b nonce key : Str)
      → length nonce ≡ 24
      → secret_box_open x (secret_box_seal x b nonce key) key ≡ ok b
  unfolding secret_box_open secret_box_seal
  secret_box_open-secret_box_seal b nonce key h =
      let long : ltb (length (nonce ++ x.seal b nonce key)) 24 ≡ false =
        ground (arith, length-append nonce (x.seal b nonce key)) in
      rw
        (
          secret_box_open,
          secret_box_seal,
          long,
          drop-prefix 24 nonce (x.seal b nonce key) h,
          take-prefix 24 nonce (x.seal b nonce key) h,
          laws.open_box-seal b nonce key h,
        )
        refl

  -- `DecryptWithPassword` gives back what `EncryptWithPassword` encrypted with the same password,
  -- with a salt of 16 and a nonce of 24 bytes, if a box that was sealed can be opened.
  pub decrypt_with_password-encrypt_with_password :
      (salt nonce b password : Str)
      → length salt ≡ 16
      → length nonce ≡ 24
      → decrypt_with_password x (encrypt_with_password x salt nonce b password) password ≡ ok b
  unfolding decrypt_with_password encrypt_with_password
  decrypt_with_password-encrypt_with_password salt nonce b password h k =
      let sealed = secret_box_seal x b nonce (x.id_key password salt) in
      let long : ltb (length (salt ++ sealed)) 16 ≡ false =
        ground (arith, length-append salt sealed) in
      rw
        (
          decrypt_with_password,
          encrypt_with_password,
          long,
          drop-prefix 16 salt sealed h,
          take-prefix 16 salt sealed h,
          secret_box_open-secret_box_seal b nonce (x.id_key password salt) k,
        )
        refl

-- What is decrypted comes out of a box.
pub decrypt_with_password-eq-ok :
    (x : Box) (encrypted password b : Str)
    → decrypt_with_password x encrypted password ≡ ok b
    → x.open_box
        (drop 24 (drop 16 encrypted))
        (take 24 (drop 16 encrypted))
        (x.id_key password (take 16 encrypted))
      ≡ some b
unfolding decrypt_with_password secret_box_open
decrypt_with_password-eq-ok x encrypted password b h =
    elim (Option-cases (
      x.open_box (drop 24 (drop 16 encrypted)) (take 24 (drop 16 encrypted))
        (x.id_key password (take 16 encrypted)))) [
          | inl f ↦ ground (arith, f, h)
          | inr (d, f) ↦ let same : d ≡ b = ground (arith, f, h) in f ∙ ap some same
        ]
