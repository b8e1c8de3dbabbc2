-- ===== src/Secretbox/Examples.antt =====
-- A run of the theorem on passwords over boxes that are easy to compute.
use keys.Common.{
  [], ◌++◌, some, codes, replicate, ok, err, ◌≡◌, refl, ap, drop, drop-append, length,
}
use keys.Secretbox.{
  Box, IsBox, encrypt_with_password, decrypt_with_password,
  decrypt_with_password-encrypt_with_password, not_enough_for_password,
}

abbrev easy : Box
easy = record {
  seal = λ b n k. n ++ b;
  open_box = λ e n k. some (drop (length n) e);
  id_key = λ p s. p;
}

easy-IsBox : IsBox easy
easy-IsBox = record { open_box-seal = λ b n k h. ap some (drop-append n b) }

decrypt_with_password-encrypt_with_password_example :
    decrypt_with_password easy
      (encrypt_with_password easy (replicate 16 1) (replicate 24 2) (codes "text") (codes "word"))
      (codes "word")
    ≡ ok (codes "text")
decrypt_with_password-encrypt_with_password_example =
    decrypt_with_password-encrypt_with_password easy easy-IsBox (replicate 16 1) (replicate 24 2)
      (codes "text") (codes "word") refl refl

too_short : decrypt_with_password easy (replicate 15 1) [] ≡ err not_enough_for_password
unfolding decrypt_with_password
too_short = refl
