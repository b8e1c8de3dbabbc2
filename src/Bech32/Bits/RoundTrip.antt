-- ===== src/Bech32/Bits/RoundTrip.antt =====
-- bech32/bech32.go: bytes regrouped into digits of five bits are regrouped into the same bytes.
use Prim.Native.Nat.{bit_or}
use keys.Common.{
  ℕ, zero, suc, ◌+◌, ◌*◌, ◌/◌, ◌%◌, ◌^◌, ◌≤◌, ◌<◌, List, [], ◌∷◌, true, false, not, ◌==◌, Result,
  ok, ◌>>=◌, All, length, ◌≡◌, refl, arith,
}
use keys.Common.Bits.{bit_or_fields}
use keys.Bech32.Bits.{
  Error, Acc, top_digit, pad_digit, emit, shift_in, finish, convert_from, convert_bits,
}

-- `acc<<8 | y` and `acc<<5 | d` are sums.
shift_in_byte : (a y : ℕ) → y < 256 → bit_or (a * 2 ^ 8 % 2 ^ 32) y ≡ a * 256 % 4294967296 + y
shift_in_byte a y h = ground (arith, bit_or_fields 8 (a % 2 ^ 24) y h)

shift_in_digit : (a d : ℕ) → d < 32 → bit_or (a * 2 ^ 5 % 2 ^ 32) d ≡ a * 32 % 4294967296 + d
shift_in_digit a d h = ground (arith, bit_or_fields 5 (a % 2 ^ 27) d h)

abbrev state : ℕ → ℕ → Acc
state acc bits = record { acc = acc; bits = bits }

abbrev enc : ℕ → ℕ → List ℕ → Result Error (List ℕ)
enc acc bits ys = convert_from 8 5 true (state acc bits) ys

abbrev dec : ℕ → ℕ → List ℕ → Result Error (List ℕ)
dec acc bits ds = convert_from 5 8 false (state acc bits) ds

-- The accumulators after a byte and after a digit.
abbrev after_byte : ℕ → ℕ → ℕ
after_byte e y = e * 256 % 4294967296 + y

abbrev after_digit : ℕ → ℕ → ℕ
after_digit d v = d * 32 % 4294967296 + v

byte_in_range : (y : ℕ) → y < 256 → not (y / 2 ^ 8 == 0) ≡ false
byte_in_range y h = ground arith

digit_in_range : (d : ℕ) → d < 32 → not (d / 2 ^ 5 == 0) ≡ false
digit_in_range d h = ground arith

-- A byte at the encoder: one digit where fewer than two are there, or two.
module _ (e y : ℕ) (ys : List ℕ) (h : y < 256) where
  enc_one :
      (n : ℕ)
      → n < 2
      → enc e n (y ∷ ys) ≡ (do
        out ← enc (after_byte e y) (n + 3) ys
        ok ((after_byte e y / 2 ^ (n + 3) % 256 % 32) ∷ out))
  unfolding convert_from shift_in emit top_digit
  enc_one zero _ = rw (byte_in_range y h, shift_in_byte e y h)
  enc_one (suc zero) _ = rw (byte_in_range y h, shift_in_byte e y h)
  enc_one (suc (suc n)) k = absurd (omega arith)

  enc_two :
      (n : ℕ)
      → n < 3
      → enc e (n + 2) (y ∷ ys) ≡ (do
        out ← enc (after_byte e y) n ys
        ok ((after_byte e y / 2 ^ (n + 5) % 256 % 32) ∷ (after_byte e y / 2 ^ n % 256 % 32) ∷ out))
  unfolding convert_from shift_in emit top_digit
  enc_two zero _ = rw (byte_in_range y h, shift_in_byte e y h)
  enc_two (suc zero) _ = rw (byte_in_range y h, shift_in_byte e y h)
  enc_two (suc (suc zero)) _ = rw (byte_in_range y h, shift_in_byte e y h)
  enc_two (suc (suc (suc n))) k = absurd (omega arith)

-- A digit at the decoder: a byte where at least three bits were there, or none.
module _ (d v : ℕ) (ds : List ℕ) (h : v < 32) where
  dec_keep :
      (n : ℕ) → n < 3 → dec d n (v ∷ ds) ≡ (do out ← dec (after_digit d v) (n + 5) ds; ok out)
  unfolding convert_from shift_in emit top_digit
  dec_keep zero _ = rw (digit_in_range v h, shift_in_digit d v h)
  dec_keep (suc zero) _ = rw (digit_in_range v h, shift_in_digit d v h)
  dec_keep (suc (suc zero)) _ = rw (digit_in_range v h, shift_in_digit d v h)
  dec_keep (suc (suc (suc n))) k = absurd (omega arith)

  dec_emit :
      (n : ℕ)
      → n < 5
      → dec d (n + 3) (v ∷ ds)
        ≡ (do out ← dec (after_digit d v) n ds; ok ((after_digit d v / 2 ^ n % 256 % 256) ∷ out))
  unfolding convert_from shift_in emit top_digit
  dec_emit zero _ = rw (digit_in_range v h, shift_in_digit d v h)
  dec_emit (suc zero) _ = rw (digit_in_range v h, shift_in_digit d v h)
  dec_emit (suc (suc zero)) _ = rw (digit_in_range v h, shift_in_digit d v h)
  dec_emit (suc (suc (suc zero))) _ = rw (digit_in_range v h, shift_in_digit d v h)
  dec_emit (suc (suc (suc (suc zero)))) _ = rw (digit_in_range v h, shift_in_digit d v h)
  dec_emit (suc (suc (suc (suc (suc n))))) k = absurd (omega arith)

-- The bits of the last byte that the encoder still holds; the decoder holds the others of it.
data Phase : Type 0 where
  held_0 held_1 held_2 held_3 held_4 : Phase

abbrev enc_bits : Phase → ℕ
enc_bits held_0 = 0
enc_bits held_1 = 1
enc_bits held_2 = 2
enc_bits held_3 = 3
enc_bits held_4 = 4

abbrev dec_bits : Phase → ℕ
dec_bits held_0 = 0
dec_bits held_1 = 7
dec_bits held_2 = 6
dec_bits held_3 = 5
dec_bits held_4 = 4

-- What the two accumulators say of the byte `x` that is under way.
abbrev Related : Phase → ℕ → ℕ → ℕ → Type 0
Related held_0 e d x = Unit
Related held_1 e d x = (e % 2 ≡ x % 2) × (d % 128 ≡ x / 2)
Related held_2 e d x = (e % 4 ≡ x % 4) × (d % 64 ≡ x / 4)
Related held_3 e d x = (e % 8 ≡ x % 8) × (d % 32 ≡ x / 8)
Related held_4 e d x = (e % 16 ≡ x % 16) × (d % 16 ≡ x / 16)

-- The bytes that the decoder has yet to return.
abbrev pending : Phase → ℕ → List ℕ → List ℕ
pending held_0 x ys = ys
pending _ x ys = x ∷ ys

-- The encoder's digits fit, and the decoder reads the bytes from them.
abbrev Round : Phase → ℕ → ℕ → ℕ → List ℕ → Type 0
Round p e d x ys =
    (ds : List ℕ) × (enc e (enc_bits p) ys ≡ ok ds)
    × (dec d (dec_bits p) ds ≡ ok (pending p x ys))
    × All (λ v. v < 32) ds
    × (8 * length ys + enc_bits p ≤ 5 * length ds)
    × (5 * length ds < 8 * length ys + enc_bits p + 5)

empty-Round : (p : Phase) (e d x : ℕ) → x < 256 → Related p e d x → Round p e d x []
unfolding convert_from finish pad_digit
empty-Round held_0 e d x h r = ([], refl, ground arith, tt, omega arith, omega arith)
empty-Round held_1 e d x h r =
    let v = e * 2 ^ 4 % 2 ^ 32 % 256 % 32 in
    (
      v ∷ [],
      refl,
      rw (dec_emit d v [] (omega arith) 4 (omega arith)) (ground arith),
      (omega arith, tt),
      omega arith,
      omega arith,
    )
empty-Round held_2 e d x h r =
    let v = e * 2 ^ 3 % 2 ^ 32 % 256 % 32 in
    (
      v ∷ [],
      refl,
      rw (dec_emit d v [] (omega arith) 3 (omega arith)) (ground arith),
      (omega arith, tt),
      omega arith,
      omega arith,
    )
empty-Round held_3 e d x h r =
    let v = e * 2 ^ 2 % 2 ^ 32 % 256 % 32 in
    (
      v ∷ [],
      refl,
      rw (dec_emit d v [] (omega arith) 2 (omega arith)) (ground arith),
      (omega arith, tt),
      omega arith,
      omega arith,
    )
empty-Round held_4 e d x h r =
    let v = e * 2 ^ 1 % 2 ^ 32 % 256 % 32 in
    (
      v ∷ [],
      refl,
      rw (dec_emit d v [] (omega arith) 1 (omega arith)) (ground arith),
      (omega arith, tt),
      omega arith,
      omega arith,
    )

round :
    (p : Phase) (e d x : ℕ) (ys : List ℕ)
    → x < 256
    → Related p e d x
    → All (λ y. y < 256) ys
    → Round p e d x ys
round p e d x [] h r _ = empty-Round p e d x h r
round held_0 e d x (y ∷ ys) h r (hy, hys) =
    let e' = after_byte e y in
    let v = e' / 2 ^ 3 % 256 % 32 in
    let d' = after_digit d v in
    let (ds, encoded, decoded, fit, low, high) =
      round held_3 e' d' y ys hy (omega arith, omega arith) hys in
    (
      v ∷ ds,
      rw (enc_one e y ys hy 0 (omega arith), encoded),
      rw (dec_keep d v ds (omega arith) 0 (omega arith), decoded),
      (omega arith, fit),
      omega arith,
      omega arith,
    )
round held_1 e d x (y ∷ ys) h r (hy, hys) =
    let e' = after_byte e y in
    let v = e' / 2 ^ 4 % 256 % 32 in
    let d' = after_digit d v in
    let (ds, encoded, decoded, fit, low, high) =
      round held_4 e' d' y ys hy (omega arith, omega arith) hys in
    let byte : d' / 2 ^ 4 % 256 % 256 ≡ x = omega arith in
    (
      v ∷ ds,
      rw (enc_one e y ys hy 1 (omega arith), encoded),
      rw (dec_emit d v ds (omega arith) 4 (omega arith), decoded, byte),
      (omega arith, fit),
      omega arith,
      omega arith,
    )
round held_2 e d x (y ∷ ys) h r (hy, hys) =
    let e' = after_byte e y in
    let v = e' / 2 ^ 5 % 256 % 32 in
    let w = e' / 2 ^ 0 % 256 % 32 in
    let d' = after_digit d v in
    let d'' = after_digit d' w in
    let (ds, encoded, decoded, fit, low, high) = round held_0 e' d'' y ys hy (tt) hys in
    let byte : d' / 2 ^ 3 % 256 % 256 ≡ x = omega arith in
    let next : d'' / 2 ^ 0 % 256 % 256 ≡ y = omega arith in
    (
      v ∷ w ∷ ds,
      rw (enc_two e y ys hy 0 (omega arith), encoded),
      rw (
        dec_emit d v (w ∷ ds) (omega arith) 3 (omega arith),
        dec_emit d' w ds (omega arith) 0 (omega arith),
        decoded,
        byte,
        next,
      ),
      (omega arith, (omega arith, fit)),
      omega arith,
      omega arith,
    )
round held_3 e d x (y ∷ ys) h r (hy, hys) =
    let e' = after_byte e y in
    let v = e' / 2 ^ 6 % 256 % 32 in
    let w = e' / 2 ^ 1 % 256 % 32 in
    let d' = after_digit d v in
    let d'' = after_digit d' w in
    let (ds, encoded, decoded, fit, low, high) =
      round held_1 e' d'' y ys hy (omega arith, omega arith) hys in
    let byte : d' / 2 ^ 2 % 256 % 256 ≡ x = omega arith in
    (
      v ∷ w ∷ ds,
      rw (enc_two e y ys hy 1 (omega arith), encoded),
      rw (
        dec_emit d v (w ∷ ds) (omega arith) 2 (omega arith),
        dec_keep d' w ds (omega arith) 2 (omega arith),
        decoded,
        byte,
      ),
      (omega arith, (omega arith, fit)),
      omega arith,
      omega arith,
    )
round held_4 e d x (y ∷ ys) h r (hy, hys) =
    let e' = after_byte e y in
    let v = e' / 2 ^ 7 % 256 % 32 in
    let w = e' / 2 ^ 2 % 256 % 32 in
    let d' = after_digit d v in
    let d'' = after_digit d' w in
    let (ds, encoded, decoded, fit, low, high) =
      round held_2 e' d'' y ys hy (omega arith, omega arith) hys in
    let byte : d' / 2 ^ 1 % 256 % 256 ≡ x = omega arith in
    (
      v ∷ w ∷ ds,
      rw (enc_two e y ys hy 2 (omega arith), encoded),
      rw (
        dec_emit d v (w ∷ ds) (omega arith) 1 (omega arith),
        dec_keep d' w ds (omega arith) 1 (omega arith),
        decoded,
        byte,
      ),
      (omega arith, (omega arith, fit)),
      omega arith,
      omega arith,
    )

-- `convertBits` of bytes to digits of 5 bits, with padding, succeeds, and back to bytes, without
-- padding, gives the bytes. The digits are below 32, and as many as their bits ask for.
pub convert_bits-convert_bits :
    (ys : List ℕ)
    → All (λ y. y < 256) ys
    → (ds : List ℕ) × (convert_bits ys 8 5 true ≡ ok ds)
      × (convert_bits ds 5 8 false ≡ ok ys)
      × All (λ v. v < 32) ds
      × (8 * length ys ≤ 5 * length ds)
      × (5 * length ds < 8 * length ys + 5)
unfolding convert_bits
convert_bits-convert_bits ys h =
    let (ds, encoded, decoded, fit, low, high) = round held_0 0 0 0 ys (omega arith) tt h in
    (ds, encoded, decoded, fit, omega arith, omega arith)
