-- ===== src/Bech32/Checksum/Linear.antt =====
-- bech32/bech32.go: `polymod` is linear in its state and its values under `^`.
use Prim.Native.Nat.{bit_xor}
use keys.Common.{
  ℕ, zero, suc, ◌+◌, ◌*◌, ◌/◌, ◌%◌, ◌^◌, ◌<◌, Bool, true, ◌&&◌, ◌==◌, ==_iff, ◌≡◌, refl, arith, ap,
  ap₂, ◌∙◌, sym, Bool-cases, inl, inr,
}
use keys.Common.Bits.Xor.{bit_xor_comm, bit_xor-zero, bit_xor_assoc, bit_xor_fields}
use keys.Bech32.Checksum.{apply_generator, apply_generators, polymod_step}

pub zero-bit_xor : (a : ℕ) → bit_xor 0 a ≡ a
zero-bit_xor a = bit_xor_comm 0 a ∙ bit_xor-zero a

-- Over a small range every value is checked by evaluation.
unfoldable pub all_below : ℕ → (ℕ → Bool) → Bool
all_below (suc bound) test = all_below bound test && test bound
all_below zero _ = true

pub all_below_sound :
    (bound : ℕ) (test : ℕ → Bool) (v : ℕ) → all_below bound test ≡ true → v < bound → test v ≡ true
unfolding all_below
all_below_sound (suc bound) test v every under = ground (arith, all_below_sound bound test v)
all_below_sound zero _ v _ under = absurd (omega arith)

-- What the generators add.
unfoldable pub mask : ℕ → ℕ
mask top = apply_generators top 0

mask_table :
    all_below 32 (λ s. all_below 32 (λ t. mask (bit_xor s t) == bit_xor (mask s) (mask t))) ≡ true
unfolding all_below mask apply_generators apply_generator
mask_table = refl

mask-xor : (s t : ℕ) → s < 32 → t < 32 → mask (bit_xor s t) ≡ bit_xor (mask s) (mask t)
mask-xor s t p q = (==_iff _ _).0 (
    all_below_sound 32 (λ t. mask (bit_xor s t) == bit_xor (mask s) (mask t)) t
      (all_below_sound 32 _ s mask_table p) q)

apply_generator-xor :
    (top i g chk : ℕ) → apply_generator top i g chk ≡ bit_xor chk (apply_generator top i g 0)
unfolding apply_generator
apply_generator-xor top i g chk = elim (Bool-cases (top / 2 ^ i % 2 == 1)) [
  | inl e ↦ rw e (ap (bit_xor chk) (sym (zero-bit_xor g)))
  | inr e ↦ rw e (sym (bit_xor-zero chk))
]

chain : ℕ → ℕ → ℕ
unfolding apply_generator
chain top chk =
    bit_xor
      (bit_xor
        (bit_xor
          (bit_xor (bit_xor chk (apply_generator top 0 0x3b6a57b2 0))
            (apply_generator top 1 0x26508e6d 0))
          (apply_generator top 2 0x1ea119fa 0))
        (apply_generator top 3 0x3d4233dd 0))
      (apply_generator top 4 0x2a1462b3 0)

apply_generators-chain : (top chk : ℕ) → apply_generators top chk ≡ chain top chk
unfolding apply_generators chain
apply_generators-chain top chk =
    apply_generator-xor top 4 0x2a1462b3 _
    ∙ ap (λ t. bit_xor t (apply_generator top 4 0x2a1462b3 0))
        (apply_generator-xor top 3 0x3d4233dd _
          ∙ ap (λ t. bit_xor t (apply_generator top 3 0x3d4233dd 0))
              (apply_generator-xor top 2 0x1ea119fa _
                ∙ ap (λ t. bit_xor t (apply_generator top 2 0x1ea119fa 0))
                    (apply_generator-xor top 1 0x26508e6d _
                      ∙ ap (λ t. bit_xor t (apply_generator top 1 0x26508e6d 0))
                          (apply_generator-xor top 0 0x3b6a57b2 chk))))

chain-xor : (top chk : ℕ) → chain top chk ≡ bit_xor chk (chain top 0)
unfolding chain
chain-xor top chk = simp (bit_xor_assoc, zero-bit_xor)

-- The generators are added to what is there.
apply_generators-xor : (top chk : ℕ) → apply_generators top chk ≡ bit_xor chk (mask top)
unfolding mask
apply_generators-xor top chk =
    apply_generators-chain top chk
    ∙ chain-xor top chk
    ∙ ap (bit_xor chk) (sym (apply_generators-chain top 0))

split-xor :
    (a b : ℕ)
    → (bit_xor a b ≡ bit_xor (a / 2 ^ 25) (b / 2 ^ 25) * 2 ^ 25 + bit_xor (a % 2 ^ 25) (b % 2 ^ 25))
      × (bit_xor (a % 2 ^ 25) (b % 2 ^ 25) < 2 ^ 25)
split-xor a b = ground (
  arith,
  bit_xor_fields 25 (a / 2 ^ 25) (b / 2 ^ 25) (a % 2 ^ 25) (b % 2 ^ 25) (omega arith) (omega arith),
)

-- A state of 30 bits shifted by 5, without its high bits.
unfoldable pub shifted : ℕ → ℕ
shifted c = c % 2 ^ 25 * 2 ^ 5 % 2 ^ 32

shifted-xor : (a b : ℕ) → shifted (bit_xor a b) ≡ bit_xor (shifted a) (shifted b)
unfolding shifted
shifted-xor a b = ground (
  arith,
  split-xor a b,
  bit_xor_fields 5 (a % 2 ^ 25) (b % 2 ^ 25) 0 0 (omega arith) (omega arith),
)

top-xor : (a b : ℕ) → bit_xor a b / 2 ^ 25 ≡ bit_xor (a / 2 ^ 25) (b / 2 ^ 25)
top-xor a b = ground (arith, split-xor a b)

pub polymod_step-lem :
    (c v : ℕ) → polymod_step c v ≡ bit_xor (bit_xor (shifted c) v) (mask (c / 2 ^ 25))
unfolding polymod_step shifted
polymod_step-lem c v = apply_generators-xor _ _

exchange : (a b c d : ℕ) → bit_xor (bit_xor a b) (bit_xor c d) ≡ bit_xor (bit_xor a c) (bit_xor b d)
exchange a b c d = simp bit_xor_assoc (
    ap (bit_xor a)
      (sym (bit_xor_assoc b c d) ∙ ap (λ t. bit_xor t d) (bit_xor_comm b c) ∙ bit_xor_assoc c b d))

pub polymod_step-xor :
    (a b v w : ℕ)
    → a < 2 ^ 30
    → b < 2 ^ 30
    → polymod_step (bit_xor a b) (bit_xor v w) ≡ bit_xor (polymod_step a v) (polymod_step b w)
polymod_step-xor a b v w p q =
    polymod_step-lem _ _
    ∙ rw
        (
          shifted-xor,
          top-xor,
          mask-xor (a / 2 ^ 25) (b / 2 ^ 25) (omega arith) (omega arith),
          exchange (shifted a) (shifted b) v w,
        )
        (exchange (bit_xor (shifted a) v) (bit_xor (shifted b) w) (mask (a / 2 ^ 25))
            (mask (b / 2 ^ 25))
          ∙ ap₂ bit_xor (sym (polymod_step-lem a v)) (sym (polymod_step-lem b w)))
