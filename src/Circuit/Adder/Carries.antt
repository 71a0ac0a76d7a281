-- ===== src/Circuit/Adder/Carries.antt =====
-- The masked carries of the circuit's adders, and how the verifier finds them: the bit of the
-- messages' sum is what the next carry adds.
use hash_blind_signatures.Common.{
  ℕ, suc, ◌+◌, ◌%◌, ◌^◌, ◌<◌, bit_and, bit_xor, ◌≡◌, ◌∙◌, sym, ap, ap₂, arith, u32,
}
use hash_blind_signatures.Bits.{xor_comm}
use hash_blind_signatures.Bits.Width.{bit_of, bit_of-xor, bit_of-and, xor-lt}
use hash_blind_signatures.Circuit.Shares.{xor_from, prefix_xor_shift}
use hash_blind_signatures.Circuit.Shares.Laws.{
  xor_medial, xor_from_ext, xor_from-xor, bit_of-xor_from, xor_from-zero, xor_from-lt,
}
use hash_blind_signatures.Circuit.Adder.{carry_word, carry_word-first, carry_word-next}
use hash_blind_signatures.Circuit.Adder.Mask.{prefix_xor_shift-first, prefix_xor_shift-next}

-- The sum of the masks of the carries.
abbrev pub mask_sum : ℕ → (ℕ → ℕ) → ℕ
mask_sum n lr = xor_from 0 n (λ i. prefix_xor_shift (lr i))

mask_sum-first : (n : ℕ) (lr : ℕ → ℕ) → bit_of (mask_sum n lr) 0 ≡ 0
mask_sum-first n lr =
    bit_of-xor_from n 0 (λ i. prefix_xor_shift (lr i))
    ∙ xor_from_ext 0 n (λ i. bit_of (prefix_xor_shift (lr i)) 0) (λ i. 0)
        (λ i hi. prefix_xor_shift-first (lr i))
    ∙ xor_from-zero n

mask_sum-next :
    (n b : ℕ) (lr : ℕ → ℕ)
    → ((i : ℕ) → i < n → lr i < 2 ^ 32)
    → suc b < 32
    → bit_of (mask_sum n lr) (suc b)
      ≡ bit_xor (bit_of (xor_from 0 n lr) b) (bit_of (mask_sum n lr) b)
mask_sum-next n b lr words hb =
    bit_of-xor_from n (suc b) (λ i. prefix_xor_shift (lr i))
    ∙ xor_from_ext 0 n (λ i. bit_of (prefix_xor_shift (lr i)) (suc b))
        (λ i. bit_xor (bit_of (lr i) b) (bit_of (prefix_xor_shift (lr i)) b))
        (λ i hi. prefix_xor_shift-next (lr i) b (words i hi) hb)
    ∙ xor_from-xor n (λ i. bit_of (lr i) b) (λ i. bit_of (prefix_xor_shift (lr i)) b)
    ∙ ap₂ bit_xor (sym (bit_of-xor_from n b lr))
        (sym (bit_of-xor_from n b (λ i. prefix_xor_shift (lr i))))

-- The masked carries of `xv + yv`.
abbrev pub masked_carries : ℕ → ℕ → ℕ → (ℕ → ℕ) → ℕ
masked_carries n xv yv lr = bit_xor (carry_word xv yv) (mask_sum n lr)

pub masked_carries-first : (n xv yv : ℕ) (lr : ℕ → ℕ) → masked_carries n xv yv lr % 2 ^ 1 ≡ 0
masked_carries-first n xv yv lr = omega (
  arith,
  bit_of-xor (carry_word xv yv) (mask_sum n lr) 0,
  ap₂ bit_xor (carry_word-first xv yv) (mask_sum-first n lr),
)

-- The next carry is this one, the product of the two words there, and the mask.
pub masked_carries-next :
    (n b xv yv : ℕ) (lr : ℕ → ℕ)
    → ((i : ℕ) → i < n → lr i < 2 ^ 32)
    → suc b < 32
    → bit_of (masked_carries n xv yv lr) (suc b)
      ≡ bit_xor (bit_of (masked_carries n xv yv lr) b) (
          bit_xor
            (bit_of (bit_and (bit_xor xv (carry_word xv yv)) (bit_xor yv (carry_word xv yv))) b)
            (bit_of (xor_from 0 n lr) b))
masked_carries-next n b xv yv lr words hb =
    bit_of-xor c (mask_sum n lr) (suc b)
    ∙ ap₂ bit_xor (carry_word-next xv yv b hb ∙ ap (bit_xor (bit_of c b)) (sym product)) (
        mask_sum-next n b lr words hb
        ∙ xor_comm (bit_of (xor_from 0 n lr) b) (bit_of (mask_sum n lr) b))
    ∙ xor_medial (bit_of c b) (bit_of (bit_and (bit_xor xv c) (bit_xor yv c)) b)
        (bit_of (mask_sum n lr) b) (bit_of (xor_from 0 n lr) b)
    ∙ ap
        (λ t.
          bit_xor t (
            bit_xor (bit_of (bit_and (bit_xor xv c) (bit_xor yv c)) b)
              (bit_of (xor_from 0 n lr) b)))
        (sym (bit_of-xor c (mask_sum n lr) b))
  where
    c : ℕ
    c = carry_word xv yv

    product :
        bit_of (bit_and (bit_xor xv c) (bit_xor yv c)) b
        ≡ bit_and (bit_xor (bit_of xv b) (bit_of c b)) (bit_xor (bit_of yv b) (bit_of c b))
    product =
        bit_of-and (bit_xor xv c) (bit_xor yv c) b
        ∙ ap₂ bit_and (bit_of-xor xv c b) (bit_of-xor yv c b)

pub masked_carries-lt :
    (n xv yv : ℕ) (lr : ℕ → ℕ) → xv < 2 ^ 32 → yv < 2 ^ 32 → masked_carries n xv yv lr < 2 ^ 32
unfolding prefix_xor_shift
masked_carries-lt n xv yv lr hx hy =
    xor-lt (carry_word xv yv) (mask_sum n lr) 32
      (xor-lt (bit_xor (u32 (xv + yv)) xv) yv 32 (xor-lt (u32 (xv + yv)) xv 32 (omega arith) hx) hy)
      (xor_from-lt n 32 (λ i. prefix_xor_shift (lr i)) (λ i hi. omega arith))
