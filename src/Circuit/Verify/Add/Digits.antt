-- ===== src/Circuit/Verify/Add/Digits.antt =====
-- Single bits of the messages of the adder of kkw/src/MPC_prove_functions.c.
use hash_blind_signatures.Common.{
  ℕ, zero, suc, ◌+◌, ◌-◌, ◌*◌, ◌/◌, ◌%◌, ◌^◌, ◌≤◌, ◌<◌, bit_and, bit_xor, bit_or, ◌≡◌, refl, ◌∙◌,
  sym, ap, ap₂, arith, u32, ◌==◌, if◌then◌else◌, Bool-cases, inl, inr, two-pow-suc, two-pow_mono,
  two-pow_pos,
}
use native.Mathlib.Nat.{mod-eq_of_lt, mod-lt}
use hash_blind_signatures.Bits.{xor_assoc, xor-zero, and_comm, and-zero, or-shifted}
use hash_blind_signatures.Bits.Width.{bit_of, bit_of-xor, bit_of-half, low-next}
use hash_blind_signatures.Circuit.Shares.{xor_from}
use hash_blind_signatures.Circuit.Shares.Laws.{
  xor_right_comm, xor_from-start, xor_from-xor, xor_from-and,
}
use hash_blind_signatures.Circuit.Verify.{orig}
use hash_blind_signatures.Circuit.Verify.Laws.{xor_from_hidden}

-- A message without what only party 0 adds.
abbrev pub base : ℕ → ℕ → (ℕ → ℕ) → (ℕ → ℕ) → (ℕ → ℕ) → (ℕ → ℕ) → ℕ → ℕ
base xh yh lx ly t lz i =
    bit_xor (bit_xor (bit_xor (bit_and xh (ly i)) (bit_and yh (lx i))) (t i)) (lz i)

pub base-sum :
    (n xh yh : ℕ) (lx ly t lz : ℕ → ℕ)
    → xor_from 0 n (base xh yh lx ly t lz)
      ≡ bit_xor
          (bit_xor
            (bit_xor (bit_and xh (xor_from 0 n ly)) (bit_and yh (xor_from 0 n lx)))
            (xor_from 0 n t))
          (xor_from 0 n lz)
base-sum n xh yh lx ly t lz =
    xor_from-xor n (λ i. bit_xor (bit_xor (bit_and xh (ly i)) (bit_and yh (lx i))) (t i)) lz
    ∙ ap (λ s. bit_xor s (xor_from 0 n lz))
        (xor_from-xor n (λ i. bit_xor (bit_and xh (ly i)) (bit_and yh (lx i))) t
          ∙ ap (λ s. bit_xor s (xor_from 0 n t))
              (xor_from-xor n (λ i. bit_and xh (ly i)) (λ i. bit_and yh (lx i))
                ∙ ap₂ bit_xor (xor_from-and xh n ly) (xor_from-and yh n lx)))

-- Bits of `2 ^ k - 1`.
pub bit_of-ones : (k b : ℕ) → b < k → bit_of (2 ^ k - 1) b ≡ 1
bit_of-ones zero b h = absurd (omega arith)
bit_of-ones (suc k) zero h = omega (arith, two-pow-suc k, two-pow_pos k)
bit_of-ones (suc k) (suc b) h =
    bit_of-half (2 ^ suc k - 1) b ∙ ap (λ t. bit_of t b) half ∙ bit_of-ones k b (omega arith)
  where
    half : (2 ^ suc k - 1) / 2 ≡ 2 ^ k - 1
    half = omega (arith, two-pow-suc k, two-pow_pos k)

pub and-bit : (r : ℕ) → r < 2 → bit_and r 1 ≡ r
and-bit zero h = refl
and-bit (suc zero) h = refl
and-bit (suc (suc r)) h = absurd (omega arith)

-- One bit of the sum of four words that a message is made of.
pub bit_of-four :
    (p q s t b : ℕ)
    → bit_of (bit_xor (bit_xor (bit_xor p q) s) t) b
      ≡ bit_xor (bit_xor (bit_xor (bit_of p b) (bit_of q b)) (bit_of s b)) (bit_of t b)
bit_of-four p q s t b =
    bit_of-xor (bit_xor (bit_xor p q) s) t b
    ∙ ap (λ r. bit_xor r (bit_of t b))
        (bit_of-xor (bit_xor p q) s b ∙ ap (λ r. bit_xor r (bit_of s b)) (bit_of-xor p q b))

-- The messages of the slots at bit `b`, with the term of party 0 unless it is hidden, and the
-- hidden message, come to the sum of all messages.
pub hidden_and_slots :
    (m e b z : ℕ) (f : ℕ → ℕ)
    → e ≤ m
    → bit_xor (bit_of (if e == 0 then bit_xor (f e) z else f e) b) (
        bit_xor
          (bit_of (xor_from 0 m (λ j. f (orig j e))) b)
          (bit_and (if e == 0 then 0 else 1) (bit_of z b)))
      ≡ bit_of (bit_xor (xor_from 0 (suc m) f) z) b
hidden_and_slots m e b z f small = elim (Bool-cases (e == 0)) [
  | inl first ↦ rw first (
      ap₂ bit_xor (bit_of-xor (f e) z b)
        (ap (bit_xor s) (and_comm 0 (bit_of z b) ∙ and-zero (bit_of z b)) ∙ xor-zero s)
      ∙ xor_right_comm (bit_of (f e) b) (bit_of z b) s
      ∙ whole)
  | inr other ↦ rw other (
      ap (λ t. bit_xor (bit_of (f e) b) (bit_xor s t))
        (and_comm 1 (bit_of z b) ∙ and-bit (bit_of z b) (omega arith))
      ∙ sym (xor_assoc (bit_of (f e) b) s (bit_of z b))
      ∙ whole)
]
  where
    s : ℕ
    s = bit_of (xor_from 0 m (λ j. f (orig j e))) b

    whole :
        bit_xor (bit_xor (bit_of (f e) b) s) (bit_of z b)
        ≡ bit_of (bit_xor (xor_from 0 (suc m) f) z) b
    whole =
        ap (λ t. bit_xor t (bit_of z b))
          (sym (bit_of-xor (f e) (xor_from 0 m (λ j. f (orig j e))) b)
            ∙ ap (λ t. bit_of t b)
                (sym (xor_from-start (f e) m (λ j. f (orig j e))) ∙ xor_from_hidden e m f small))
        ∙ sym (bit_of-xor (xor_from 0 (suc m) f) z b)

-- One round of the loop over the bits: the low bits of the carries grow by one.
pub carries-grow :
    (ch w b d : ℕ)
    → suc b < 32
    → w ≡ ch % 2 ^ suc b
    → d ≡ bit_of ch (suc b)
    → bit_or w (u32 (d * 2 ^ (b + 1))) ≡ ch % 2 ^ suc (suc b)
carries-grow ch w b d hb low digit =
    ap (λ t. bit_or w (u32 (d * 2 ^ t))) one_up
    ∙ ap (bit_or w) (mod-eq_of_lt fits)
    ∙ or-shifted (suc b) d w (omega (arith, low, mod-lt ch (two-pow_pos (suc b))))
    ∙ ap₂ (λ r s. r + s * 2 ^ suc b) low digit
    ∙ sym (low-next ch (suc b))
  where
    one_up : b + 1 ≡ suc b
    one_up = omega arith

    at_most : (r p : ℕ) → r < 2 → r * p ≤ p
    at_most zero p h = omega arith
    at_most (suc zero) p h = omega arith
    at_most (suc (suc r)) p h = absurd (omega arith)

    fits : d * 2 ^ suc b < 2 ^ 32
    fits = omega (
      arith,
      at_most d (2 ^ suc b) (omega (arith, digit)),
      two-pow_mono (suc (suc b)) 32 (omega arith),
      two-pow-suc (suc b),
      two-pow_pos (suc b),
    )
