-- ===== src/Circuit/Adder/Mask.antt =====
-- `prefix_xor_shift` of the circuit's adders: each bit is the sum of the bits below it.
use native.Mathlib.Nat.{mul_assoc, mul-add-mod_self_right, div-add-mod', mul-mod_left}
use hash_blind_signatures.Common.{
  ℕ, suc, ◌+◌, ◌*◌, ◌/◌, ◌^◌, ◌<◌, bit_xor, ◌≡◌, ◌∙◌, sym, ap, arith, u32, two-pow-add,
}
use hash_blind_signatures.Bits.{xor_comm, xor_self, xor-zero, zero-xor, xor_cancel}
use hash_blind_signatures.Bits.Width.{xor-shl, xor-low, bit_of, bit_of-xor, bit_of-low, bit_of-half}
use hash_blind_signatures.Circuit.Shares.{prefix_round, prefix_xor_shift}
use hash_blind_signatures.Circuit.Shares.Laws.{xor_medial}

-- `v << k`
abbrev shl : ℕ → ℕ → ℕ
shl v k = u32 (v * 2 ^ k)

shl-xor : (a b k : ℕ) → shl (bit_xor a b) k ≡ bit_xor (shl a k) (shl b k)
shl-xor a b k = ap (λ t. u32 t) (sym (xor-shl a b k)) ∙ xor-low (a * 2 ^ k) (b * 2 ^ k) 32

shl-shl : (v j k : ℕ) → shl (shl v j) k ≡ shl v (j + k)
shl-shl v j k =
    sym (mul-add-mod_self_right (v * 2 ^ j / 2 ^ 32 * 2 ^ k) (2 ^ 32) (u32 (v * 2 ^ j) * 2 ^ k))
    ∙ ap (λ t. u32 t) whole
  where
    whole : v * 2 ^ j / 2 ^ 32 * 2 ^ k * 2 ^ 32 + u32 (v * 2 ^ j) * 2 ^ k ≡ v * 2 ^ (j + k)
    whole = omega (
      arith,
      ap (λ (t : ℕ). t * 2 ^ k) (div-add-mod' (v * 2 ^ j) (2 ^ 32)),
      ap (λ (t : ℕ). v * t) (two-pow-add j k),
      mul_assoc v (2 ^ j) (2 ^ k),
    )

-- A round on a word that was rounded.
round_round :
    (v j k : ℕ)
    → prefix_round (prefix_round v j) k
      ≡ bit_xor (bit_xor v (shl v j)) (bit_xor (shl v k) (shl v (j + k)))
round_round v j k =
    ap (bit_xor (bit_xor v (shl v j)))
      (shl-xor v (shl v j) k ∙ ap (bit_xor (shl v k)) (shl-shl v j k))

round_comm : (v j k : ℕ) → prefix_round (prefix_round v j) k ≡ prefix_round (prefix_round v k) j
round_comm v j k =
    round_round v j k
    ∙ xor_medial v (shl v j) (shl v k) (shl v (j + k))
    ∙ ap (λ t. bit_xor (bit_xor v (shl v k)) (bit_xor (shl v j) (shl v t))) swap
    ∙ sym (round_round v k j)
  where
    swap : j + k ≡ k + j
    swap = omega arith

-- Two rounds by `k` are one by `2 k`.
round_twice : (v k : ℕ) → prefix_round (prefix_round v k) k ≡ prefix_round v (k + k)
round_twice v k =
    round_round v k k
    ∙ ap (λ t. bit_xor t (bit_xor (shl v k) (shl v (k + k)))) (xor_comm v (shl v k))
    ∙ xor_medial (shl v k) v (shl v k) (shl v (k + k))
    ∙ ap (λ t. bit_xor t (bit_xor v (shl v (k + k)))) (xor_self (shl v k))
    ∙ zero-xor (bit_xor v (shl v (k + k)))

-- The five rounds.
abbrev prefixes : ℕ → ℕ
prefixes v = prefix_round (prefix_round (prefix_round (prefix_round (prefix_round v 1) 2) 4) 8) 16

-- One more round by 1 undoes them.
prefixes-undone : (v : ℕ) → v < 2 ^ 32 → prefix_round (prefixes v) 1 ≡ v
prefixes-undone v h =
    round_comm (prefix_round (prefix_round (prefix_round (prefix_round v 1) 2) 4) 8) 16 1
    ∙ ap (λ t. prefix_round t 16)
        (round_comm (prefix_round (prefix_round (prefix_round v 1) 2) 4) 8 1
          ∙ ap (λ t. prefix_round t 8)
              (round_comm (prefix_round (prefix_round v 1) 2) 4 1
                ∙ ap (λ t. prefix_round t 4)
                    (round_comm (prefix_round v 1) 2 1
                      ∙ ap (λ t. prefix_round t 2) (round_twice v 1)
                      ∙ round_twice v 2)
                ∙ round_twice v 4)
          ∙ round_twice v 8)
    ∙ round_twice v 16
    ∙ ap (bit_xor v) (mul-mod_left v (2 ^ 32))
    ∙ xor-zero v

prefixes-sum : (v : ℕ) → v < 2 ^ 32 → prefixes v ≡ bit_xor v (prefix_xor_shift v)
unfolding prefix_xor_shift
prefixes-sum v h =
    sym (xor_cancel (prefixes v) (shl (prefixes v) 1))
    ∙ ap (λ t. bit_xor t (shl (prefixes v) 1)) (prefixes-undone v h)

pub prefix_xor_shift-first : (v : ℕ) → bit_of (prefix_xor_shift v) 0 ≡ 0
unfolding prefix_xor_shift
prefix_xor_shift-first v = omega arith

-- Each bit is the one below it, and the bit of the word there.
pub prefix_xor_shift-next :
    (v b : ℕ)
    → v < 2 ^ 32
    → suc b < 32
    → bit_of (prefix_xor_shift v) (suc b) ≡ bit_xor (bit_of v b) (bit_of (prefix_xor_shift v) b)
prefix_xor_shift-next v b h hb =
    cut
    ∙ bit_of-half (prefixes v * 2 ^ 1) b
    ∙ ap (λ t. bit_of t b) (half (prefixes v) ∙ prefixes-sum v h)
    ∙ bit_of-xor v (prefix_xor_shift v) b
  where
    cut : bit_of (prefix_xor_shift v) (suc b) ≡ bit_of (prefixes v * 2 ^ 1) (suc b)
    cut = unfold prefix_xor_shift in bit_of-low (prefixes v * 2 ^ 1) (suc b) 32 hb

    half : (t : ℕ) → t * 2 ^ 1 / 2 ≡ t
    half t = omega arith
