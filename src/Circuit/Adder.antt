-- ===== src/Circuit/Adder.antt =====
-- The carries of an addition, bit by bit, and the masks that the adders of the circuit give them.
pub mod Mask
pub mod Carries
use native.Mathlib.Nat.{mod-eq_of_lt}
use hash_blind_signatures.Common.{
  ℕ, zero, suc, ◌+◌, ◌-◌, ◌*◌, ◌/◌, ◌%◌, ◌^◌, ◌≤◌, ◌<◌, bit_and, bit_xor, ◌≡◌, refl, ◌∙◌, sym, ap,
  ap₂, arith, u32,
}
use hash_blind_signatures.Bits.Width.{bit_of, bit_of-xor, bit_of-low, bit_of-half}

-- The carry into bit `b` of `x + y + k`.
unfoldable pub carry_in : ℕ → ℕ → ℕ → ℕ → ℕ
carry_in x y k zero = k
carry_in x y k (suc b) = carry_in (x / 2) (y / 2) ((x % 2 + y % 2 + k) / 2) b

pub carry_in-lt : (x y k b : ℕ) → k < 2 → carry_in x y k b < 2
unfolding carry_in
carry_in-lt x y k zero h = h
carry_in-lt x y k (suc b) h = carry_in-lt (x / 2) (y / 2) ((x % 2 + y % 2 + k) / 2) b (omega arith)

-- A bit of a sum.
bit_of-sum : (x y k b : ℕ) → bit_of (x + y + k) b ≡ (bit_of x b + bit_of y b + carry_in x y k b) % 2
unfolding carry_in
bit_of-sum x y k zero = omega arith
bit_of-sum x y k (suc b) =
    bit_of-half (x + y + k) b
    ∙ ap (λ t. bit_of t b) halved
    ∙ bit_of-sum (x / 2) (y / 2) ((x % 2 + y % 2 + k) / 2) b
    ∙ ap₂ (λ r s. (r + s + carry_in (x / 2) (y / 2) ((x % 2 + y % 2 + k) / 2) b) % 2)
        (sym (bit_of-half x b)) (sym (bit_of-half y b))
  where
    halved : (x + y + k) / 2 ≡ x / 2 + y / 2 + (x % 2 + y % 2 + k) / 2
    halved = omega arith

-- The next carry.
carry_in-suc :
    (x y k b : ℕ) → carry_in x y k (suc b) ≡ (bit_of x b + bit_of y b + carry_in x y k b) / 2
unfolding carry_in
carry_in-suc x y k zero = omega arith
carry_in-suc x y k (suc b) =
    carry_in-suc (x / 2) (y / 2) ((x % 2 + y % 2 + k) / 2) b
    ∙ ap₂ (λ r s. (r + s + carry_in (x / 2) (y / 2) ((x % 2 + y % 2 + k) / 2) b) / 2)
        (sym (bit_of-half x b)) (sym (bit_of-half y b))

-- Three bits: their sum, and the carry out of it.
sum_digit : (r s t : ℕ) → r < 2 → s < 2 → t < 2 → bit_xor (bit_xor ((r + s + t) % 2) r) s ≡ t
sum_digit zero zero zero p q o = refl
sum_digit zero zero (suc zero) p q o = refl
sum_digit zero (suc zero) zero p q o = refl
sum_digit zero (suc zero) (suc zero) p q o = refl
sum_digit (suc zero) zero zero p q o = refl
sum_digit (suc zero) zero (suc zero) p q o = refl
sum_digit (suc zero) (suc zero) zero p q o = refl
sum_digit (suc zero) (suc zero) (suc zero) p q o = refl
sum_digit (suc (suc r)) s t p q o = absurd (omega arith)
sum_digit zero (suc (suc s)) t p q o = absurd (omega arith)
sum_digit (suc zero) (suc (suc s)) t p q o = absurd (omega arith)
sum_digit zero zero (suc (suc t)) p q o = absurd (omega arith)
sum_digit zero (suc zero) (suc (suc t)) p q o = absurd (omega arith)
sum_digit (suc zero) zero (suc (suc t)) p q o = absurd (omega arith)
sum_digit (suc zero) (suc zero) (suc (suc t)) p q o = absurd (omega arith)

carry_digit :
    (r s t : ℕ)
    → r < 2
    → s < 2
    → t < 2
    → (r + s + t) / 2 ≡ bit_xor t (bit_and (bit_xor r t) (bit_xor s t))
carry_digit zero zero zero p q o = refl
carry_digit zero zero (suc zero) p q o = refl
carry_digit zero (suc zero) zero p q o = refl
carry_digit zero (suc zero) (suc zero) p q o = refl
carry_digit (suc zero) zero zero p q o = refl
carry_digit (suc zero) zero (suc zero) p q o = refl
carry_digit (suc zero) (suc zero) zero p q o = refl
carry_digit (suc zero) (suc zero) (suc zero) p q o = refl
carry_digit (suc (suc r)) s t p q o = absurd (omega arith)
carry_digit zero (suc (suc s)) t p q o = absurd (omega arith)
carry_digit (suc zero) (suc (suc s)) t p q o = absurd (omega arith)
carry_digit zero zero (suc (suc t)) p q o = absurd (omega arith)
carry_digit zero (suc zero) (suc (suc t)) p q o = absurd (omega arith)
carry_digit (suc zero) zero (suc (suc t)) p q o = absurd (omega arith)
carry_digit (suc zero) (suc zero) (suc (suc t)) p q o = absurd (omega arith)

-- `(x + y) ^ x ^ y` on 32 bits
abbrev pub carry_word : ℕ → ℕ → ℕ
carry_word x y = bit_xor (bit_xor (u32 (x + y)) x) y

bit_of-carry_word : (x y b : ℕ) → b < 32 → bit_of (carry_word x y) b ≡ carry_in x y 0 b
bit_of-carry_word x y b h =
    bit_of-xor (bit_xor (u32 (x + y)) x) y b
    ∙ ap (λ t. bit_xor t (bit_of y b)) (bit_of-xor (u32 (x + y)) x b)
    ∙ ap (λ t. bit_xor (bit_xor t (bit_of x b)) (bit_of y b))
        (bit_of-low (x + y) b 32 h ∙ ap (λ t. bit_of t b) no_carry ∙ bit_of-sum x y 0 b)
    ∙ sum_digit (bit_of x b) (bit_of y b) (carry_in x y 0 b) (omega arith) (omega arith)
        (carry_in-lt x y 0 b (omega arith))
  where
    no_carry : x + y ≡ x + y + 0
    no_carry = omega arith

-- No carry goes into the lowest bit.
pub carry_word-first : (x y : ℕ) → bit_of (carry_word x y) 0 ≡ 0
unfolding carry_in
carry_word-first x y = bit_of-carry_word x y 0 (omega arith)

-- Each carry comes from the bits below it.
pub carry_word-next :
    (x y b : ℕ)
    → suc b < 32
    → bit_of (carry_word x y) (suc b)
      ≡ bit_xor (bit_of (carry_word x y) b) (
          bit_and
            (bit_xor (bit_of x b) (bit_of (carry_word x y) b))
            (bit_xor (bit_of y b) (bit_of (carry_word x y) b)))
carry_word-next x y b h =
    bit_of-carry_word x y (suc b) h
    ∙ carry_in-suc x y 0 b
    ∙ carry_digit (bit_of x b) (bit_of y b) (carry_in x y 0 b) (omega arith) (omega arith)
        (carry_in-lt x y 0 b (omega arith))
    ∙ ap (λ t. bit_xor t (bit_and (bit_xor (bit_of x b) t) (bit_xor (bit_of y b) t)))
        (sym (bit_of-carry_word x y b (omega arith)))
