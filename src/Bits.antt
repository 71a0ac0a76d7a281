-- ===== src/Bits.antt =====
-- `^`, `&` and `|` on words of any width: one equation for the lowest digit, and the laws that
-- follow by going from `a / 2` to `a`.
pub mod Width
use Prim.Native.Nat.{
  min, max, digits, bitwise, differ, bit_and-bitwise, bit_or-bitwise, bit_xor-bitwise,
}
use hash_blind_signatures.Common.{
  ℕ, zero, suc, ◌+◌, ◌-◌, ◌*◌, ◌/◌, ◌%◌, ◌^◌, ◌≤◌, ◌<◌, bit_and, bit_or, bit_xor, two-pow-suc, ◌≡◌,
  refl, ◌∙◌, sym, ap, ap₂, arith, ◌⊎◌, inl, inr, if◌then◌else◌, ◌==◌,
}

-- What an operation on the digits does past the end of the first number, and on a digit.
module _ (tail : ℕ → ℕ) (digit : ℕ → ℕ → ℕ) where
  -- Digits of 0, with any fuel.
  digits_of_zero : (fuel y : ℕ) → digits tail digit fuel 0 y ≡ tail y
  digits_of_zero zero y = refl
  digits_of_zero (suc fuel) y = refl

  -- Two amounts of fuel that both reach the number give the same digits.
  digits_enough :
      (bound fuel x y : ℕ)
      → x ≤ bound
      → bound ≤ fuel
      → digits tail digit fuel x y ≡ digits tail digit bound x y
  digits_enough bound fuel zero y low high = digits_of_zero fuel y ∙ sym (digits_of_zero bound y)
  digits_enough (suc bound) (suc fuel) (suc x) y low high =
      ap (λ t. t * 2 + digit (suc x % 2) (y % 2))
        (digits_enough bound fuel (suc x / 2) (y / 2) (omega arith) (omega arith))
  digits_enough zero fuel (suc x) y low high = absurd (omega arith)
  digits_enough (suc bound) zero (suc x) y low high = absurd (omega arith)

  bitwise_digit :
      (x y : ℕ)
      → bitwise tail digit (suc x) y
        ≡ bitwise tail digit (suc x / 2) (y / 2) * 2 + digit (suc x % 2) (y % 2)
  bitwise_digit x y =
      ap (λ t. t * 2 + digit (suc x % 2) (y % 2))
        (digits_enough (suc x / 2) x (suc x / 2) (y / 2) (omega arith) (omega arith))

differ-zero : (b : ℕ) → differ 0 b ≡ b
differ-zero b = refl

pub xor_step : (a b : ℕ) → bit_xor a b ≡ bit_xor (a / 2) (b / 2) * 2 + differ (a % 2) (b % 2)
xor_step zero b = simp bit_xor-bitwise (omega arith)
xor_step (suc a) b = simp bit_xor-bitwise (bitwise_digit (λ y. y) differ a b)

pub and_step : (a b : ℕ) → bit_and a b ≡ bit_and (a / 2) (b / 2) * 2 + min (a % 2) (b % 2)
and_step zero b = simp bit_and-bitwise (omega arith)
and_step (suc a) b = simp bit_and-bitwise (bitwise_digit (λ y. 0) min a b)

pub differ-lt : (a b : ℕ) → a < 2 → b < 2 → differ a b < 2
differ-lt zero b p q = q
differ-lt (suc zero) zero p q = p
differ-lt (suc zero) (suc zero) p q = omega arith
differ-lt (suc zero) (suc (suc b)) p q = absurd (omega arith)
differ-lt (suc (suc a)) b p q = absurd (omega arith)

pub xor-div2 : (a b : ℕ) → bit_xor a b / 2 ≡ bit_xor (a / 2) (b / 2)
xor-div2 a b = omega (arith, xor_step a b, differ-lt (a % 2) (b % 2) (omega arith) (omega arith))

pub xor-mod2 : (a b : ℕ) → bit_xor a b % 2 ≡ differ (a % 2) (b % 2)
xor-mod2 a b = omega (arith, xor_step a b, differ-lt (a % 2) (b % 2) (omega arith) (omega arith))

pub and-div2 : (a b : ℕ) → bit_and a b / 2 ≡ bit_and (a / 2) (b / 2)
and-div2 a b = omega (arith, and_step a b)

pub and-mod2 : (a b : ℕ) → bit_and a b % 2 ≡ min (a % 2) (b % 2)
and-mod2 a b = omega (arith, and_step a b)

pub zero-xor : (b : ℕ) → bit_xor 0 b ≡ b
zero-xor b = simp bit_xor-bitwise

by_half : (a b : ℕ) → a % 2 ≡ b % 2 → a / 2 ≡ b / 2 → a ≡ b
by_half a b p q = omega arith

-- The digit laws that the word laws rest on.
differ_comm : (a b : ℕ) → a < 2 → b < 2 → differ a b ≡ differ b a
differ_comm zero zero p q = refl
differ_comm zero (suc b) p q = refl
differ_comm (suc a) zero p q = refl
differ_comm (suc zero) (suc zero) p q = refl
differ_comm (suc zero) (suc (suc b)) p q = absurd (omega arith)
differ_comm (suc (suc a)) (suc b) p q = absurd (omega arith)

differ_assoc : (a b c : ℕ) → a < 2 → b < 2 → c < 2 → differ (differ a b) c ≡ differ a (differ b c)
differ_assoc zero b c p q r = refl
differ_assoc (suc zero) zero c p q r = refl
differ_assoc (suc zero) (suc zero) zero p q r = refl
differ_assoc (suc zero) (suc zero) (suc zero) p q r = refl
differ_assoc (suc zero) (suc zero) (suc (suc c)) p q r = absurd (omega arith)
differ_assoc (suc zero) (suc (suc b)) c p q r = absurd (omega arith)
differ_assoc (suc (suc a)) b c p q r = absurd (omega arith)

differ_self : (a : ℕ) → differ a a ≡ 0
differ_self zero = refl
differ_self (suc a) = differ_self a

min-differ : (a b c : ℕ) → a < 2 → b < 2 → c < 2 → min a (differ b c) ≡ differ (min a b) (min a c)
min-differ zero zero zero p q r = refl
min-differ zero zero (suc zero) p q r = refl
min-differ zero zero (suc (suc c)) p q r = absurd (omega arith)
min-differ zero (suc zero) zero p q r = refl
min-differ zero (suc zero) (suc zero) p q r = refl
min-differ zero (suc zero) (suc (suc c)) p q r = absurd (omega arith)
min-differ zero (suc (suc b)) c p q r = absurd (omega arith)
min-differ (suc zero) zero zero p q r = refl
min-differ (suc zero) zero (suc zero) p q r = refl
min-differ (suc zero) zero (suc (suc c)) p q r = absurd (omega arith)
min-differ (suc zero) (suc zero) zero p q r = refl
min-differ (suc zero) (suc zero) (suc zero) p q r = refl
min-differ (suc zero) (suc zero) (suc (suc c)) p q r = absurd (omega arith)
min-differ (suc zero) (suc (suc b)) c p q r = absurd (omega arith)
min-differ (suc (suc a)) b c p q r = absurd (omega arith)

bit_lt : (a : ℕ) → a % 2 < 2
bit_lt a = omega arith

-- Each law for numbers up to `n`.
xor_comm_upto : (n a b : ℕ) → a ≤ n → b ≤ n → bit_xor a b ≡ bit_xor b a
xor_comm_upto zero zero zero p q = refl
xor_comm_upto zero zero (suc b) p q = absurd (omega arith)
xor_comm_upto zero (suc a) b p q = absurd (omega arith)
xor_comm_upto (suc n) a b p q =
    by_half _ _
      (xor-mod2 a b ∙ differ_comm (a % 2) (b % 2) (bit_lt a) (bit_lt b) ∙ sym (xor-mod2 b a))
      (xor-div2 a b
        ∙ xor_comm_upto n (a / 2) (b / 2) (omega arith) (omega arith)
        ∙ sym (xor-div2 b a))

pub xor_comm : (a b : ℕ) → bit_xor a b ≡ bit_xor b a
xor_comm a b = xor_comm_upto (a + b) a b (omega arith) (omega arith)

xor_assoc_upto :
    (n a b c : ℕ) → a ≤ n → b ≤ n → c ≤ n → bit_xor (bit_xor a b) c ≡ bit_xor a (bit_xor b c)
xor_assoc_upto zero zero zero zero p q r = refl
xor_assoc_upto zero zero zero (suc c) p q r = absurd (omega arith)
xor_assoc_upto zero zero (suc b) c p q r = absurd (omega arith)
xor_assoc_upto zero (suc a) b c p q r = absurd (omega arith)
xor_assoc_upto (suc n) a b c p q r =
    by_half _ _
      (xor-mod2 (bit_xor a b) c
        ∙ ap (λ t. differ t (c % 2)) (xor-mod2 a b)
        ∙ differ_assoc (a % 2) (b % 2) (c % 2) (bit_lt a) (bit_lt b) (bit_lt c)
        ∙ sym (ap (differ (a % 2)) (xor-mod2 b c))
        ∙ sym (xor-mod2 a (bit_xor b c)))
      (xor-div2 (bit_xor a b) c
        ∙ ap (λ t. bit_xor t (c / 2)) (xor-div2 a b)
        ∙ xor_assoc_upto n (a / 2) (b / 2) (c / 2) (omega arith) (omega arith) (omega arith)
        ∙ sym (ap (bit_xor (a / 2)) (xor-div2 b c))
        ∙ sym (xor-div2 a (bit_xor b c)))

pub xor_assoc : (a b c : ℕ) → bit_xor (bit_xor a b) c ≡ bit_xor a (bit_xor b c)
xor_assoc a b c = xor_assoc_upto (a + b + c) a b c (omega arith) (omega arith) (omega arith)

xor_self_upto : (n a : ℕ) → a ≤ n → bit_xor a a ≡ 0
xor_self_upto zero zero p = refl
xor_self_upto zero (suc a) p = absurd (omega arith)
xor_self_upto (suc n) a p =
    by_half _ _ (xor-mod2 a a ∙ differ_self (a % 2) ∙ omega arith)
      (xor-div2 a a ∙ xor_self_upto n (a / 2) (omega arith) ∙ omega arith)

pub xor_self : (a : ℕ) → bit_xor a a ≡ 0
xor_self a = xor_self_upto a a (omega arith)

pub xor-zero : (a : ℕ) → bit_xor a 0 ≡ a
xor-zero a = xor_comm a 0 ∙ zero-xor a

-- `a ^ b ^ b` is `a`.
pub xor_cancel : (a b : ℕ) → bit_xor (bit_xor a b) b ≡ a
xor_cancel a b = xor_assoc a b b ∙ ap (bit_xor a) (xor_self b) ∙ xor-zero a

pub xor_left_comm : (a b c : ℕ) → bit_xor a (bit_xor b c) ≡ bit_xor b (bit_xor a c)
xor_left_comm a b c = sym (xor_assoc a b c) ∙ ap (λ t. bit_xor t c) (xor_comm a b) ∙ xor_assoc b a c

and_comm_upto : (n a b : ℕ) → a ≤ n → b ≤ n → bit_and a b ≡ bit_and b a
and_comm_upto zero zero zero p q = refl
and_comm_upto zero zero (suc b) p q = absurd (omega arith)
and_comm_upto zero (suc a) b p q = absurd (omega arith)
and_comm_upto (suc n) a b p q =
    by_half _ _ (and-mod2 a b ∙ min_swap (a % 2) (b % 2) ∙ sym (and-mod2 b a)) (
      and-div2 a b
      ∙ and_comm_upto n (a / 2) (b / 2) (omega arith) (omega arith)
      ∙ sym (and-div2 b a))
  where
    min_swap : (x y : ℕ) → min x y ≡ min y x
    min_swap x y = omega arith

pub and_comm : (a b : ℕ) → bit_and a b ≡ bit_and b a
and_comm a b = and_comm_upto (a + b) a b (omega arith) (omega arith)

and-xor_upto :
    (n a b c : ℕ)
    → a ≤ n
    → b ≤ n
    → c ≤ n
    → bit_and a (bit_xor b c) ≡ bit_xor (bit_and a b) (bit_and a c)
and-xor_upto zero zero zero zero p q r = refl
and-xor_upto zero zero zero (suc c) p q r = absurd (omega arith)
and-xor_upto zero zero (suc b) c p q r = absurd (omega arith)
and-xor_upto zero (suc a) b c p q r = absurd (omega arith)
and-xor_upto (suc n) a b c p q r =
    by_half _ _
      (and-mod2 a (bit_xor b c)
        ∙ ap (min (a % 2)) (xor-mod2 b c)
        ∙ min-differ (a % 2) (b % 2) (c % 2) (bit_lt a) (bit_lt b) (bit_lt c)
        ∙ ap₂ differ (sym (and-mod2 a b)) (sym (and-mod2 a c))
        ∙ sym (xor-mod2 (bit_and a b) (bit_and a c)))
      (and-div2 a (bit_xor b c)
        ∙ ap (bit_and (a / 2)) (xor-div2 b c)
        ∙ and-xor_upto n (a / 2) (b / 2) (c / 2) (omega arith) (omega arith) (omega arith)
        ∙ ap₂ bit_xor (sym (and-div2 a b)) (sym (and-div2 a c))
        ∙ sym (xor-div2 (bit_and a b) (bit_and a c)))

-- `&` distributes over `^`.
pub and-xor : (a b c : ℕ) → bit_and a (bit_xor b c) ≡ bit_xor (bit_and a b) (bit_and a c)
and-xor a b c = and-xor_upto (a + b + c) a b c (omega arith) (omega arith) (omega arith)

pub xor-and : (a b c : ℕ) → bit_and (bit_xor a b) c ≡ bit_xor (bit_and a c) (bit_and b c)
xor-and a b c = and_comm (bit_xor a b) c ∙ and-xor c a b ∙ ap₂ bit_xor (and_comm c a) (and_comm c b)

pub and-zero : (a : ℕ) → bit_and a 0 ≡ 0
and-zero a = and_comm a 0 ∙ (simp bit_and-bitwise)

-- The index of a node's sibling.
xor-one_by_bit : (a : ℕ) → bit_xor a 1 ≡ a / 2 * 2 + differ (a % 2) 1
xor-one_by_bit a = omega (arith, xor_step a 1, xor-zero (a / 2))

pub xor-one : (a : ℕ) → bit_xor a 1 ≡ (if a % 2 == 0 then a + 1 else a - 1)
xor-one a = elim (parity (a % 2) (bit_lt a)) [ inl e ↦ even e | inr e ↦ odd e ]
  where
    parity : (d : ℕ) → d < 2 → (d ≡ 0) ⊎ (d ≡ 1)
    parity zero h = inl refl
    parity (suc zero) h = inr refl
    parity (suc (suc d)) h = absurd (omega arith)

    even : a % 2 ≡ 0 → bit_xor a 1 ≡ (if a % 2 == 0 then a + 1 else a - 1)
    even e = xor-one_by_bit a ∙ rw e (omega arith)

    odd : a % 2 ≡ 1 → bit_xor a 1 ≡ (if a % 2 == 0 then a + 1 else a - 1)
    odd e = xor-one_by_bit a ∙ rw e (omega arith)

or_step : (a b : ℕ) → bit_or a b ≡ bit_or (a / 2) (b / 2) * 2 + max (a % 2) (b % 2)
or_step zero b = simp bit_or-bitwise (omega arith)
or_step (suc a) b = simp bit_or-bitwise (bitwise_digit (λ y. y) max a b)

or-zero_upto : (n b : ℕ) → b ≤ n → bit_or 0 b ≡ b
or-zero_upto n b h = simp bit_or-bitwise

-- `r | (q << k)` is a sum where `r` fits below the shift.
pub or-shifted : (k q r : ℕ) → r < 2 ^ k → bit_or r (q * 2 ^ k) ≡ r + q * 2 ^ k
or-shifted zero q zero h = or-zero_upto (q * 2 ^ 0) (q * 2 ^ 0) (omega arith) ∙ omega arith
or-shifted zero q (suc r) h = absurd (omega arith)
or-shifted (suc k) q r h =
    or_step r (q * 2 ^ suc k)
    ∙ omega (
      arith,
      ap (λ t. bit_or (r / 2) t) halved,
      or-shifted k q (r / 2) (omega (arith, two-pow-suc k)),
      twice,
    )
  where
    twice : q * 2 ^ suc k ≡ 2 * (q * 2 ^ k)
    twice = ap (λ t. q * t) (two-pow-suc k) ∙ omega arith

    halved : q * 2 ^ suc k / 2 ≡ q * 2 ^ k
    halved = omega (arith, twice)
