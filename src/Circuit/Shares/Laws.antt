-- ===== src/Circuit/Shares/Laws.antt =====
-- Sums of shares by `^`.
use native.Mathlib.Nat.{zero-div}
use hash_blind_signatures.Common.{
  ℕ, zero, suc, ◌<◌, ◌%◌, ◌^◌, two-pow_pos, bit_xor, bit_and, ◌≡◌, ◌∙◌, refl, sym, ap, ap₂, arith,
  ◌==◌, if◌then◌else◌,
}
use hash_blind_signatures.Bits.{
  xor_comm, xor_assoc, xor_self, xor-zero, xor_left_comm, and-xor, and-zero,
}
use hash_blind_signatures.Bits.Width.{bit_of, bit_of-xor, xor-lt}
use hash_blind_signatures.Circuit.Shares.{xor_from}

pub xor_medial :
    (a b c d : ℕ) → bit_xor (bit_xor a b) (bit_xor c d) ≡ bit_xor (bit_xor a c) (bit_xor b d)
xor_medial a b c d =
    xor_assoc a b (bit_xor c d)
    ∙ ap (bit_xor a) (xor_left_comm b c d)
    ∙ sym (xor_assoc a c (bit_xor b d))

pub xor_right_comm : (a b c : ℕ) → bit_xor (bit_xor a b) c ≡ bit_xor (bit_xor a c) b
xor_right_comm a b c = xor_assoc a b c ∙ ap (bit_xor a) (xor_comm b c) ∙ sym (xor_assoc a c b)

-- A term that both sides carry drops out.
pub xor_common : (a b t : ℕ) → bit_xor (bit_xor a t) (bit_xor b t) ≡ bit_xor a b
xor_common a b t =
    xor_medial a t b t ∙ ap (bit_xor (bit_xor a b)) (xor_self t) ∙ xor-zero (bit_xor a b)

pub xor_from_ext :
    (acc n : ℕ) (f g : ℕ → ℕ) → ((i : ℕ) → i < n → f i ≡ g i) → xor_from acc n f ≡ xor_from acc n g
unfolding xor_from
xor_from_ext acc zero f g h = refl
xor_from_ext acc (suc n) f g h =
    ap₂ bit_xor (xor_from_ext acc n f g (λ i hi. h i (omega arith))) (h n (omega arith))

-- The start of a sum can be added last.
pub xor_from-start : (acc n : ℕ) (f : ℕ → ℕ) → xor_from acc n f ≡ bit_xor acc (xor_from 0 n f)
unfolding xor_from
xor_from-start acc zero f = sym (xor-zero acc)
xor_from-start acc (suc n) f =
    ap (λ t. bit_xor t (f n)) (xor_from-start acc n f) ∙ xor_assoc acc (xor_from 0 n f) (f n)

pub xor_from-xor :
    (n : ℕ) (f g : ℕ → ℕ)
    → xor_from 0 n (λ i. bit_xor (f i) (g i)) ≡ bit_xor (xor_from 0 n f) (xor_from 0 n g)
unfolding xor_from
xor_from-xor zero f g = sym (xor_self 0)
xor_from-xor (suc n) f g =
    ap (λ t. bit_xor t (bit_xor (f n) (g n))) (xor_from-xor n f g)
    ∙ xor_medial (xor_from 0 n f) (xor_from 0 n g) (f n) (g n)

pub xor_from-and :
    (a n : ℕ) (f : ℕ → ℕ) → xor_from 0 n (λ i. bit_and a (f i)) ≡ bit_and a (xor_from 0 n f)
unfolding xor_from
xor_from-and a zero f = sym (and-zero a)
xor_from-and a (suc n) f =
    ap (λ t. bit_xor t (bit_and a (f n))) (xor_from-and a n f)
    ∙ sym (and-xor a (xor_from 0 n f) (f n))

-- A term that only party 0 adds.
pub xor_from_first :
    (c n : ℕ) (f : ℕ → ℕ)
    → xor_from 0 (suc n) (λ i. if i == 0 then bit_xor (f i) c else f i)
      ≡ bit_xor (xor_from 0 (suc n) f) c
unfolding xor_from
xor_from_first c zero f = sym (xor_assoc 0 (f 0) c)
xor_from_first c (suc n) f =
    ap (bit_xor (xor_from 0 (suc n) (λ i. if i == 0 then bit_xor (f i) c else f i))) later
    ∙ ap (λ t. bit_xor t (f (suc n))) (xor_from_first c n f)
    ∙ xor_right_comm (xor_from 0 (suc n) f) c (f (suc n))
  where
    later : (if suc n == 0 then bit_xor (f (suc n)) c else f (suc n)) ≡ f (suc n)
    later = ground arith

pub bit_of-xor_from :
    (n b : ℕ) (f : ℕ → ℕ) → bit_of (xor_from 0 n f) b ≡ xor_from 0 n (λ i. bit_of (f i) b)
unfolding xor_from
bit_of-xor_from zero b f = ap (λ t. t % 2) (zero-div (2 ^ b))
bit_of-xor_from (suc n) b f =
    bit_of-xor (xor_from 0 n f) (f n) b
    ∙ ap (λ t. bit_xor t (bit_of (f n) b)) (bit_of-xor_from n b f)

pub xor_from-zero : (n : ℕ) → xor_from 0 n (λ i. 0) ≡ 0
unfolding xor_from
xor_from-zero zero = refl
xor_from-zero (suc n) = ap (λ t. bit_xor t 0) (xor_from-zero n)

-- A sum of words is a word.
pub xor_from-lt : (n k : ℕ) (f : ℕ → ℕ) → ((i : ℕ) → i < n → f i < 2 ^ k) → xor_from 0 n f < 2 ^ k
unfolding xor_from
xor_from-lt zero k f h = two-pow_pos k
xor_from-lt (suc n) k f h =
    xor-lt (xor_from 0 n f) (f n) k (xor_from-lt n k f (λ i hi. h i (omega arith)))
      (h n (omega arith))
