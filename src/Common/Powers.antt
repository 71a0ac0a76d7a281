-- ===== src/Common/Powers.antt =====
-- Powers of two: the widths of tree levels.
use Prim.Native.Nat.{ℕ, zero, suc, ◌+◌, ◌*◌, ◌/◌, ◌^◌, ◌≤◌, ◌<◌}
use mathlib.Core.Path.{◌≡◌, ap, ◌∙◌}
use native.Mathlib.Nat.{pow-suc, one-le-pow, div-div-eq-div-mul, div-lt_iff_lt-mul, mul_comm}
use native.Mathlib.Omega.{arith}

pub two-pow-suc : (k : ℕ) → 2 ^ suc k ≡ 2 * 2 ^ k
two-pow-suc k = omega (arith, pow-suc 2 k)

pub two-pow_pos : (k : ℕ) → 1 ≤ 2 ^ k
two-pow_pos k = one-le-pow k 2 (omega arith)

pub two-pow_mono : (a b : ℕ) → a ≤ b → 2 ^ a ≤ 2 ^ b
two-pow_mono zero b h = two-pow_pos b
two-pow_mono (suc a) zero h = absurd (omega arith)
two-pow_mono (suc a) (suc b) h =
    omega (arith, two-pow-suc a, two-pow-suc b, two-pow_mono a b (omega arith))

pub two-pow-add : (a b : ℕ) → 2 ^ a * 2 ^ b ≡ 2 ^ (a + b)
two-pow-add zero b = omega (arith, ap (λ (t : ℕ). 2 ^ t) zero_left)
  where
    zero_left : 0 + b ≡ b
    zero_left = omega arith
two-pow-add (suc a) b = omega (
  arith,
  ap (λ (t : ℕ). t * 2 ^ b) (two-pow-suc a),
  two-pow-add a b,
  two-pow-suc (a + b),
  ap (λ (t : ℕ). 2 ^ t) suc_left,
)
  where
    suc_left : suc a + b ≡ suc (a + b)
    suc_left = omega arith

-- Shifting right by `k` and then by one.
pub half-shift : (a k : ℕ) → a / 2 ^ k / 2 ≡ a / 2 ^ suc k
half-shift a k = div-div-eq-div-mul a (2 ^ k) 2 ∙ ap (λ t. a / t) (omega (arith, two-pow-suc k))

-- Shifting by `k` and then by `m`.
pub shift-shift : (a k m : ℕ) → a / 2 ^ k / 2 ^ m ≡ a / 2 ^ (k + m)
shift-shift a k m = div-div-eq-div-mul a (2 ^ k) (2 ^ m) ∙ ap (λ t. a / t) (two-pow-add k m)

-- A number below `2 ^ (k + m)` shifted by `k` is below `2 ^ m`.
pub shift-lt : (a k m : ℕ) → a < 2 ^ (k + m) → a / 2 ^ k < 2 ^ m
shift-lt a k m h =
    (div-lt_iff_lt-mul (two-pow_pos k)).1 (omega (arith, two-pow-add k m, mul_comm (2 ^ k) (2 ^ m)))
