-- ===== src/Bits/Width.antt =====
-- `^`, `&`, `<<` and `>>` on words of a width: what shifts and truncations do to them, and single
-- bits.
use Prim.Native.Nat.{min, differ}
use native.Mathlib.Nat.{
  min-le_left, mod-eq_of_lt, mul-add-mod_self_right, div-add-mod', mod-lt, div-div-eq-div-mul,
}
use hash_blind_signatures.Common.{
  ℕ, zero, suc, ◌+◌, ◌*◌, ◌/◌, ◌%◌, ◌^◌, ◌≤◌, ◌<◌, bit_and, bit_xor, ◌≡◌, ◌∙◌, sym, ap, ap₂, arith,
  two-pow-suc, two-pow_pos, half-shift,
}
use hash_blind_signatures.Bits.{
  xor-div2, and-div2, xor_step, xor-mod2, and-mod2, and_step, and_comm, and-zero,
}

-- The remainder that a decomposition shows.
pub mod_unique : (x q r m : ℕ) → x ≡ q * m + r → r < m → x % m ≡ r
mod_unique x q r m e h = ap (λ t. t % m) e ∙ mul-add-mod_self_right q m r ∙ mod-eq_of_lt h

-- The low `k + 1` bits are the lowest and the low `k` of the rest.
pub low-suc : (x k : ℕ) → x % 2 ^ suc k ≡ x / 2 % 2 ^ k * 2 + x % 2
low-suc x k =
    mod_unique x (x / 2 / 2 ^ k) (x / 2 % 2 ^ k * 2 + x % 2) (2 ^ suc k)
      (omega
        (arith, div-add-mod' (x / 2) (2 ^ k), ap (λ (t : ℕ). x / 2 / 2 ^ k * t) (two-pow-suc k)))
      (omega (arith, mod-lt (x / 2) (two-pow_pos k), two-pow-suc k))

-- Bit `k` stands above the low `k` bits.
pub low-next : (x k : ℕ) → x % 2 ^ suc k ≡ x % 2 ^ k + x / 2 ^ k % 2 * 2 ^ k
low-next x k =
    mod_unique x (x / 2 ^ k / 2) (x % 2 ^ k + x / 2 ^ k % 2 * 2 ^ k) (2 ^ suc k)
      (omega (
        arith,
        div-add-mod' x (2 ^ k),
        ap (λ (t : ℕ). t * 2 ^ k) (sym (div-add-mod' (x / 2 ^ k) 2)),
        ap (λ (t : ℕ). x / 2 ^ k / 2 * t) (two-pow-suc k),
      ))
      (omega (
        arith,
        mod-lt x (two-pow_pos k),
        two-pow-suc k,
        bit_small (x / 2 ^ k % 2) (2 ^ k) (omega arith),
      ))
  where
    bit_small : (b p : ℕ) → b < 2 → b * p ≤ p
    bit_small zero p h = omega arith
    bit_small (suc zero) p h = omega arith
    bit_small (suc (suc b)) p h = absurd (omega arith)

pub xor-shr : (a b k : ℕ) → bit_xor a b / 2 ^ k ≡ bit_xor (a / 2 ^ k) (b / 2 ^ k)
xor-shr a b zero = omega (arith, ap₂ bit_xor (whole a) (whole b))
  where
    whole : (t : ℕ) → t ≡ t / 2 ^ 0
    whole t = omega arith
xor-shr a b (suc k) =
    sym (half-shift (bit_xor a b) k)
    ∙ ap (λ t. t / 2) (xor-shr a b k)
    ∙ xor-div2 (a / 2 ^ k) (b / 2 ^ k)
    ∙ ap₂ bit_xor (half-shift a k) (half-shift b k)

pub and-shr : (a b k : ℕ) → bit_and a b / 2 ^ k ≡ bit_and (a / 2 ^ k) (b / 2 ^ k)
and-shr a b zero = omega (arith, ap₂ bit_and (whole a) (whole b))
  where
    whole : (t : ℕ) → t ≡ t / 2 ^ 0
    whole t = omega arith
and-shr a b (suc k) =
    sym (half-shift (bit_and a b) k)
    ∙ ap (λ t. t / 2) (and-shr a b k)
    ∙ and-div2 (a / 2 ^ k) (b / 2 ^ k)
    ∙ ap₂ bit_and (half-shift a k) (half-shift b k)

pub xor-double : (a b : ℕ) → bit_xor (a * 2) (b * 2) ≡ bit_xor a b * 2
xor-double a b =
    xor_step (a * 2) (b * 2)
    ∙ ap₂ (λ q r. q * 2 + r) (ap₂ bit_xor (half a) (half b)) (ap₂ differ (even a) (even b))
    ∙ omega arith
  where
    half : (t : ℕ) → t * 2 / 2 ≡ t
    half t = omega arith

    even : (t : ℕ) → t * 2 % 2 ≡ 0
    even t = omega arith

pub xor-shl : (a b k : ℕ) → bit_xor (a * 2 ^ k) (b * 2 ^ k) ≡ bit_xor a b * 2 ^ k
xor-shl a b zero = ap₂ bit_xor (once a) (once b) ∙ omega arith
  where
    once : (t : ℕ) → t * 2 ^ 0 ≡ t
    once t = omega arith
xor-shl a b (suc k) =
    ap₂ bit_xor (twice a) (twice b)
    ∙ xor-double (a * 2 ^ k) (b * 2 ^ k)
    ∙ ap (λ t. t * 2) (xor-shl a b k)
    ∙ sym (twice (bit_xor a b))
  where
    twice : (t : ℕ) → t * 2 ^ suc k ≡ t * 2 ^ k * 2
    twice t = omega (arith, ap (λ (s : ℕ). t * s) (two-pow-suc k))

pub xor-low : (a b k : ℕ) → bit_xor a b % 2 ^ k ≡ bit_xor (a % 2 ^ k) (b % 2 ^ k)
xor-low a b zero = omega (arith, ap₂ bit_xor (nothing a) (nothing b))
  where
    nothing : (t : ℕ) → t % 2 ^ 0 ≡ 0
    nothing t = omega arith
xor-low a b (suc k) =
    low-suc (bit_xor a b) k
    ∙ ap₂ (λ q r. q * 2 + r) (ap (λ t. t % 2 ^ k) (xor-div2 a b) ∙ xor-low (a / 2) (b / 2) k)
        (xor-mod2 a b)
    ∙ sym (
        xor_step (a % 2 ^ suc k) (b % 2 ^ suc k)
        ∙ ap₂ (λ q r. q * 2 + r) (ap₂ bit_xor (up a) (up b)) (ap₂ differ (down a) (down b)))
  where
    up : (t : ℕ) → t % 2 ^ suc k / 2 ≡ t / 2 % 2 ^ k
    up t = omega (arith, low-suc t k)

    down : (t : ℕ) → t % 2 ^ suc k % 2 ≡ t % 2
    down t = omega (arith, low-suc t k)

pub xor-lt : (a b k : ℕ) → a < 2 ^ k → b < 2 ^ k → bit_xor a b < 2 ^ k
xor-lt a b k ha hb = omega (
  arith,
  mod-lt (bit_xor a b) (two-pow_pos k),
  xor-low a b k,
  ap₂ bit_xor (mod-eq_of_lt ha) (mod-eq_of_lt hb),
)

pub and-le : (n a b : ℕ) → a ≤ n → bit_and a b ≤ a
and-le n zero b h = omega (arith, and_comm 0 b, and-zero b)
and-le zero (suc a) b h = absurd (omega arith)
and-le (suc n) (suc a) b h = omega (
  arith,
  and_step (suc a) b,
  and-le n (suc a / 2) (b / 2) (omega arith),
  min-le_left (suc a % 2) (b % 2),
)

pub and-lt : (a b k : ℕ) → a < 2 ^ k → bit_and a b < 2 ^ k
and-lt a b k h = omega (arith, and-le a a b (omega arith))

-- `(w >> b) & 1`
abbrev pub bit_of : ℕ → ℕ → ℕ
bit_of w b = w / 2 ^ b % 2

pub bit_of-xor : (x y k : ℕ) → bit_of (bit_xor x y) k ≡ bit_xor (bit_of x k) (bit_of y k)
bit_of-xor x y k = ap (λ t. t % 2) (xor-shr x y k) ∙ xor-low (x / 2 ^ k) (y / 2 ^ k) 1

pub bit_of-and : (x y k : ℕ) → bit_of (bit_and x y) k ≡ bit_and (bit_of x k) (bit_of y k)
bit_of-and x y k =
    ap (λ t. t % 2) (and-shr x y k)
    ∙ and-mod2 (x / 2 ^ k) (y / 2 ^ k)
    ∙ sym (
        and_step r s
        ∙ ap₂ (λ q t. q * 2 + t) (ap₂ bit_and (gone x) (gone y)) (ap₂ min (same x) (same y))
        ∙ digit (min r s))
  where
    r : ℕ
    r = bit_of x k

    s : ℕ
    s = bit_of y k

    digit : (d : ℕ) → bit_and 0 0 * 2 + d ≡ d
    digit d = omega (arith, and-zero 0)

    gone : (t : ℕ) → bit_of t k / 2 ≡ 0
    gone t = omega arith

    same : (t : ℕ) → bit_of t k % 2 ≡ bit_of t k
    same t = omega arith

-- The next bit is a bit of the half.
pub bit_of-half : (x k : ℕ) → bit_of x (suc k) ≡ bit_of (x / 2) k
bit_of-half x k =
    ap (λ t. t % 2) (ap (λ t. x / t) (two-pow-suc k) ∙ sym (div-div-eq-div-mul x 2 (2 ^ k)))

-- A bit below the width survives a truncation.
pub bit_of-low : (x k w : ℕ) → k < w → bit_of (x % 2 ^ w) k ≡ bit_of x k
bit_of-low x k zero h = absurd (omega arith)
bit_of-low x zero (suc w) h = ap (λ t. t / 2 ^ 0 % 2) (low-suc x w) ∙ omega arith
bit_of-low x (suc k) (suc w) h =
    bit_of-half (x % 2 ^ suc w) k
    ∙ ap (λ t. bit_of t k) up
    ∙ bit_of-low (x / 2) k w (omega arith)
    ∙ sym (bit_of-half x k)
  where
    up : x % 2 ^ suc w / 2 ≡ x / 2 % 2 ^ w
    up = omega (arith, low-suc x w)
