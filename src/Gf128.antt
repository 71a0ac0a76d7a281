-- ===== src/Gf128.antt =====
-- kkw/src/gf128.c: GF(2^128) in polynomial basis, as arrays of 32-bit limbs.
use hash_blind_signatures.Common.{
  ℕ, zero, suc, ◌+◌, ◌-◌, ◌*◌, ◌/◌, ◌%◌, ◌^◌, bit_xor, List, Bytes, get_or, set, drop, u32, u64,
  put_le32, ltb, ◌==◌, if◌then◌else◌, replicate, tabulate, concat,
}
use hash_blind_signatures.Xmss.Codec.{get_le32}

abbrev pub Limbs : Type 0
Limbs = List ℕ

-- `acc[i] ^= v`
abbrev pub xor_at : Limbs → ℕ → ℕ → Limbs
xor_at acc i v = set acc i (bit_xor (get_or acc i 0) v)

unfoldable pub word_shift_xor : Limbs → ℕ → ℕ → Limbs
word_shift_xor acc word pos =
    let wq = pos / 2 ^ 5 in
    let v = u64 (word * 2 ^ (pos % 32)) in
    let low = xor_at acc wq (u32 v) in
    if ltb (wq + 1) 8 then xor_at low (wq + 1) (u32 (v / 2 ^ 32)) else low

-- `acc[k >> 5] ^= 1u << (k & 31)`
abbrev pub flip_bit : Limbs → ℕ → Limbs
flip_bit acc k = xor_at acc (k / 2 ^ 5) (u32 (2 ^ (k % 32)))

-- `(w[k >> 5] >> (k & 31)) & 1u`
abbrev pub limb_bit : Limbs → ℕ → ℕ
limb_bit w k = get_or w (k / 2 ^ 5) 0 / 2 ^ (k % 32) % 2

-- One round of the reduction, at bit `i` from 255 down to 128.
unfoldable pub reduce_bit : Limbs → ℕ → Limbs
reduce_bit acc i =
    let t = i - 128 in
    if limb_bit acc i == 0
    then acc
    else flip_bit (flip_bit (flip_bit (flip_bit (flip_bit acc i) (t + 7)) (t + 2)) (t + 1)) (t + 0)

-- `left` rounds, the first at bit `127 + left`.
unfoldable pub reduce_loop : ℕ → Limbs → Limbs
reduce_loop zero acc = acc
reduce_loop (suc left) acc = reduce_loop left (reduce_bit acc (128 + left))

unfoldable pub gf128_reduce : Limbs → Limbs
gf128_reduce acc = tabulate 4 (get_or_zero (reduce_loop 128 acc))
  where
    get_or_zero : Limbs → ℕ → ℕ
    get_or_zero w i = get_or w i 0

-- The inner loop: the four words of `x`, shifted by `j`.
unfoldable pub add_shifted : Limbs → Limbs → ℕ → Limbs
add_shifted acc x j =
    word_shift_xor
      (word_shift_xor
        (word_shift_xor (word_shift_xor acc (get_or x 0 0) (32 * 0 + j)) (get_or x 1 0)
          (32 * 1 + j))
        (get_or x 2 0) (32 * 2 + j))
      (get_or x 3 0) (32 * 3 + j)

-- The outer loop from bit `j`, with `left` rounds to go.
unfoldable pub mul_loop : ℕ → ℕ → Limbs → Limbs → Limbs → Limbs
mul_loop zero j x y acc = acc
mul_loop (suc left) j x y acc =
    mul_loop left (j + 1) x y (if limb_bit y j == 0 then acc else add_shifted acc x j)

unfoldable pub gf128_mul_words : Limbs → Limbs → Limbs
gf128_mul_words x y = gf128_reduce (mul_loop 128 0 x y (replicate 8 0))

-- `w[i]` from `b[4 * i .. 4 * i + 3]`
unfoldable pub gf128_load : Bytes → Limbs
gf128_load b = tabulate 4 (λ i. get_le32 (drop (4 * i) b))

unfoldable pub gf128_store : Limbs → Bytes
gf128_store w = concat (tabulate 4 (λ i. put_le32 (get_or w i 0)))

unfoldable pub gf128_mul : Bytes → Bytes → Bytes
gf128_mul x y = gf128_store (gf128_mul_words (gf128_load x) (gf128_load y))
