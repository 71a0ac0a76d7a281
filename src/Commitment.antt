-- ===== src/Commitment.antt =====
-- kkw/src/commitment.c: the Halevi-Micali commitment over GF(2^128).
use hash_blind_signatures.Common.{
  ℕ, zero, suc, ◌+◌, ◌*◌, bit_xor, [], ◌++◌, Bytes, take, drop, concat, tabulate, codes, get_or,
}
use hash_blind_signatures.Platform.{Platform}
use hash_blind_signatures.Hash.{th_into}
use hash_blind_signatures.Gf128.{gf128_mul}

abbrev pub hm_nonces : ℕ
hm_nonces = 6

abbrev pub hm_lines_count : ℕ
hm_lines_count = 2

abbrev pub hm_elt : ℕ
hm_elt = 16

abbrev pub hm_r_bytes : ℕ
hm_r_bytes = hm_nonces * hm_elt

abbrev pub hm_a_bytes : ℕ
hm_a_bytes = hm_lines_count * hm_nonces * hm_elt

abbrev pub hm_b_bytes : ℕ
hm_b_bytes = hm_lines_count * hm_elt

abbrev pub hm_y_bytes : ℕ
hm_y_bytes = 32

abbrev pub hm_com_bytes : ℕ
hm_com_bytes = hm_a_bytes + hm_b_bytes + hm_y_bytes

-- `HM_ELT` bytes from an offset
abbrev pub elt_at : Bytes → ℕ → Bytes
elt_at buf o = take hm_elt (drop o buf)

-- `for t: acc[t] ^= prod[t]`
unfoldable pub xor_elt : Bytes → Bytes → Bytes
xor_elt acc prod = tabulate hm_elt (λ t. bit_xor (get_or acc t 0) (get_or prod t 0))

-- The loop over the nonces from `i`, with `left` to go.
unfoldable pub line_loop : Bytes → Bytes → ℕ → ℕ → ℕ → Bytes → Bytes
line_loop a r k zero i acc = acc
line_loop a r k (suc left) i acc =
    line_loop a r k left (i + 1)
      (xor_elt acc (gf128_mul (elt_at a ((k * hm_nonces + i) * hm_elt)) (elt_at r (i * hm_elt))))

unfoldable pub hm_lines : Bytes → Bytes → Bytes → Bytes
hm_lines m_hat a r =
    concat (tabulate hm_lines_count (λ k. line_loop a r k hm_nonces 0 (elt_at m_hat (k * hm_elt))))

abbrev pub hm_commitment : Bytes → Bytes → Bytes → Bytes
hm_commitment a b y = a ++ (b ++ y)

module _ (p : Platform) where
  unfoldable pub hm_y : Bytes → Bytes
  hm_y r = th_into p [] (codes "HMy") r hm_y_bytes

  unfoldable pub hm_digest : Bytes → Bytes
  hm_digest commitment = th_into p [] (codes "HMd") commitment 32

  -- The commitment and its digest.
  unfoldable pub hm_commit : Bytes → Bytes → Bytes → Bytes × Bytes
  hm_commit m_hat r a =
      let commitment = hm_commitment a (hm_lines m_hat a r) (hm_y r) in
      (commitment, hm_digest commitment)
