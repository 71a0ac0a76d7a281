-- ===== src/Circuit/Views/Commitment.antt =====
-- The commitment inside the circuit: `mpc_gf128_mul` and `mpc_gf128_mul_verify` of
-- kkw/src/circuits.c, and the part of `building_views` and `verify` that recomputes the digest
-- of the commitment.
use hash_blind_signatures.Common.{
  ℕ, ◌+◌, ◌*◌, ◌/◌, ◌%◌, ◌^◌, refl, bit_xor, [], List, Bytes, replicate, tabulate, drop, codes,
  get_or,
}
use hash_blind_signatures.Gf128.{gf128_load, gf128_reduce, word_shift_xor}
use hash_blind_signatures.Commitment.{
  hm_nonces, hm_lines_count, hm_elt, hm_r_bytes, hm_a_bytes, hm_com_bytes,
}
use hash_blind_signatures.Protocol.User.{w_r_off, w_a_off}
use hash_blind_signatures.Circuit.Shares.{Masked, share, mw_const, mpc_xor}
use hash_blind_signatures.Circuit.Prove.Compress.{masked_at}
use hash_blind_signatures.Common.Comp.{Comp, ◌>>=◌, give, loop}
use hash_blind_signatures.Circuit.Engine.{
  Engine, IsCounted, Runs, Runs-do, Runs-map, Runs-loop, and_of, and_of-Runs,
}
use hash_blind_signatures.Circuit.Views.Lanes.{
  Buffer, lane, on_lanes, lane_word, stored, joined, slice, bitmask, input_of, public_input,
}
use hash_blind_signatures.Circuit.Input.{valid_sizes}

-- The shifted word of each share goes into its accumulator.
unfoldable pub shift_into : ℕ → Buffer → Masked → ℕ → Buffer
shift_into n acc x pos =
    (word_shift_xor acc.0 x.h pos, tabulate n (λ i. word_shift_xor (lane acc i) (share x i) pos))

-- The four words of an element at an offset.
unfoldable pub element_at : ℕ → Buffer → ℕ → List Masked
element_at n b off = tabulate 4 (lane_word n (on_lanes n (λ xs. gf128_load (drop off xs)) b))

-- `acc[w].h ^= Mk[w]`
abbrev pub add_public : List Masked → List ℕ → List Masked
add_public acc mk =
    tabulate 4 (λ w. record (masked_at acc w) { h = bit_xor (masked_at acc w).h (get_or mk w 0) })

module _ (E : Engine) where
  -- The inner loop: word `w` of `x`, under bit `j` of `y`.
  unfoldable pub mul_word : List Masked → Masked → ℕ → ℕ → Buffer → Comp E.State Buffer
  mul_word x mask j w acc = do
    z ← and_of E mask (masked_at x w)
    give (shift_into E.lanes acc z (32 * w + j))

  unfoldable pub mpc_gf128_mul : List Masked → List Masked → Comp E.State (List Masked)
  mpc_gf128_mul x y = do
    acc ←
        loop 128 0
          (λ j. loop 4 0 (mul_word x (bitmask E.lanes (masked_at y (j / 2 ^ 5)) (j % 32)) j))
          (replicate 8 0, replicate E.lanes (replicate 8 0))
    give (tabulate 4 (lane_word E.lanes (on_lanes E.lanes gf128_reduce acc)))

  -- One product of a line, added to the four words `acc`.
  unfoldable pub add_product : Buffer → ℕ → ℕ → List Masked → Comp E.State (List Masked)
  add_product w line idx acc = do
    p ←
        mpc_gf128_mul (element_at E.lanes w (w_a_off + (line * hm_nonces + idx) * hm_elt))
          (element_at E.lanes w (w_r_off + idx * hm_elt))
    give (tabulate 4 (λ t. mpc_xor E.lanes (masked_at acc t) (masked_at p t)))

  -- The bytes of one line, after those of the lines before.
  unfoldable pub line_bytes : Bytes → Buffer → ℕ → Buffer → Comp E.State Buffer
  line_bytes m_hat w line before = do
    acc ← loop hm_nonces 0 (add_product w line) (replicate 4 (mw_const E.lanes 0))
    give (
        joined E.lanes before
          (stored E.lanes (add_public acc (gf128_load (drop (line * hm_elt) m_hat)))))

  -- The digest of the commitment to `m_hat` with the witness `w`.
  unfoldable pub commitment_part : Bytes → Buffer → Comp E.State Buffer
  commitment_part m_hat w = do
    ysh ←
        E.hash (public_input 3 (codes "HMy"))
          (input_of hm_r_bytes (slice E.lanes w_r_off hm_r_bytes w)) 32
    bsh ← loop hm_lines_count 0 (line_bytes m_hat w) ([], replicate E.lanes [])
    E.hash (public_input 3 (codes "HMd"))
        (input_of hm_com_bytes
          (joined E.lanes (slice E.lanes w_a_off hm_a_bytes w) (joined E.lanes bsh ysh)))
        32

  module _ (c : IsCounted E) where
    mpc_gf128_mul-Runs : (x y : List Masked) → Runs E.gates 512 (mpc_gf128_mul x y)
    unfolding mpc_gf128_mul mul_word
    mpc_gf128_mul-Runs x y =
        Runs-map _
          (Runs-loop 128 0 _ λ j acc. Runs-loop 4 0 acc λ w acc'. Runs-map _ (and_of-Runs E c _ _))

    line_bytes-Runs :
        (m_hat : Bytes) (w : Buffer) (line : ℕ) (before : Buffer)
        → Runs E.gates 3072 (line_bytes m_hat w line before)
    unfolding line_bytes add_product
    line_bytes-Runs m_hat w line before =
        Runs-map _ (Runs-loop hm_nonces 0 _ λ idx acc. Runs-map _ (mpc_gf128_mul-Runs _ _))

    -- Two blocks, two lines, and five blocks.
    pub commitment_part-Runs :
        (m_hat : Bytes) (w : Buffer) → Runs E.gates 8496 (commitment_part m_hat w)
    unfolding commitment_part valid_sizes
    commitment_part-Runs m_hat w = Runs-do refl (c.hash-Runs _ _ 32 refl) λ ysh.
        Runs-do refl (Runs-loop 2 0 _ (line_bytes-Runs m_hat w)) λ bsh. c.hash-Runs _ _ 32 refl
