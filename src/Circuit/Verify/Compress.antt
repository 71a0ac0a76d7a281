-- ===== src/Circuit/Verify/Compress.antt =====
-- `b3_g_v` and `mpc_blake3_compress_verify` of kkw/src/MPC_verify_functions.c.
use hash_blind_signatures.Common.{
  ℕ, zero, suc, ◌+◌, ◌*◌, ◌≡◌, ◌∙◌, ap, arith, [], ◌∷◌, List, Bytes, set, length,
}
use hash_blind_signatures.Circuit.Shares.{Masked}
use hash_blind_signatures.Circuit.Compress.{
  Quarter, quarters, permuted, first_schedule, entry_of, word_at,
}
use hash_blind_signatures.Circuit.Prove.Compress.{masked_at, turned, start_words, folded_words}
use hash_blind_signatures.Circuit.Verify.{Replay, replay_gate, mpc_add_verify}

-- On `n` slots, with the hidden party `e`.
module _ (n e : ℕ) where
  module _ (tapes : List Bytes) (msgs_e aux : List ℕ) where
    -- An adder that stores to `v[i]`.
    unfoldable pub add_slot_to : List Masked → ℕ → Masked → Masked → Replay → List Masked × Replay
    add_slot_to v i x y rp =
        let (z, rp') = mpc_add_verify n e tapes msgs_e aux x y rp in (set v i z, rp')

    unfoldable pub b3_g_v : List Masked → Quarter → Masked → Masked → Replay → List Masked × Replay
    b3_g_v v (a, b, c, d, k) x y rp =
        let (t, rp1) = mpc_add_verify n e tapes msgs_e aux (masked_at v a) (masked_at v b) rp in
        let (v1, rp2) = add_slot_to v a t x rp1 in
        let v2 = turned n v1 d a 16 in
        let (v3, rp3) = add_slot_to v2 c (masked_at v2 c) (masked_at v2 d) rp2 in
        let v4 = turned n v3 b c 12 in
        let (t', rp4) = mpc_add_verify n e tapes msgs_e aux (masked_at v4 a) (masked_at v4 b) rp3 in
        let (v5, rp5) = add_slot_to v4 a t' y rp4 in
        let v6 = turned n v5 d a 8 in
        let (v7, rp6) = add_slot_to v6 c (masked_at v6 c) (masked_at v6 d) rp5 in
        (turned n v7 b c 7, rp6)

    unfoldable pub mpc_quarters_verify :
        List Masked → List ℕ → List Quarter → List Masked → Replay → List Masked × Replay
    mpc_quarters_verify m s [] v rp = (v, rp)
    mpc_quarters_verify m s (q ∷ qs) v rp =
        let (v', rp') =
          b3_g_v v q (masked_at m (word_at s (entry_of q)))
            (masked_at m (word_at s (entry_of q + 1))) rp in
        mpc_quarters_verify m s qs v' rp'

    unfoldable pub mpc_rounds_verify :
        ℕ → List Masked → List ℕ → List Masked → Replay → List Masked × Replay
    mpc_rounds_verify zero m s v rp = (v, rp)
    mpc_rounds_verify (suc rounds) m s v rp =
        let (v', rp') = mpc_quarters_verify m s quarters v rp in
        mpc_rounds_verify rounds m (permuted s) v' rp'

    unfoldable pub mpc_blake3_compress_verify :
        List Masked → List Masked → ℕ → ℕ → Replay → List Masked × Replay
    mpc_blake3_compress_verify cv m block_len flags rp =
        let (v, rp') = mpc_rounds_verify 7 m first_schedule (start_words n cv block_len flags) rp in
        (folded_words n v, rp')

    b3_g_v-gate_count :
        (v : List Masked) (q : Quarter) (x y : Masked) (rp : Replay)
        → (b3_g_v v q x y rp).1.gate_count ≡ rp.gate_count + 6
    unfolding b3_g_v add_slot_to mpc_add_verify replay_gate
    b3_g_v-gate_count v (a, b, c, d, k) x y rp = omega arith

    mpc_quarters_verify-gate_count :
        (m : List Masked) (s : List ℕ) (qs : List Quarter) (v : List Masked) (rp : Replay)
        → (mpc_quarters_verify m s qs v rp).1.gate_count ≡ rp.gate_count + 6 * length qs
    unfolding mpc_quarters_verify
    mpc_quarters_verify-gate_count m s [] v rp = omega arith
    mpc_quarters_verify-gate_count m s (q ∷ qs) v rp =
        mpc_quarters_verify-gate_count m s qs (b3_g_v v q x y rp).0 (b3_g_v v q x y rp).1
        ∙ ap (λ t. t + 6 * length qs) (b3_g_v-gate_count v q x y rp)
        ∙ omega arith
      where
        x : Masked
        x = masked_at m (word_at s (entry_of q))

        y : Masked
        y = masked_at m (word_at s (entry_of q + 1))

    mpc_rounds_verify-gate_count :
        (rounds : ℕ) (m : List Masked) (s : List ℕ) (v : List Masked) (rp : Replay)
        → (mpc_rounds_verify rounds m s v rp).1.gate_count ≡ rp.gate_count + rounds * 48
    unfolding mpc_rounds_verify
    mpc_rounds_verify-gate_count zero m s v rp = omega arith
    mpc_rounds_verify-gate_count (suc rounds) m s v rp =
        mpc_rounds_verify-gate_count rounds m (permuted s) (mpc_quarters_verify m s quarters v rp).0
          (mpc_quarters_verify m s quarters v rp).1
        ∙ ap (λ t. t + rounds * 48) (mpc_quarters_verify-gate_count m s quarters v rp)
        ∙ omega arith

    pub mpc_blake3_compress_verify-gate_count :
        (cv m : List Masked) (block_len flags : ℕ) (rp : Replay)
        → (mpc_blake3_compress_verify cv m block_len flags rp).1.gate_count ≡ rp.gate_count + 336
    unfolding mpc_blake3_compress_verify
    mpc_blake3_compress_verify-gate_count cv m block_len flags rp =
        mpc_rounds_verify-gate_count 7 m first_schedule (start_words n cv block_len flags) rp
