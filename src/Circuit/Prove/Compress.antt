-- ===== src/Circuit/Prove/Compress.antt =====
-- `b3_g` and `mpc_blake3_compress` of kkw/src/MPC_prove_functions.c.
use hash_blind_signatures.Common.{
  ℕ, zero, suc, ◌+◌, ◌-◌, ◌*◌, ◌≡◌, ◌∙◌, ap, arith, [], ◌∷◌, List, Bytes, get_or, set, tabulate,
  ltb, if◌then◌else◌, length,
}
use hash_blind_signatures.Circuit.Shares.{Masked, mw_const, mpc_xor, mpc_right_rotate}
use hash_blind_signatures.Circuit.Compress.{
  Quarter, quarters, permuted, first_schedule, entry_of, b3_iv, word_at,
}
use hash_blind_signatures.Circuit.Prove.{Transcript, record_gate, mpc_add}

-- An entry of `v`; each index that the code uses is in range.
abbrev pub masked_at : List Masked → ℕ → Masked
masked_at v i = get_or v i (record { h = 0; l = [] })

module _ (n : ℕ) where
  -- `mpc_XOR(&v[d], &v[a], &t); mpc_RIGHTROTATE(&t, k, &v[d]);`
  abbrev pub turned : List Masked → ℕ → ℕ → ℕ → List Masked
  turned v d a k = set v d (mpc_right_rotate n (mpc_xor n (masked_at v d) (masked_at v a)) k)

  -- The words before the first round, from the chaining value.
  unfoldable pub start_words : List Masked → ℕ → ℕ → List Masked
  start_words cv block_len flags = tabulate 16 (λ i.
      if ltb i 8
      then masked_at cv i
      else (if ltb i 12
          then mw_const n (word_at b3_iv (i - 8))
          else mw_const n (word_at (0 ∷ 0 ∷ block_len ∷ flags ∷ []) (i - 12))))

  -- `mpc_XOR(&v[i], &v[i + 8], &out[i])`
  unfoldable pub folded_words : List Masked → List Masked
  folded_words v = tabulate 8 (λ i. mpc_xor n (masked_at v i) (masked_at v (i + 8)))

  module _ (tapes : List Bytes) where
    -- An adder that stores to `v[i]`.
    unfoldable pub add_to :
        List Masked → ℕ → Masked → Masked → Transcript → List Masked × Transcript
    add_to v i x y tr = let (z, tr') = mpc_add n tapes x y tr in (set v i z, tr')

    unfoldable pub b3_g :
        List Masked → Quarter → Masked → Masked → Transcript → List Masked × Transcript
    b3_g v (a, b, c, d, k) x y tr =
        let (t, tr1) = mpc_add n tapes (masked_at v a) (masked_at v b) tr in
        let (v1, tr2) = add_to v a t x tr1 in
        let v2 = turned v1 d a 16 in
        let (v3, tr3) = add_to v2 c (masked_at v2 c) (masked_at v2 d) tr2 in
        let v4 = turned v3 b c 12 in
        let (t', tr4) = mpc_add n tapes (masked_at v4 a) (masked_at v4 b) tr3 in
        let (v5, tr5) = add_to v4 a t' y tr4 in
        let v6 = turned v5 d a 8 in
        let (v7, tr6) = add_to v6 c (masked_at v6 c) (masked_at v6 d) tr5 in (turned v7 b c 7, tr6)

    unfoldable pub mpc_quarters :
        List Masked → List ℕ → List Quarter → List Masked → Transcript → List Masked × Transcript
    mpc_quarters m s [] v tr = (v, tr)
    mpc_quarters m s (q ∷ qs) v tr =
        let (v', tr') =
          b3_g v q (masked_at m (word_at s (entry_of q))) (masked_at m (word_at s (entry_of q + 1)))
            tr in
        mpc_quarters m s qs v' tr'

    unfoldable pub mpc_rounds :
        ℕ → List Masked → List ℕ → List Masked → Transcript → List Masked × Transcript
    mpc_rounds zero m s v tr = (v, tr)
    mpc_rounds (suc rounds) m s v tr =
        let (v', tr') = mpc_quarters m s quarters v tr in mpc_rounds rounds m (permuted s) v' tr'

    unfoldable pub mpc_blake3_compress :
        List Masked → List Masked → ℕ → ℕ → Transcript → List Masked × Transcript
    mpc_blake3_compress cv m block_len flags tr =
        let (v, tr') = mpc_rounds 7 m first_schedule (start_words cv block_len flags) tr in
        (folded_words v, tr')

    b3_g-gate_count :
        (v : List Masked) (q : Quarter) (x y : Masked) (tr : Transcript)
        → (b3_g v q x y tr).1.gate_count ≡ tr.gate_count + 6
    unfolding b3_g add_to mpc_add record_gate
    b3_g-gate_count v (a, b, c, d, k) x y tr = omega arith

    mpc_quarters-gate_count :
        (m : List Masked) (s : List ℕ) (qs : List Quarter) (v : List Masked) (tr : Transcript)
        → (mpc_quarters m s qs v tr).1.gate_count ≡ tr.gate_count + 6 * length qs
    unfolding mpc_quarters
    mpc_quarters-gate_count m s [] v tr = omega arith
    mpc_quarters-gate_count m s (q ∷ qs) v tr =
        mpc_quarters-gate_count m s qs (b3_g v q x y tr).0 (b3_g v q x y tr).1
        ∙ ap (λ t. t + 6 * length qs) (b3_g-gate_count v q x y tr)
        ∙ omega arith
      where
        x : Masked
        x = masked_at m (word_at s (entry_of q))

        y : Masked
        y = masked_at m (word_at s (entry_of q + 1))

    mpc_rounds-gate_count :
        (rounds : ℕ) (m : List Masked) (s : List ℕ) (v : List Masked) (tr : Transcript)
        → (mpc_rounds rounds m s v tr).1.gate_count ≡ tr.gate_count + rounds * 48
    unfolding mpc_rounds
    mpc_rounds-gate_count zero m s v tr = omega arith
    mpc_rounds-gate_count (suc rounds) m s v tr =
        mpc_rounds-gate_count rounds m (permuted s) (mpc_quarters m s quarters v tr).0
          (mpc_quarters m s quarters v tr).1
        ∙ ap (λ t. t + rounds * 48) (mpc_quarters-gate_count m s quarters v tr)
        ∙ omega arith

    pub mpc_blake3_compress-gate_count :
        (cv m : List Masked) (block_len flags : ℕ) (tr : Transcript)
        → (mpc_blake3_compress cv m block_len flags tr).1.gate_count ≡ tr.gate_count + 336
    unfolding mpc_blake3_compress
    mpc_blake3_compress-gate_count cv m block_len flags tr =
        mpc_rounds-gate_count 7 m first_schedule (start_words cv block_len flags) tr
