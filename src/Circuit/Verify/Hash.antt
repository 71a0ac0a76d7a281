-- ===== src/Circuit/Verify/Hash.antt =====
-- `mpc_blake3_th_verify` of kkw/src/MPC_verify_functions.c.
use hash_blind_signatures.Common.{
  ℕ, zero, suc, ◌+◌, ◌*◌, ◌≡◌, ◌∙◌, ap, arith, Option, none, some, List, Bytes, if◌then◌else◌,
}
use hash_blind_signatures.Circuit.Shares.{Masked}
use hash_blind_signatures.Circuit.Input.{
  Input, valid_sizes, nblocks, blen, block_flags, block_words, key_words, out_bytes,
}
use hash_blind_signatures.Circuit.Verify.{Replay}
use hash_blind_signatures.Circuit.Verify.Compress.{
  mpc_blake3_compress_verify, mpc_blake3_compress_verify-gate_count,
}

-- On `n` slots, with the hidden party `e`.
module _ (block_max chunk_max out_max n e : ℕ) (tapes : List Bytes) (msgs_e aux : List ℕ) where
  -- The loop over the blocks from `b`, with `left` to go.
  unfoldable pub th_loop_verify :
      Input → Input → ℕ → ℕ → List Masked → Replay → List Masked × Replay
  th_loop_verify domain data_in zero b cv rp = (cv, rp)
  th_loop_verify domain data_in (suc left) b cv rp =
      let (cv', rp') =
        mpc_blake3_compress_verify n e tapes msgs_e aux cv
          (block_words block_max chunk_max out_max n domain data_in b)
          (blen block_max chunk_max out_max domain data_in b)
          (block_flags block_max chunk_max out_max domain data_in b) rp in
      th_loop_verify domain data_in left (b + 1) cv' rp'

  -- `none` is the return 0, which leaves everything as it was.
  unfoldable pub mpc_blake3_th_verify :
      Input → Input → ℕ → Replay → Option ((Bytes × List Bytes) × Replay)
  mpc_blake3_th_verify domain data_in out_len rp =
      let (cv, rp') =
        th_loop_verify domain data_in (nblocks block_max chunk_max out_max domain data_in) 0
          (key_words n) rp in
      if valid_sizes block_max chunk_max out_max domain.len data_in.len out_len
      then some (out_bytes n out_len cv, rp')
      else none

  th_loop_verify-gate_count :
      (domain data_in : Input) (left b : ℕ) (cv : List Masked) (rp : Replay)
      → (th_loop_verify domain data_in left b cv rp).1.gate_count ≡ rp.gate_count + left * 336
  unfolding th_loop_verify
  th_loop_verify-gate_count domain data_in zero b cv rp = omega arith
  th_loop_verify-gate_count domain data_in (suc left) b cv rp =
      th_loop_verify-gate_count domain data_in left (b + 1) next.0 next.1
      ∙ ap (λ t. t + left * 336)
          (mpc_blake3_compress_verify-gate_count n e tapes msgs_e aux cv
            (block_words block_max chunk_max out_max n domain data_in b)
            (blen block_max chunk_max out_max domain data_in b)
            (block_flags block_max chunk_max out_max domain data_in b) rp)
      ∙ omega arith
    where
      next : List Masked × Replay
      next =
          mpc_blake3_compress_verify n e tapes msgs_e aux cv
            (block_words block_max chunk_max out_max n domain data_in b)
            (blen block_max chunk_max out_max domain data_in b)
            (block_flags block_max chunk_max out_max domain data_in b) rp

  -- When mpc_blake3_th_verify accepts its sizes, it runs 336 gates for each block of the framed
  -- message, as many as the prover's circuit, for any number of slots and any block size.
  pub mpc_blake3_th_verify-gate_count :
      (domain data_in : Input) (out_len : ℕ) (rp : Replay) (out : Bytes × List Bytes) (rp' : Replay)
      → mpc_blake3_th_verify domain data_in out_len rp ≡ some (out, rp')
      → rp'.gate_count ≡ rp.gate_count + nblocks block_max chunk_max out_max domain data_in * 336
  unfolding mpc_blake3_th_verify
  mpc_blake3_th_verify-gate_count domain data_in out_len rp out rp' h =
      ap (λ t. t.gate_count) ended
      ∙ th_loop_verify-gate_count domain data_in
          (nblocks block_max chunk_max out_max domain data_in) 0 (key_words n) rp
    where
      ended :
          rp'
          ≡ (th_loop_verify domain data_in
              (nblocks block_max chunk_max out_max domain data_in)
              0
              (key_words n)
              rp).1
      ended = ground arith
