-- ===== src/Circuit/Prove/Hash.antt =====
-- `mpc_blake3_th` of kkw/src/MPC_prove_functions.c.
use hash_blind_signatures.Common.{
  ℕ, zero, suc, ◌+◌, ◌*◌, ◌≡◌, ◌∙◌, ap, arith, Option, none, some, List, Bytes, if◌then◌else◌,
}
use hash_blind_signatures.Circuit.Shares.{Masked}
use hash_blind_signatures.Circuit.Input.{
  Input, valid_sizes, nblocks, blen, block_flags, block_words, key_words, out_bytes,
}
use hash_blind_signatures.Circuit.Prove.{Transcript}
use hash_blind_signatures.Circuit.Prove.Compress.{
  mpc_blake3_compress, mpc_blake3_compress-gate_count,
}

module _ (block_max chunk_max out_max n : ℕ) (tapes : List Bytes) where
  -- The loop over the blocks from `b`, with `left` to go.
  unfoldable pub th_loop :
      Input → Input → ℕ → ℕ → List Masked → Transcript → List Masked × Transcript
  th_loop domain data_in zero b cv tr = (cv, tr)
  th_loop domain data_in (suc left) b cv tr =
      let (cv', tr') =
        mpc_blake3_compress n tapes cv (block_words block_max chunk_max out_max n domain data_in b)
          (blen block_max chunk_max out_max domain data_in b)
          (block_flags block_max chunk_max out_max domain data_in b) tr in
      th_loop domain data_in left (b + 1) cv' tr'

  -- `none` is the return 0, which leaves everything as it was.
  unfoldable pub mpc_blake3_th :
      Input → Input → ℕ → Transcript → Option ((Bytes × List Bytes) × Transcript)
  mpc_blake3_th domain data_in out_len tr =
      let (cv, tr') =
        th_loop domain data_in (nblocks block_max chunk_max out_max domain data_in) 0 (key_words n)
          tr in
      if valid_sizes block_max chunk_max out_max domain.len data_in.len out_len
      then some (out_bytes n out_len cv, tr')
      else none

  th_loop-gate_count :
      (domain data_in : Input) (left b : ℕ) (cv : List Masked) (tr : Transcript)
      → (th_loop domain data_in left b cv tr).1.gate_count ≡ tr.gate_count + left * 336
  unfolding th_loop
  th_loop-gate_count domain data_in zero b cv tr = omega arith
  th_loop-gate_count domain data_in (suc left) b cv tr =
      th_loop-gate_count domain data_in left (b + 1) next.0 next.1
      ∙ ap (λ t. t + left * 336)
          (mpc_blake3_compress-gate_count n tapes cv
            (block_words block_max chunk_max out_max n domain data_in b)
            (blen block_max chunk_max out_max domain data_in b)
            (block_flags block_max chunk_max out_max domain data_in b) tr)
      ∙ omega arith
    where
      next : List Masked × Transcript
      next =
          mpc_blake3_compress n tapes cv
            (block_words block_max chunk_max out_max n domain data_in b)
            (blen block_max chunk_max out_max domain data_in b)
            (block_flags block_max chunk_max out_max domain data_in b) tr

  -- When mpc_blake3_th accepts its sizes, it runs 336 gates for each block of the framed message,
  -- for any number of parties and any block size.
  pub mpc_blake3_th-gate_count :
      (domain data_in : Input) (out_len : ℕ) (tr : Transcript) (out : Bytes × List Bytes)
      (tr' : Transcript)
      → mpc_blake3_th domain data_in out_len tr ≡ some (out, tr')
      → tr'.gate_count ≡ tr.gate_count + nblocks block_max chunk_max out_max domain data_in * 336
  unfolding mpc_blake3_th
  mpc_blake3_th-gate_count domain data_in out_len tr out tr' h =
      ap (λ t. t.gate_count) ended
      ∙ th_loop-gate_count domain data_in (nblocks block_max chunk_max out_max domain data_in) 0
          (key_words n) tr
    where
      ended :
          tr'
          ≡ (th_loop domain data_in
              (nblocks block_max chunk_max out_max domain data_in)
              0
              (key_words n)
              tr).1
      ended = ground arith
