-- ===== src/Circuit/Views/Evaluate/Counted.antt =====
-- The gates of the prover and of the verifier, and their hashes, as engines whose gates are
-- counted.
use hash_blind_signatures.Common.{
  ℕ, ◌-◌, ◌*◌, ◌≡◌, refl, arith, true, Option, none, some, List, Bytes,
}
use hash_blind_signatures.Platform.{Platform}
use hash_blind_signatures.Circuit.Input.{Input, valid_sizes, nblocks}
use hash_blind_signatures.Circuit.Prove.{Transcript, record_gate, mpc_and, mpc_add}
use hash_blind_signatures.Circuit.Prove.Hash.{mpc_blake3_th, mpc_blake3_th-gate_count}
use hash_blind_signatures.Circuit.Verify.{Replay, replay_gate, mpc_and_verify, mpc_add_verify}
use hash_blind_signatures.Circuit.Verify.Hash.{
  mpc_blake3_th_verify, mpc_blake3_th_verify-gate_count,
}
use hash_blind_signatures.Circuit.Engine.{IsCounted, Ends}
use hash_blind_signatures.Circuit.Views.Evaluate.{prover, verifier}

-- A hash that accepts its sizes gives a result, and runs the gates of its blocks.
prover-Ends :
    (n : ℕ) (tapes : List Bytes) (domain data_in : Input) (out_len : ℕ)
    → valid_sizes 64 1024 32 domain.len data_in.len out_len ≡ true
    → (s : Transcript) (o : Option ((Bytes × List Bytes) × Transcript))
    → mpc_blake3_th 64 1024 32 n tapes domain data_in out_len s ≡ o
    → Ends (λ tr. tr.gate_count) (nblocks 64 1024 32 domain data_in * 336) s.gate_count o
unfolding mpc_blake3_th
prover-Ends n tapes domain data_in out_len v s none e = ground arith
prover-Ends n tapes domain data_in out_len v s (some (out, s')) e =
    mpc_blake3_th-gate_count 64 1024 32 n tapes domain data_in out_len s out s' e

verifier-Ends :
    (m e : ℕ) (tapes : List Bytes) (msgs_e aux : List ℕ) (domain data_in : Input) (out_len : ℕ)
    → valid_sizes 64 1024 32 domain.len data_in.len out_len ≡ true
    → (s : Replay) (o : Option ((Bytes × List Bytes) × Replay))
    → mpc_blake3_th_verify 64 1024 32 m e tapes msgs_e aux domain data_in out_len s ≡ o
    → Ends (λ rp. rp.gate_count) (nblocks 64 1024 32 domain data_in * 336) s.gate_count o
unfolding mpc_blake3_th_verify
verifier-Ends m e tapes msgs_e aux domain data_in out_len v s none h = ground arith
verifier-Ends m e tapes msgs_e aux domain data_in out_len v s (some (out, s')) h =
    mpc_blake3_th_verify-gate_count 64 1024 32 m e tapes msgs_e aux domain data_in out_len s out s'
      h

module _ (p : Platform) (n : ℕ) where
  pub prover-IsCounted : (tapes : List Bytes) → IsCounted (prover p 64 1024 32 n tapes)
  unfolding mpc_and mpc_add record_gate
  prover-IsCounted tapes = record {
    and_gate-gates = λ x y s. refl;
    add_gate-gates = λ x y s. refl;
    hash-Runs = λ domain data_in out_len v. record {
      run = λ s.
          prover-Ends n tapes domain data_in out_len v s
            (mpc_blake3_th 64 1024 32 n tapes domain data_in out_len s) refl;
    };
  }

  pub verifier-IsCounted :
      (e : ℕ) (tapes : List Bytes) (msgs_e aux : List ℕ)
      → IsCounted (verifier p 64 1024 32 n e tapes msgs_e aux)
  unfolding mpc_and_verify mpc_add_verify replay_gate
  verifier-IsCounted e tapes msgs_e aux = record {
    and_gate-gates = λ x y s. refl;
    add_gate-gates = λ x y s. refl;
    hash-Runs = λ domain data_in out_len v. record {
      run = λ s.
          verifier-Ends (n - 1) e tapes msgs_e aux domain data_in out_len v s
            (mpc_blake3_th_verify 64 1024 32 (n - 1) e tapes msgs_e aux domain data_in out_len s)
            refl;
    };
  }
