-- ===== src/Circuit/Views/Gates.antt =====
-- How many gates the circuit of kkw/src/circuits.c has, next to YSIZE_GATES of kkw/src/shared.c.
use hash_blind_signatures.Common.{refl, Bytes}
use hash_blind_signatures.Xmss.Params.{wots_len, node_bytes}
use hash_blind_signatures.Circuit.Shares.{y_size}
use hash_blind_signatures.Circuit.Input.{valid_sizes}
use hash_blind_signatures.Circuit.Engine.{
  Engine, IsCounted, Runs, Runs-do, Runs-map, Runs-loop, add_of-Runs,
}
use hash_blind_signatures.Circuit.Views.{message_part, leaf_part, sum_part, view_circuit}
use hash_blind_signatures.Circuit.Views.Lanes.{Buffer}
use hash_blind_signatures.Circuit.Views.Commitment.{commitment_part-Runs}
use hash_blind_signatures.Circuit.Views.Chains.{pool_chains-Runs}
use hash_blind_signatures.Circuit.Views.Path.{path_part-Runs}

module _ (E : Engine) (c : IsCounted E) (pk_seed : Bytes) (w : Buffer) where
  message_part-Runs : (dsh : Buffer) → Runs E.gates 672 (message_part E pk_seed w dsh)
  unfolding message_part valid_sizes
  message_part-Runs dsh = c.hash-Runs _ _ 32 refl

  leaf_part-Runs : (pkh : Buffer) → Runs E.gates 3696 (leaf_part E pk_seed w pkh)
  unfolding leaf_part valid_sizes
  leaf_part-Runs pkh = c.hash-Runs _ _ node_bytes refl

  sum_part-Runs : (mh : Buffer) → Runs E.gates 42 (sum_part E pk_seed w mh)
  unfolding sum_part
  sum_part-Runs mh = Runs-loop wots_len 0 _ λ ci acc. add_of-Runs E c acc _

  -- The circuit always gives a result, and runs the gates that the tapes have room for.
  pub view_circuit-Runs : (m_hat : Bytes) → Runs E.gates y_size (view_circuit E pk_seed w m_hat)
  unfolding view_circuit
  view_circuit-Runs m_hat = Runs-do refl (commitment_part-Runs E c m_hat w) λ dsh.
      Runs-do refl (message_part-Runs dsh) λ mh.
        Runs-do refl (pool_chains-Runs E pk_seed w c mh) λ pool.
          Runs-do refl (leaf_part-Runs pool.0) λ leaf.
            Runs-do refl (path_part-Runs E pk_seed w c leaf) λ node. Runs-map _ (sum_part-Runs mh)
