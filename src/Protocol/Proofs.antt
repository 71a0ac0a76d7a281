-- ===== src/Protocol/Proofs.antt =====
-- `build_pubout`, `blind_user_prove` and `blind_verify_sig` of kkw/src/protocol.c: the proof that
-- the user makes of a signature, and its verification.
use hash_blind_signatures.Common.{ℕ, Bool, Option, none, some, [], ◌∷◌, List, Bytes}
use hash_blind_signatures.Platform.{Platform}
use hash_blind_signatures.Xmss.Params.{Node, target_sum}
use hash_blind_signatures.Xmss.Sign.{Signature}
use hash_blind_signatures.Circuit.Views.Lanes.{node_load_word}
use hash_blind_signatures.Protocol.User.{UserState, msg_digest, prepare_witness}
use hash_blind_signatures.Kkw.Proof.{Params}
use hash_blind_signatures.Kkw.Verifier.{Machine, kkw_verify}
use hash_blind_signatures.Kkw.Prover.{Proved, failed, kkw_prove}

-- The public output: the root, the target sum, and zeros.
unfoldable pub build_pubout : Node → List ℕ
build_pubout root =
    node_load_word root 0
    ∷ node_load_word root 1
    ∷ node_load_word root 2
    ∷ node_load_word root 3
    ∷ target_sum
    ∷ 0
    ∷ 0
    ∷ 0
    ∷ []

module _ (p : Platform) (block_max chunk_max out_max : ℕ) (k : Params) (fresh : Bytes)
    (machine : Machine) (qsort : List ℕ → List ℕ) (fuel : ℕ) where
  -- -1 for a signature whose message digest the code does not accept, before any draw.
  unfoldable pub blind_user_prove : UserState → Bytes → Node → Signature → ℕ → ℕ × Proved
  blind_user_prove st pk_seed root sig calls = elim (prepare_witness p st pk_seed sig) [
    | none ↦ (calls, failed)
    | some input ↦
        kkw_prove p block_max chunk_max out_max k fresh input (msg_digest p st.msg) pk_seed machine
          (build_pubout root) qsort fuel calls
  ]

  -- The status of the proof for a message under a root.
  unfoldable pub blind_verify_sig : Bytes → Bytes → Bytes → Node → Option Bool
  blind_verify_sig proof msg pk_seed root =
      kkw_verify p block_max chunk_max out_max k fresh machine (msg_digest p msg) pk_seed
        (build_pubout root) qsort fuel proof
