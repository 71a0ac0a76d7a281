-- ===== src/Circuit/Views.antt =====
-- kkw/src/circuits.c: the circuit that `building_views` evaluates for the prover and `verify`
-- for the verifier. The two are the same text up to the calls of the gates, so that it is one
-- definition here, on an engine.
pub mod Lanes
pub mod Commitment
pub mod Chains
pub mod Path
pub mod Gates
pub mod Evaluate
use hash_blind_signatures.Common.{
  ℕ, ◌+◌, ◌*◌, ◌-◌, ◌^◌, bit_or, [], ◌∷◌, ◌++◌, List, Bytes, u32, take,
}
use hash_blind_signatures.Xmss.Params.{
  node_bytes, pk_seed_bytes, nonce_len, wots_len, msg_hash_len, tweak_message, tweak_leaf,
}
use hash_blind_signatures.Xmss.Hashes.{bit_at}
use hash_blind_signatures.Protocol.User.{w_leafidx_off, w_nonce_off}
use hash_blind_signatures.Circuit.Shares.{Masked, mw_const}
use hash_blind_signatures.Common.Comp.{Comp, ◌>>=◌, give, loop}
use hash_blind_signatures.Circuit.Engine.{Engine, add_of}
use Lanes.{Buffer, read_word, load_word, joined, slice, public_bytes, input_of, mh_coord}
use Commitment.{commitment_part}
use Chains.{pool_chains}
use Path.{path_part}

-- The two unused bits of the message hash.
abbrev pub leftover_bits : Bytes → ℕ
leftover_bits mh = bit_or (bit_at mh 63) (u32 (bit_at mh (8 * msg_hash_len - 1) * 2 ^ 1))

module _ (E : Engine) (pk_seed : Bytes) (w : Buffer) where
  abbrev n : ℕ
  n = E.lanes

  -- The public seed, a tweak byte and the masked leaf index.
  abbrev pub leaf_domain : ℕ → Buffer
  leaf_domain tweak =
      joined n (public_bytes n (take pk_seed_bytes pk_seed ++ tweak ∷ []))
        (slice n w_leafidx_off 4 w)

  -- The message hash, from the digest of the commitment.
  unfoldable pub message_part : Buffer → Comp E.State Buffer
  message_part dsh =
      E.hash (input_of (pk_seed_bytes + 1 + 4) (leaf_domain tweak_message))
        (input_of (nonce_len + 32) (joined n (slice n w_nonce_off nonce_len w) dsh)) 32

  -- The leaf, from the hashes of the one-time public key.
  unfoldable pub leaf_part : Buffer → Comp E.State Buffer
  leaf_part pkh =
      E.hash (input_of (pk_seed_bytes + 1 + 4) (leaf_domain tweak_leaf))
        (input_of (wots_len * node_bytes) pkh) node_bytes

  -- The sum of the digits.
  unfoldable pub sum_part : Buffer → Comp E.State Masked
  sum_part mh = loop wots_len 0 (λ ci acc. add_of E acc (mh_coord n mh ci)) (mw_const n 0)

  -- The eight masked words of the output: the root, the sum of the digits, the leftover bits,
  -- the check of the pool, and zero.
  unfoldable pub output_words : Buffer → Masked → Masked → Masked → List Masked
  output_words node acc leftover pool_check =
      load_word n node 0
      ∷ load_word n node 1
      ∷ load_word n node 2
      ∷ load_word n node 3
      ∷ acc
      ∷ leftover
      ∷ pool_check
      ∷ mw_const n 0
      ∷ []

  unfoldable pub view_circuit : Bytes → Comp E.State (List Masked)
  view_circuit m_hat = do
    dsh ← commitment_part E m_hat w
    mh ← message_part dsh
    (pkh, pool_check) ← pool_chains E pk_seed w mh
    leaf ← leaf_part pkh
    node ← path_part E pk_seed w leaf
    acc ← sum_part mh
    give (output_words node acc (read_word n leftover_bits mh) pool_check)
