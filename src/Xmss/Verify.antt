-- ===== src/Xmss/Verify.antt =====
-- `xmss_walk_auth_path` and `xmss_verify` of kkw/src/xmss.c.
pub mod Laws
use hash_blind_signatures.Common.{
  ℕ, zero, suc, ◌+◌, ◌/◌, ◌%◌, Bool, true, false, [], ◌∷◌, List, Bytes, get_or, u32, ◌==◌, not,
  if◌then◌else◌, memcmp_eq,
}
use hash_blind_signatures.Platform.{Platform}
use hash_blind_signatures.Xmss.Params.{Node, node_bytes, tree_h, target_sum}
use hash_blind_signatures.Xmss.Hashes.{
  hash_message, hash_public_key, hash_tree_node, extract_coords, sum_coords,
}
use hash_blind_signatures.Xmss.Wots.{wots_pk_from_sig}
use hash_blind_signatures.Xmss.Sign.{Signature}

module _ (p : Platform) where
  -- The parent of `node` by the low bit of its index.
  unfoldable pub walk_step : Bytes → List Node → ℕ → ℕ → Node → Node
  walk_step pk_seed auth_path h idx node =
      if idx % 2 == 0
      then hash_tree_node p pk_seed node (get_or auth_path h []) (u32 h) (idx / 2)
      else hash_tree_node p pk_seed (get_or auth_path h []) node (u32 h) (idx / 2)

  -- The loop from level `h`, with `left` levels to go.
  unfoldable pub walk_loop : Bytes → List Node → ℕ → ℕ → ℕ → Node → Node
  walk_loop pk_seed auth_path zero h idx node = node
  walk_loop pk_seed auth_path (suc left) h idx node =
      walk_loop pk_seed auth_path left (h + 1) (idx / 2) (walk_step pk_seed auth_path h idx node)

  unfoldable pub walk_auth_path : Bytes → Node → ℕ → List Node → Node
  walk_auth_path pk_seed leaf leaf_index auth_path =
      walk_loop pk_seed auth_path tree_h 0 leaf_index leaf

  -- The root that a signature with the digits `coords` leads to.
  unfoldable pub root_of_sig : Bytes → Signature → List ℕ → Node
  root_of_sig pk_seed sig coords =
      walk_auth_path pk_seed
        (hash_public_key p pk_seed sig.leaf_index
          (wots_pk_from_sig p pk_seed sig.leaf_index sig.sig_hashes coords))
        sig.leaf_index sig.auth_path

  unfoldable pub xmss_verify : Bytes → Node → Bytes → Signature → Bool
  xmss_verify pk_seed root message sig =
      let digits = extract_coords (hash_message p pk_seed sig.leaf_index sig.nonce message) in
      let same = memcmp_eq node_bytes (root_of_sig pk_seed sig digits.0) root in
      if not digits.1
      then false
      else (if not (sum_coords digits.0 == target_sum) then false else same)
