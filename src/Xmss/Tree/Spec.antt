-- ===== src/Xmss/Tree/Spec.antt =====
-- The Merkle tree that the arrays of kkw/src/xmss.c store parts of, as a function of level and
-- index, and what it means that an array holds a run of one level.
use hash_blind_signatures.Common.{ℕ, zero, suc, ◌+◌, ◌*◌, ◌^◌, ◌<◌, ◌≡◌, [], List, Bytes, get_or}
use hash_blind_signatures.Platform.{Platform}
use hash_blind_signatures.Xmss.Params.{Node}
use hash_blind_signatures.Xmss.Hashes.{hash_tree_node}
use hash_blind_signatures.Xmss.Tree.{Levels, node_at, build_leaf}

module _ (p : Platform) (sk_seed pk_seed : Bytes) where
  -- Level 0 is the leaves; a node hashes its two children.
  unfoldable pub tree_node : ℕ → ℕ → Node
  tree_node zero i = build_leaf p sk_seed pk_seed i
  tree_node (suc l) i = hash_tree_node p pk_seed (tree_node l (2 * i)) (tree_node l (2 * i + 1)) l i

  -- `row` holds `n` nodes of level `l` from index `base` on.
  abbrev pub IsRow : ℕ → ℕ → ℕ → List Node → Type 0
  IsRow l base n row = (j : ℕ) → j < n → get_or row j [] ≡ tree_node l (base + j)

  -- `tree` holds the levels of the subtree of height `height` over node `s` of level `low + height`.
  abbrev pub IsSubtree : ℕ → ℕ → ℕ → Levels → Type 0
  IsSubtree low height s tree =
      (k m j : ℕ)
      → k + m ≡ height
      → j < 2 ^ m
      → node_at tree k j ≡ tree_node (low + k) (s * 2 ^ m + j)
