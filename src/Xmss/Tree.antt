-- ===== src/Xmss/Tree.antt =====
-- The levels of the Merkle trees of kkw/src/xmss.c. A tree is the list of its levels, leaves
-- first; its loops over a level store into distinct entries, so their order is free.
pub mod Spec
pub mod Laws
use hash_blind_signatures.Common.{
  ℕ, zero, suc, ◌+◌, ◌-◌, ◌*◌, ◌/◌, ◌%◌, ◌^◌, Bool, true, false, ◌&&◌, [], ◌∷◌, List, Bytes, get_or,
  u32, if◌then◌else◌, tabulate, blocks, ◌==◌, codes,
}
use hash_blind_signatures.Platform.{Platform}
use hash_blind_signatures.Hash.{blake3_keyed_xof}
use hash_blind_signatures.Xmss.Params.{Node, node_bytes, tree_h}
use hash_blind_signatures.Xmss.Hashes.{hash_tree_node, hash_public_key}
use hash_blind_signatures.Xmss.Wots.{wots_gen_sk, wots_pk_from_sk}

abbrev pub Levels : Type 0
Levels = List (List Node)

-- `tree[h][j]`
abbrev pub node_at : Levels → ℕ → ℕ → Node
node_at tree h j = get_or (get_or tree h []) j []

-- BLAKE3_XOF_DOM_XMSS_UPPER
abbrev xof_dom_upper : Bytes
xof_dom_upper = codes "blind-mss XMSS upper-sibling expansion v1"

module _ (p : Platform) where
  -- The loop of `xmss_alloc_levels` from level `h`, over `left` levels: whether every request of
  -- `2 ^ (levels - h)` nodes is granted. (`xmss_free_levels` undoes the ones before a refusal.)
  unfoldable pub alloc_loop : ℕ → ℕ → ℕ → Bool
  alloc_loop levels zero h = true
  alloc_loop levels (suc left) h =
      p.malloc (2 ^ (levels - h) * node_bytes) && alloc_loop levels left (h + 1)

  unfoldable pub alloc_levels : ℕ → Bool
  unfolding alloc_loop
  alloc_levels levels = alloc_loop levels (levels + 1) 0

  -- The body of the loop over the leaves.
  unfoldable pub build_leaf : Bytes → Bytes → ℕ → Node
  build_leaf sk_seed pk_seed epoch =
      hash_public_key p pk_seed epoch
        (wots_pk_from_sk p pk_seed epoch (wots_gen_sk p sk_seed epoch))

  -- One level from the level below: `n` nodes, hashed at level `level` from index `base` on.
  unfoldable pub next_level : Bytes → ℕ → ℕ → ℕ → List Node → List Node
  next_level pk_seed level base n below = tabulate n (λ j.
      hash_tree_node p pk_seed (get_or below (2 * j) []) (get_or below (2 * j + 1) []) (u32 level)
        (u32 (base + j)))

  -- The loop over the levels from `h` on, with `left` to go, above the last one built.
  unfoldable pub subtree_loop : Bytes → ℕ → ℕ → ℕ → ℕ → List Node → Levels
  subtree_loop pk_seed s subtree_h zero h below = below ∷ []
  subtree_loop pk_seed s subtree_h (suc left) h below =
      below
      ∷ subtree_loop pk_seed s subtree_h left (h + 1)
          (next_level pk_seed (h - 1) (s * 2 ^ (subtree_h - h)) (2 ^ (subtree_h - h)) below)

  unfoldable pub build_subtree : Bytes → Bytes → ℕ → ℕ → Levels
  build_subtree sk_seed pk_seed s subtree_h =
      subtree_loop pk_seed s subtree_h subtree_h 1
        (tabulate (2 ^ subtree_h) (λ j. build_leaf sk_seed pk_seed (u32 (s * 2 ^ subtree_h + j))))

  unfoldable pub top_loop : Bytes → ℕ → ℕ → ℕ → ℕ → List Node → Levels
  top_loop pk_seed subtree_h top_h zero r below = below ∷ []
  top_loop pk_seed subtree_h top_h (suc left) r below =
      below
      ∷ top_loop pk_seed subtree_h top_h left (r + 1)
          (next_level pk_seed (subtree_h + r - 1) 0 (2 ^ (top_h - r)) below)

  -- The levels above `top[0]`, and that one.
  unfoldable pub build_top : Bytes → ℕ → ℕ → List Node → Levels
  build_top pk_seed subtree_h top_h bottom_roots =
      top_loop pk_seed subtree_h top_h top_h 1 bottom_roots

  -- The entries of `upper` that are written; none for `levels <= 0`.
  unfoldable pub derive_upper_siblings : Bytes → ℕ → List Node
  unfolding blake3_keyed_xof
  derive_upper_siblings sk_seed levels =
      if levels == 0
      then []
      else blocks node_bytes levels
          (blake3_keyed_xof p sk_seed xof_dom_upper [] (node_bytes * levels))

  -- The loop from `i`, with `left` rounds to go.
  unfoldable pub climb_loop : Bytes → ℕ → List Node → ℕ → ℕ → Node → Node
  climb_loop pk_seed height upper zero i node = node
  climb_loop pk_seed height upper (suc left) i node =
      climb_loop pk_seed height upper left (i + 1)
        (hash_tree_node p pk_seed node (get_or upper i []) (u32 (height + i)) 0)

  unfoldable pub climb_upper : Bytes → Node → ℕ → List Node → Node
  unfolding climb_loop
  climb_upper pk_seed real_root height upper =
      climb_loop pk_seed height upper (tree_h - height) 0 real_root
