-- ===== src/Circuit/Views/Path.antt =====
-- The walk along the authentication path inside the circuit, in `building_views` and `verify` of
-- kkw/src/circuits.c.
use hash_blind_signatures.Common.{
  ℕ, ◌+◌, ◌*◌, ◌/◌, ◌%◌, ◌^◌, refl, [], ◌∷◌, ◌++◌, List, Bytes, u8, take, map,
}
use hash_blind_signatures.Xmss.Params.{node_bytes, pk_seed_bytes, tree_h, tweak_tree}
use hash_blind_signatures.Protocol.User.{w_leafidx_off}
use hash_blind_signatures.Circuit.Shares.{Masked, mpc_xor}
use hash_blind_signatures.Circuit.Input.{valid_sizes}
use hash_blind_signatures.Common.Comp.{Comp, ◌>>=◌, give, loop, each}
use hash_blind_signatures.Circuit.Engine.{
  Engine, IsCounted, Runs, Runs-do, Runs-map, Runs-loop, Runs-each, and_of, and_of-Runs,
}
use hash_blind_signatures.Circuit.Views.Lanes.{
  Buffer, on_words, read_word, load_word, be_word, stored, joined, slice, public_bytes, input_of,
  mask_from_bit, idx_bytes, w_path_off,
}

module _ (E : Engine) (pk_seed : Bytes) (w : Buffer) where
  abbrev n : ℕ
  n = E.lanes

  -- `li`
  abbrev leaf_word : Masked
  leaf_word = read_word n be_word (slice n w_leafidx_off 4 w)

  -- Word `t` of the left and of the right child.
  unfoldable pub ordered_word : Masked → Buffer → Buffer → ℕ → Comp E.State (Masked × Masked)
  ordered_word mask node sib t = do
    let nd = load_word n node t
    let sb = load_word n sib t
    mt ← and_of E mask (mpc_xor n nd sb)
    give (mpc_xor n nd mt, mpc_xor n sb mt)

  -- The hash of the two children, at `level`.
  unfoldable pub parent_hash : ℕ → List (Masked × Masked) → Comp E.State Buffer
  parent_hash level children =
      E.hash
        (input_of (pk_seed_bytes + 2 + 4) (
          joined n (public_bytes n (take pk_seed_bytes pk_seed ++ tweak_tree ∷ u8 level ∷ []))
            (idx_bytes n leaf_word level)))
        (input_of (2 * node_bytes)
          (joined n (stored n (map (λ c. c.0) children)) (stored n (map (λ c. c.1) children))))
        node_bytes

  unfoldable pub path_step : ℕ → Buffer → Comp E.State Buffer
  path_step level node = do
    let sib = slice n (w_path_off + level * node_bytes) node_bytes w
    let bitw = on_words n (λ v. v / 2 ^ level % 2) leaf_word
    children ← each 4 0 (ordered_word (mask_from_bit n bitw) node sib)
    parent_hash level children

  -- From the leaf to the root.
  unfoldable pub path_part : Buffer → Comp E.State Buffer
  path_part = loop tree_h 0 path_step

  module _ (c : IsCounted E) where
    path_step-Runs : (level : ℕ) (node : Buffer) → Runs E.gates 340 (path_step level node)
    unfolding path_step ordered_word parent_hash valid_sizes
    path_step-Runs level node =
        Runs-do refl (Runs-each 4 0 λ t. Runs-map _ (and_of-Runs E c _ _))
          λ children. c.hash-Runs _ _ node_bytes refl

    pub path_part-Runs : (leaf : Buffer) → Runs E.gates 10880 (path_part leaf)
    unfolding path_part
    path_part-Runs leaf = Runs-loop tree_h 0 leaf path_step-Runs
