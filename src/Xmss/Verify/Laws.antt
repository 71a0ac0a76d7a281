-- ===== src/Xmss/Verify/Laws.antt =====
-- The walk up an authentication path, `xmss_walk_auth_path` of kkw/src/xmss.c.
use hash_blind_signatures.Common.{
  ℕ, zero, suc, ◌+◌, ◌-◌, ◌*◌, ◌/◌, ◌%◌, ◌^◌, ◌≤◌, ◌<◌, bit_xor, ◌≡◌, ◌∙◌, refl, sym, ap, ap₂,
  arith, [], List, Bytes, get_or, u32, half-shift, ==_iff, ◌==◌, Bool-cases, inl, inr, true, false,
}
use native.Mathlib.Nat.{div-eq_of_lt}
use hash_blind_signatures.Bits.{xor-one}
use hash_blind_signatures.Platform.{Platform}
use hash_blind_signatures.Xmss.Params.{Node}
use hash_blind_signatures.Xmss.Hashes.{hash_tree_node}
use hash_blind_signatures.Xmss.Tree.{climb_loop, climb_upper}
use hash_blind_signatures.Xmss.Tree.Spec.{tree_node}
use hash_blind_signatures.Xmss.Tree.Laws.{u32_of_lt}
use hash_blind_signatures.Xmss.Verify.{walk_step, walk_loop, walk_auth_path}

module _ (p : Platform) (sk_seed pk_seed : Bytes) (height : ℕ) (upper : List Node) where
  -- `path` has the siblings of the nodes above leaf `leaf`: real ones below the real height, and
  -- the derived ones above it.
  pub record IsAuthPath (leaf : ℕ) (path : List Node) : Type 0 where
    pub siblings :
        (h : ℕ)
        → h < height
        → get_or path h [] ≡ tree_node p sk_seed pk_seed h (bit_xor (leaf / 2 ^ h) 1)
    pub uppers : (i : ℕ) → height + i < 32 → get_or path (height + i) [] ≡ get_or upper i []

  -- The parent of a node and its sibling, in either order.
  walk_step-lem :
      (path : List Node) (h idx : ℕ)
      → h < 2 ^ 32
      → get_or path h [] ≡ tree_node p sk_seed pk_seed h (bit_xor idx 1)
      → walk_step p pk_seed path h idx (tree_node p sk_seed pk_seed h idx)
        ≡ tree_node p sk_seed pk_seed (suc h) (idx / 2)
  unfolding walk_step tree_node
  walk_step-lem path h idx small sibling = elim (Bool-cases (idx % 2 == 0)) [
    | inl e ↦ rw e (
        ap₂ (λ a l. hash_tree_node p pk_seed (node idx) a l (idx / 2))
          (sibling ∙ ap node (xor-one idx ∙ rw e (right e))) (u32_of_lt h small)
        ∙ ap (λ t. hash_tree_node p pk_seed (node t) (node (2 * (idx / 2) + 1)) h (idx / 2))
            (left e))
    | inr e ↦ rw e (
        ap₂ (λ a l. hash_tree_node p pk_seed a (node idx) l (idx / 2))
          (sibling ∙ ap node (xor-one idx ∙ rw e (before e))) (u32_of_lt h small)
        ∙ ap (λ t. hash_tree_node p pk_seed (node (2 * (idx / 2))) (node t) h (idx / 2)) (self e))
  ]
    where
      node : ℕ → Node
      node = tree_node p sk_seed pk_seed h

      left : (idx % 2 == 0) ≡ true → idx ≡ 2 * (idx / 2)
      left e = omega (arith, (==_iff (idx % 2) 0).0 e)

      right : (idx % 2 == 0) ≡ true → idx + 1 ≡ 2 * (idx / 2) + 1
      right e = omega (arith, (==_iff (idx % 2) 0).0 e)

      before : (idx % 2 == 0) ≡ false → idx - 1 ≡ 2 * (idx / 2)
      before e = ground arith

      self : (idx % 2 == 0) ≡ false → idx ≡ 2 * (idx / 2) + 1
      self e = ground arith

  walk_real :
      (leaf rest : ℕ) (path : List Node)
      → IsAuthPath leaf path
      → height ≤ 32
      → (k h : ℕ) → h + k ≡ height
      → walk_loop p pk_seed path
          (k + rest)
          h
          (leaf / 2 ^ h)
          (tree_node p sk_seed pk_seed h (leaf / 2 ^ h))
        ≡ walk_loop p pk_seed path rest height
            (leaf / 2 ^ height)
            (tree_node p sk_seed pk_seed height (leaf / 2 ^ height))
  unfolding walk_loop
  walk_real leaf rest path auth fits zero h e =
      ap₂ (λ r l. walk_loop p pk_seed path r l (at l) (tree_node p sk_seed pk_seed l (at l)))
        none_left top
    where
      at : ℕ → ℕ
      at l = leaf / 2 ^ l

      none_left : 0 + rest ≡ rest
      none_left = omega arith

      top : h ≡ height
      top = omega arith
  walk_real leaf rest path auth fits (suc k) h e =
      ap (λ r. walk_loop p pk_seed path r h (at h) (tree_node p sk_seed pk_seed h (at h))) one_more
      ∙ ap (walk_loop p pk_seed path (k + rest) (h + 1) (at h / 2))
          (walk_step-lem path h (at h) (omega arith) (auth.siblings h (omega arith)))
      ∙ ap₂ (λ i l. walk_loop p pk_seed path (k + rest) l i (tree_node p sk_seed pk_seed (suc h) i))
          (half-shift leaf h) next
      ∙ walk_real leaf rest path auth fits k (suc h) (omega arith)
    where
      at : ℕ → ℕ
      at l = leaf / 2 ^ l

      one_more : suc k + rest ≡ suc (k + rest)
      one_more = omega arith

      next : h + 1 ≡ suc h
      next = omega arith

  walk_upper :
      (leaf : ℕ) (path : List Node)
      → IsAuthPath leaf path
      → (rest i h : ℕ) (node : Node) → height + i ≡ h
      → h + rest ≡ 32
      → walk_loop p pk_seed path rest h 0 node ≡ climb_loop p pk_seed height upper rest i node
  unfolding walk_loop climb_loop walk_step
  walk_upper leaf path auth zero i h node e f = refl
  walk_upper leaf path auth (suc rest) i h node e f =
      walk_upper leaf path auth rest (i + 1) (h + 1) _ (omega arith) (omega arith)
      ∙ ap (climb_loop p pk_seed height upper rest (i + 1)) (
          ap₂ (λ a l. hash_tree_node p pk_seed node a (u32 l) 0)
            (ap (λ t. get_or path t []) (sym e) ∙ auth.uppers i (omega arith)) (sym e))

  -- For a leaf in range and a path of the siblings of its ancestors and of the derived siblings
  -- above the real height, the walk from the leaf ends where climbing from the top of the real
  -- tree ends.
  pub walk_auth_path-lem :
      (leaf : ℕ) (path : List Node)
      → IsAuthPath leaf path
      → height ≤ 32
      → leaf < 2 ^ height
      → walk_auth_path p pk_seed (tree_node p sk_seed pk_seed 0 leaf) leaf path
        ≡ climb_upper p pk_seed (tree_node p sk_seed pk_seed height 0) height upper
  unfolding walk_auth_path climb_upper
  walk_auth_path-lem leaf path auth fits small =
      ap₂ (λ r i. walk_loop p pk_seed path r 0 i (tree_node p sk_seed pk_seed 0 i)) split unshifted
      ∙ walk_real leaf (32 - height) path auth fits height 0 (omega arith)
      ∙ ap
          (λ i.
            walk_loop p pk_seed path (32 - height) height i (tree_node p sk_seed pk_seed height i))
          at_top
      ∙ walk_upper leaf path auth (32 - height) 0 height _ (omega arith) (omega arith)
    where
      split : 32 ≡ height + (32 - height)
      split = omega arith

      unshifted : leaf ≡ leaf / 2 ^ 0
      unshifted = omega arith

      at_top : leaf / 2 ^ height ≡ 0
      at_top = div-eq_of_lt small
