-- ===== src/Xmss/Tree/Laws.antt =====
-- The level loops of kkw/src/xmss.c against the Merkle tree of the specification.
use hash_blind_signatures.Common.{
  ℕ, zero, suc, ◌+◌, ◌-◌, ◌*◌, ◌^◌, ◌≤◌, ◌<◌, ◌≡◌, ◌∙◌, refl, sym, ap, ap₂, arith, [], List, Bytes,
  get_or, u32, tabulate, get_or-tabulate, two-pow-suc,
}
use mathlib.Core.Path.{subst}
use native.Mathlib.Nat.{mod-eq_of_lt}
use hash_blind_signatures.Platform.{Platform}
use hash_blind_signatures.Xmss.Params.{Node}
use hash_blind_signatures.Xmss.Hashes.{hash_tree_node}
use hash_blind_signatures.Xmss.Tree.{
  Levels, node_at, build_leaf, next_level, subtree_loop, build_subtree, top_loop, build_top,
}
use hash_blind_signatures.Xmss.Tree.Spec.{tree_node, IsRow, IsSubtree}

pub u32_of_lt : (n : ℕ) → n < 2 ^ 32 → u32 n ≡ n
u32_of_lt n h = mod-eq_of_lt h

module _ (p : Platform) (sk_seed pk_seed : Bytes) where
  -- The level above a row of even length, if no index wraps.
  next_level-IsRow :
      (l base n : ℕ) (below : List Node)
      → l < 2 ^ 32
      → base + n ≤ 2 ^ 32
      → IsRow p sk_seed pk_seed l (2 * base) (2 * n) below
      → IsRow p sk_seed pk_seed (suc l) base n (next_level p pk_seed l base n below)
  unfolding next_level tree_node
  next_level-IsRow l base n below hl hn row j hj =
      get_or-tabulate n j entry [] hj
      ∙ ap₂ (λ a b. hash_tree_node p pk_seed a b (u32 l) (u32 (base + j))) left right
      ∙ ap₂ (hash_tree_node p pk_seed (node (2 * (base + j))) (node (2 * (base + j) + 1)))
          (u32_of_lt l hl) (u32_of_lt (base + j) (omega arith))
    where
      node : ℕ → Node
      node = tree_node p sk_seed pk_seed l

      entry : ℕ → Node
      entry i =
          hash_tree_node p pk_seed (get_or below (2 * i) []) (get_or below (2 * i + 1) []) (u32 l)
            (u32 (base + i))

      left : get_or below (2 * j) [] ≡ node (2 * (base + j))
      left = row (2 * j) (omega arith) ∙ ap node (omega arith)

      right : get_or below (2 * j + 1) [] ≡ node (2 * (base + j) + 1)
      right = row (2 * j + 1) (omega arith) ∙ ap node (omega arith)

  -- The row that a tree stands on is its level 0.
  bottom_row :
      (l s left m j : ℕ) (row : List Node)
      → IsRow p sk_seed pk_seed l (s * 2 ^ left) (2 ^ left) row
      → 0 + m ≡ left
      → j < 2 ^ m
      → get_or row j [] ≡ tree_node p sk_seed pk_seed (l + 0) (s * 2 ^ m + j)
  bottom_row l s left m j row holds e hj =
      holds j (omega (arith, ap (λ (t : ℕ). 2 ^ t) same))
      ∙ ap₂ (λ a t. tree_node p sk_seed pk_seed a (s * 2 ^ t + j)) (omega arith) (sym same)
    where
      same : m ≡ left
      same = omega arith

  -- A tree of one more level, from the tree over the row above.
  taller :
      (l s left k m j : ℕ) (tree : Levels)
      → IsSubtree p sk_seed pk_seed (suc l) left s tree
      → suc k + m ≡ suc left
      → j < 2 ^ m
      → node_at tree k j ≡ tree_node p sk_seed pk_seed (l + suc k) (s * 2 ^ m + j)
  taller l s left k m j tree holds e hj =
      holds k m j (omega arith) hj
      ∙ ap (λ a. tree_node p sk_seed pk_seed a (s * 2 ^ m + j)) (omega arith)

  -- One round of either level loop.
  above-IsRow :
      (l s left : ℕ) (below : List Node)
      → l < 2 ^ 32
      → (s + 1) * 2 ^ suc left ≤ 2 ^ 32
      → IsRow p sk_seed pk_seed l (s * 2 ^ suc left) (2 ^ suc left) below
      → IsRow p sk_seed pk_seed
          (suc l)
          (s * 2 ^ left)
          (2 ^ left)
          (next_level p pk_seed l (s * 2 ^ left) (2 ^ left) below)
  above-IsRow l s left below hl fits row =
      next_level-IsRow l (s * 2 ^ left) (2 ^ left) below hl (omega (arith, two-pow-suc left, twice))
        λ i hi.
          row i (omega (arith, two-pow-suc left))
          ∙ ap (λ t. tree_node p sk_seed pk_seed l (t + i)) (omega (arith, twice))
    where
      twice : s * 2 ^ suc left ≡ s * (2 * 2 ^ left)
      twice = ap (λ (t : ℕ). s * t) (two-pow-suc left)

  subtree_loop-IsSubtree :
      (s subtree_h left l h : ℕ) (below : List Node)
      → h ≡ suc l
      → l + left ≡ subtree_h
      → subtree_h < 2 ^ 32
      → (s + 1) * 2 ^ left ≤ 2 ^ 32
      → IsRow p sk_seed pk_seed l (s * 2 ^ left) (2 ^ left) below
      → IsSubtree p sk_seed pk_seed l left s (subtree_loop p pk_seed s subtree_h left h below)
  unfolding subtree_loop
  subtree_loop-IsSubtree s subtree_h zero l h below eh e small fits row zero m j em hj =
      bottom_row l s 0 m j below row em hj
  subtree_loop-IsSubtree s subtree_h zero l h below eh e small fits row (suc k) m j em hj =
      absurd (omega arith)
  subtree_loop-IsSubtree s subtree_h (suc left) l h below eh e small fits row zero m j em hj =
      bottom_row l s (suc left) m j below row em hj
  subtree_loop-IsSubtree s subtree_h (suc left) l h below eh e small fits row (suc k) m j em hj =
      taller l s left k m j _
        (subtree_loop-IsSubtree s subtree_h left (suc l) (h + 1) (next (h - 1) (subtree_h - h))
          (omega arith) (omega arith) small
          (omega (arith, two-pow-suc left, ap (λ (t : ℕ). s * t) (two-pow-suc left))) above)
        em hj
    where
      next : ℕ → ℕ → List Node
      next a w = next_level p pk_seed a (s * 2 ^ w) (2 ^ w) below

      next_eq : next l left ≡ next (h - 1) (subtree_h - h)
      next_eq = ap₂ next (omega arith) (omega arith)

      above :
          IsRow p sk_seed pk_seed (suc l) (s * 2 ^ left) (2 ^ left) (next (h - 1) (subtree_h - h))
      above =
          subst (IsRow p sk_seed pk_seed (suc l) (s * 2 ^ left) (2 ^ left)) next_eq
            (above-IsRow l s left below (omega arith) fits row)

  -- For a subtree whose leaves have 32-bit indices and whose height fits a word, the levels that
  -- xmss_build_subtree stores are the nodes of the Merkle tree under that subtree.
  pub build_subtree-IsSubtree :
      (s subtree_h : ℕ)
      → subtree_h < 2 ^ 32
      → (s + 1) * 2 ^ subtree_h ≤ 2 ^ 32
      → IsSubtree p sk_seed pk_seed 0 subtree_h s (build_subtree p sk_seed pk_seed s subtree_h)
  unfolding build_subtree
  build_subtree-IsSubtree s subtree_h small fits =
      subtree_loop-IsSubtree s subtree_h subtree_h 0 1 (tabulate (2 ^ subtree_h) leaf) refl
        (omega arith) small fits
        λ j hj.
          get_or-tabulate (2 ^ subtree_h) j leaf [] hj
          ∙ ap (build_leaf p sk_seed pk_seed) (u32_of_lt (s * 2 ^ subtree_h + j) (omega arith))
          ∙ sym (unfold tree_node in refl)
    where
      leaf : ℕ → Node
      leaf j = build_leaf p sk_seed pk_seed (u32 (s * 2 ^ subtree_h + j))

  top_loop-IsSubtree :
      (subtree_h top_h left l r : ℕ) (below : List Node)
      → subtree_h + r ≡ suc l
      → left + r ≡ suc top_h
      → subtree_h + top_h < 2 ^ 32
      → 2 ^ left ≤ 2 ^ 32
      → IsRow p sk_seed pk_seed l (0 * 2 ^ left) (2 ^ left) below
      → IsSubtree p sk_seed pk_seed l left 0 (top_loop p pk_seed subtree_h top_h left r below)
  unfolding top_loop
  top_loop-IsSubtree subtree_h top_h zero l r below eh e small fits row zero m j em hj =
      bottom_row l 0 0 m j below row em hj
  top_loop-IsSubtree subtree_h top_h zero l r below eh e small fits row (suc k) m j em hj =
      absurd (omega arith)
  top_loop-IsSubtree subtree_h top_h (suc left) l r below eh e small fits row zero m j em hj =
      bottom_row l 0 (suc left) m j below row em hj
  top_loop-IsSubtree subtree_h top_h (suc left) l r below eh e small fits row (suc k) m j em hj =
      taller l 0 left k m j _
        (top_loop-IsSubtree subtree_h top_h left (suc l) (r + 1)
          (next (subtree_h + r - 1) 0 (top_h - r)) (omega arith) (omega arith) small
          (omega (arith, two-pow-suc left)) above)
        em hj
    where
      next : ℕ → ℕ → ℕ → List Node
      next a b w = next_level p pk_seed a b (2 ^ w) below

      next_eq : next l (0 * 2 ^ left) left ≡ next (subtree_h + r - 1) 0 (top_h - r)
      next_eq =
          ap (λ b. next l b left) (omega arith)
          ∙ ap₂ (λ a w. next a 0 w) (omega arith) (omega arith)

      above :
          IsRow p sk_seed pk_seed
            (suc l)
            (0 * 2 ^ left)
            (2 ^ left)
            (next (subtree_h + r - 1) 0 (top_h - r))
      above =
          subst (IsRow p sk_seed pk_seed (suc l) (0 * 2 ^ left) (2 ^ left)) next_eq
            (above-IsRow l 0 left below (omega arith) (omega arith) row)

  -- `xmss_build_top`, over a row that holds the roots of the bottom subtrees.
  pub build_top-IsSubtree :
      (subtree_h top_h : ℕ) (roots : List Node)
      → subtree_h + top_h ≤ 32
      → 2 ^ top_h ≤ 2 ^ 32
      → IsRow p sk_seed pk_seed subtree_h 0 (2 ^ top_h) roots
      → IsSubtree p sk_seed pk_seed subtree_h top_h 0 (build_top p pk_seed subtree_h top_h roots)
  unfolding build_top
  build_top-IsSubtree subtree_h top_h roots small fits row =
      top_loop-IsSubtree subtree_h top_h top_h subtree_h 1 roots (omega arith) (omega arith)
        (omega arith) fits
        λ j hj. row j hj ∙ ap (λ t. tree_node p sk_seed pk_seed subtree_h (t + j)) (omega arith)
