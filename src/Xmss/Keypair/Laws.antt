-- ===== src/Xmss/Keypair/Laws.antt =====
-- The invariant of `struct xmss_keypair` of kkw/src/xmss.c: it holds parts of one Merkle tree.
use hash_blind_signatures.Common.{
  ℕ, zero, suc, ◌+◌, ◌-◌, ◌*◌, ◌^◌, ◌≤◌, ◌≡◌, ◌∙◌, refl, sym, ap, ap₂, arith, [], List, Bytes, u32,
  two-pow_pos, two-pow_mono, two-pow-add, some, if◌then◌else◌, ◌==◌,
}
use mathlib.Core.Path.{subst, subst₂}
use hash_blind_signatures.Platform.{Platform}
use hash_blind_signatures.Xmss.Params.{Node, tree_h}
use hash_blind_signatures.Xmss.Tree.{
  Levels, build_subtree, build_top, derive_upper_siblings, climb_upper,
}
use hash_blind_signatures.Xmss.Tree.Spec.{tree_node, IsRow, IsSubtree}
use hash_blind_signatures.Xmss.Tree.Laws.{build_subtree-IsSubtree, build_top-IsSubtree, u32_of_lt}
use hash_blind_signatures.Xmss.Keypair.{Keypair, sweep, fill_keypair, keypair_new_split}

module _ (p : Platform) where
  -- `top` and `bottom` hold parts of the Merkle tree of the seeds, and the root is what the
  -- climb from its top node reaches.
  pub record IsValid (kp : Keypair) : Type 0 where
    pub subtree_pos : 1 ≤ kp.subtree_h
    pub subtree_fits : kp.subtree_h ≤ kp.height
    pub height_fits : kp.height ≤ 32
    pub bottom_holds : IsSubtree p kp.sk_seed kp.pk_seed 0 kp.subtree_h kp.cached_subtree kp.bottom
    pub top_holds :
        IsSubtree p kp.sk_seed kp.pk_seed kp.subtree_h (kp.height - kp.subtree_h) 0 kp.top
    pub root_holds :
        kp.root
        ≡ climb_upper p kp.pk_seed
            (tree_node p kp.sk_seed kp.pk_seed kp.height 0)
            kp.height
            kp.upper

  module _ (sk_seed pk_seed : Bytes) (subtree_h : ℕ) (small : subtree_h ≤ 32) where
    pub IsSubtree-held :
        (s left : ℕ)
        → (s + suc left) * 2 ^ subtree_h ≤ 2 ^ 32
        → IsSubtree p sk_seed pk_seed 0 subtree_h s
            (build_subtree p sk_seed pk_seed (u32 s) subtree_h)
    IsSubtree-held s left fits =
        subst
          (λ t.
            IsSubtree p sk_seed pk_seed 0 subtree_h s (build_subtree p sk_seed pk_seed t subtree_h))
          (sym (
            u32_of_lt s
              (omega (arith, wide (s + suc left) (2 ^ subtree_h) (two-pow_pos subtree_h)))))
          (build_subtree-IsSubtree p sk_seed pk_seed s subtree_h (omega arith) (omega arith))
      where
        wide : (a b : ℕ) → 1 ≤ b → a ≤ a * b
        wide a b h = grind arith

    -- The sweep collects the roots of the subtrees, and leaves the last one in `bottom`.
    sweep-roots :
        (left s : ℕ) (bottom : Levels)
        → (s + left) * 2 ^ subtree_h ≤ 2 ^ 32
        → IsRow p sk_seed pk_seed subtree_h s left
            (sweep p sk_seed pk_seed subtree_h left s bottom).0
    unfolding sweep
    sweep-roots zero s bottom fits j hj = absurd (omega arith)
    sweep-roots (suc left) s bottom fits zero hj =
        IsSubtree-held s left fits subtree_h 0 0 (omega arith) (omega arith)
        ∙ ap₂ (tree_node p sk_seed pk_seed) (omega arith) (omega arith)
    sweep-roots (suc left) s bottom fits (suc j) hj =
        sweep-roots left (s + 1) (build_subtree p sk_seed pk_seed (u32 s) subtree_h) (omega arith) j
          (omega arith)
        ∙ ap (tree_node p sk_seed pk_seed subtree_h) (omega arith)

    sweep-last :
        (left s : ℕ) (bottom : Levels)
        → (s + suc left) * 2 ^ subtree_h ≤ 2 ^ 32
        → IsSubtree p sk_seed pk_seed 0 subtree_h
            (s + left)
            (sweep p sk_seed pk_seed subtree_h (suc left) s bottom).1
    unfolding sweep
    sweep-last zero s bottom fits =
        subst
          (λ t.
            IsSubtree p sk_seed pk_seed 0 subtree_h t
              (build_subtree p sk_seed pk_seed (u32 s) subtree_h))
          same (IsSubtree-held s 0 fits)
      where
        same : s ≡ s + 0
        same = omega arith
    sweep-last (suc left) s bottom fits =
        subst
          (λ t.
            IsSubtree p sk_seed pk_seed 0 subtree_h t
              (sweep p sk_seed pk_seed subtree_h (suc left) (s + 1)
                (build_subtree p sk_seed pk_seed (u32 s) subtree_h)).1)
          same
          (sweep-last left (s + 1) (build_subtree p sk_seed pk_seed (u32 s) subtree_h)
            (omega arith))
      where
        same : s + 1 + left ≡ s + suc left
        same = omega arith

  last_index : (top_h : ℕ) → (if top_h == 0 then 0 else 2 ^ top_h - 1) ≡ 2 ^ top_h - 1
  last_index zero = refl
  last_index (suc top_h) = ground arith

  -- Every key pair that is made meets the invariant.
  pub fill_keypair-IsValid :
      (sk_seed pk_seed : Bytes) (height subtree_h : ℕ)
      → 1 ≤ subtree_h
      → subtree_h ≤ height
      → height ≤ 32
      → IsValid (fill_keypair p sk_seed pk_seed height subtree_h)
  unfolding fill_keypair
  fill_keypair-IsValid sk_seed pk_seed height subtree_h hs hh h32 = record {
    subtree_pos = hs;
    subtree_fits = hh;
    height_fits = h32;
    bottom_holds = held;
    top_holds = tops;
    root_holds =
        ap (λ t. climb_upper p pk_seed t height (derive_upper_siblings p sk_seed (tree_h - height)))
          (tops top_h 0 0 (omega arith) (omega arith)
            ∙ ap₂ (tree_node p sk_seed pk_seed) (omega arith) (omega arith));
  }
    where
      top_h : ℕ
      top_h = height - subtree_h

      count : ℕ
      count = 2 ^ top_h - 1

      all_of : 2 ^ top_h ≡ suc count
      all_of = omega (arith, two-pow_pos top_h)

      roots : List Node
      roots = (sweep p sk_seed pk_seed subtree_h (2 ^ top_h) 0 []).0

      room : 2 ^ top_h * 2 ^ subtree_h ≤ 2 ^ 32
      room =
          omega
            (arith, two-pow-add top_h subtree_h, two-pow_mono (top_h + subtree_h) 32 (omega arith))

      held :
          IsSubtree p sk_seed pk_seed 0 subtree_h
            (if top_h == 0 then 0 else 2 ^ top_h - 1)
            (sweep p sk_seed pk_seed subtree_h (2 ^ top_h) 0 []).1
      held =
          subst₂
            (λ c n.
              IsSubtree p sk_seed pk_seed 0 subtree_h c
                (sweep p sk_seed pk_seed subtree_h n 0 []).1)
            last (sym all_of)
            (sweep-last sk_seed pk_seed subtree_h (omega arith) count 0 []
              (omega (arith, room, ap (λ (t : ℕ). t * 2 ^ subtree_h) all_of)))
        where
          last : 0 + count ≡ (if top_h == 0 then 0 else 2 ^ top_h - 1)
          last = omega (arith, last_index top_h)

      tops :
          IsSubtree p sk_seed pk_seed subtree_h top_h 0 (build_top p pk_seed subtree_h top_h roots)
      tops =
          build_top-IsSubtree p sk_seed pk_seed subtree_h top_h roots (omega arith)
            (two-pow_mono top_h 32 (omega arith))
            (sweep-roots sk_seed pk_seed subtree_h (omega arith) (2 ^ top_h) 0 []
              (omega (arith, room)))

  keypair_new_split-eq-some :
      (sizeof_keypair : ℕ) (sk_seed pk_seed : Bytes) (height subtree_h : ℕ) (kp : Keypair)
      → keypair_new_split p sizeof_keypair sk_seed pk_seed height subtree_h ≡ some kp
      → (1 ≤ subtree_h)
        × (subtree_h ≤ height)
        × (height ≤ 32)
        × (fill_keypair p sk_seed pk_seed height subtree_h ≡ kp)
  unfolding keypair_new_split
  keypair_new_split-eq-some sizeof_keypair sk_seed pk_seed height subtree_h kp made = ground arith

  -- For any heights: a key pair that xmss_keypair_new_split returns meets the invariant, and has
  -- the seeds and the height given.
  pub keypair_new_split-IsValid :
      (sizeof_keypair : ℕ) (sk_seed pk_seed : Bytes) (height subtree_h : ℕ) {kp : Keypair}
      → keypair_new_split p sizeof_keypair sk_seed pk_seed height subtree_h ≡ some kp
      → IsValid kp × (kp.sk_seed ≡ sk_seed) × (kp.pk_seed ≡ pk_seed) × (kp.height ≡ height)
  unfolding fill_keypair
  keypair_new_split-IsValid sizeof_keypair sk_seed pk_seed height subtree_h {kp} made =
      subst (λ k. IsValid k × (k.sk_seed ≡ sk_seed) × (k.pk_seed ≡ pk_seed) × (k.height ≡ height))
        e.3 (fill_keypair-IsValid sk_seed pk_seed height subtree_h e.0 e.1 e.2, refl, refl, refl)
    where
      e :
          (1 ≤ subtree_h)
          × (subtree_h ≤ height)
          × (height ≤ 32)
          × (fill_keypair p sk_seed pk_seed height subtree_h ≡ kp)
      e = keypair_new_split-eq-some sizeof_keypair sk_seed pk_seed height subtree_h kp made
