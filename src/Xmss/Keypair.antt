-- ===== src/Xmss/Keypair.antt =====
-- `struct xmss_keypair` of kkw/src/xmss.c, and how it is made.
pub mod Laws
use hash_blind_signatures.Common.{
  ℕ, zero, suc, ◌+◌, ◌-◌, ◌*◌, ◌^◌, Bool, true, false, ◌&&◌, ◌||◌, not, Option, none, some, [], ◌∷◌,
  List, Bytes, u32, ltb, ◌==◌, if◌then◌else◌, replicate,
}
use hash_blind_signatures.Platform.{Platform}
use hash_blind_signatures.Xmss.Params.{Node, node_bytes, tree_h, subtree_h_max}
use hash_blind_signatures.Xmss.Tree.{
  Levels, node_at, alloc_levels, build_subtree, build_top, derive_upper_siblings, climb_upper,
}

pub record Keypair : Type 0 where
  pub sk_seed : Bytes
  pub pk_seed : Bytes
  pub height : ℕ
  pub subtree_h : ℕ
  -- the levels above the roots of the bottom subtrees, those roots first
  pub top : Levels
  -- the levels of the one bottom subtree that is held
  pub bottom : Levels
  -- which one that is
  pub cached_subtree : ℕ
  -- the siblings above the real height
  pub upper : List Node
  pub root : Node

module _ (p : Platform) where
  -- The loop over the bottom subtrees from `s`, with `left` to go: the entries of `top[0]`, and
  -- what is left in `bottom`.
  unfoldable pub sweep : Bytes → Bytes → ℕ → ℕ → ℕ → Levels → List Node × Levels
  sweep sk_seed pk_seed subtree_h zero s bottom = ([], bottom)
  sweep sk_seed pk_seed subtree_h (suc left) s bottom =
      let built = build_subtree p sk_seed pk_seed (u32 s) subtree_h in
      let (roots, last) = sweep sk_seed pk_seed subtree_h left (s + 1) built in
      (node_at built subtree_h 0 ∷ roots, last)

  -- The fields, once the arguments are accepted and the memory is had.
  unfoldable pub fill_keypair : Bytes → Bytes → ℕ → ℕ → Keypair
  fill_keypair sk_seed pk_seed height subtree_h =
      let top_h = height - subtree_h in
      let (roots, last) = sweep sk_seed pk_seed subtree_h (2 ^ top_h) 0 [] in
      let tops = build_top p pk_seed subtree_h top_h roots in
      let siblings = derive_upper_siblings p sk_seed (tree_h - height) in
      record {
        sk_seed = sk_seed;
        pk_seed = pk_seed;
        height = height;
        subtree_h = subtree_h;
        top = tops;
        bottom = last;
        cached_subtree = if top_h == 0 then 0 else 2 ^ top_h - 1;
        upper = siblings;
        root = climb_upper p pk_seed (node_at tops top_h 0) height siblings;
      }

  -- `sizeof(xmss_keypair)` is the platform's choice.
  module _ (sizeof_keypair : ℕ) where
    -- A negative height or subtree height fails the first test as 0 does.
    unfoldable pub keypair_new_split : Bytes → Bytes → ℕ → ℕ → Option Keypair
    keypair_new_split sk_seed pk_seed height subtree_h =
        if ltb height 1 || ltb tree_h height
        then none
        else (if ltb subtree_h 1 || ltb height subtree_h
            then none
            else (if not (p.malloc sizeof_keypair)
                then none
                else (if not (alloc_levels p (height - subtree_h))
                    then none
                    else (if not (alloc_levels p subtree_h)
                        then none
                        else some (fill_keypair sk_seed pk_seed height subtree_h)))))

    unfoldable pub keypair_new : Bytes → Bytes → ℕ → Option Keypair
    keypair_new sk_seed pk_seed height =
        keypair_new_split sk_seed pk_seed height
          (if ltb height subtree_h_max then height else subtree_h_max)

    -- A root of zeros where the key pair cannot be made.
    unfoldable pub compute_root : Bytes → Bytes → ℕ → Node
    compute_root sk_seed pk_seed height = elim (keypair_new sk_seed pk_seed height) [
      | none ↦ replicate node_bytes 0
      | some kp ↦ kp.root
    ]

abbrev pub capacity : Keypair → ℕ
capacity kp = 2 ^ kp.height
