-- ===== src/Xmss/Sign/Path.antt =====
-- The authentication path that `xmss_keypair_sign` of kkw/src/xmss.c stores.
use hash_blind_signatures.Common.{
  ℕ, suc, ◌+◌, ◌-◌, ◌*◌, ◌/◌, ◌%◌, ◌^◌, ◌≤◌, ◌<◌, bit_xor, ◌≡◌, ◌∙◌, refl, sym, ap, ap₂, arith, [],
  get_or, u32, two-pow-suc, two-pow-add, two-pow_pos, two-pow_mono, shift-shift, ==_iff, ◌==◌,
  Bool-cases, inl, inr, true, false, ltb, tabulate, get_or-tabulate, lt→ltb, ltb→lt,
}
use mathlib.Core.Path.{subst}
use native.Mathlib.Nat.{div-add-mod, mod-lt, div-eq_of_lt}
use hash_blind_signatures.Bits.{xor-one}
use hash_blind_signatures.Platform.{Platform}
use hash_blind_signatures.Xmss.Params.{tree_h}
use hash_blind_signatures.Xmss.Tree.{build_subtree}
use hash_blind_signatures.Xmss.Tree.Spec.{tree_node, IsSubtree}
use hash_blind_signatures.Xmss.Keypair.{Keypair}
use hash_blind_signatures.Xmss.Keypair.Laws.{IsValid, IsSubtree-held}
use hash_blind_signatures.Xmss.Sign.{load_subtree, auth_node}
use hash_blind_signatures.Xmss.Verify.Laws.{IsAuthPath}

-- Flipping the low bit stays in a block of even length from an even start.
xor_one_in_block :
    (s half idx : ℕ)
    → s * (2 * half) ≤ idx
    → idx < s * (2 * half) + 2 * half
    → (s * (2 * half) ≤ bit_xor idx 1) × (bit_xor idx 1 < s * (2 * half) + 2 * half)
xor_one_in_block s half idx lo hi = elim (Bool-cases (idx % 2 == 0)) [
  | inl e ↦ (rw (xor-one idx, e) (omega arith), rw (xor-one idx, e) (omega (arith, even e)))
  | inr e ↦ (rw (xor-one idx, e) (omega (arith, odd e)), rw (xor-one idx, e) (omega arith))
]
  where
    even : (idx % 2 == 0) ≡ true → idx % 2 ≡ 0
    even e = (==_iff (idx % 2) 0).0 e

    odd : (idx % 2 == 0) ≡ false → idx % 2 ≡ 1
    odd e = ground arith

-- The same for a shifted index: the sibling lies in the block of its subtree.
sibling_in_block :
    (leaf h m : ℕ)
    → (leaf / 2 ^ (h + suc m) * 2 ^ suc m ≤ bit_xor (leaf / 2 ^ h) 1)
      × (bit_xor (leaf / 2 ^ h) 1 < leaf / 2 ^ (h + suc m) * 2 ^ suc m + 2 ^ suc m)
sibling_in_block leaf h m =
    subst (λ w. (s * w ≤ bit_xor idx 1) × (bit_xor idx 1 < s * w + w)) (sym (two-pow-suc m))
      (xor_one_in_block s (2 ^ m) idx (omega (arith, around, rest, twice))
        (omega (arith, around, rest, twice)))
  where
    idx : ℕ
    idx = leaf / 2 ^ h

    s : ℕ
    s = leaf / 2 ^ (h + suc m)

    around : 2 ^ suc m * s + idx % 2 ^ suc m ≡ idx
    around =
        ap (λ t. 2 ^ suc m * t + idx % 2 ^ suc m) (sym (shift-shift leaf h (suc m)))
        ∙ div-add-mod idx (2 ^ suc m)

    rest : idx % 2 ^ suc m < 2 ^ suc m
    rest = mod-lt idx (two-pow_pos (suc m))

    twice : 2 ^ suc m * s ≡ s * (2 * 2 ^ m)
    twice = ap (λ t. t * s) (two-pow-suc m) ∙ omega arith

module _ (p : Platform) where
  -- Loading a bottom subtree whose number is in range keeps the invariant of a key pair that
  -- meets it, and that subtree is then the one held.
  pub load_subtree-IsValid :
      (kp : Keypair) (s : ℕ)
      → IsValid p kp
      → s < 2 ^ (kp.height - kp.subtree_h)
      → IsValid p (load_subtree p kp s) × ((load_subtree p kp s).cached_subtree ≡ s)
  unfolding load_subtree
  load_subtree-IsValid kp s v hs = elim (Bool-cases (kp.cached_subtree == s)) [
    | inl e ↦ rw e (v, (==_iff kp.cached_subtree s).0 e)
    | inr e ↦ rw e (
      record {
        subtree_pos = v.subtree_pos;
        subtree_fits = v.subtree_fits;
        height_fits = v.height_fits;
        bottom_holds = rebuilt;
        top_holds = v.top_holds;
        root_holds = v.root_holds;
      },
      refl,
    )
  ]
    where
      room : (s + 1) * 2 ^ kp.subtree_h ≤ 2 ^ 32
      room = omega (
        arith,
        widen (s + 1) (2 ^ (kp.height - kp.subtree_h)) (2 ^ kp.subtree_h) (omega arith),
        two-pow-add (kp.height - kp.subtree_h) kp.subtree_h,
        two-pow_mono (kp.height - kp.subtree_h + kp.subtree_h) 32 (omega arith),
      )
        where
          widen : (a b c : ℕ) → a ≤ b → a * c ≤ b * c
          widen a b c h = grind arith

      rebuilt :
          IsSubtree p kp.sk_seed kp.pk_seed 0 kp.subtree_h s
            (build_subtree p kp.sk_seed kp.pk_seed (u32 s) kp.subtree_h)
      rebuilt = IsSubtree-held p kp.sk_seed kp.pk_seed kp.subtree_h (omega arith) s 0 room

  -- The stored entries are siblings in the tree; above the real height, the derived siblings.
  module _ (kp : Keypair) (leaf : ℕ) (v : IsValid p kp)
      (held : kp.cached_subtree ≡ leaf / 2 ^ kp.subtree_h) (small : leaf < 2 ^ kp.height) where
    auth_node-bottom :
        (h m : ℕ)
        → h + suc m ≡ kp.subtree_h
        → auth_node kp (leaf / 2 ^ kp.subtree_h) leaf h
          ≡ tree_node p kp.sk_seed kp.pk_seed h (bit_xor (leaf / 2 ^ h) 1)
    unfolding auth_node
    auth_node-bottom h m e = rw (lt→ltb h kp.subtree_h (omega arith)) (
        v.bottom_holds h (suc m) (sibling - base) e (omega (arith, block, base_eq))
        ∙ ap₂ (tree_node p kp.sk_seed kp.pk_seed) no_shift
            (omega (arith, block, base_eq, start_eq)))
      where
        sibling : ℕ
        sibling = bit_xor (leaf / 2 ^ h) 1

        base : ℕ
        base = leaf / 2 ^ kp.subtree_h * 2 ^ (kp.subtree_h - h)

        block :
            (leaf / 2 ^ (h + suc m) * 2 ^ suc m ≤ sibling)
            × (sibling < leaf / 2 ^ (h + suc m) * 2 ^ suc m + 2 ^ suc m)
        block = sibling_in_block leaf h m

        width : suc m ≡ kp.subtree_h - h
        width = omega arith

        no_shift : 0 + h ≡ h
        no_shift = omega arith

        base_eq : leaf / 2 ^ (h + suc m) * 2 ^ suc m ≡ base
        base_eq = ap₂ (λ a b. leaf / 2 ^ a * 2 ^ b) e width

        start_eq : kp.cached_subtree * 2 ^ suc m ≡ leaf / 2 ^ (h + suc m) * 2 ^ suc m
        start_eq = ap (λ t. t * 2 ^ suc m) (held ∙ ap (λ t. leaf / 2 ^ t) (sym e))

    auth_node-top :
        (h m : ℕ)
        → kp.subtree_h ≤ h
        → h + suc m ≡ kp.height
        → auth_node kp (leaf / 2 ^ kp.subtree_h) leaf h
          ≡ tree_node p kp.sk_seed kp.pk_seed h (bit_xor (leaf / 2 ^ h) 1)
    unfolding auth_node
    auth_node-top h m above e =
        rw (ltb_false h kp.subtree_h above, lt→ltb h kp.height (omega arith))
          (v.top_holds (h - kp.subtree_h) (suc m) sibling (omega arith) below
            ∙ ap₂ (tree_node p kp.sk_seed kp.pk_seed) same_level (omega arith))
      where
        sibling : ℕ
        sibling = bit_xor (leaf / 2 ^ h) 1

        same_level : kp.subtree_h + (h - kp.subtree_h) ≡ h
        same_level = omega arith

        ltb_false : (a b : ℕ) → b ≤ a → ltb a b ≡ false
        ltb_false a b q = ground arith

        at_root : leaf / 2 ^ (h + suc m) * 2 ^ suc m ≡ 0
        at_root =
            ap (λ t. t * 2 ^ suc m) (ap (λ t. leaf / 2 ^ t) e ∙ div-eq_of_lt small) ∙ omega arith

        below : sibling < 2 ^ suc m
        below = omega (arith, sibling_in_block leaf h m, at_root)

    auth_node-upper :
        (i : ℕ) → auth_node kp (leaf / 2 ^ kp.subtree_h) leaf (kp.height + i) ≡ get_or kp.upper i []
    unfolding auth_node
    auth_node-upper i =
        rw (ltb_false kp.subtree_h v.subtree_fits, ltb_false kp.height (omega arith))
          (ap (λ t. get_or kp.upper t []) (omega arith))
      where
        ltb_false : (b : ℕ) → b ≤ kp.height → ltb (kp.height + i) b ≡ false
        ltb_false b q = ground arith

    -- For a key pair that meets the invariant and holds the subtree of a leaf in range, the nodes
    -- that signing stores are the siblings of the leaf's ancestors in the Merkle tree below the
    -- real height, and the derived siblings above it.
    pub auth_node-IsAuthPath :
        IsAuthPath p kp.sk_seed kp.pk_seed kp.height kp.upper leaf
          (tabulate tree_h (auth_node kp (leaf / 2 ^ kp.subtree_h) leaf))
    auth_node-IsAuthPath = record {
      siblings = λ h hh. stored h (omega (arith, v.height_fits)) ∙ real h hh;
      uppers = λ i hi. stored (kp.height + i) hi ∙ auth_node-upper i;
    }
      where
        stored :
            (h : ℕ)
            → h < 32
            → get_or (tabulate tree_h (auth_node kp (leaf / 2 ^ kp.subtree_h) leaf)) h []
              ≡ auth_node kp (leaf / 2 ^ kp.subtree_h) leaf h
        stored h hh = get_or-tabulate tree_h h (auth_node kp (leaf / 2 ^ kp.subtree_h) leaf) [] hh

        real :
            (h : ℕ)
            → h < kp.height
            → auth_node kp (leaf / 2 ^ kp.subtree_h) leaf h
              ≡ tree_node p kp.sk_seed kp.pk_seed h (bit_xor (leaf / 2 ^ h) 1)
        real h hh = elim (Bool-cases (ltb h kp.subtree_h)) [
          | inl e ↦ auth_node-bottom h (kp.subtree_h - h - 1) (bottom e)
          | inr e ↦ auth_node-top h (kp.height - h - 1) (over e) (omega arith)
        ]
          where
            bottom : ltb h kp.subtree_h ≡ true → h + suc (kp.subtree_h - h - 1) ≡ kp.subtree_h
            bottom e = omega (arith, ltb→lt h kp.subtree_h e)

            over : ltb h kp.subtree_h ≡ false → kp.subtree_h ≤ h
            over e = ground arith
