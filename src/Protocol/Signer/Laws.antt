-- ===== src/Protocol/Signer/Laws.antt =====
-- The invariant of the signer of kkw/src/protocol.c, and what one request does to it.
use hash_blind_signatures.Common.{
  ℕ, ◌+◌, ◌^◌, ◌≤◌, ◌<◌, ◌≡◌, ◌∙◌, refl, sym, arith, true, some, Bytes, u32, Option-cases, inl, inr,
  if◌then◌else◌, two-pow_mono, ltb,
}
use mathlib.Core.Path.{subst, subst₂}
use hash_blind_signatures.Platform.{Platform}
use hash_blind_signatures.Commitment.{hm_digest}
use hash_blind_signatures.Xmss.Params.{Node, subtree_h_max}
use hash_blind_signatures.Xmss.Tree.Laws.{u32_of_lt}
use hash_blind_signatures.Xmss.Keypair.{Keypair, keypair_new}
use hash_blind_signatures.Xmss.Keypair.Laws.{IsValid, keypair_new_split-IsValid}
use hash_blind_signatures.Xmss.Sign.{Signature, Outcome, signed, refused, diverged, keypair_sign}
use hash_blind_signatures.Xmss.Sign.Laws.{keypair_sign-IsValid, xmss_verify-sign}
use hash_blind_signatures.Xmss.Verify.{xmss_verify}
use hash_blind_signatures.Protocol.Signer.{
  SignerKey, issued, keygen_with, reply_of, sign_on, tree_of, blind_signer_sign,
}

module _ (p : Platform) (sizeof_keypair : ℕ) where
  -- The key pair `kp` belongs to the key and has the root `root`.
  pub record Belongs (root : Node) (key : SignerKey) (kp : Keypair) : Type 0 where
    pub valid : IsValid p kp
    pub same_sk : kp.sk_seed ≡ key.sk_seed
    pub same_pk : kp.pk_seed ≡ key.pk_seed
    pub same_height : kp.height ≡ key.height
    pub same_root : kp.root ≡ root

  -- The invariant of a signer whose published root is `root`.
  pub record IsSigner (root : Node) (key : SignerKey) : Type 0 where
    pub height_fits : key.height ≤ 32
    pub held : (kp : Keypair) → key.tree ≡ some kp → Belongs root key kp
    pub rebuilt :
        (kp : Keypair)
        → keypair_new p sizeof_keypair key.sk_seed key.pk_seed key.height ≡ some kp
        → Belongs root key kp

  -- A key pair that is made belongs to a key with its seeds and height.
  keypair_new-Belongs :
      (key : SignerKey) (kp : Keypair)
      → keypair_new p sizeof_keypair key.sk_seed key.pk_seed key.height ≡ some kp
      → Belongs kp.root key kp
  unfolding keypair_new
  keypair_new-Belongs key kp made = record {
    valid = v.0;
    same_sk = v.1;
    same_pk = v.2;
    same_height = v.3;
    same_root = refl;
  }
    where
      v :
          IsValid p kp
          × (kp.sk_seed ≡ key.sk_seed)
          × (kp.pk_seed ≡ key.pk_seed)
          × (kp.height ≡ key.height)
      v =
          keypair_new_split-IsValid p sizeof_keypair key.sk_seed key.pk_seed key.height
            (if ltb key.height subtree_h_max then key.height else subtree_h_max) made

  -- What a key generation consists of.
  keygen_with-eq-some :
      (height : ℕ) (sk_seed pk_seed : Bytes) (key : SignerKey) (root : Node)
      → keygen_with p sizeof_keypair height sk_seed pk_seed ≡ some (key, root)
      → (kp : Keypair) × (keypair_new p sizeof_keypair sk_seed pk_seed height ≡ some kp)
        × (key.tree ≡ some kp)
        × (key.sk_seed ≡ sk_seed)
        × (key.pk_seed ≡ pk_seed)
        × (key.height ≡ height)
        × (key.next_leaf ≡ 0)
        × (kp.root ≡ root)
  unfolding keygen_with
  keygen_with-eq-some height sk_seed pk_seed key root h = ground arith

  -- A key that key generation returns meets the signer invariant for the root that it returns
  -- with it, and its leaf counter is 0.
  pub keygen_with-IsSigner :
      (height : ℕ) (sk_seed pk_seed : Bytes) (key : SignerKey) (root : Node)
      → keygen_with p sizeof_keypair height sk_seed pk_seed ≡ some (key, root)
      → IsSigner root key × (key.next_leaf ≡ 0)
  keygen_with-IsSigner height sk_seed pk_seed key root h = (
    record {
      height_fits = omega (arith, mine.valid.height_fits, mine.same_height);
      held = λ k e. subst (Belongs root key) (only k (sym parts.2 ∙ e)) mine;
      rebuilt = λ k e. subst (Belongs root key) (only k (sym made ∙ e)) mine;
    },
    parts.6,
  )
    where
      parts :
          (kp : Keypair) × (keypair_new p sizeof_keypair sk_seed pk_seed height ≡ some kp)
          × (key.tree ≡ some kp)
          × (key.sk_seed ≡ sk_seed)
          × (key.pk_seed ≡ pk_seed)
          × (key.height ≡ height)
          × (key.next_leaf ≡ 0)
          × (kp.root ≡ root)
      parts = keygen_with-eq-some height sk_seed pk_seed key root h

      made : keypair_new p sizeof_keypair key.sk_seed key.pk_seed key.height ≡ some parts.0
      made = (λ i. keypair_new p sizeof_keypair (parts.3 i) (parts.4 i) (parts.5 i)) ∙ parts.1

      mine : Belongs root key parts.0
      mine = subst (λ r. Belongs r key parts.0) parts.7 (keypair_new-Belongs key parts.0 made)

      only : (k : Keypair) → some parts.0 ≡ some k → parts.0 ≡ k
      only k e = cc

  pub tree_of-Belongs :
      {root : Node} (key : SignerKey) (kp : Keypair)
      → IsSigner root key
      → tree_of p sizeof_keypair key ≡ some kp
      → Belongs root key kp
  unfolding tree_of
  tree_of-Belongs key kp v e = elim (Option-cases key.tree) [
    | inl none_held ↦ v.rebuilt kp (rw none_held at e)
    | inr (k, some_held) ↦ v.held kp (some_held ∙ rw some_held at e)
  ]

  -- A key that differs by the leaf counter, and by a tree that belongs to it, is a signer too.
  pub IsSigner-advance :
      {root : Node} (key : SignerKey) (kp : Keypair) (next : ℕ)
      → IsSigner root key
      → Belongs root key kp
      → IsSigner root (record key { tree = some kp; next_leaf = next })
  IsSigner-advance {root} key kp next v b = record {
    height_fits = v.height_fits;
    held = λ k e.
        subst (λ t. Belongs root (record key { tree = some kp; next_leaf = next }) t) (only k e)
          (same kp b);
    rebuilt = λ k e. same k (v.rebuilt k e);
  }
    where
      only : (k : Keypair) → some kp ≡ some k → kp ≡ k
      only k e = cc

      same :
          (k : Keypair)
          → Belongs root key k
          → Belongs root (record key { tree = some kp; next_leaf = next }) k
      same k c = record {
        valid = c.valid;
        same_sk = c.same_sk;
        same_pk = c.same_pk;
        same_height = c.same_height;
        same_root = c.same_root;
      }

  -- What one issued signature comes with.
  pub record IsIssued (root : Node) (key : SignerKey) (commitment : Bytes) (key' : SignerKey)
      (sig : Signature) : Type 0 where
    pub signer : IsSigner root key'
    pub same_pk : key'.pk_seed ≡ key.pk_seed
    pub same_height : key'.height ≡ key.height
    pub advanced : key'.next_leaf ≡ key.next_leaf + 1
    pub leaf : sig.leaf_index ≡ key.next_leaf
    pub in_range : key.next_leaf < 2 ^ key.height
    pub verifies : xmss_verify p key.pk_seed root (hm_digest p commitment) sig ≡ true

  sign_on-IsIssued :
      {root : Node} (fuel : ℕ) (key : SignerKey) (kp : Keypair) (commitment : Bytes) (calls : ℕ)
      (key' : SignerKey) (sig : Signature) (calls' : ℕ)
      → IsSigner root key
      → Belongs root key kp
      → key.next_leaf < 2 ^ key.height
      → (o : Outcome)
      → keypair_sign p fuel kp (u32 key.next_leaf) (hm_digest p commitment) calls ≡ o
      → reply_of p sizeof_keypair key kp o ≡ issued key' sig calls'
      → IsIssued root key commitment key' sig
  unfolding reply_of
  sign_on-IsIssued fuel key kp commitment calls key' sig calls' v b small (refused c) e h = cc
  sign_on-IsIssued fuel key kp commitment calls key' sig calls' v b small (diverged c) e h = cc
  sign_on-IsIssued {root} fuel key kp commitment calls key' sig calls' v b small (signed kp' s c) e
        h =
      subst₂ (λ k t. IsIssued root key commitment k t) same_key same_sig
        (record {
          signer = IsSigner-advance key kp' (key.next_leaf + 1) v now;
          same_pk = refl;
          same_height = refl;
          advanced = refl;
          leaf = kept.5 ∙ u32_of_lt key.next_leaf fits;
          in_range = small;
          verifies =
              subst₂ (λ pk r. xmss_verify p pk r (hm_digest p commitment) s ≡ true) b.same_pk
                b.same_root
                (xmss_verify-sign p fuel kp (u32 key.next_leaf) (hm_digest p commitment) calls
                  b.valid e);
        })
    where
      same_key : record key { tree = some kp'; next_leaf = key.next_leaf + 1 } ≡ key'
      same_key = cc

      same_sig : s ≡ sig
      same_sig = cc

      fits : key.next_leaf < 2 ^ 32
      fits = omega (arith, two-pow_mono key.height 32 v.height_fits)

      kept :
          IsValid p kp'
          × (kp'.sk_seed ≡ kp.sk_seed)
          × (kp'.pk_seed ≡ kp.pk_seed)
          × (kp'.height ≡ kp.height)
          × (kp'.root ≡ kp.root)
          × (s.leaf_index ≡ u32 key.next_leaf)
      kept =
          keypair_sign-IsValid p fuel kp (u32 key.next_leaf) (hm_digest p commitment) calls b.valid
            e

      now : Belongs root key kp'
      now = record {
        valid = kept.0;
        same_sk = kept.1 ∙ b.same_sk;
        same_pk = kept.2 ∙ b.same_pk;
        same_height = kept.3 ∙ b.same_height;
        same_root = kept.4 ∙ b.same_root;
      }

  issued_parts :
      (fuel : ℕ) (key : SignerKey) (commitment : Bytes) (calls : ℕ) (key' : SignerKey)
      (sig : Signature) (calls' : ℕ)
      → blind_signer_sign p sizeof_keypair fuel key commitment calls ≡ issued key' sig calls'
      → (key.next_leaf < 2 ^ key.height)
        × ((kp : Keypair) × (tree_of p sizeof_keypair key ≡ some kp)
            × (sign_on p sizeof_keypair fuel key kp commitment calls ≡ issued key' sig calls'))
  unfolding blind_signer_sign
  issued_parts fuel key commitment calls key' sig calls' h = ground arith

  -- With an allocator that answers equal requests alike: a signature that blind_signer_sign
  -- issues from a key with the signer invariant verifies under the root, uses leaf next_leaf,
  -- which is below the capacity, and leaves a key with the invariant whose counter is one higher.
  pub blind_signer_sign-IsIssued :
      {root : Node} (fuel : ℕ) (key : SignerKey) (commitment : Bytes) (calls : ℕ) (key' : SignerKey)
      (sig : Signature) (calls' : ℕ)
      → IsSigner root key
      → blind_signer_sign p sizeof_keypair fuel key commitment calls ≡ issued key' sig calls'
      → IsIssued root key commitment key' sig
  blind_signer_sign-IsIssued {root} fuel key commitment calls key' sig calls' v h =
      sign_on-IsIssued fuel key kp commitment calls key' sig calls' v
        (tree_of-Belongs key kp v parts.1.1) parts.0
        (keypair_sign p fuel kp (u32 key.next_leaf) (hm_digest p commitment) calls) refl
        (unfold sign_on in parts.1.2)
    where
      parts :
          (key.next_leaf < 2 ^ key.height)
          × ((kp : Keypair) × (tree_of p sizeof_keypair key ≡ some kp)
              × (sign_on p sizeof_keypair fuel key kp commitment calls ≡ issued key' sig calls'))
      parts = issued_parts fuel key commitment calls key' sig calls' h

      kp : Keypair
      kp = parts.1.0
