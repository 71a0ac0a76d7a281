-- ===== src/Xmss/Sign/Laws.antt =====
-- Signing, `xmss_keypair_sign` of kkw/src/xmss.c, and the key pair that it leaves.
use hash_blind_signatures.Common.{
  ℕ, zero, suc, ◌+◌, ◌-◌, ◌/◌, ◌^◌, ◌<◌, ◌≡◌, ◌∙◌, refl, sym, ap, arith, List, Bytes, get_or, Bool,
  true, memcmp_eq, memcmp_eq_refl, tabulate, shift-lt,
}
use mathlib.Core.Path.{subst, subst₂}
use hash_blind_signatures.Platform.{Platform}
use hash_blind_signatures.Random.{randombytes_fill}
use hash_blind_signatures.Xmss.Params.{Node, node_bytes, tree_h, nonce_len}
use hash_blind_signatures.Xmss.Hashes.{hash_message, hash_public_key, extract_coords}
use hash_blind_signatures.Xmss.Hashes.Laws.{extract_coords-lt}
use hash_blind_signatures.Xmss.Wots.{wots_gen_sk, wots_pk_from_sk}
use hash_blind_signatures.Xmss.Wots.Laws.{wots_pk_from_sig-sign}
use hash_blind_signatures.Xmss.Tree.{build_leaf}
use hash_blind_signatures.Xmss.Tree.Spec.{tree_node}
use hash_blind_signatures.Xmss.Keypair.{Keypair}
use hash_blind_signatures.Xmss.Keypair.Laws.{IsValid}
use hash_blind_signatures.Xmss.Sign.{
  Signature, Ground, found, rng_failed, out_of_fuel, signed, load_subtree, accepts, auth_node,
  signature_with, sign_with, after_grind, grind_nonce, keypair_sign,
}
use hash_blind_signatures.Xmss.Sign.Path.{load_subtree-IsValid, auth_node-IsAuthPath}
use hash_blind_signatures.Xmss.Verify.{root_of_sig, xmss_verify, walk_auth_path}
use hash_blind_signatures.Xmss.Verify.Laws.{walk_auth_path-lem}

module _ (p : Platform) where
  -- The root that a signature leads to is the root of the key pair, for digits of three bits.
  root_of_signature :
      (kp : Keypair) (leaf : ℕ) (nonce : Bytes) (coords : List ℕ)
      → IsValid p kp
      → kp.cached_subtree ≡ leaf / 2 ^ kp.subtree_h
      → leaf < 2 ^ kp.height
      → ((i : ℕ) → i < 42 → get_or coords i 0 < 8)
      → root_of_sig p kp.pk_seed (signature_with p kp leaf nonce coords) coords ≡ kp.root
  unfolding root_of_sig signature_with
  root_of_signature kp leaf nonce coords v held small digits =
      ap (λ k. walk_auth_path p kp.pk_seed (hash_public_key p kp.pk_seed leaf k) leaf path)
        (wots_pk_from_sig-sign p kp.pk_seed leaf (wots_gen_sk p kp.sk_seed leaf) coords digits)
      ∙ ap (λ t. walk_auth_path p kp.pk_seed t leaf path) leaf_node
      ∙ walk_auth_path-lem p kp.sk_seed kp.pk_seed kp.height kp.upper leaf path
          (auth_node-IsAuthPath p kp leaf v held small) v.height_fits small
      ∙ sym v.root_holds
    where
      path : List Node
      path = tabulate tree_h (auth_node kp (leaf / 2 ^ kp.subtree_h) leaf)

      leaf_node :
          hash_public_key p kp.pk_seed leaf
            (wots_pk_from_sk p kp.pk_seed leaf (wots_gen_sk p kp.sk_seed leaf))
          ≡ tree_node p kp.sk_seed kp.pk_seed 0 leaf
      leaf_node = unfold tree_node build_leaf in refl

  -- A signature made with accepted digits of the message verifies under the key pair's root.
  signature_with-verifies :
      (kp : Keypair) (leaf : ℕ) (message nonce : Bytes)
      → IsValid p kp
      → kp.cached_subtree ≡ leaf / 2 ^ kp.subtree_h
      → leaf < 2 ^ kp.height
      → accepts (extract_coords (hash_message p kp.pk_seed leaf nonce message)) ≡ true
      → xmss_verify p kp.pk_seed kp.root message (
          signature_with p kp leaf nonce
            (extract_coords (hash_message p kp.pk_seed leaf nonce message)).0)
        ≡ true
  unfolding xmss_verify accepts
  signature_with-verifies kp leaf message nonce v held small ok = ground (arith, same, fields)
    where
      digits : List ℕ × Bool
      digits = extract_coords (hash_message p kp.pk_seed leaf nonce message)

      sig : Signature
      sig = signature_with p kp leaf nonce digits.0

      fields : (sig.leaf_index ≡ leaf) × (sig.nonce ≡ nonce)
      fields = unfold signature_with in (refl, refl)

      same : memcmp_eq node_bytes (root_of_sig p kp.pk_seed sig digits.0) kp.root ≡ true
      same =
          ap (λ t. memcmp_eq node_bytes t kp.root)
            (root_of_signature kp leaf nonce digits.0 v held small
              (extract_coords-lt (hash_message p kp.pk_seed leaf nonce message)))
          ∙ memcmp_eq_refl node_bytes kp.root

  -- A nonce that grinding returns gives a message hash whose digits are accepted, and the digits
  -- returned are those of that hash.
  grind_nonce-found :
      (fuel : ℕ) (pk_seed : Bytes) (epoch : ℕ) (message : Bytes) (calls : ℕ) (nonce : Bytes)
      (coords : List ℕ) (calls' : ℕ)
      → grind_nonce p fuel pk_seed epoch message calls ≡ found nonce coords calls'
      → (accepts (extract_coords (hash_message p pk_seed epoch nonce message)) ≡ true)
        × (coords ≡ (extract_coords (hash_message p pk_seed epoch nonce message)).0)
  unfolding grind_nonce
  grind_nonce-found zero pk_seed epoch message calls nonce coords calls' h = cc
  grind_nonce-found (suc fuel) pk_seed epoch message calls nonce coords calls' h = ground (
    arith,
    grind_nonce-found fuel pk_seed epoch message (randombytes_fill p calls nonce_len).0 nonce coords
        calls',
  )

  -- What a success after grinding consists of.
  record Made (kp : Keypair) (leaf : ℕ) (g : Ground) (kp' : Keypair) (sig : Signature) (calls' : ℕ)
      : Type 0 where
    nonce : Bytes
    coords : List ℕ
    was_found : g ≡ found nonce coords calls'
    loaded : load_subtree p kp (leaf / 2 ^ kp.subtree_h) ≡ kp'
    made : signature_with p kp' leaf nonce coords ≡ sig

  after_grind-signed :
      (kp : Keypair) (leaf : ℕ) (g : Ground) {kp' : Keypair} {sig : Signature} {calls' : ℕ}
      → after_grind p kp leaf g ≡ signed kp' sig calls'
      → Made kp leaf g kp' sig calls'
  unfolding after_grind sign_with
  after_grind-signed kp leaf (found nonce coords calls) h = record {
    nonce = nonce;
    coords = coords;
    was_found = cc;
    loaded = cc;
    made = cc;
  }
  after_grind-signed kp leaf (rng_failed calls) h = cc
  after_grind-signed kp leaf (out_of_fuel calls) h = cc

  in_range :
      (fuel : ℕ) (kp : Keypair) (leaf : ℕ) (message : Bytes) (calls : ℕ) (kp' : Keypair)
      (sig : Signature) (calls' : ℕ)
      → keypair_sign p fuel kp leaf message calls ≡ signed kp' sig calls'
      → (leaf < 2 ^ kp.height)
        × (after_grind p kp leaf (grind_nonce p fuel kp.pk_seed leaf message calls)
            ≡ signed kp' sig calls')
  unfolding keypair_sign
  in_range fuel kp leaf message calls kp' sig calls' h = ground arith

  load_subtree-keeps :
      (kp : Keypair) (s : ℕ)
      → ((load_subtree p kp s).sk_seed ≡ kp.sk_seed)
        × ((load_subtree p kp s).pk_seed ≡ kp.pk_seed)
        × ((load_subtree p kp s).height ≡ kp.height)
        × ((load_subtree p kp s).subtree_h ≡ kp.subtree_h)
        × ((load_subtree p kp s).root ≡ kp.root)
  unfolding load_subtree
  load_subtree-keeps kp s = ground arith

  module _ (fuel : ℕ) (kp : Keypair) (leaf : ℕ) (message : Bytes) (calls : ℕ) {kp' : Keypair}
      {sig : Signature} {calls' : ℕ} (v : IsValid p kp)
      (h : keypair_sign p fuel kp leaf message calls ≡ signed kp' sig calls') where
    m : Made kp leaf (grind_nonce p fuel kp.pk_seed leaf message calls) kp' sig calls'
    m =
        after_grind-signed kp leaf (grind_nonce p fuel kp.pk_seed leaf message calls)
          (in_range fuel kp leaf message calls kp' sig calls' h).1

    loaded-IsValid :
        IsValid p (load_subtree p kp (leaf / 2 ^ kp.subtree_h))
        × ((load_subtree p kp (leaf / 2 ^ kp.subtree_h)).cached_subtree ≡ leaf / 2 ^ kp.subtree_h)
    loaded-IsValid = load_subtree-IsValid p kp (leaf / 2 ^ kp.subtree_h) v (
        shift-lt leaf kp.subtree_h (kp.height - kp.subtree_h) (
          subst (λ t. leaf < 2 ^ t) whole (in_range fuel kp leaf message calls kp' sig calls' h).0))
      where
        whole : kp.height ≡ kp.subtree_h + (kp.height - kp.subtree_h)
        whole = omega (arith, v.subtree_fits)

    -- A successful xmss_keypair_sign on a key pair that meets the invariant leaves one that meets
    -- it, with the same seeds, height and root, and signs with the leaf that was asked for.
    pub keypair_sign-IsValid :
        IsValid p kp'
        × (kp'.sk_seed ≡ kp.sk_seed)
        × (kp'.pk_seed ≡ kp.pk_seed)
        × (kp'.height ≡ kp.height)
        × (kp'.root ≡ kp.root)
        × (sig.leaf_index ≡ leaf)
    keypair_sign-IsValid = (
      subst (IsValid p) m.loaded loaded-IsValid.0,
      subst (λ k. k.sk_seed ≡ kp.sk_seed) m.loaded keeps.0,
      subst (λ k. k.pk_seed ≡ kp.pk_seed) m.loaded keeps.1,
      subst (λ k. k.height ≡ kp.height) m.loaded keeps.2,
      subst (λ k. k.root ≡ kp.root) m.loaded keeps.4,
      subst (λ s. s.leaf_index ≡ leaf) m.made (unfold signature_with in refl),
    )
      where
        keeps :
            ((load_subtree p kp (leaf / 2 ^ kp.subtree_h)).sk_seed ≡ kp.sk_seed)
            × ((load_subtree p kp (leaf / 2 ^ kp.subtree_h)).pk_seed ≡ kp.pk_seed)
            × ((load_subtree p kp (leaf / 2 ^ kp.subtree_h)).height ≡ kp.height)
            × ((load_subtree p kp (leaf / 2 ^ kp.subtree_h)).subtree_h ≡ kp.subtree_h)
            × ((load_subtree p kp (leaf / 2 ^ kp.subtree_h)).root ≡ kp.root)
        keeps = load_subtree-keeps kp (leaf / 2 ^ kp.subtree_h)

    held_now : kp'.cached_subtree ≡ leaf / 2 ^ kp'.subtree_h
    held_now =
        subst (λ k. k.cached_subtree ≡ leaf / 2 ^ kp.subtree_h) m.loaded loaded-IsValid.1
        ∙ ap (λ t. leaf / 2 ^ t)
            (sym (
              subst (λ k. k.subtree_h ≡ kp.subtree_h) m.loaded
                (load_subtree-keeps kp (leaf / 2 ^ kp.subtree_h)).3))

    digits_of : Bytes → List ℕ × Bool
    digits_of pk_seed = extract_coords (hash_message p pk_seed leaf m.nonce message)

    -- With an allocator that answers equal requests alike, for a key pair that meets the
    -- invariant: whatever xmss_keypair_sign signs, xmss_verify accepts under the key pair's root.
    pub xmss_verify-sign : xmss_verify p kp.pk_seed kp.root message sig ≡ true
    unfolding digits_of
    xmss_verify-sign =
        subst₂ (λ pk r. xmss_verify p pk r message sig ≡ true) same_seed kept.4
          (subst (λ s. xmss_verify p kp'.pk_seed kp'.root message s ≡ true) the_signature
            (signature_with-verifies kp' leaf message m.nonce kept.0 held_now
              (subst (λ t. leaf < 2 ^ t) (sym kept.3)
                (in_range fuel kp leaf message calls kp' sig calls' h).0)
              (ap (λ pk. accepts (digits_of pk)) same_seed ∙ good.0)))
      where
        kept :
            IsValid p kp'
            × (kp'.sk_seed ≡ kp.sk_seed)
            × (kp'.pk_seed ≡ kp.pk_seed)
            × (kp'.height ≡ kp.height)
            × (kp'.root ≡ kp.root)
            × (sig.leaf_index ≡ leaf)
        kept = keypair_sign-IsValid

        same_seed : kp'.pk_seed ≡ kp.pk_seed
        same_seed = kept.2

        good : (accepts (digits_of kp.pk_seed) ≡ true) × (m.coords ≡ (digits_of kp.pk_seed).0)
        good =
            grind_nonce-found fuel kp.pk_seed leaf message calls m.nonce m.coords calls' m.was_found

        the_signature : signature_with p kp' leaf m.nonce (digits_of kp'.pk_seed).0 ≡ sig
        the_signature =
            ap (signature_with p kp' leaf m.nonce)
              (ap (λ pk. (digits_of pk).0) same_seed ∙ sym good.1)
            ∙ m.made
