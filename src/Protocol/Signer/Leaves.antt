-- ===== src/Protocol/Signer/Leaves.antt =====
-- A signer over a sequence of requests: `blind_signer_sign` of kkw/src/protocol.c, called in turn.
use hash_blind_signatures.Common.{
  ℕ, suc, ◌^◌, ◌≤◌, ◌<◌, ◌≡◌, ◌∙◌, refl, ap, arith, none, some, [], ◌∷◌, List, Bytes, leb, u32,
  true, false, Bool-cases, Option-cases, ◌⊎◌, inl, inr,
}
use mathlib.Core.Path.{subst, subst₃}
use hash_blind_signatures.Platform.{Platform}
use hash_blind_signatures.Commitment.{hm_digest}
use hash_blind_signatures.Xmss.Params.{Node}
use hash_blind_signatures.Xmss.Keypair.{Keypair}
use hash_blind_signatures.Xmss.Sign.{Signature, Outcome, signed, refused, diverged, keypair_sign}
use hash_blind_signatures.Xmss.Verify.{xmss_verify}
use hash_blind_signatures.Protocol.Signer.{
  SignerKey, Reply, issued, declined, stuck, reply_of, sign_on, tree_of, blind_signer_sign,
}
use hash_blind_signatures.Protocol.Signer.Laws.{
  IsSigner, IsIssued, tree_of-Belongs, IsSigner-advance, blind_signer_sign-IsIssued,
}

-- What a request for a signature was answered with.
abbrev pub Answer : Type 0
Answer = Bytes × Signature

module _ (p : Platform) (sizeof_keypair : ℕ) where
  -- Requests served in turn: the commitments that were signed, with their signatures, and the
  -- key that is left. A refusal is passed over, and a search that does not end stops the run.
  unfoldable pub serve : ℕ → SignerKey → List Bytes → ℕ → List Answer × SignerKey
  serve fuel key [] calls = ([], key)
  serve fuel key (c ∷ requests) calls = elim (blind_signer_sign p sizeof_keypair fuel key c calls) [
    | issued key' sig calls' ↦
        let (rest, last) = serve fuel key' requests calls' in ((c, sig) ∷ rest, last)
    | declined key' calls' ↦ serve fuel key' requests calls'
    | stuck key' calls' ↦ ([], key')
  ]

  -- Each answer verifies, with leaves that rise from `low` on and stay below `high`.
  abbrev pub Rising : Bytes → Node → ℕ → ℕ → List Answer → Type 0
  Rising pk_seed root low high [] = low ≤ high
  Rising pk_seed root low high ((c, sig) ∷ rest) =
      (xmss_verify p pk_seed root (hm_digest p c) sig ≡ true)
      × (low ≤ sig.leaf_index)
      × (sig.leaf_index < high)
      × Rising pk_seed root (suc sig.leaf_index) high rest

  -- A refusal leaves the leaf counter alone.
  declined-parts :
      (key : SignerKey) (kp : Keypair) (o : Outcome) (key' : SignerKey) (calls' : ℕ)
      → reply_of p sizeof_keypair key kp o ≡ declined key' calls'
      → record key { tree = some kp; next_leaf = key.next_leaf } ≡ key'
  unfolding reply_of
  declined-parts key kp (signed kp' s c) key' calls' h = cc
  declined-parts key kp (refused c) key' calls' h = cc
  declined-parts key kp (diverged c) key' calls' h = cc

  declined-cases :
      (fuel : ℕ) (key : SignerKey) (c : Bytes) (calls : ℕ) (key' : SignerKey) (calls' : ℕ)
      → blind_signer_sign p sizeof_keypair fuel key c calls ≡ declined key' calls'
      → (key ≡ key')
        ⊎ ((kp : Keypair) × (tree_of p sizeof_keypair key ≡ some kp)
            × (sign_on p sizeof_keypair fuel key kp c calls ≡ declined key' calls'))
  unfolding blind_signer_sign
  declined-cases fuel key c calls key' calls' h =
      elim (Bool-cases (leb (2 ^ key.height) key.next_leaf)) [
        | inl full ↦ inl (exhausted full)
        | inr free ↦ elim (Option-cases (tree_of p sizeof_keypair key)) [
          | inl nothing ↦ inl (untreed free nothing)
          | inr (kp, made) ↦ inr (kp, made, asked free kp made)
        ]
      ]
    where
      exhausted : leb (2 ^ key.height) key.next_leaf ≡ true → key ≡ key'
      exhausted full = ground arith

      untreed :
          leb (2 ^ key.height) key.next_leaf ≡ false
          → tree_of p sizeof_keypair key ≡ none
          → key ≡ key'
      untreed free nothing = ground arith

      asked :
          leb (2 ^ key.height) key.next_leaf ≡ false
          → (kp : Keypair) → tree_of p sizeof_keypair key ≡ some kp
          → sign_on p sizeof_keypair fuel key kp c calls ≡ declined key' calls'
      asked free kp made = ground arith

  -- A refusal leaves a signer behind, at the same leaf.
  record IsKept (root : Node) (key key' : SignerKey) : Type 0 where
    signer : IsSigner p sizeof_keypair root key'
    same_pk : key'.pk_seed ≡ key.pk_seed
    same_height : key'.height ≡ key.height
    same_leaf : key'.next_leaf ≡ key.next_leaf

  blind_signer_sign-IsKept :
      {root : Node} (fuel : ℕ) (key : SignerKey) (c : Bytes) (calls : ℕ) (key' : SignerKey)
      (calls' : ℕ)
      → IsSigner p sizeof_keypair root key
      → blind_signer_sign p sizeof_keypair fuel key c calls ≡ declined key' calls'
      → IsKept root key key'
  blind_signer_sign-IsKept {root} fuel key c calls key' calls' v h =
      elim (declined-cases fuel key c calls key' calls' h) [
        | inl same ↦
            subst (IsKept root key) same
              (record { signer = v; same_pk = refl; same_height = refl; same_leaf = refl })
        | inr (kp, made, asked) ↦
            subst (IsKept root key)
              (declined-parts key kp
                (keypair_sign p fuel kp (u32 key.next_leaf) (hm_digest p c) calls) key' calls'
                (unfold sign_on in asked))
              (record {
                signer =
                    IsSigner-advance p sizeof_keypair key kp key.next_leaf v
                      (tree_of-Belongs p sizeof_keypair key kp v made);
                same_pk = refl;
                same_height = refl;
                same_leaf = refl;
              })
      ]

  -- One request before the others.
  serve_one :
      {root : Node} (fuel : ℕ) (key : SignerKey) (c : Bytes) (requests : List Bytes) (calls : ℕ)
      → IsSigner p sizeof_keypair root key
      → key.next_leaf ≤ 2 ^ key.height
      → ((k : SignerKey) (n : ℕ)
          → IsSigner p sizeof_keypair root k
          → k.next_leaf ≤ 2 ^ k.height
          → Rising k.pk_seed root k.next_leaf (2 ^ k.height) (serve fuel k requests n).0)
      → (r : Reply) → blind_signer_sign p sizeof_keypair fuel key c calls ≡ r
      → Rising key.pk_seed root key.next_leaf
          (2 ^ key.height)
          (serve fuel key (c ∷ requests) calls).0
  unfolding serve
  serve_one {root} fuel key c requests calls v small ih (issued key' sig calls') e =
      rw (e, Rising)
        (
          now.verifies,
          omega (arith, now.leaf),
          omega (arith, now.leaf, now.in_range),
          subst₃ (λ pk low high. Rising pk root low high (serve fuel key' requests calls').0)
              now.same_pk (now.advanced ∙ omega (arith, now.leaf)) (ap (λ t. 2 ^ t) now.same_height)
              (ih key' calls' now.signer room),
        )
    where
      now : IsIssued p sizeof_keypair root key c key' sig
      now = blind_signer_sign-IsIssued p sizeof_keypair fuel key c calls key' sig calls' v e

      room : key'.next_leaf ≤ 2 ^ key'.height
      room = omega (arith, now.advanced, now.in_range, ap (λ (t : ℕ). 2 ^ t) now.same_height)
  serve_one {root} fuel key c requests calls v small ih (declined key' calls') e =
      rw (e, Rising)
        (subst₃ (λ pk low high. Rising pk root low high (serve fuel key' requests calls').0)
          now.same_pk now.same_leaf (ap (λ t. 2 ^ t) now.same_height)
          (ih key' calls' now.signer room))
    where
      now : IsKept root key key'
      now = blind_signer_sign-IsKept fuel key c calls key' calls' v e

      room : key'.next_leaf ≤ 2 ^ key'.height
      room = omega (arith, now.same_leaf, ap (λ (t : ℕ). 2 ^ t) now.same_height)
  serve_one fuel key c requests calls v small ih (stuck key' calls') e = rw (e, Rising) small

  -- With an allocator that answers equal requests alike, for a signer that meets the signer
  -- invariant and whose leaf counter is at most its capacity, whatever is asked, in whatever
  -- order and with whatever refusals between: each signature given out verifies for its
  -- commitment under the published root, and the leaves used rise strictly from the counter on
  -- and stay below the capacity.
  pub serve-Rising :
      {root : Node} (fuel : ℕ) (key : SignerKey) (requests : List Bytes) (calls : ℕ)
      → IsSigner p sizeof_keypair root key
      → key.next_leaf ≤ 2 ^ key.height
      → Rising key.pk_seed root key.next_leaf (2 ^ key.height) (serve fuel key requests calls).0
  unfolding serve
  serve-Rising fuel key [] calls v small = small
  serve-Rising fuel key (c ∷ requests) calls v small =
      serve_one fuel key c requests calls v small (λ k n. serve-Rising fuel k requests n)
        (blind_signer_sign p sizeof_keypair fuel key c calls) refl
