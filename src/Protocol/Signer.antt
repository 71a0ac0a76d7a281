-- ===== src/Protocol/Signer.antt =====
-- `blind_keygen` and `blind_signer_sign` of kkw/src/protocol.c.
pub mod Laws
pub mod Leaves
use hash_blind_signatures.Common.{
  ℕ, ◌+◌, ◌^◌, ◌%◌, Bool, true, false, ◌||◌, Option, none, some, List, Bytes, u32, ltb, leb,
  if◌then◌else◌,
}
use hash_blind_signatures.Platform.{Platform}
use hash_blind_signatures.Random.{randombytes_fill}
use hash_blind_signatures.Commitment.{hm_digest}
use hash_blind_signatures.Xmss.Params.{Node, tree_h, pk_seed_bytes}
use hash_blind_signatures.Xmss.Keypair.{Keypair, keypair_new}
use hash_blind_signatures.Xmss.Sign.{Signature, Outcome, signed, refused, diverged, keypair_sign}

abbrev pub sk_seed_bytes : ℕ
sk_seed_bytes = 32

-- `blind_signer_key`; `tree` is `none` until a key read from a file is first used.
pub record SignerKey : Type 0 where
  pub sk_seed : Bytes
  pub pk_seed : Bytes
  pub height : ℕ
  pub next_leaf : ℕ
  pub tree : Option Keypair

-- How a call of the signer ends: with the key as it is left and the `getentropy` calls made.
pub data Reply : Type 0 where
  issued : SignerKey → Signature → ℕ → Reply
  declined : SignerKey → ℕ → Reply
  stuck : SignerKey → ℕ → Reply

module _ (p : Platform) (sizeof_keypair : ℕ) where
  -- The last steps, with both seeds drawn.
  unfoldable pub keygen_with : ℕ → Bytes → Bytes → Option (SignerKey × Node)
  keygen_with height sk_seed pk_seed = elim (keypair_new p sizeof_keypair sk_seed pk_seed height) [
    | none ↦ none
    | some kp ↦ some (
      record {
        sk_seed = sk_seed;
        pk_seed = pk_seed;
        height = height;
        next_leaf = 0;
        tree = some kp;
      },
      kp.root,
    )
  ]

  unfoldable pub blind_keygen : ℕ → ℕ → ℕ × Option (SignerKey × Node)
  blind_keygen height calls =
      let (calls1, sk) = randombytes_fill p calls sk_seed_bytes in
      let (calls2, pk) = randombytes_fill p calls1 pk_seed_bytes in
      if ltb height 1 || ltb tree_h height then (calls, none) else elim sk [
        | none ↦ (calls1, none)
        | some sk_seed ↦ elim pk [
          | none ↦ (calls2, none)
          | some pk_seed ↦ (calls2, keygen_with height sk_seed pk_seed)
        ]
      ]

  -- What the reply is once the tree has been asked for a signature.
  unfoldable pub reply_of : SignerKey → Keypair → Outcome → Reply
  reply_of key kp (signed kp' sig calls) =
      issued (record key { tree = some kp'; next_leaf = key.next_leaf + 1 }) sig calls
  reply_of key kp (refused calls) = declined (record key { tree = some kp }) calls
  reply_of key kp (diverged calls) = stuck (record key { tree = some kp }) calls

  unfoldable pub sign_on : ℕ → SignerKey → Keypair → Bytes → ℕ → Reply
  sign_on fuel key kp commitment calls =
      reply_of key kp (keypair_sign p fuel kp (u32 key.next_leaf) (hm_digest p commitment) calls)

  -- `if (!key->tree) key->tree = xmss_keypair_new(...)`
  unfoldable pub tree_of : SignerKey → Option Keypair
  tree_of key = elim key.tree [
    | some kp ↦ some kp
    | none ↦ keypair_new p sizeof_keypair key.sk_seed key.pk_seed key.height
  ]

  unfoldable pub blind_signer_sign : ℕ → SignerKey → Bytes → ℕ → Reply
  blind_signer_sign fuel key commitment calls =
      if leb (2 ^ key.height) key.next_leaf then declined key calls else elim (tree_of key) [
        | none ↦ declined key calls
        | some kp ↦ sign_on fuel key kp commitment calls
      ]
