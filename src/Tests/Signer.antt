-- ===== src/Tests/Signer.antt =====
-- The theorems on the signer at a tree of height one, on the concrete platform.
use hash_blind_signatures.Common.{◌^◌, ◌≡◌, refl, arith, some, [], ◌∷◌, List, Bytes, replicate}
use hash_blind_signatures.Random.{randombytes_fill, fill_loop}
use hash_blind_signatures.Hash.{th_into}
use hash_blind_signatures.Xmss.Hashes.{hash_message, extract_coords}
use hash_blind_signatures.Commitment.{hm_digest}
use hash_blind_signatures.Xmss.Tree.{alloc_levels, alloc_loop}
use hash_blind_signatures.Xmss.Keypair.{Keypair, fill_keypair, keypair_new, keypair_new_split}
use hash_blind_signatures.Xmss.Keypair.Laws.{IsValid, keypair_new_split-IsValid}
use hash_blind_signatures.Xmss.Sign.{
  Signature, keypair_sign, load_subtree, signature_with, after_grind, sign_with, grind_nonce,
  accepts,
}
use hash_blind_signatures.Protocol.Signer.{
  SignerKey, keygen_with, issued, reply_of, sign_on, tree_of, blind_signer_sign,
}
use hash_blind_signatures.Protocol.Signer.Laws.{
  IsSigner, IsIssued, keygen_with-IsSigner, blind_signer_sign-IsIssued,
}
use hash_blind_signatures.Protocol.Signer.Leaves.{Rising, serve, serve-Rising}
use hash_blind_signatures.Tests.{toy}
use hash_blind_signatures.Tests.Xmss.{sk, pk, pair}

-- A key pair takes 64 bytes here.
made : keypair_new_split toy 64 sk pk 1 1 ≡ some pair
unfolding keypair_new_split alloc_levels alloc_loop pair
made = refl

-- The key pair that is made for height one meets the invariant.
keypair_new_split-IsValid_example :
    IsValid toy pair × (pair.sk_seed ≡ sk) × (pair.pk_seed ≡ pk) × (pair.height ≡ 1)
keypair_new_split-IsValid_example = keypair_new_split-IsValid toy 64 sk pk 1 1 made

abbrev key : SignerKey
key = record { sk_seed = sk; pk_seed = pk; height = 1; next_leaf = 0; tree = some pair }

generated : keygen_with toy 64 1 sk pk ≡ some (key, pair.root)
unfolding keygen_with keypair_new keypair_new_split alloc_levels alloc_loop pair
generated = refl

-- A new key of height one is a signer.
keygen_with-IsSigner_example : IsSigner toy 64 pair.root key × (key.next_leaf ≡ 0)
keygen_with-IsSigner_example = keygen_with-IsSigner toy 64 1 sk pk key pair.root generated

key-IsSigner : IsSigner toy 64 pair.root key
key-IsSigner = (keygen_with-IsSigner toy 64 1 sk pk key pair.root generated).0

abbrev requests : List Bytes
requests = (1 ∷ []) ∷ (2 ∷ []) ∷ (3 ∷ []) ∷ []

-- Three requests to a signer with two leaves.
serve-Rising_example : Rising toy 64 pk pair.root 0 (2 ^ 1) (serve toy 64 4 key requests 0).0
serve-Rising_example = serve-Rising toy 64 4 key requests 0 key-IsSigner (omega arith)

abbrev commitment : Bytes
commitment = 1 ∷ []

abbrev digest : Bytes
digest = hm_digest toy commitment

abbrev nonce : Bytes
nonce = replicate 24 0

after : Keypair
after = load_subtree toy pair 0

sig : Signature
sig = signature_with toy after 0 nonce (extract_coords (hash_message toy pk 0 nonce digest)).0

abbrev key1 : SignerKey
key1 = record { sk_seed = sk; pk_seed = pk; height = 1; next_leaf = 1; tree = some after }

issues : blind_signer_sign toy 64 1 key commitment 0 ≡ issued key1 sig 1
unfolding blind_signer_sign tree_of sign_on reply_of keypair_sign after_grind sign_with grind_nonce
    randombytes_fill fill_loop accepts extract_coords hash_message hm_digest th_into pair
    fill_keypair after sig
issues = refl

-- The first signature of a new key of height one.
blind_signer_sign-IsIssued_example : IsIssued toy 64 pair.root key commitment key1 sig
blind_signer_sign-IsIssued_example =
    blind_signer_sign-IsIssued toy 64 1 key commitment 0 key1 sig 1 key-IsSigner issues
