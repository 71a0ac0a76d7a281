-- ===== src/Tests/Xmss.antt =====
-- The theorems on XMSS at a tree of height one, on the concrete platform.
use hash_blind_signatures.Common.{ℕ, ◌≡◌, refl, arith, true, [], ◌∷◌, List, Bytes, replicate}
use hash_blind_signatures.Random.{randombytes_fill, fill_loop}
use hash_blind_signatures.Hash.{th_into}
use hash_blind_signatures.Xmss.Hashes.{hash_message, extract_coords}
use hash_blind_signatures.Xmss.Keypair.{Keypair, fill_keypair}
use hash_blind_signatures.Xmss.Keypair.Laws.{IsValid, fill_keypair-IsValid}
use hash_blind_signatures.Xmss.Sign.{
  Signature, signed, accepts, grind_nonce, after_grind, sign_with, keypair_sign, load_subtree,
  signature_with,
}
use hash_blind_signatures.Xmss.Sign.Laws.{xmss_verify-sign, keypair_sign-IsValid}
use hash_blind_signatures.Xmss.Verify.{xmss_verify}
use hash_blind_signatures.Tests.{toy}

abbrev pub sk : Bytes
sk = replicate 32 7

abbrev pub pk : Bytes
pk = replicate 16 9

abbrev pub message : Bytes
message = 1 ∷ 2 ∷ 3 ∷ []

-- The key pair of height one, kept shut.
unfoldable pub pair : Keypair
pair = fill_keypair toy sk pk 1 1

pub pair-IsValid : IsValid toy pair
unfolding pair
pair-IsValid = fill_keypair-IsValid toy sk pk 1 1 (omega arith) (omega arith) (omega arith)

abbrev pub nonce : Bytes
nonce = replicate 24 0

digits : List ℕ
digits = (extract_coords (hash_message toy pk 1 nonce message)).0

-- The pair, and the signature, that signing with leaf 1 gives.
after : Keypair
after = load_subtree toy pair 0

sig : Signature
sig = signature_with toy after 1 nonce digits

signs : keypair_sign toy 1 pair 1 message 0 ≡ signed after sig 1
unfolding keypair_sign after_grind sign_with grind_nonce randombytes_fill fill_loop accepts
    extract_coords hash_message th_into pair fill_keypair after sig digits
signs = refl

-- A signature with leaf 1 verifies.
xmss_verify-sign_example : xmss_verify toy pair.pk_seed pair.root message sig ≡ true
xmss_verify-sign_example = xmss_verify-sign toy 1 pair 1 message 0 pair-IsValid signs

-- The pair after signing with leaf 1.
keypair_sign-IsValid_example :
    IsValid toy after
    × (after.sk_seed ≡ pair.sk_seed)
    × (after.pk_seed ≡ pair.pk_seed)
    × (after.height ≡ pair.height)
    × (after.root ≡ pair.root)
    × (sig.leaf_index ≡ 1)
keypair_sign-IsValid_example = keypair_sign-IsValid toy 1 pair 1 message 0 pair-IsValid signs
