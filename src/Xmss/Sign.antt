-- ===== src/Xmss/Sign.antt =====
-- `grind_nonce`, `xmss_keypair_sign` and `xmss_sign` of kkw/src/xmss.c.
pub mod Path
pub mod Laws
pub mod Grind
use hash_blind_signatures.Common.{
  ℕ, zero, suc, ◌+◌, ◌-◌, ◌*◌, ◌/◌, ◌^◌, Bool, true, false, not, Option, none, some, [], ◌∷◌, ◌++◌,
  List, Bytes, bit_xor, get_or, u32, ltb, leb, ◌==◌, if◌then◌else◌, tabulate,
}
use hash_blind_signatures.Platform.{Platform}
use hash_blind_signatures.Random.{randombytes_fill}
use hash_blind_signatures.Xmss.Params.{Node, tree_h, nonce_len, target_sum}
use hash_blind_signatures.Xmss.Hashes.{hash_message, extract_coords, sum_coords}
use hash_blind_signatures.Xmss.Wots.{wots_gen_sk, wots_sign}
use hash_blind_signatures.Xmss.Tree.{Levels, node_at, build_subtree}
use hash_blind_signatures.Xmss.Keypair.{Keypair, capacity, keypair_new}

-- `xmss_sig`
pub record Signature : Type 0 where
  pub leaf_index : ℕ
  pub nonce : Bytes
  pub sig_hashes : List Node
  pub auth_path : List Node

-- How `grind_nonce` ends, with the number of `getentropy` calls made by then.
pub data Ground : Type 0 where
  found : Bytes → List ℕ → ℕ → Ground
  rng_failed : ℕ → Ground
  out_of_fuel : ℕ → Ground

-- How signing ends.
pub data Outcome : Type 0 where
  signed : Keypair → Signature → ℕ → Outcome
  refused : ℕ → Outcome
  diverged : ℕ → Outcome

-- The test of one candidate: both digest checks.
unfoldable pub accepts : List ℕ × Bool → Bool
accepts (coords, clean) = if clean then sum_coords coords == target_sum else false

-- The three loops over `auth_path`, by the index `h` that they store to. `idx` is the leaf
-- index shifted right `h` times.
unfoldable pub auth_node : Keypair → ℕ → ℕ → ℕ → Node
auth_node kp s leaf_index h =
    let idx = leaf_index / 2 ^ h in
    let base = s * 2 ^ (kp.subtree_h - h) in
    if ltb h kp.subtree_h
    then node_at kp.bottom h (bit_xor idx 1 - base)
    else (if ltb h kp.height
        then node_at kp.top (h - kp.subtree_h) (bit_xor idx 1)
        else get_or kp.upper (h - kp.height) [])

module _ (p : Platform) where
  -- The `for (;;)` loop; its fuel counts the candidates.
  unfoldable pub grind_nonce : ℕ → Bytes → ℕ → Bytes → ℕ → Ground
  grind_nonce zero pk_seed epoch message calls = out_of_fuel calls
  grind_nonce (suc fuel) pk_seed epoch message calls =
      let (calls', drawn) = randombytes_fill p calls nonce_len in
      let again = grind_nonce fuel pk_seed epoch message calls' in
      elim drawn [
        | none ↦ rng_failed calls'
        | some nonce ↦
            let digits = extract_coords (hash_message p pk_seed epoch nonce message) in
            if accepts digits then found nonce digits.0 calls' else again
      ]

  -- The subtree that `bottom` holds while signing with a leaf of subtree `s`.
  unfoldable pub load_subtree : Keypair → ℕ → Keypair
  load_subtree kp s = if kp.cached_subtree == s then kp else record kp {
    bottom = build_subtree p kp.sk_seed kp.pk_seed (u32 s) kp.subtree_h;
    cached_subtree = s;
  }

  -- What is stored into `out`, once `bottom` holds the subtree of the leaf.
  unfoldable pub signature_with : Keypair → ℕ → Bytes → List ℕ → Signature
  signature_with kp leaf_index nonce coords =
      let sk = wots_gen_sk p kp.sk_seed leaf_index in
      record {
        leaf_index = leaf_index;
        nonce = nonce;
        sig_hashes = wots_sign p kp.pk_seed leaf_index sk coords;
        auth_path = tabulate tree_h (auth_node kp (leaf_index / 2 ^ kp.subtree_h) leaf_index);
      }

  unfoldable pub sign_with : Keypair → ℕ → Bytes → List ℕ → ℕ → Outcome
  sign_with kp leaf_index nonce coords calls =
      let kp' = load_subtree kp (leaf_index / 2 ^ kp.subtree_h) in
      signed kp' (signature_with kp' leaf_index nonce coords) calls

  unfoldable pub after_grind : Keypair → ℕ → Ground → Outcome
  after_grind kp leaf_index (found nonce coords calls) = sign_with kp leaf_index nonce coords calls
  after_grind kp leaf_index (rng_failed calls) = refused calls
  after_grind kp leaf_index (out_of_fuel calls) = diverged calls

  unfoldable pub keypair_sign : ℕ → Keypair → ℕ → Bytes → ℕ → Outcome
  keypair_sign fuel kp leaf_index message calls =
      if leb (capacity kp) leaf_index
      then refused calls
      else after_grind kp leaf_index (grind_nonce fuel kp.pk_seed leaf_index message calls)

  -- `xmss_sign`: a key pair for one signature.
  unfoldable pub sign_once : ℕ → ℕ → Bytes → Bytes → ℕ → ℕ → Bytes → ℕ → Outcome
  sign_once sizeof_keypair fuel sk_seed pk_seed height leaf_index message calls =
      elim (keypair_new p sizeof_keypair sk_seed pk_seed height) [
        | none ↦ refused calls
        | some kp ↦ keypair_sign fuel kp leaf_index message calls
      ]
