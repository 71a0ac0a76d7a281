-- ===== src/Tests/Tree.antt =====
-- The theorems on one-time signatures and on the Merkle tree, on the concrete platform.
use hash_blind_signatures.Common.{
  ℕ, zero, suc, ◌/◌, ◌^◌, ◌<◌, ◌≡◌, refl, arith, List, replicate, get_or, tabulate,
}
use hash_blind_signatures.Xmss.Params.{Node, tree_h}
use hash_blind_signatures.Xmss.Hashes.{hash_message, extract_coords}
use hash_blind_signatures.Xmss.Wots.{wots_sign, wots_pk_from_sig, wots_pk_from_sk}
use hash_blind_signatures.Xmss.Wots.Laws.{wots_pk_from_sig-sign}
use hash_blind_signatures.Xmss.Tree.{build_subtree, climb_upper}
use hash_blind_signatures.Xmss.Tree.Spec.{tree_node, IsSubtree}
use hash_blind_signatures.Xmss.Tree.Laws.{build_subtree-IsSubtree}
use hash_blind_signatures.Xmss.Keypair.{Keypair, fill_keypair}
use hash_blind_signatures.Xmss.Keypair.Laws.{IsValid, fill_keypair-IsValid}
use hash_blind_signatures.Xmss.Sign.{load_subtree, auth_node, grind_nonce, found, accepts}
use hash_blind_signatures.Xmss.Sign.Grind.{IsFirst, grind_nonce-IsFirst}
use hash_blind_signatures.Xmss.Sign.Path.{load_subtree-IsValid, auth_node-IsAuthPath}
use hash_blind_signatures.Xmss.Verify.{walk_auth_path}
use hash_blind_signatures.Xmss.Verify.Laws.{IsAuthPath, walk_auth_path-lem}
use hash_blind_signatures.Random.{randombytes_fill, fill_loop}
use hash_blind_signatures.Hash.{th_into}
use hash_blind_signatures.Tests.{toy}
use hash_blind_signatures.Tests.Xmss.{sk, pk, pair, pair-IsValid, nonce, message}

abbrev secrets : List Node
secrets = replicate 42 pk

abbrev threes : List ℕ
threes = replicate 42 3

small_digit : (n i : ℕ) → get_or (replicate n 3) i 0 < 8
small_digit zero i = omega arith
small_digit (suc n) zero = omega arith
small_digit (suc n) (suc i) = small_digit n i

-- A one-time signature whose digits are all 3.
wots_pk_from_sig-sign_example :
    wots_pk_from_sig toy pk 5 (wots_sign toy pk 5 secrets threes) threes
    ≡ wots_pk_from_sk toy pk 5 secrets
wots_pk_from_sig-sign_example =
    wots_pk_from_sig-sign toy pk 5 secrets threes (λ i h. small_digit 42 i)

-- The fourth subtree of height two.
build_subtree-IsSubtree_example : IsSubtree toy sk pk 0 2 3 (build_subtree toy sk pk 3 2)
build_subtree-IsSubtree_example = build_subtree-IsSubtree toy sk pk 3 2 (omega arith) (omega arith)

-- A pair of height two whose subtrees have height one holds the second of them.
two : Keypair
two = fill_keypair toy sk pk 2 1

two-IsValid : IsValid toy two
unfolding two
two-IsValid = fill_keypair-IsValid toy sk pk 2 1 (omega arith) (omega arith) (omega arith)

two-height : two.height ≡ 2
unfolding two fill_keypair
two-height = refl

-- Its first subtree is loaded.
load_subtree-IsValid_example :
    IsValid toy (load_subtree toy two 0) × ((load_subtree toy two 0).cached_subtree ≡ 0)
load_subtree-IsValid_example =
    load_subtree-IsValid toy two 0 two-IsValid (unfold two fill_keypair in omega arith)

-- The first candidate is accepted.
grinds :
    grind_nonce toy 1 pk 1 message 0
    ≡ found nonce (extract_coords (hash_message toy pk 1 nonce message)).0 1
unfolding grind_nonce randombytes_fill fill_loop accepts extract_coords hash_message th_into
grinds = refl

-- It is the first of one candidate.
grind_nonce-IsFirst_example :
    IsFirst toy pk 1 message 1 0 nonce (extract_coords (hash_message toy pk 1 nonce message)).0 1
grind_nonce-IsFirst_example =
    grind_nonce-IsFirst toy pk 1 message 1 0 nonce
      (extract_coords (hash_message toy pk 1 nonce message)).0 1 grinds

-- The path of leaf 1 of the pair of height one.
one : Keypair
one = load_subtree toy pair 0

abbrev path : List Node
path = tabulate tree_h (auth_node one (1 / 2 ^ one.subtree_h) 1)

one_held : IsValid toy one × (one.cached_subtree ≡ 1 / 2 ^ one.subtree_h)
unfolding one load_subtree pair fill_keypair
one_held = ((load_subtree-IsValid toy pair 0 pair-IsValid (omega arith)).0, refl)

leaf_in_range : 1 < 2 ^ one.height
unfolding one load_subtree pair fill_keypair
leaf_in_range = omega arith

is_path : IsAuthPath toy one.sk_seed one.pk_seed one.height one.upper 1 path
is_path = auth_node-IsAuthPath toy one 1 one_held.0 one_held.1 leaf_in_range

-- The path that signing takes from the pair is an authentication path.
auth_node-IsAuthPath_example : IsAuthPath toy one.sk_seed one.pk_seed one.height one.upper 1 path
auth_node-IsAuthPath_example = auth_node-IsAuthPath toy one 1 one_held.0 one_held.1 leaf_in_range

-- Walking it from the leaf reaches the top of the extended tree.
walk_auth_path-lem_example :
    walk_auth_path toy one.pk_seed (tree_node toy one.sk_seed one.pk_seed 0 1) 1 path
    ≡ climb_upper toy one.pk_seed
        (tree_node toy one.sk_seed one.pk_seed one.height 0)
        one.height
        one.upper
walk_auth_path-lem_example =
    walk_auth_path-lem toy one.sk_seed one.pk_seed one.height one.upper 1 path is_path
      one_held.0.height_fits leaf_in_range
