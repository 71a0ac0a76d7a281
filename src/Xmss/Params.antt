-- ===== src/Xmss/Params.antt =====
-- The parameters of kkw/src/xmss.h.
use hash_blind_signatures.Common.{ℕ, ◌+◌, ◌*◌, Bytes}

abbrev pub node_bytes : ℕ
node_bytes = 16

abbrev pub pk_seed_bytes : ℕ
pk_seed_bytes = 16

-- XMSS_H
abbrev pub tree_h : ℕ
tree_h = 32

abbrev pub h_default : ℕ
h_default = 10

-- XMSS_SUBTREE_H
abbrev pub subtree_h_max : ℕ
subtree_h_max = 16

abbrev pub wots_len : ℕ
wots_len = 42

abbrev pub wots_max_steps : ℕ
wots_max_steps = 7

abbrev pub target_sum : ℕ
target_sum = 195

abbrev pub nonce_len : ℕ
nonce_len = 24

abbrev pub msg_hash_len : ℕ
msg_hash_len = 16

abbrev pub coord_res_bits : ℕ
coord_res_bits = 3

abbrev pub digits_per_word : ℕ
digits_per_word = 21

-- XMSS_TWEAK_CHAIN, XMSS_TWEAK_TREE, XMSS_TWEAK_MESSAGE, XMSS_TWEAK_LEAF
abbrev pub tweak_chain : ℕ
tweak_chain = 0

abbrev pub tweak_tree : ℕ
tweak_tree = 1

abbrev pub tweak_message : ℕ
tweak_message = 2

abbrev pub tweak_leaf : ℕ
tweak_leaf = 3

-- `xmss_node`: an array of `node_bytes` bytes.
abbrev pub Node : Type 0
Node = Bytes

-- XMSS_SIG_BYTES
abbrev pub sig_bytes : ℕ
sig_bytes = 4 + nonce_len + wots_len * node_bytes + tree_h * node_bytes
