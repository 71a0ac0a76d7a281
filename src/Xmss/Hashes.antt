-- ===== src/Xmss/Hashes.antt =====
-- The four tweaked hashes of kkw/src/xmss.c, and the digits of a message hash.
pub mod Laws
use hash_blind_signatures.Common.{
  ℕ, zero, suc, ◌+◌, ◌-◌, ◌*◌, ◌/◌, ◌%◌, ◌^◌, Bool, true, false, bit_or, [], ◌∷◌, ◌++◌, List, Bytes,
  length, get_or, byte_of, u8, ltb, ◌==◌, if◌then◌else◌, put_le32, put_be32, tabulate, concat,
  replicate,
}
use hash_blind_signatures.Platform.{Platform}
use hash_blind_signatures.Hash.{th_into}
use hash_blind_signatures.Xmss.Params.{
  Node, node_bytes, wots_len, msg_hash_len, coord_res_bits, digits_per_word, tweak_chain,
  tweak_tree, tweak_message, tweak_leaf,
}

-- `put_epoch_be`: the four bytes that it appends.
abbrev pub put_epoch_be : ℕ → Bytes
put_epoch_be = put_be32

module _ (p : Platform) where
  -- A digest of zeros where the buffer for nonce and message cannot be had.
  unfoldable pub hash_message : Bytes → ℕ → Bytes → Bytes → Bytes
  unfolding th_into
  hash_message pk_seed epoch nonce message =
      let dom = pk_seed ++ tweak_message ∷ put_epoch_be epoch in
      let out = th_into p [] dom (nonce ++ message) 32 in
      if p.malloc (length nonce + length message) then out else replicate 32 0

  unfoldable pub hash_chain_step : Bytes → ℕ → Node → ℕ → ℕ → Node
  unfolding th_into
  hash_chain_step pk_seed epoch inp chain_idx pos =
      th_into p [] (inp ++ tweak_chain ∷ []) (pk_seed ++ put_epoch_be epoch ++ chain_idx ∷ pos ∷ [])
        node_bytes

  -- The loop from round `i`, with `left` rounds to go. `i` stays below `steps`, a `uint8_t`.
  unfoldable pub chain_loop : Bytes → ℕ → ℕ → ℕ → ℕ → ℕ → Node → Node
  chain_loop pk_seed epoch chain_idx start_pos zero i cur = cur
  chain_loop pk_seed epoch chain_idx start_pos (suc left) i cur =
      chain_loop pk_seed epoch chain_idx start_pos left (i + 1)
        (hash_chain_step pk_seed epoch cur chain_idx (u8 (start_pos + i + 1)))

  unfoldable pub hash_chain_multi : Bytes → ℕ → Node → ℕ → ℕ → ℕ → Node
  unfolding chain_loop
  hash_chain_multi pk_seed epoch start chain_idx start_pos steps =
      chain_loop pk_seed epoch chain_idx start_pos steps 0 start

  unfoldable pub hash_tree_node : Bytes → Node → Node → ℕ → ℕ → Node
  unfolding th_into
  hash_tree_node pk_seed left right level index =
      th_into p [] (pk_seed ++ tweak_tree ∷ u8 level ∷ put_le32 index) (left ++ right) node_bytes

  unfoldable pub hash_public_key : Bytes → ℕ → List Node → Node
  unfolding th_into
  hash_public_key pk_seed epoch pk_hashes =
      th_into p [] (pk_seed ++ tweak_leaf ∷ put_epoch_be epoch) (concat pk_hashes) node_bytes

abbrev pub coord_bit_pos : ℕ → ℕ
coord_bit_pos i =
    if ltb i digits_per_word
    then coord_res_bits * i
    else 64 + coord_res_bits * (i - digits_per_word)

-- `(hash[j / 8] >> (j % 8)) & 1u`
abbrev pub bit_at : Bytes → ℕ → ℕ
bit_at hash j = get_or hash (j / 8) 0 / 2 ^ (j % 8) % 2

-- `for k: c |= bit << k`, three rounds, from `c = 0`
unfoldable pub coord_at : Bytes → ℕ → ℕ
coord_at hash pos =
    bit_or (bit_or (bit_or 0 (u8 (bit_at hash pos * 2 ^ 0))) (u8 (bit_at hash (pos + 1) * 2 ^ 1)))
      (u8 (bit_at hash (pos + 2) * 2 ^ 2))

-- What is stored into `coords_out`, and whether the two leftover bits are zero.
unfoldable pub extract_coords : Bytes → List ℕ × Bool
unfolding coord_at tabulate
extract_coords hash = (
  tabulate wots_len (λ i. coord_at hash (coord_bit_pos i)),
  bit_or (get_or hash 7 0 / 2 ^ 7) (get_or hash (msg_hash_len - 1) 0 / 2 ^ 7) == 0,
)

-- `for i: sum += coords[i]`
abbrev pub sum_coords : List ℕ → ℕ
sum_coords [] = 0
sum_coords (c ∷ cs) = c + sum_coords cs
