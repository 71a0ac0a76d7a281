-- ===== src/Xmss/Wots.antt =====
-- The one-time signature of kkw/src/xmss.c: 42 hash chains of seven steps.
pub mod Laws
use hash_blind_signatures.Common.{
  ℕ, ◌+◌, ◌-◌, ◌*◌, ◌/◌, ◌%◌, ◌^◌, [], ◌∷◌, List, Bytes, get_or, u8, byte_of, ◌==◌, if◌then◌else◌,
  put_be32, tabulate, blocks, codes,
}
use hash_blind_signatures.Platform.{Platform}
use hash_blind_signatures.Hash.{blake3_keyed_xof}
use hash_blind_signatures.Xmss.Params.{Node, node_bytes, wots_len, wots_max_steps}
use hash_blind_signatures.Xmss.Hashes.{hash_chain_multi}

-- BLAKE3_XOF_DOM_XMSS_WOTS_SK
abbrev xof_dom_wots_sk : Bytes
xof_dom_wots_sk = codes "blind-mss XMSS WOTS secret-key expansion v1"

-- `(uint8_t)(7 - coords[i])`
abbrev pub remaining_steps : ℕ → ℕ
remaining_steps c = u8 (wots_max_steps + 256 - c)

module _ (p : Platform) where
  unfoldable pub wots_gen_sk : Bytes → ℕ → List Node
  unfolding blake3_keyed_xof
  wots_gen_sk sk_seed leaf_index =
      blocks node_bytes wots_len
        (blake3_keyed_xof p sk_seed xof_dom_wots_sk (put_be32 leaf_index) (node_bytes * wots_len))

  -- The bodies of the three loops below, for chain `i`.
  unfoldable pub key_chain : Bytes → ℕ → List Node → ℕ → Node
  key_chain pk_seed epoch sk i =
      hash_chain_multi p pk_seed epoch (get_or sk i []) (u8 i) 0 wots_max_steps

  unfoldable pub sign_chain : Bytes → ℕ → List Node → List ℕ → ℕ → Node
  sign_chain pk_seed epoch sk coords i =
      if get_or coords i 0 == 0
      then get_or sk i []
      else hash_chain_multi p pk_seed epoch (get_or sk i []) (u8 i) 0 (get_or coords i 0)

  unfoldable pub recover_chain : Bytes → ℕ → List Node → List ℕ → ℕ → Node
  recover_chain pk_seed epoch sig coords i =
      let remaining = remaining_steps (get_or coords i 0) in
      if remaining == 0
      then get_or sig i []
      else hash_chain_multi p pk_seed epoch (get_or sig i []) (u8 i) (get_or coords i 0) remaining

  unfoldable pub wots_pk_from_sk : Bytes → ℕ → List Node → List Node
  unfolding key_chain tabulate
  wots_pk_from_sk pk_seed epoch sk = tabulate wots_len (key_chain pk_seed epoch sk)

  unfoldable pub wots_sign : Bytes → ℕ → List Node → List ℕ → List Node
  unfolding sign_chain tabulate
  wots_sign pk_seed epoch sk coords = tabulate wots_len (sign_chain pk_seed epoch sk coords)

  unfoldable pub wots_pk_from_sig : Bytes → ℕ → List Node → List ℕ → List Node
  unfolding recover_chain tabulate
  wots_pk_from_sig pk_seed epoch sig coords =
      tabulate wots_len (recover_chain pk_seed epoch sig coords)
