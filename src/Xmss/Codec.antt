-- ===== src/Xmss/Codec.antt =====
-- `xmss_write_sig`, `xmss_read_sig` and the node words of kkw/src/xmss.h.
pub mod Laws
use hash_blind_signatures.Common.{
  ℕ, ◌+◌, ◌*◌, ◌%◌, ◌/◌, ◌^◌, Option, none, some, [], ◌∷◌, ◌++◌, List, Bytes, length, get_or, take,
  drop, u8, byte_of, put_le32, concat, blocks, ◌==◌, if◌then◌else◌, bit_or, set,
}
use hash_blind_signatures.Xmss.Params.{node_bytes, nonce_len, wots_len, tree_h, sig_bytes}
use hash_blind_signatures.Xmss.Sign.{Signature}

-- `b[0] | b[1] << 8 | b[2] << 16 | b[3] << 24`, for the bytes from the start of a buffer.
unfoldable pub get_le32 : Bytes → ℕ
get_le32 b =
    bit_or (bit_or (bit_or (get_or b 0 0) (get_or b 1 0 * 2 ^ 8)) (get_or b 2 0 * 2 ^ 16))
      (get_or b 3 0 * 2 ^ 24)

unfoldable pub write_sig : Signature → Bytes
write_sig sig =
    put_le32 sig.leaf_index ++ (sig.nonce ++ (concat sig.sig_hashes ++ concat sig.auth_path))

-- The fields that are read from a buffer, by their offsets.
unfoldable pub sig_fields : Bytes → Signature
sig_fields buf =
    let after_index = drop 4 buf in
    let after_nonce = drop nonce_len after_index in
    let after_hashes = drop (wots_len * node_bytes) after_nonce in
    record {
      leaf_index = get_le32 buf;
      nonce = take nonce_len after_index;
      sig_hashes = blocks node_bytes wots_len after_nonce;
      auth_path = blocks node_bytes tree_h after_hashes;
    }

unfoldable pub read_sig : Bytes → Option Signature
read_sig buf = if length buf == sig_bytes then some (sig_fields buf) else none
