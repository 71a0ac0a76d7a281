-- ===== src/Protocol/Files.antt =====
-- The artefact files of kkw/src/protocol.c: signer key, signer public key, user state.
pub mod Laws
pub mod State
use hash_blind_signatures.Common.{
  ℕ, ◌+◌, ◌*◌, ◌/◌, ◌^◌, ◌||◌, Option, none, some, ◌∷◌, ◌++◌, Bytes, length, get_or, take, drop, u8,
  u32, put_le32, ltb, ◌==◌, if◌then◌else◌, bit_or,
}
use hash_blind_signatures.Platform.{Platform}
use hash_blind_signatures.Commitment.{hm_com_bytes, hm_r_bytes}
use hash_blind_signatures.Xmss.Params.{Node, tree_h, node_bytes, pk_seed_bytes}
use hash_blind_signatures.Xmss.Codec.{get_le32}
use hash_blind_signatures.Protocol.Signer.{SignerKey, sk_seed_bytes}
use hash_blind_signatures.Protocol.User.{UserState}

-- BLIND_SIGNER_KEY_BYTES
abbrev pub signer_key_bytes : ℕ
signer_key_bytes = sk_seed_bytes + pk_seed_bytes + 1 + 8

-- BLIND_SIGNER_PUB_BYTES
abbrev pub signer_pub_bytes : ℕ
signer_pub_bytes = node_bytes + pk_seed_bytes

-- `(next_leaf >> (8 * k)) & 0xff` for `k` from 0 to 7
abbrev pub put_le64 : ℕ → Bytes
put_le64 v = put_le32 v ++ put_le32 (v / 2 ^ 32)

-- `next_leaf |= buf[o++] << (8 * k)` for `k` from 0 to 7
unfoldable pub get_le64 : Bytes → ℕ
get_le64 b =
    bit_or
      (bit_or
        (bit_or
          (bit_or
            (bit_or
              (bit_or (bit_or (bit_or 0 (get_or b 0 0)) (get_or b 1 0 * 2 ^ 8))
                (get_or b 2 0 * 2 ^ 16))
              (get_or b 3 0 * 2 ^ 24))
            (get_or b 4 0 * 2 ^ 32))
          (get_or b 5 0 * 2 ^ 40))
        (get_or b 6 0 * 2 ^ 48))
      (get_or b 7 0 * 2 ^ 56)

unfoldable pub write_signer_key : SignerKey → Bytes
write_signer_key key = key.sk_seed ++ (key.pk_seed ++ u8 key.height ∷ put_le64 key.next_leaf)

-- The fields that are read from a buffer, by their offsets; the tree is built at first use.
unfoldable pub key_fields : Bytes → SignerKey
key_fields buf =
    let after_sk = drop sk_seed_bytes buf in
    let after_pk = drop pk_seed_bytes after_sk in
    record {
      sk_seed = take sk_seed_bytes buf;
      pk_seed = take pk_seed_bytes after_sk;
      height = get_or after_pk 0 0;
      next_leaf = get_le64 (drop 1 after_pk);
      tree = none;
    }

unfoldable pub read_signer_key : Bytes → Option SignerKey
read_signer_key buf =
    let key = key_fields buf in
    if length buf == signer_key_bytes
    then (if ltb key.height 1 || ltb tree_h key.height then none else some key)
    else none

abbrev pub write_signer_pub : Node → Bytes → Bytes
write_signer_pub root pk_seed = root ++ pk_seed

unfoldable pub read_signer_pub : Bytes → Option (Node × Bytes)
read_signer_pub buf =
    if length buf == signer_pub_bytes then some (take node_bytes buf, drop node_bytes buf) else none

unfoldable pub user_state_bytes : UserState → ℕ
user_state_bytes st = 4 + length st.msg + hm_com_bytes + hm_r_bytes

unfoldable pub write_user_state : UserState → Bytes
write_user_state st = put_le32 (u32 (length st.msg)) ++ (st.msg ++ (st.commitment ++ st.r))

-- The fields of a state whose message has `msg_len` bytes.
unfoldable pub state_fields : Bytes → ℕ → UserState
state_fields buf msg_len =
    let body = drop 4 buf in
    let after_msg = drop msg_len body in
    record {
      msg = take msg_len body;
      commitment = take hm_com_bytes after_msg;
      r = take hm_r_bytes (drop hm_com_bytes after_msg);
    }

module _ (p : Platform) where
  unfoldable pub read_user_state : Bytes → Option UserState
  read_user_state buf =
      let msg_len = get_le32 buf in
      let read = state_fields buf msg_len in
      if ltb (length buf) (4 + hm_com_bytes + hm_r_bytes)
      then none
      else (if length buf == 4 + msg_len + hm_com_bytes + hm_r_bytes
          then (if msg_len == 0 then some read else (if p.malloc msg_len then some read else none))
          else none)
