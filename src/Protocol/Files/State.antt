-- ===== src/Protocol/Files/State.antt =====
-- The user state file of kkw/src/protocol.c, written and read.
use hash_blind_signatures.Common.{
  ◌+◌, ◌^◌, ◌<◌, ◌≡◌, ◌∙◌, refl, ap, arith, ◌++◌, length, take, drop, none, some, u32, put_le32,
  ltb, ◌==◌, if◌then◌else◌, length-append, take-append, drop-append, true, take-length,
}
use hash_blind_signatures.Platform.{Platform}
use hash_blind_signatures.Xmss.Codec.{get_le32}
use hash_blind_signatures.Xmss.Codec.Laws.{get_le32-put}
use hash_blind_signatures.Commitment.{hm_com_bytes, hm_r_bytes}
use hash_blind_signatures.Protocol.User.{UserState}
use hash_blind_signatures.Protocol.Files.{write_user_state, state_fields, read_user_state}

-- The sizes that the C type `blind_user_state` fixes, and a message whose length fits 32 bits.
pub record IsSized (st : UserState) : Type 0 where
  pub msg_fits : length st.msg < 2 ^ 32
  pub commitment_size : length st.commitment ≡ hm_com_bytes
  pub r_size : length st.r ≡ hm_r_bytes

module _ (st : UserState) (v : IsSized st) where
  msg_len : get_le32 (write_user_state st) ≡ length st.msg
  unfolding write_user_state
  msg_len =
      ap (λ n. get_le32 (put_le32 n ++ (st.msg ++ (st.commitment ++ st.r)))) small
      ∙ get_le32-put (length st.msg) (st.msg ++ (st.commitment ++ st.r)) v.msg_fits
    where
      small : u32 (length st.msg) ≡ length st.msg
      small = omega (arith, v.msg_fits)

  file_length : length (write_user_state st) ≡ 4 + length st.msg + hm_com_bytes + hm_r_bytes
  unfolding write_user_state
  file_length = omega (
    arith,
    length-append {0} st.msg (st.commitment ++ st.r),
    length-append {0} st.commitment st.r,
    v.commitment_size,
    v.r_size,
  )

  fields_read : state_fields (write_user_state st) (length st.msg) ≡ st
  unfolding state_fields write_user_state
  fields_read i = record {
    msg = take-append (length st.msg) st.msg (st.commitment ++ st.r) refl i;
    commitment =
        (ap (take hm_com_bytes) after_msg
            ∙ take-append hm_com_bytes st.commitment st.r v.commitment_size)
          i;
    r =
        (ap (λ b. take hm_r_bytes (drop hm_com_bytes b)) after_msg
            ∙ ap (take hm_r_bytes) (drop-append hm_com_bytes st.commitment st.r v.commitment_size)
            ∙ take-length hm_r_bytes st.r v.r_size)
          i;
  }
    where
      after_msg : drop (length st.msg) (st.msg ++ (st.commitment ++ st.r)) ≡ st.commitment ++ st.r
      after_msg = drop-append (length st.msg) st.msg (st.commitment ++ st.r) refl

  -- For a user state with a commitment and an r of the sizes of the C type, a message shorter
  -- than 2^32 bytes, and memory for it: reading back the state that is written gives the state.
  pub read_user_state-write :
      (p : Platform)
      → p.malloc (length st.msg) ≡ true
      → read_user_state p (write_user_state st) ≡ some st
  unfolding read_user_state
  read_user_state-write p granted =
      ap
        (λ n.
          if ltb (length (write_user_state st)) (4 + hm_com_bytes + hm_r_bytes)
          then none
          else (if length (write_user_state st) == 4 + n + hm_com_bytes + hm_r_bytes
              then (if n == 0
                  then some (state_fields (write_user_state st) n)
                  else (if p.malloc n then some (state_fields (write_user_state st) n) else none))
              else none))
        msg_len
      ∙ accepted
      ∙ ap some fields_read
    where
      read : UserState
      read = state_fields (write_user_state st) (length st.msg)

      accepted :
          (if ltb (length (write_user_state st)) (4 + hm_com_bytes + hm_r_bytes)
            then none
            else (if length (write_user_state st) == 4 + length st.msg + hm_com_bytes + hm_r_bytes
                then (if length st.msg == 0
                    then some read
                    else (if p.malloc (length st.msg) then some read else none))
                else none))
          ≡ some read
      accepted = ground (arith, file_length, granted)
