-- ===== src/Protocol/User.antt =====
-- `blind_user_commit` of kkw/src/protocol.c, the witness that `blind_user_prove` lays out, and
-- `kkw_build_schedule` of kkw/src/circuits.c.
pub mod Laws
use hash_blind_signatures.Common.{
  ℕ, zero, suc, ◌+◌, ◌-◌, ◌*◌, ◌^◌, Option, none, some, [], ◌∷◌, ◌++◌, List, Bytes, length, get_or,
  take, drop, u8, u32, put_be32, ◌==◌, if◌then◌else◌, bit_or, concat, codes,
}
use hash_blind_signatures.Platform.{Platform}
use hash_blind_signatures.Random.{randombytes_fill}
use hash_blind_signatures.Hash.{th_into}
use hash_blind_signatures.Commitment.{hm_commit, hm_r_bytes, hm_a_bytes}
use hash_blind_signatures.Xmss.Params.{nonce_len, wots_len, wots_max_steps, target_sum}
use hash_blind_signatures.Xmss.Hashes.{hash_message, extract_coords}
use hash_blind_signatures.Xmss.Sign.{Signature}

-- `blind_user_state`; the message pointer is NULL exactly for an empty message.
pub record UserState : Type 0 where
  pub msg : Bytes
  pub commitment : Bytes
  pub r : Bytes

-- The offsets of kkw/src/circuits.h into the witness.
abbrev pub w_r_off : ℕ
w_r_off = 0

abbrev pub w_a_off : ℕ
w_a_off = w_r_off + hm_r_bytes

abbrev pub w_leafidx_off : ℕ
w_leafidx_off = w_a_off + hm_a_bytes

abbrev pub w_nonce_off : ℕ
w_nonce_off = w_leafidx_off + 4

-- W_SCHEDULE_LEN
abbrev pub schedule_len : ℕ
schedule_len = wots_len * wots_max_steps - target_sum

-- The inner loop: one entry `ci` for each of the `steps` positions from the digit to the end.
-- `none` is the return 0 for a full schedule, `slot` counts from the start.
unfoldable pub push_steps : ℕ → ℕ → ℕ → Bytes → Option (ℕ × Bytes)
push_steps ci zero slot written = some (slot, written)
push_steps ci (suc steps) slot written =
    let rest = push_steps ci steps (slot + 1) (written ++ u8 ci ∷ []) in
    if slot == schedule_len then none else rest

-- What the outer loop does next with the result of the inner one, or reports at the end.
unfoldable pub finish_schedule : Option (ℕ × Bytes) → Option Bytes
finish_schedule none = none
finish_schedule (some (slot, written)) = if slot == schedule_len then some written else none

-- The outer loop from chain `ci`, over the digits that are left.
unfoldable pub schedule_loop : ℕ → List ℕ → ℕ → Bytes → Option (ℕ × Bytes)
schedule_loop ci [] slot written = some (slot, written)
schedule_loop ci (c ∷ cs) slot written = elim (push_steps ci (wots_max_steps - c) slot written) [
  | none ↦ none
  | some (slot', written') ↦ schedule_loop (ci + 1) cs slot' written'
]

-- `epoch = (epoch << 8) | b[i]`, for the four big-endian bytes of the witness, from 0.
abbrev pub epoch_step : ℕ → ℕ → ℕ
epoch_step epoch b = bit_or (u32 (epoch * 2 ^ 8)) b

unfoldable pub epoch_of : Bytes → ℕ
epoch_of b =
    epoch_step (epoch_step (epoch_step (epoch_step 0 (get_or b 0 0)) (get_or b 1 0)) (get_or b 2 0))
      (get_or b 3 0)

module _ (p : Platform) where
  -- `blind_msg_digest`
  unfoldable pub msg_digest : Bytes → Bytes
  msg_digest msg = th_into p [] (codes "KKWmhat") msg 32

  -- A message is stored only if the memory for it is had.
  unfoldable pub state_with : Bytes → Bytes → Bytes → Option UserState
  state_with msg r a =
      let st : UserState = record {
        msg = msg;
        commitment = (hm_commit p (msg_digest msg) r a).0;
        r = r;
      } in
      if length msg == 0 then some st else (if p.malloc (length msg) then some st else none)

  unfoldable pub blind_user_commit : Bytes → ℕ → ℕ × Option UserState
  blind_user_commit msg calls =
      let (calls1, drawn_r) = randombytes_fill p calls hm_r_bytes in
      let (calls2, drawn_a) = randombytes_fill p calls1 hm_a_bytes in
      elim drawn_r [
        | none ↦ (calls1, none)
        | some r ↦ elim drawn_a [ none ↦ (calls2, none) | some a ↦ (calls2, state_with msg r a) ]
      ]

  -- The schedule for a witness, `none` where the function returns 0. The witness is read up to
  -- the schedule's offset.
  unfoldable pub build_schedule : Bytes → Bytes → Bytes → Option Bytes
  build_schedule input m_hat pk_seed =
      let com_digest =
        hm_commit p m_hat (take hm_r_bytes input) (take hm_a_bytes (drop w_a_off input)) in
      let mh =
        hash_message p pk_seed (epoch_of (drop w_leafidx_off input))
          (take nonce_len (drop w_nonce_off input)) com_digest.1 in
      let digits = extract_coords mh in
      if digits.1 then finish_schedule (schedule_loop 0 digits.0 0 []) else none

  -- The witness of `blind_user_prove` before the schedule.
  unfoldable pub witness_of : UserState → Signature → Bytes
  witness_of st sig =
      st.r
      ++ (take hm_a_bytes st.commitment
          ++ (put_be32 sig.leaf_index
              ++ (sig.nonce ++ (concat sig.sig_hashes ++ concat sig.auth_path))))

  -- The witness that is handed to the prover, `none` where the function returns -1 before it.
  unfoldable pub prepare_witness : UserState → Bytes → Signature → Option Bytes
  prepare_witness st pk_seed sig =
      elim (build_schedule (witness_of st sig) (msg_digest st.msg) pk_seed) [
        | none ↦ none
        | some schedule ↦ some (witness_of st sig ++ schedule)
      ]
