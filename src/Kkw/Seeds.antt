-- ===== src/Kkw/Seeds.antt =====
-- kkw/src/shared.c: the streams that seeds expand to, the commitments to a preprocessing, and the
-- hash of an instance's online messages, as the prover and as the verifier compute it.
pub mod Laws
use hash_blind_signatures.Common.{
  ℕ, zero, suc, ◌+◌, ◌-◌, ◌*◌, ◌==◌, ltb, false, if◌then◌else◌, Option, none, some, [], ◌∷◌, ◌++◌,
  List, Bytes, put_le32, u8, get_or, concat, blocks, tabulate, codes, map,
}
use hash_blind_signatures.Platform.{Platform}
use hash_blind_signatures.Hash.{
  Slice, array, ThCtx, blake3_th_init, blake3_th_update, blake3_th_final, blake3_keyed_xof, th_into,
}
use hash_blind_signatures.Xmss.Params.{node_bytes, nonce_len, wots_len, tree_h}
use hash_blind_signatures.Protocol.User.{w_nonce_off, schedule_len}
use hash_blind_signatures.Circuit.Shares.{y_size}

-- TAPE_SIZE
abbrev pub tape_size : ℕ
tape_size = 2 * y_size * 4

-- SEED_SIZE
abbrev pub seed_size : ℕ
seed_size = 32

-- INPUT_LEN, the end of the witness
abbrev pub input_len : ℕ
input_len = w_nonce_off + nonce_len + wots_len * node_bytes + tree_h * node_bytes + schedule_len

-- The bytes of an array of 32-bit words, on a little-endian machine.
abbrev pub word_bytes : List ℕ → Bytes
word_bytes ws = concat (map put_le32 ws)

-- The row of the hidden party `e`.
unfoldable pub compute_msgs_e : ℕ → List (List ℕ) → List ℕ
compute_msgs_e e s_all = get_or s_all e []

-- What the loop hashes for party `q`.
unfoldable pub party_words : ℕ → List (List ℕ) → List ℕ → ℕ → List ℕ
party_words e s_slots msgs_e q =
    if q == e then msgs_e else get_or s_slots (if ltb q e then q else q - 1) []

module _ (p : Platform) where
  -- A hash update whose status is not read.
  abbrev pub update_with : ThCtx p → Bytes → ThCtx p
  update_with ctx xs = (blake3_th_update p ctx (array xs)).0

  -- The last step into a buffer that held `before`, its status not read.
  abbrev pub final_into : Bytes → ThCtx p → Bytes
  final_into before ctx = elim (blake3_th_final p ctx false 32) [ none ↦ before | some out ↦ out ]

  unfoldable pub expand_tape : Bytes → Bytes
  expand_tape seed = blake3_keyed_xof p seed (codes "blind-mss KKW tape expansion v1") [] tape_size

  -- A seed for each of `n` parties.
  unfoldable pub expand_seed_star : ℕ → Bytes → List Bytes
  expand_seed_star n seed_star = blocks seed_size n (
      blake3_keyed_xof p seed_star (codes "blind-mss KKW party-seed expansion v1") []
        (n * seed_size))

  unfoldable pub expand_xshare : Bytes → Bytes
  expand_xshare seed =
      blake3_keyed_xof p seed (codes "blind-mss KKW witness-mask expansion v1") [] input_len

  -- `aux` is `none` for a NULL pointer. Only party 0 commits to the corrections.
  unfoldable pub preproc_com_party : Bytes → ℕ → Bytes → Option (List ℕ) → Bytes
  preproc_com_party before party seed aux =
      let ctx = blake3_th_init p (array (codes "KKWppcom")) in
      let with_seed = update_with (update_with ctx (u8 party ∷ [])) seed in
      let whole : ThCtx p = elim aux [
        | none ↦ with_seed
        | some words ↦ if party == 0 then update_with with_seed (word_bytes words) else with_seed
      ] in
      final_into before whole

  -- `fresh` is what the stack held where the commitments go, `before` the output buffer.
  unfoldable pub preproc_commit_instance : ℕ → Bytes → Bytes → List Bytes → Option (List ℕ) → Bytes
  preproc_commit_instance n fresh before seeds aux =
      th_into p before (codes "KKWhj")
        (concat (tabulate n (λ i. preproc_com_party fresh i (get_or seeds i []) aux))) 32

  unfoldable pub hprime_init : Bytes → ThCtx p
  hprime_init d_pub = update_with (blake3_th_init p (array (codes "KKWhprime"))) d_pub

  -- On `n` parties, whose messages are the rows of `s_all`.
  unfoldable pub compute_h_prime : ℕ → Bytes → Bytes → List (List ℕ) → Bytes → Bytes
  compute_h_prime n before d_pub s_all r_j = final_into before (
      update_with
        (update_with (hprime_init d_pub)
          (concat (tabulate n (λ i. word_bytes (get_or s_all i [])))))
        r_j)

  -- The loop over the parties from `q`, with `left` to go.
  unfoldable pub hprime_loop : ℕ → List (List ℕ) → List ℕ → ℕ → ℕ → ThCtx p → ThCtx p
  hprime_loop e s_slots msgs_e zero q ctx = ctx
  hprime_loop e s_slots msgs_e (suc left) q ctx =
      hprime_loop e s_slots msgs_e left (q + 1)
        (update_with ctx (word_bytes (party_words e s_slots msgs_e q)))

  unfoldable pub recompute_h_prime_verify :
      ℕ → Bytes → ℕ → Bytes → List (List ℕ) → List ℕ → Bytes → Bytes
  recompute_h_prime_verify n before e d_pub s_slots msgs_e r_j =
      final_into before (update_with (hprime_loop e s_slots msgs_e n 0 (hprime_init d_pub)) r_j)
