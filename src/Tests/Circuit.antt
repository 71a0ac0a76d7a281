-- ===== src/Tests/Circuit.antt =====
-- The gates with four parties.
use hash_blind_signatures.Common.{
  ℕ, zero, suc, ◌+◌, ◌-◌, ◌*◌, ◌^◌, ◌<◌, ◌≡◌, refl, arith, none, [], ◌∷◌, List, Bytes, replicate,
  bit_and, u32, some,
}
use hash_blind_signatures.Circuit.Shares.{Masked, unmask, xor_from, y_size}
use hash_blind_signatures.Xmss.Codec.{get_le32}
use hash_blind_signatures.Xmss.Codec.Laws.{get_le32-sum}
use hash_blind_signatures.Circuit.Prove.{
  Transcript, mpc_and, mpc_add, and_corr, and_message, add_corr, add_message, mask_at,
}
use hash_blind_signatures.Circuit.Prove.Laws.{unmask-mpc_and, unmask-mpc_add}
use hash_blind_signatures.Circuit.Input.{Input, key_words, out_bytes, nblocks, valid_sizes}
use hash_blind_signatures.Circuit.Prove.Hash.{th_loop, mpc_blake3_th, mpc_blake3_th-gate_count}
use hash_blind_signatures.Circuit.Verify.Hash.{
  th_loop_verify, mpc_blake3_th_verify, mpc_blake3_th_verify-gate_count,
}
use hash_blind_signatures.Circuit.Verify.{Replay, mpc_and_verify, mpc_add_verify}
use hash_blind_signatures.Circuit.Verify.Laws.{hide, hide_tapes, mpc_and_verify-hide}
use hash_blind_signatures.Circuit.Verify.Add.{mpc_add_verify-hide}

-- Four tapes, too long to be computed with.
tape_of : ℕ → Bytes
tape_of k = replicate (2 * y_size * 4) k

abbrev tapes : List Bytes
tapes = tape_of 3 ∷ tape_of 5 ∷ tape_of 250 ∷ tape_of 77 ∷ []

abbrev left : Masked
left = record { h = 4026531855; l = 17 ∷ 4 ∷ 255 ∷ 65536 ∷ [] }

abbrev right : Masked
right = record { h = 1000000000; l = 9 ∷ 99 ∷ 999 ∷ 9999 ∷ [] }

abbrev start : Transcript
start = record { aux = 0 ∷ []; s_all = none; gate_count = 0 }

-- The first gate as an AND gate.
unmask-mpc_and_example :
    unmask 4 (mpc_and 4 tapes left right start).0 ≡ bit_and (unmask 4 left) (unmask 4 right)
unmask-mpc_and_example = unmask-mpc_and 3 tapes left right start

-- The first gate as an adder.
unmask-mpc_add_example :
    unmask 4 (mpc_add 4 tapes left right start).0 ≡ u32 (unmask 4 left + unmask 4 right)
unmask-mpc_add_example = unmask-mpc_add 3 tapes left right start

abbrev corrections : List ℕ
corrections = and_corr 4 tapes left right 0 ∷ []

abbrev hidden_messages : List ℕ
hidden_messages = and_message 4 tapes left right 0 1 ∷ []

abbrev replay : Replay
replay = record { s_slots = []; gate_count = 0 }

-- The first gate, with the second party hidden.
mpc_and_verify-hide_example :
    (mpc_and_verify 3 1
      (hide_tapes 3 1 tapes)
      hidden_messages
      corrections
      (hide 3 1 left)
      (hide 3 1 right)
      replay).0
    ≡ hide 3 1 (mpc_and 4 tapes left right start).0
mpc_and_verify-hide_example =
    mpc_and_verify-hide 3 1 (omega arith) tapes hidden_messages corrections left right start replay
      refl refl refl

abbrev add_corrections : List ℕ
add_corrections = add_corr 4 tapes left right 0 ∷ []

abbrev add_messages : List ℕ
add_messages = add_message 4 tapes left right 0 1 ∷ []

-- The words of the tapes.
word_of : (k : ℕ) (rest : Bytes) → k < 256 → get_le32 (k ∷ k ∷ k ∷ k ∷ rest) < 2 ^ 32
word_of k rest h = omega (arith, get_le32-sum k k k k rest h h h h)

mask_at-word : (i : ℕ) → i < 4 → mask_at 4 tapes 0 i < 2 ^ 32
unfolding tape_of
mask_at-word zero h = word_of 3 (replicate (2 * y_size * 4 - 4) 3) (omega arith)
mask_at-word (suc zero) h = word_of 5 (replicate (2 * y_size * 4 - 4) 5) (omega arith)
mask_at-word (suc (suc zero)) h = word_of 250 (replicate (2 * y_size * 4 - 4) 250) (omega arith)
mask_at-word (suc (suc (suc zero))) h = word_of 77 (replicate (2 * y_size * 4 - 4) 77) (omega arith)
mask_at-word (suc (suc (suc (suc i)))) h = absurd (omega arith)

-- The first gate as an adder, with the second party hidden.
mpc_add_verify-hide_example :
    (mpc_add_verify 3 1
      (hide_tapes 3 1 tapes)
      add_messages
      add_corrections
      (hide 3 1 left)
      (hide 3 1 right)
      replay).0
    ≡ hide 3 1 (mpc_add 4 tapes left right start).0
unfolding unmask xor_from
mpc_add_verify-hide_example =
    mpc_add_verify-hide 3 1 tapes add_messages add_corrections left right start replay (omega arith)
      mask_at-word (omega arith) (omega arith) refl refl refl

-- A domain of three bytes and data of two, in blocks of 64 bytes.
abbrev domain : Input
domain = record { bytes = 1 ∷ 2 ∷ 3 ∷ []; len = 3; lam = none }

abbrev data_in : Input
data_in = record { bytes = 4 ∷ 5 ∷ []; len = 2; lam = some (replicate 4 (6 ∷ 7 ∷ [])) }

end : List Masked × Transcript
end = th_loop 64 1024 32 4 tapes domain data_in 1 0 (key_words 4) start

hashed :
    mpc_blake3_th 64 1024 32 4 tapes domain data_in 16 start ≡ some (out_bytes 4 16 end.0, end.1)
unfolding mpc_blake3_th end valid_sizes
hashed = refl

-- One block: 336 gates.
mpc_blake3_th-gate_count_example :
    end.1.gate_count ≡ start.gate_count + nblocks 64 1024 32 domain data_in * 336
mpc_blake3_th-gate_count_example =
    mpc_blake3_th-gate_count 64 1024 32 4 tapes domain data_in 16 start (out_bytes 4 16 end.0) end.1
      hashed

end_verify : List Masked × Replay
end_verify =
    th_loop_verify 64 1024 32 3 1 (hide_tapes 3 1 tapes) [] [] domain data_in 1 0 (key_words 3)
      replay

hashed_verify :
    mpc_blake3_th_verify 64 1024 32 3 1 (hide_tapes 3 1 tapes) [] [] domain data_in 16 replay
    ≡ some (out_bytes 3 16 end_verify.0, end_verify.1)
unfolding mpc_blake3_th_verify end_verify valid_sizes
hashed_verify = refl

-- One block of the verifier: 336 gates.
mpc_blake3_th_verify-gate_count_example :
    end_verify.1.gate_count ≡ replay.gate_count + nblocks 64 1024 32 domain data_in * 336
mpc_blake3_th_verify-gate_count_example =
    mpc_blake3_th_verify-gate_count 64 1024 32 3 1 (hide_tapes 3 1 tapes) [] [] domain data_in 16
      replay (out_bytes 3 16 end_verify.0) end_verify.1 hashed_verify
