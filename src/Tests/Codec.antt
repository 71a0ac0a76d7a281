-- ===== src/Tests/Codec.antt =====
-- The wire format, the files and the tweakable hash at concrete inputs.
use hash_blind_signatures.Common.{
  ℕ, zero, suc, ◌+◌, ◌-◌, List, length, IsBytes, ◌++◌, ◌≡◌, refl, arith, some, none, [], ◌∷◌, Bytes,
  replicate,
}
use hash_blind_signatures.Random.{fill_loop, randombytes_fill}
use hash_blind_signatures.Random.Laws.{randombytes_fill-fills}
use hash_blind_signatures.Hash.{blake3_th, array, th_context}
use hash_blind_signatures.Hash.Laws.{framed, blake3_th_lem}
use hash_blind_signatures.Xmss.Sign.{Signature}
use hash_blind_signatures.Xmss.Codec.{write_sig, read_sig, sig_fields}
use hash_blind_signatures.Xmss.Codec.Laws.{IsSig, read_sig-write, write_sig-read}
use hash_blind_signatures.Protocol.Signer.{SignerKey}
use hash_blind_signatures.Protocol.User.{UserState}
use hash_blind_signatures.Protocol.Files.State.{IsSized, read_user_state-write}
use hash_blind_signatures.Protocol.Files.{
  write_signer_key, read_signer_key, write_user_state, read_user_state,
}
use hash_blind_signatures.Protocol.Files.Laws.{IsStorable, read_signer_key-write}
use hash_blind_signatures.Hash.{th_into}
use hash_blind_signatures.Commitment.{hm_commit}
use hash_blind_signatures.Xmss.Hashes.{hash_message, extract_coords}
use hash_blind_signatures.Protocol.User.{
  build_schedule, schedule_loop, push_steps, finish_schedule, epoch_of,
}
use hash_blind_signatures.Protocol.User.Laws.{AreChains, build_schedule-AreChains}
use hash_blind_signatures.Tests.{good_digest, toy, toy-IsDocumented, replicate-IsBytes}

abbrev sample : Signature
sample = record {
  leaf_index = 70000;
  nonce = replicate 24 5;
  sig_hashes = replicate 42 (replicate 16 1);
  auth_path = replicate 32 (replicate 16 2);
}

sample-IsSig : IsSig sample
sample-IsSig = record {
  index_fits = omega arith;
  nonce_size = refl;
  hashes = refl;
  hash_sizes = omega arith;
  path = refl;
  path_sizes = omega arith;
}

-- A signature with leaf 70000.
read_sig-write_example : read_sig (write_sig sample) ≡ some sample
read_sig-write_example = read_sig-write sample-IsSig

abbrev buffer : Bytes
buffer = replicate 1212 200

buffer_read : read_sig buffer ≡ some (sig_fields buffer)
unfolding read_sig
buffer_read = refl

-- A buffer of 1212 equal bytes.
write_sig-read_example : write_sig (sig_fields buffer) ≡ buffer
write_sig-read_example =
    write_sig-read buffer (sig_fields buffer) (replicate-IsBytes 1212 200 (omega arith)) buffer_read

-- Three bytes under a domain of two.
blake3_th_lem_example :
    blake3_th toy (array (7 ∷ 8 ∷ [])) (array (1 ∷ 2 ∷ 3 ∷ [])) 16
    ≡ some (
        toy.finalize
          (toy.update (toy.init_derive_key th_context) (framed (7 ∷ 8 ∷ []) (1 ∷ 2 ∷ 3 ∷ [])))
          16)
blake3_th_lem_example =
    blake3_th_lem toy toy-IsDocumented (7 ∷ 8 ∷ []) (1 ∷ 2 ∷ 3 ∷ []) 16 (omega arith) (omega arith)
      (omega arith)

abbrev stored : SignerKey
stored = record {
  sk_seed = replicate 32 7;
  pk_seed = replicate 16 9;
  height = 20;
  next_leaf = 70000;
  tree = none;
}

stored-IsStorable : IsStorable stored
stored-IsStorable = record {
  sk_size = refl;
  pk_size = refl;
  height_pos = omega arith;
  height_fits = omega arith;
  leaf_fits = omega arith;
}

-- A key of height 20 at leaf 70000.
read_signer_key-write_example : read_signer_key (write_signer_key stored) ≡ some stored
read_signer_key-write_example = read_signer_key-write stored stored-IsStorable

abbrev state : UserState
state = record { msg = 104 ∷ 105 ∷ []; commitment = replicate 256 3; r = replicate 96 4 }

state-IsSized : IsSized state
state-IsSized = record { msg_fits = omega arith; commitment_size = refl; r_size = refl }

-- A state with a message of two bytes.
read_user_state-write_example : read_user_state toy (write_user_state state) ≡ some state
read_user_state-write_example = read_user_state-write state state-IsSized toy refl

-- Two calls of `getentropy`.
abbrev drawn : Bytes
drawn = replicate 256 3 ++ replicate 44 4

filled : randombytes_fill toy 3 300 ≡ (5, some drawn)
unfolding randombytes_fill fill_loop
filled = refl

randombytes_fill-fills_example : (length drawn ≡ 300) × IsBytes drawn
randombytes_fill-fills_example = randombytes_fill-fills toy toy-IsDocumented 3 300 5 drawn filled

-- The schedule of a witness of zeros, on the toy's digest.
abbrev steps_of : ℕ → ℕ → Bytes → Bytes
steps_of ci zero rest = rest
steps_of ci (suc steps) rest = ci ∷ steps_of ci steps rest

abbrev steps_from : ℕ → List ℕ → Bytes
steps_from ci [] = []
steps_from ci (c ∷ cs) = steps_of ci (7 - c) (steps_from (ci + 1) cs)

abbrev toy_schedule : Bytes
toy_schedule = steps_from 0 (extract_coords (good_digest ++ replicate 16 0)).0

scheduled :
    build_schedule toy (replicate 400 0) (replicate 32 0) (replicate 16 0) ≡ some toy_schedule
unfolding build_schedule extract_coords hash_message hm_commit schedule_loop push_steps
    finish_schedule th_into epoch_of
scheduled = refl

build_schedule-AreChains_example : (length toy_schedule ≡ 99) × AreChains toy_schedule
build_schedule-AreChains_example =
    build_schedule-AreChains toy (replicate 400 0) (replicate 32 0) (replicate 16 0) toy_schedule
      scheduled
