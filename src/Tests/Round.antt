-- ===== src/Tests/Round.antt =====
-- An opened instance on the concrete platform: its replay and its output. There is one party, so
-- that every word of the file is known; slots are met in the tests of the circuit.
use hash_blind_signatures.Common.{
  ap, Bool, ℕ, ◌≡◌, refl, arith, true, false, some, none, Option, [], ◌∷◌, List, Bytes, map, get_or,
  replicate, length-replicate, concat, tabulate, codes, zero, suc, ◌^◌, ◌<◌,
}
use hash_blind_signatures.Hash.{th_into}
use hash_blind_signatures.Circuit.Shares.{Masked, xor_from, y_size}
use hash_blind_signatures.Circuit.Verify.{Replay}
use hash_blind_signatures.Circuit.Engine.{Ends}
use hash_blind_signatures.Circuit.Views.Evaluate.{
  Answer, Opening, slots_match, tapes_granted, verify_granted, verdict_of, replay_circuit, verify,
}
use hash_blind_signatures.Circuit.Views.Evaluate.Laws.{replay_circuit-gates}
use hash_blind_signatures.Kkw.Seeds.{input_len}
use hash_blind_signatures.Kkw.Proof.{Params}
use hash_blind_signatures.Kkw.Proof.Reads.{IsWords}
use hash_blind_signatures.Kkw.Proof.Rounds.{IsSent, received}
use hash_blind_signatures.Kkw.Verifier.{
  Checked, check_round, party_commitment, hash_outputs, output_equal,
}
use hash_blind_signatures.Tests.{toy}

abbrev pub k : Params
k = record { parties = 1; instances = 2; rounds = 1; grind_w = 8 }

abbrev pub m_hat : Bytes
m_hat = replicate 32 9

abbrev pub pk_seed : Bytes
pk_seed = replicate 16 4

-- The words of the opened instance.
pub words : List ℕ
words = replicate y_size 77

pub masked : Bytes
masked = replicate input_len 3

replicate-IsWords : (n w : ℕ) → w < 2 ^ 32 → IsWords (replicate n w)
replicate-IsWords zero w h = tt
replicate-IsWords (suc n) w h = (h, replicate-IsWords n w h)

abbrev pub answer : Answer
answer = record { yp = replicate 8 5 ∷ []; h_prime = [] }

abbrev pub opening : Opening
opening = record {
  ke = [];
  x_offset = masked;
  aux = words;
  msgs_e = words;
  com_hidden = replicate 32 7;
  r_j = replicate 32 8;
}

pub opening-IsSent : IsSent k answer opening
unfolding words masked
opening-IsSent = record {
  rows = refl;
  row_words = (refl, replicate-IsWords 8 5 (omega arith), tt);
  seeds = refl;
  seed_bytes = tt;
  witness = length-replicate {A = ℕ} input_len 3;
  aux_len = length-replicate {A = ℕ} y_size 77;
  aux_words = replicate-IsWords y_size 77 (omega arith);
  msgs_len = length-replicate {A = ℕ} y_size 77;
  msgs_words = replicate-IsWords y_size 77 (omega arith);
  com_len = refl;
  r_len = refl;
}

-- What the verifier reads of it.
abbrev pub a : Answer
a = (received 0 (answer, opening)).0

abbrev pub z : Opening
z = (received 0 (answer, opening)).1

replay_of : Option (List Masked × Replay) → List Masked × Replay
replay_of none = ([], record { s_slots = []; gate_count = 0 })
replay_of (some ended) = ended

answered :
    (o : Option (List Masked × Replay))
    → Ends (λ rp. rp.gate_count) y_size 0 o
    → o ≡ some (replay_of o)
unfolding replay_of
answered none h = absurd h
answered (some ended) h = refl

end : List Masked × Replay
end = replay_of (replay_circuit toy 64 1024 32 1 [] m_hat pk_seed 0 z)

ran : replay_circuit toy 64 1024 32 1 [] m_hat pk_seed 0 z ≡ some end
unfolding end
ran = answered _ (replay_circuit-gates toy 1 [] m_hat pk_seed false a 0 z [])

-- The output that the replay has.
output_word : List ℕ → ℕ → ℕ
output_word zh w = xor_from (get_or zh w 0) 1 (λ q. get_or (get_or answer.yp q []) w 0)

abbrev output_of : List ℕ → List ℕ
output_of zh =
    output_word zh 0
    ∷ output_word zh 1
    ∷ output_word zh 2
    ∷ output_word zh 3
    ∷ output_word zh 4
    ∷ output_word zh 5
    ∷ output_word zh 6
    ∷ output_word zh 7
    ∷ []

output_of-equal : (zh : List ℕ) → output_equal 1 8 zh answer.yp (output_of zh) ≡ true
unfolding output_equal output_word
output_of-equal zh = ground arith

masked_output : List ℕ
masked_output = map (λ x. x.h) end.0

pub pubout : List ℕ
pubout = output_of masked_output

-- What verify leaves, and what the round comes to.
left : Bool × (Answer × List ℕ)
left = verdict_of toy 64 1024 32 1 false a 0 z end

checked_of : Bool × (Answer × List ℕ) → Checked
checked_of (error, (a', zh)) = record {
  error = error;
  output = output_equal 1 8 zh a'.yp pubout;
  row = record {
    h_j =
        th_into toy [] (codes "KKWhj")
          (concat (tabulate 1 (party_commitment toy 64 1024 32 k [] 0 z))) 32;
    h_prime = a'.h_prime;
    h_out = hash_outputs toy 64 1024 32 k [] a'.yp;
  };
}

pub checked : Checked
checked = checked_of left

verified : verify toy 64 1024 32 1 [] m_hat pk_seed false a 0 z (replicate 8 0) ≡ some left
unfolding verify verify_granted tapes_granted left
verified = rw ran refl

pub round_ran : check_round toy 64 1024 32 k [] m_hat pk_seed pubout 0 (a, z) ≡ some checked
unfolding check_round checked checked_of
round_ran = ap (λ o. elim o [ none ↦ none | some r ↦ some (checked_of r) ]) verified

pub round_passes : (checked.error ≡ false) × (checked.output ≡ true)
unfolding checked checked_of left verdict_of slots_match pubout masked_output
round_passes = (refl, output_of-equal (map (λ x. x.h) end.0))
