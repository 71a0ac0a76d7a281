-- ===== src/Tests/Prover.antt =====
-- A proof file that is written on the concrete platform: one instance, which is not opened.
use hash_blind_signatures.Common.{
  ◌&&◌, ap, ◌∙◌, ℕ, ◌≡◌, refl, arith, true, some, none, Option, [], ◌∷◌, List, Bytes, get_or, map,
  replicate, if◌then◌else◌,
}
use hash_blind_signatures.Random.{randombytes_fill, fill_loop}
use hash_blind_signatures.Circuit.Shares.{xor_from, y_size}
use hash_blind_signatures.Circuit.Prove.{Transcript}
use hash_blind_signatures.Circuit.Engine.{Ends}
use hash_blind_signatures.Circuit.Views.Evaluate.{Answer}
use hash_blind_signatures.Circuit.Views.Evaluate.Laws.{building_views-gates}
use hash_blind_signatures.Kkw.Seeds.{
  expand_tape, expand_xshare, expand_seed_star, preproc_commit_instance,
}
use hash_blind_signatures.Kkw.Challenge.{
  kkw_fs_seed, low_bits_zero, kkw_fs_expand, shuffle_loop, party_loop,
}
use hash_blind_signatures.Kkw.Proof.{Params, write_proof}
use hash_blind_signatures.Kkw.Verifier.{
  Machine, round_requests, all_granted, output_equal, hash_outputs, h_star_of,
}
use hash_blind_signatures.Kkw.Prover.{
  Proved, written, failed, unfinished, Instance, all_equal, table_requests, thread_requests,
  scratch_requests, masked_input, run_instance, first_pass, first_passes, second_passes, grind_loop,
  answer_challenge, commit_to, prove_with, kkw_prove,
}
use hash_blind_signatures.Kkw.Prover.Laws.{IsAnswered, kkw_prove-IsAnswered}
use hash_blind_signatures.Tests.{toy, toy-IsDocumented}

abbrev k : Params
k = record { parties = 4; instances = 1; rounds = 0; grind_w = 0 }

abbrev machine : Machine
machine = record { threads = 1; pointer = 8; sizeof_a = 160; sizeof_z = 200 }

input : Bytes
input = replicate 1599 21

abbrev m_hat : Bytes
m_hat = replicate 32 9

abbrev pk_seed : Bytes
pk_seed = replicate 16 4

answered :
    (o : Option ((Answer × List ℕ) × Transcript))
    → Ends (λ tr. tr.gate_count) y_size 0 o
    → (r : (Answer × List ℕ) × Transcript) × (o ≡ some r)
answered none h = absurd h
answered (some r) h = (r, refl)

-- The circuit on the instance.
viewed :
    (r : (Answer × List ℕ) × Transcript) × (run_instance toy 64 1024 32 k [] input m_hat pk_seed
        (replicate 32 0)
        (replicate 32 1)
      ≡ some r)
unfolding run_instance
viewed = answered _ (
    building_views-gates toy 4 [] m_hat pk_seed
      (masked_input toy 64 1024 32 k [] input
        (map (expand_xshare toy) (expand_seed_star toy 4 (replicate 32 0))))
      (map (expand_xshare toy) (expand_seed_star toy 4 (replicate 32 0)))
      (map (expand_tape toy) (expand_seed_star toy 4 (replicate 32 0))) (replicate y_size 0)
      (some (replicate 4 (replicate y_size 0))) (replicate 32 1))

-- The output that the circuit has on this input.
output_word : List ℕ → List (List ℕ) → ℕ → ℕ
output_word zh yp w = xor_from (get_or zh w 0) 4 (λ q. get_or (get_or yp q []) w 0)

abbrev output_of : List ℕ → List (List ℕ) → List ℕ
output_of zh yp =
    output_word zh yp 0
    ∷ output_word zh yp 1
    ∷ output_word zh yp 2
    ∷ output_word zh yp 3
    ∷ output_word zh yp 4
    ∷ output_word zh yp 5
    ∷ output_word zh yp 6
    ∷ output_word zh yp 7
    ∷ []

output_of-equal :
    (zh : List ℕ) (yp : List (List ℕ)) → output_equal 4 8 zh yp (output_of zh yp) ≡ true
unfolding output_equal output_word
output_of-equal zh yp = ground arith

pubout : List ℕ
pubout = output_of viewed.0.0.1 viewed.0.0.0.yp

instance_of : (Answer × List ℕ) × Transcript → Instance
instance_of ((a, zh), tr) = record {
  row = record {
    h_j =
        preproc_commit_instance toy 4 [] [] (expand_seed_star toy 4 (replicate 32 0)) (some tr.aux);
    h_prime = a.h_prime;
    h_out = hash_outputs toy 64 1024 32 k [] a.yp;
  };
  equal = output_equal 4 8 zh a.yp pubout;
}

abbrev seen : Instance
seen = instance_of viewed.0

passes :
    first_passes toy 64 1024 32 k [] input m_hat pk_seed pubout
      (replicate 32 0 ∷ [])
      (replicate 32 1 ∷ [])
    ≡ some (seen ∷ [])
unfolding first_passes first_pass instance_of
passes =
    ap
      (λ o.
        let one : Option Instance = elim o [ none ↦ none | some r ↦ some (instance_of r) ] in
        elim one [ none ↦ none | some i ↦ some (i ∷ []) ])
      viewed.1

equal : all_equal (seen ∷ []) ≡ true
unfolding all_equal instance_of pubout
equal = ap (λ b. b && true) (output_of-equal viewed.0.0.1 viewed.0.0.0.yp)

same : List ℕ → List ℕ
same xs = xs

file : Bytes
file =
    write_proof k
      (record {
        nonce = replicate 32 2;
        h_star = h_star_of toy 64 1024 32 k [] (seen.row ∷ []);
        ctr = 0;
      })
      [] [] (λ j. (get_or (replicate 32 0 ∷ []) j [], get_or (seen.row.h_prime ∷ []) j [])) []

committed :
    commit_to toy 64 1024 32 k [] input m_hat pk_seed machine pubout same 1
      (replicate 32 0 ∷ [])
      (replicate 32 1 ∷ [])
      (seen ∷ [])
      (replicate 32 2)
    ≡ written file
unfolding commit_to grind_loop kkw_fs_seed low_bits_zero kkw_fs_expand shuffle_loop party_loop
    answer_challenge second_passes all_granted round_requests same file
committed = refl

wrote : (kkw_prove toy 64 1024 32 k [] input m_hat pk_seed machine pubout same 1 0).1 ≡ written file
unfolding kkw_prove all_granted table_requests thread_requests scratch_requests randombytes_fill
    fill_loop prove_with
wrote =
    ap
      (λ o.
        let ended : ℕ × Proved = elim o [
          | none ↦ (2, unfinished)
          | some instances ↦
              if all_equal instances
              then (
                3,
                commit_to toy 64 1024 32 k [] input m_hat pk_seed machine pubout same 1
                    (replicate 32 0 ∷ []) (replicate 32 1 ∷ []) instances (replicate 32 2),
              )
              else (2, failed)
        ] in
        ended.1)
      passes
    ∙ ap
        (λ b.
          let ended : ℕ × Proved =
            if b
            then (
              3,
              commit_to toy 64 1024 32 k [] input m_hat pk_seed machine pubout same 1
                  (replicate 32 0 ∷ []) (replicate 32 1 ∷ []) (seen ∷ []) (replicate 32 2),
            )
            else (2, failed) in
          ended.1)
        equal
    ∙ committed

kkw_prove-IsAnswered_example :
    IsAnswered toy toy-IsDocumented 64 1024 32 k
      (omega arith)
      []
      input
      m_hat
      pk_seed
      machine
      pubout
      same
      1
      file
kkw_prove-IsAnswered_example =
    kkw_prove-IsAnswered toy toy-IsDocumented 64 1024 32 k (omega arith) [] input m_hat pk_seed
      machine pubout same 1 0 file wrote
