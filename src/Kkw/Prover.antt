-- ===== src/Kkw/Prover.antt =====
-- kkw/src/kkw_prove.c. The loops over the instances and the rounds run in parallel in C, on
-- entries of their own: here they run in order. The grinding loop has no bound in C: it takes
-- fuel. Progress reports are left out, and a write to the file never fails here.
pub mod Laws
use hash_blind_signatures.Common.{
  ℕ, zero, suc, ◌+◌, ◌-◌, ◌*◌, bit_xor, Bool, true, false, ◌&&◌, Option, none, some, [], ◌∷◌, ◌++◌,
  List, Bytes, get_or, map, tabulate, replicate, blocks, u32, ◌==◌, if◌then◌else◌,
}
use hash_blind_signatures.Platform.{Platform}
use hash_blind_signatures.Random.{randombytes_fill}
use hash_blind_signatures.Circuit.Shares.{xor_from, y_size}
use hash_blind_signatures.Circuit.Prove.{Transcript}
use hash_blind_signatures.Circuit.Verify.{orig}
use hash_blind_signatures.Circuit.Views.Evaluate.{Answer, Opening, building_views}
use hash_blind_signatures.Kkw.Seeds.{
  expand_tape, expand_xshare, expand_seed_star, preproc_com_party, preproc_commit_instance,
  compute_msgs_e, seed_size, tape_size, input_len,
}
use hash_blind_signatures.Kkw.Challenge.{kkw_fs_prefix, kkw_fs_seed, kkw_fs_expand}
use hash_blind_signatures.Kkw.Proof.{Params, Head, write_proof}
use hash_blind_signatures.Kkw.Verifier.{
  Row, Machine, round_requests, all_granted, output_equal, hash_outputs, h_star_of,
}

-- How kkw_prove ends: with a proof file, with -1, or without an end (the fuel, or an output that
-- the circuit leaves unset).
pub data Proved : Type 0 where
  written : Bytes → Proved
  failed : Proved
  unfinished : Proved

-- What the first pass keeps of an instance, and whether its output is the public one.
pub record Instance : Type 0 where
  pub row : Row
  pub equal : Bool

-- `pass1_error` stays false.
unfoldable pub all_equal : List Instance → Bool
all_equal [] = true
all_equal (i ∷ instances) = i.equal && all_equal instances

-- The requests before the seeds are drawn.
unfoldable pub table_requests : Params → List ℕ
table_requests k =
    k.instances * seed_size
    ∷ k.instances * 32
    ∷ k.instances * 32
    ∷ k.instances * 32
    ∷ k.instances * 32
    ∷ []

-- The scratch memory of one thread, for `threads` of them.
unfoldable pub thread_requests : Params → ℕ → List ℕ
thread_requests k zero = []
thread_requests k (suc threads) =
    k.parties * input_len
    ∷ k.parties * tape_size
    ∷ y_size * 4
    ∷ k.parties * y_size * 4
    ∷ input_len
    ∷ thread_requests k threads

unfoldable pub scratch_requests : Params → Machine → List ℕ
scratch_requests k machine =
    replicate 5 (machine.threads * machine.pointer) ++ thread_requests k machine.threads

module _ (p : Platform) (block_max chunk_max out_max : ℕ) (k : Params) (fresh : Bytes) where
  -- `dbuf`: the witness under the masks of all parties.
  unfoldable pub masked_input : Bytes → List Bytes → Bytes
  masked_input input lam =
      tabulate input_len
        (λ b. xor_from (get_or input b 0) k.parties (λ q. get_or (get_or lam q []) b 0))

  module _ (input m_hat pk_seed : Bytes) where
    -- `expand_instance_into`, and the circuit on what it gives.
    unfoldable pub run_instance : Bytes → Bytes → Option ((Answer × List ℕ) × Transcript)
    run_instance seed_star r =
        let seeds = expand_seed_star p k.parties seed_star in
        let lam = map (expand_xshare p) seeds in
        building_views p block_max chunk_max out_max k.parties fresh m_hat pk_seed
          (masked_input input lam) lam (map (expand_tape p) seeds) (replicate y_size 0)
          (some (replicate k.parties (replicate y_size 0))) r

    -- The first pass over one instance.
    unfoldable pub first_pass : List ℕ → Bytes → Bytes → Option Instance
    first_pass pubout seed_star r = elim (run_instance seed_star r) [
      | none ↦ none
      | some ((a, zh), tr) ↦ some (record {
        row = record {
          h_j =
              preproc_commit_instance p k.parties fresh fresh
                (expand_seed_star p k.parties seed_star) (some tr.aux);
          h_prime = a.h_prime;
          h_out = hash_outputs p block_max chunk_max out_max k fresh a.yp;
        };
        equal = output_equal k.parties 8 zh a.yp pubout;
      })
    ]

    unfoldable pub first_passes : List ℕ → List Bytes → List Bytes → Option (List Instance)
    first_passes pubout [] rs = some []
    first_passes pubout (seed ∷ seeds) [] = some []
    first_passes pubout (seed ∷ seeds) (r ∷ rs) = elim (first_pass pubout seed r) [
      | none ↦ none
      | some i ↦ elim (first_passes pubout seeds rs) [
        | none ↦ none
        | some instances ↦ some (i ∷ instances)
      ]
    ]

    -- What a round reveals of the instance with the seed `seed_star`, all but party `e`.
    unfoldable pub opening_of :
        ℕ → Bytes → Bytes → (Answer × List ℕ) × Transcript → Answer × Opening
    opening_of e seed_star r ((a, zh), tr) =
        let seeds = expand_seed_star p k.parties seed_star in
        (
          a,
          record {
            ke = tabulate (k.parties - 1) (λ q. get_or seeds (orig q e) []);
            x_offset = masked_input input (map (expand_xshare p) seeds);
            aux = tr.aux;
            msgs_e = elim tr.s_all [ none ↦ [] | some rows ↦ compute_msgs_e e rows ];
            com_hidden =
                preproc_com_party p fresh e (get_or seeds e [])
                  (if e == 0 then some tr.aux else none);
            r_j = r;
          },
        )

    -- The second pass, over the opened instances.
    unfoldable pub second_passes :
        List Bytes → List Bytes → List ℕ → List ℕ → Option (List (Answer × Opening))
    second_passes seeds rs [] p_out = some []
    second_passes seeds rs (j ∷ c_out) [] = some []
    second_passes seeds rs (j ∷ c_out) (e ∷ p_out) =
        elim (run_instance (get_or seeds j []) (get_or rs j [])) [
          | none ↦ none
          | some ended ↦ elim (second_passes seeds rs c_out p_out) [
            | none ↦ none
            | some sent ↦ some (opening_of e (get_or seeds j []) (get_or rs j []) ended ∷ sent)
          ]
        ]

    -- `while (!kkw_fs_seed(h_pre, ctr, seed_FS)) ctr++;`
    unfoldable pub grind_loop : Bytes → ℕ → ℕ → Option ℕ
    grind_loop h_pre zero ctr = none
    grind_loop h_pre (suc fuel) ctr =
        let later = grind_loop h_pre fuel (u32 (ctr + 1)) in
        if (kkw_fs_seed p k.grind_w fresh h_pre ctr).1 then some ctr else later

    module _ (machine : Machine) (pubout : List ℕ) (qsort : List ℕ → List ℕ) (fuel : ℕ) where
      -- The file, from the challenge on.
      unfoldable pub answer_challenge :
          Head → List Bytes → List Bytes → List Instance → Option (List ℕ × List ℕ) → Proved
      answer_challenge hd seeds rs instances none = unfinished
      answer_challenge hd seeds rs instances (some (c_out, p_out)) =
          let sent = second_passes seeds rs c_out p_out in
          let h_prime = λ (j : ℕ). get_or (map (λ i. i.row.h_prime) instances) j [] in
          if all_granted p block_max chunk_max out_max k fresh (round_requests machine k.rounds)
          then elim sent [
            | none ↦ unfinished
            | some opened ↦
                written (write_proof k hd c_out p_out (λ j. (get_or seeds j [], h_prime j)) opened)
          ]
          else failed

      -- From the hash of all instances on, with the nonce.
      unfoldable pub commit_to : List Bytes → List Bytes → List Instance → Bytes → Proved
      commit_to seeds rs instances nonce =
          let h_star =
            h_star_of p block_max chunk_max out_max k fresh (map (λ i. i.row) instances) in
          let h_pre = kkw_fs_prefix p fresh m_hat pubout pk_seed nonce h_star in
          elim (grind_loop h_pre fuel 0) [
            | none ↦ unfinished
            | some ctr ↦
                answer_challenge (record { nonce = nonce; h_star = h_star; ctr = ctr }) seeds rs
                  instances
                  (kkw_fs_expand p qsort fuel k.instances k.rounds k.parties fresh
                    (kkw_fs_seed p k.grind_w fresh h_pre ctr).0)
          ]

      -- From the seeds of the instances on.
      unfoldable pub prove_with : ℕ → List Bytes → List Bytes → ℕ × Proved
      prove_with calls seeds rs =
          let (calls', nonce) = randombytes_fill p calls 32 in
          elim (first_passes pubout seeds rs) [
            | none ↦ (calls, unfinished)
            | some instances ↦
                if all_equal instances
                then elim nonce [
                  | none ↦ (calls', failed)
                  | some drawn ↦ (calls', commit_to seeds rs instances drawn)
                ]
                else (calls, failed)
          ]

      unfoldable pub kkw_prove : ℕ → ℕ × Proved
      kkw_prove calls =
          let (calls1, seed_stars) = randombytes_fill p calls (k.instances * seed_size) in
          let (calls2, r_all) = randombytes_fill p calls1 (k.instances * 32) in
          let scratch =
            all_granted p block_max chunk_max out_max k fresh (scratch_requests k machine) in
          if all_granted p block_max chunk_max out_max k fresh (table_requests k)
          then elim seed_stars [
            | none ↦ (calls1, failed)
            | some stars ↦ elim r_all [
              | none ↦ (calls2, failed)
              | some rs ↦
                  if scratch
                  then prove_with calls2 (blocks seed_size k.instances stars)
                      (blocks 32 k.instances rs)
                  else (calls2, failed)
            ]
          ]
          else (calls, failed)
