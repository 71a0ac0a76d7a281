-- ===== src/Kkw/Verifier.antt =====
-- kkw/src/kkw_verify.c, and `compute_aux_from_seeds` of kkw/src/shared.c. The loops over the
-- instances and the rounds run in parallel in C, on entries of their own: here they run in order.
-- Each failure returns -1: `some false`. `none` is the end of the fuel of the challenge, or an
-- output that the circuit leaves unset.
pub mod Laws
pub mod Rounds
pub mod Rows
use hash_blind_signatures.Common.{
  ℕ, zero, suc, ◌+◌, ◌-◌, ◌*◌, Bool, true, false, not, ◌&&◌, Option, none, some, [], ◌∷◌, ◌++◌,
  List, Bytes, length, get_or, set, map, concat, tabulate, replicate, codes, memcmp_eq, ◌==◌,
  if◌then◌else◌, ltb,
}
use hash_blind_signatures.Platform.{Platform}
use hash_blind_signatures.Hash.{th_into}
use hash_blind_signatures.Xmss.Params.{pk_seed_bytes}
use hash_blind_signatures.Circuit.Shares.{xor_from, y_size}
use hash_blind_signatures.Circuit.Views.Evaluate.{Answer, Opening, building_views, verify}
use hash_blind_signatures.Kkw.Seeds.{
  expand_tape, expand_xshare, expand_seed_star, preproc_com_party, preproc_commit_instance,
  word_bytes, tape_size, input_len,
}
use hash_blind_signatures.Kkw.Challenge.{kkw_fs_prefix, kkw_fs_seed, kkw_fs_expand}
use hash_blind_signatures.Kkw.Proof.{Params, Head, read_head, read_closed, read_rounds}

-- The three hashes of an instance: entries of `h_j_all`, `h_prime_all` and `h_out_all`.
pub record Row : Type 0 where
  pub h_j : Bytes
  pub h_prime : Bytes
  pub h_out : Bytes

-- What a round of the online section comes to: whether the circuit check failed, whether the
-- output is the public one, and the row of its instance.
pub record Checked : Type 0 where
  pub error : Bool
  pub output : Bool
  pub row : Row

-- Whether all masked words and shares come to the public output, for the words below `k`.
unfoldable pub output_equal : ℕ → ℕ → List ℕ → List (List ℕ) → List ℕ → Bool
output_equal n zero zh yp pubout = true
output_equal n (suc k) zh yp pubout =
    output_equal n k zh yp pubout
    && xor_from (get_or zh k 0) n (λ q. get_or (get_or yp q []) k 0) == get_or pubout k 0

-- No round has an error, and each has the public output.
unfoldable pub rounds_pass : List Checked → Bool
rounds_pass [] = true
rounds_pass (c ∷ cs) = not c.error && (c.output && rounds_pass cs)

-- The rows of the opened instances go to their indices.
unfoldable pub place_rows : List ℕ → List Checked → List Row → List Row
place_rows [] cs rows = rows
place_rows (j ∷ c_out) [] rows = rows
place_rows (j ∷ c_out) (c ∷ cs) rows = place_rows c_out cs (set rows j c.row)

-- `omp_get_max_threads()`, and the sizes of a pointer, of `a` and of `z`.
pub record Machine : Type 0 where
  pub threads : ℕ
  pub pointer : ℕ
  pub sizeof_a : ℕ
  pub sizeof_z : ℕ

-- The requests for one round, and for `rounds` of them.
unfoldable pub round_requests : Machine → ℕ → List ℕ
round_requests machine zero = []
round_requests machine (suc rounds) =
    machine.sizeof_a
    ∷ machine.sizeof_z
    ∷ y_size * 4
    ∷ input_len
    ∷ y_size * 4
    ∷ round_requests machine rounds

-- The memory that kkw_verify asks for itself; a `calloc` asks for the product of its arguments.
unfoldable pub requests : Params → Machine → List ℕ
requests k machine =
    4 * k.instances * 32
    ∷ machine.threads * machine.pointer
    ∷ (replicate machine.threads (y_size * 4)
        ++ (round_requests machine k.rounds ++ k.rounds * 8 * 4 ∷ []))

-- The platform, the sizes of blake3.h, the parameters of the proof, and what memory that is not
-- set holds.
module _ (p : Platform) (block_max chunk_max out_max : ℕ) (k : Params) (fresh : Bytes) where
  -- `KKW_TH(KKW_DOM_HOUT, yp, ...)`
  abbrev pub hash_outputs : List (List ℕ) → Bytes
  hash_outputs yp = th_into p fresh (codes "KKWhout") (concat (map word_bytes yp)) 32

  -- The allocations of compute_aux_from_seeds for the parties below `n`.
  unfoldable pub shares_granted : ℕ → Bool
  shares_granted zero = true
  shares_granted (suc n) = shares_granted n && (p.malloc tape_size && p.malloc input_len)

  -- The corrections and the hash of the outputs, for an all-zero input.
  unfoldable pub compute_aux_from_seeds : List Bytes → Option (List ℕ × Bytes)
  compute_aux_from_seeds seeds =
      let views =
        building_views p block_max chunk_max out_max k.parties fresh (replicate 32 0)
          (replicate pk_seed_bytes 0) (replicate input_len 0) (map (expand_xshare p) seeds)
          (map (expand_tape p) seeds) (replicate y_size 0) none [] in
      if shares_granted k.parties && p.malloc input_len
      then elim views [ none ↦ none | some (out, tr) ↦ some (tr.aux, hash_outputs out.0.yp) ]
      else some (replicate y_size 0, replicate 32 0)

  -- The row of an instance that is not opened.
  unfoldable pub closed_row : Bytes × Bytes → Option Row
  closed_row (seed_star, h_prime) =
      let seeds = expand_seed_star p k.parties seed_star in
      elim (compute_aux_from_seeds seeds) [
        | none ↦ none
        | some (aux, h_out) ↦ some (record {
          h_j = preproc_commit_instance p k.parties fresh fresh seeds (some aux);
          h_prime = h_prime;
          h_out = h_out;
        })
      ]

  unfoldable pub closed_rows : List (ℕ × (Bytes × Bytes)) → List Row → Option (List Row)
  closed_rows [] rows = some rows
  closed_rows ((j, entry) ∷ entries) rows = elim (closed_row entry) [
    | none ↦ none
    | some row ↦ closed_rows entries (set rows j row)
  ]

  -- The commitment of party `q` of a round with the hidden party `e`.
  unfoldable pub party_commitment : ℕ → Opening → ℕ → Bytes
  party_commitment e z q =
      if q == e
      then z.com_hidden
      else preproc_com_party p fresh q (get_or z.ke (if ltb q e then q else q - 1) [])
          (if q == 0 then some z.aux else none)

  -- One round of the online section.
  unfoldable pub check_round : Bytes → Bytes → List ℕ → ℕ → Answer × Opening → Option Checked
  check_round m_hat pk_seed pubout e (a, z) =
      elim (verify p block_max chunk_max out_max k.parties
        (replicate (k.parties - 1) (replicate y_size 0)) m_hat pk_seed false a e z
        (replicate 8 0)) [
          | none ↦ none
          | some (error, (a', zh)) ↦ some (record {
            error = error;
            output = output_equal k.parties 8 zh a'.yp pubout;
            row = record {
              h_j =
                  th_into p fresh (codes "KKWhj")
                    (concat (tabulate k.parties (party_commitment e z))) 32;
              h_prime = a'.h_prime;
              h_out = hash_outputs a'.yp;
            };
          })
        ]

  unfoldable pub check_rounds :
      Bytes → Bytes → List ℕ → List ℕ → List (Answer × Opening) → Option (List Checked)
  check_rounds m_hat pk_seed pubout [] sent = some []
  check_rounds m_hat pk_seed pubout (e ∷ p_out) [] = some []
  check_rounds m_hat pk_seed pubout (e ∷ p_out) (s ∷ sent) =
      elim (check_round m_hat pk_seed pubout e s) [
        | none ↦ none
        | some c ↦ elim (check_rounds m_hat pk_seed pubout p_out sent) [
          | none ↦ none
          | some cs ↦ some (c ∷ cs)
        ]
      ]

  -- The hash over all instances.
  unfoldable pub h_star_of : List Row → Bytes
  h_star_of rows =
      th_into p fresh (codes "KKWhstar")
        (th_into p fresh (codes "KKWhstar1") (concat (map (λ r. r.h_j) rows)) 32
          ++ (th_into p fresh (codes "KKWhstar2") (concat (map (λ r. r.h_prime) rows)) 32
              ++ th_into p fresh (codes "KKWhstar3") (concat (map (λ r. r.h_out) rows)) 32))
        32

  unfoldable pub all_granted : List ℕ → Bool
  all_granted [] = true
  all_granted (size ∷ sizes) = p.malloc size && all_granted sizes

  module _ (machine : Machine) (m_hat pk_seed : Bytes) (pubout : List ℕ) where
    -- The three checks at the end.
    unfoldable pub verdict : Head → List ℕ → List Row → List Checked → Bool
    verdict hd c_out rows checked =
        rounds_pass checked && memcmp_eq 32 (h_star_of (place_rows c_out checked rows)) hd.h_star

    -- The online section, with nothing after it.
    unfoldable pub check_online :
        Head → List ℕ → List ℕ → List Row → Option (List (Answer × Opening) × Bytes) → Option Bool
    check_online hd c_out p_out rows none = some false
    check_online hd c_out p_out rows (some (sent, rest)) =
        let checked = check_rounds m_hat pk_seed pubout p_out sent in
        if length rest == 0
        then elim checked [ none ↦ none | some cs ↦ some (verdict hd c_out rows cs) ]
        else some false

    -- From the instances that are not opened on.
    unfoldable pub check_body : Head → List ℕ × List ℕ → Bytes → Option Bool
    check_body hd (c_out, p_out) body = elim (read_closed c_out k.instances 0 body) [
      | none ↦ some false
      | some (entries, tail) ↦
          elim (closed_rows entries
            (replicate k.instances (record { h_j = fresh; h_prime = fresh; h_out = fresh }))) [
              | none ↦ none
              | some rows ↦ check_online hd c_out p_out rows (read_rounds k p_out tail)
            ]
    ]

    -- From the grinding check on.
    unfoldable pub check_challenge : (List ℕ → List ℕ) → ℕ → Head → Bytes → Option Bool
    check_challenge qsort fuel hd body =
        let h_pre = kkw_fs_prefix p fresh m_hat pubout pk_seed hd.nonce hd.h_star in
        let seed = kkw_fs_seed p k.grind_w fresh h_pre hd.ctr in
        let drawn = kkw_fs_expand p qsort fuel k.instances k.rounds k.parties fresh seed.0 in
        if seed.1
        then elim drawn [
          | none ↦ none
          | some challenge ↦
              if all_granted (requests k machine) then check_body hd challenge body else some false
        ]
        else some false

    unfoldable pub kkw_verify : (List ℕ → List ℕ) → ℕ → Bytes → Option Bool
    kkw_verify qsort fuel proof = elim (read_head k proof) [
      | none ↦ some false
      | some (hd, body) ↦ check_challenge qsort fuel hd body
    ]
