-- ===== src/Kkw/Prover/Laws.antt =====
-- The verifier of kkw/src/kkw_verify.c finds in a file of kkw/src/kkw_prove.c the challenge that
-- the prover has answered.
use hash_blind_signatures.Common.{
  ℕ, zero, suc, ◌+◌, ◌*◌, ◌^◌, ◌<◌, ◌≡◌, ◌∙◌, refl, sym, ap, arith, Bool, true, false, Option, none,
  some, List, Bytes, length, map, blocks, u32, if◌then◌else◌,
}
use mathlib.Core.Path.{subst}
use hash_blind_signatures.Platform.{Platform, IsDocumented}
use hash_blind_signatures.Hash.Laws.{length-th_into}
use hash_blind_signatures.Random.{randombytes_fill}
use hash_blind_signatures.Random.Laws.{randombytes_fill-fills}
use hash_blind_signatures.Kkw.Seeds.{seed_size}
use hash_blind_signatures.Kkw.Challenge.{kkw_fs_prefix, kkw_fs_seed, kkw_fs_expand}
use hash_blind_signatures.Kkw.Proof.{Params, Head, read_head, write_body, write_proof}
use hash_blind_signatures.Kkw.Proof.Laws.{IsParams, read_head-Reads}
use hash_blind_signatures.Kkw.Verifier.{Row, Machine, all_granted, h_star_of}
use hash_blind_signatures.Kkw.Prover.{
  Proved, written, failed, unfinished, Instance, all_equal, table_requests, scratch_requests,
  first_passes, grind_loop, answer_challenge, commit_to, prove_with, kkw_prove,
}

-- A guarded end that wrote a file.
ended_written :
    {A : Type 0} (b : Bool) (o : Option A) (f : A → Bytes) (file : Bytes)
    → (if b then elim o [ none ↦ unfinished | some x ↦ written (f x) ] else failed) ≡ written file
    → (x : A) × (f x ≡ file)
ended_written true none f file h = absurd cc
ended_written true (some x) f file h = (x, cc)
ended_written false o f file h = absurd cc

module _ (p : Platform) (d : IsDocumented p) (block_max chunk_max out_max : ℕ) (k : Params)
    (params : IsParams k) (fresh input m_hat pk_seed : Bytes) (machine : Machine) (pubout : List ℕ)
    (qsort : List ℕ → List ℕ) (fuel : ℕ) where
  abbrev prefix_of : Head → Bytes
  prefix_of hd = kkw_fs_prefix p fresh m_hat pubout pk_seed hd.nonce hd.h_star

  -- The head of a file, with the grinding done and the challenge that the rest of it answers.
  pub record IsAnswered (file : Bytes) : Type 0 where
    pub hd : Head
    pub body : Bytes
    pub c_out : List ℕ
    pub p_out : List ℕ
    pub head_read : read_head k file ≡ some (hd, body)
    pub ground_bits : (kkw_fs_seed p k.grind_w fresh (prefix_of hd) hd.ctr).1 ≡ true
    pub drawn :
        kkw_fs_expand p qsort fuel k.instances k.rounds k.parties fresh
          (kkw_fs_seed p k.grind_w fresh (prefix_of hd) hd.ctr).0
        ≡ some (c_out, p_out)

  grind_loop-found :
      (h_pre : Bytes) (left ctr c : ℕ)
      → ctr < 2 ^ 32
      → grind_loop p block_max chunk_max out_max k fresh input m_hat pk_seed h_pre left ctr ≡ some c
      → (c < 2 ^ 32) × ((kkw_fs_seed p k.grind_w fresh h_pre c).1 ≡ true)
  unfolding grind_loop
  grind_loop-found h_pre zero ctr c small h = absurd cc
  grind_loop-found h_pre (suc left) ctr c small h =
      whichever (kkw_fs_seed p k.grind_w fresh h_pre ctr).1 refl h
        (λ e. grind_loop-found h_pre left (u32 (ctr + 1)) c (omega arith) e)
    where
      later : Option ℕ
      later =
          grind_loop p block_max chunk_max out_max k fresh input m_hat pk_seed h_pre left
            (u32 (ctr + 1))

      whichever :
          (b : Bool)
          → (kkw_fs_seed p k.grind_w fresh h_pre ctr).1 ≡ b
          → (if b then some ctr else later) ≡ some c
          → (later ≡ some c → (c < 2 ^ 32) × ((kkw_fs_seed p k.grind_w fresh h_pre c).1 ≡ true))
          → (c < 2 ^ 32) × ((kkw_fs_seed p k.grind_w fresh h_pre c).1 ≡ true)
      whichever true e f next =
          let same : ctr ≡ c = cc in
          subst (λ x. (x < 2 ^ 32) × ((kkw_fs_seed p k.grind_w fresh h_pre x).1 ≡ true)) same
            (small, e)
      whichever false e f next = next f

  answer-IsAnswered :
      (hd : Head) (seeds rs : List Bytes) (instances : List Instance) (file : Bytes)
      → length hd.nonce ≡ 32
      → length hd.h_star ≡ 32
      → hd.ctr < 2 ^ 32
      → (kkw_fs_seed p k.grind_w fresh (prefix_of hd) hd.ctr).1 ≡ true
      → (got : Option (List ℕ × List ℕ))
      → kkw_fs_expand p qsort fuel k.instances k.rounds k.parties fresh
          (kkw_fs_seed p k.grind_w fresh (prefix_of hd) hd.ctr).0
        ≡ got
      → answer_challenge p block_max chunk_max out_max k fresh input m_hat pk_seed machine pubout
          qsort fuel hd seeds rs instances got
        ≡ written file
      → IsAnswered file
  unfolding answer_challenge write_proof
  answer-IsAnswered hd seeds rs instances file nonce_len star_len ctr_fits bits none e h = absurd cc
  answer-IsAnswered hd seeds rs instances file nonce_len star_len ctr_fits bits
        (some (c_out, p_out)) e h =
      let (sent, wrote) = ended_written _ _ _ file h in
      record {
        hd = hd;
        body = write_body k c_out p_out _ sent;
        c_out = c_out;
        p_out = p_out;
        head_read =
            ap (read_head k) (sym wrote)
            ∙ (read_head-Reads k hd params nonce_len star_len ctr_fits).read
                (write_body k c_out p_out _ sent);
        ground_bits = bits;
        drawn = e;
      }

  length-h_star_of :
      (rows : List Row) → length (h_star_of p block_max chunk_max out_max k fresh rows) ≡ 32
  unfolding h_star_of
  length-h_star_of rows = length-th_into p d fresh _ _ 32 (omega arith) (omega arith) (omega arith)

  commit_to-IsAnswered :
      (seeds rs : List Bytes) (instances : List Instance) (nonce file : Bytes)
      → length nonce ≡ 32
      → commit_to p block_max chunk_max out_max k fresh input m_hat pk_seed machine pubout qsort
          fuel seeds rs instances nonce
        ≡ written file
      → IsAnswered file
  unfolding commit_to
  commit_to-IsAnswered seeds rs instances nonce file nonce_len h =
      ground_to (grind_loop p block_max chunk_max out_max k fresh input m_hat pk_seed h_pre fuel 0)
        refl h
    where
      star : Bytes
      star = h_star_of p block_max chunk_max out_max k fresh (map (λ i. i.row) instances)

      h_pre : Bytes
      h_pre = kkw_fs_prefix p fresh m_hat pubout pk_seed nonce star

      star_len : length star ≡ 32
      star_len = length-h_star_of (map (λ i. i.row) instances)

      ground_to :
          (o : Option ℕ)
          → grind_loop p block_max chunk_max out_max k fresh input m_hat pk_seed h_pre fuel 0 ≡ o
          → elim o [
            | none ↦ unfinished
            | some ctr ↦
                answer_challenge p block_max chunk_max out_max k fresh input m_hat pk_seed machine
                  pubout qsort fuel
                  (record { nonce = nonce; h_star = star; ctr = ctr })
                  seeds
                  rs
                  instances
                  (kkw_fs_expand p qsort fuel k.instances k.rounds k.parties fresh
                    (kkw_fs_seed p k.grind_w fresh h_pre ctr).0)
          ]
            ≡ written file
          → IsAnswered file
      ground_to none e f = absurd cc
      ground_to (some ctr) e f =
          let ok = grind_loop-found h_pre fuel 0 ctr (omega arith) e in
          answer-IsAnswered (record { nonce = nonce; h_star = star; ctr = ctr }) seeds rs instances
            file nonce_len star_len ok.0 ok.1 _ refl f

  prove_with-IsAnswered :
      (calls : ℕ) (seeds rs : List Bytes) (file : Bytes)
      → (prove_with p block_max chunk_max out_max k fresh input m_hat pk_seed machine pubout qsort
          fuel calls seeds rs).1
        ≡ written file
      → IsAnswered file
  unfolding prove_with
  prove_with-IsAnswered calls seeds rs file h =
      passed
        (first_passes p block_max chunk_max out_max k fresh input m_hat pk_seed pubout seeds rs)
        (randombytes_fill p calls 32) refl h
    where
      commit : List Instance → Bytes → Proved
      commit =
          commit_to p block_max chunk_max out_max k fresh input m_hat pk_seed machine pubout qsort
            fuel seeds rs

      checked :
          (instances : List Instance) (b : Bool) (calls' : ℕ) (o : Option Bytes)
          → randombytes_fill p calls 32 ≡ (calls', o)
          → (let r : ℕ × Proved =
                if b
                then elim o [
                  | none ↦ (calls', failed)
                  | some drawn ↦ (calls', commit instances drawn)
                ]
                else (calls, failed) in
              r.1)
            ≡ written file
          → IsAnswered file
      checked instances true calls' none e f = absurd cc
      checked instances true calls' (some drawn) e f =
          commit_to-IsAnswered seeds rs instances drawn file
            (randombytes_fill-fills p d calls 32 calls' drawn e).0 f
      checked instances false calls' o e f = absurd cc

      passed :
          (o : Option (List Instance)) (r : ℕ × Option Bytes)
          → randombytes_fill p calls 32 ≡ r
          → (let ended : ℕ × Proved = elim o [
            | none ↦ (calls, unfinished)
            | some instances ↦
                if all_equal instances
                then elim r.1 [ none ↦ (r.0, failed) | some drawn ↦ (r.0, commit instances drawn) ]
                else (calls, failed)
          ] in
              ended.1)
            ≡ written file
          → IsAnswered file
      passed none r e f = absurd cc
      passed (some instances) (calls', o) e f = checked instances (all_equal instances) calls' o e f

  -- On a documented platform, with parameters of 32 bits: in a file that kkw_prove writes, the
  -- verifier's read of the head succeeds, the grinding candidate of that head has the low bits
  -- zero, and the challenge is drawn from it.
  pub kkw_prove-IsAnswered :
      (calls : ℕ) (file : Bytes)
      → (kkw_prove p block_max chunk_max out_max k fresh input m_hat pk_seed machine pubout qsort
          fuel calls).1
        ≡ written file
      → IsAnswered file
  unfolding kkw_prove
  kkw_prove-IsAnswered calls file h =
      drawn_seeds (all_granted p block_max chunk_max out_max k fresh (table_requests k))
        (randombytes_fill p calls (k.instances * seed_size))
        (randombytes_fill p (randombytes_fill p calls (k.instances * seed_size)).0
          (k.instances * 32))
        (all_granted p block_max chunk_max out_max k fresh (scratch_requests k machine)) h
    where
      goes_on : ℕ → List Bytes → List Bytes → ℕ × Proved
      goes_on =
          prove_with p block_max chunk_max out_max k fresh input m_hat pk_seed machine pubout qsort
            fuel

      drawn_seeds :
          (tables : Bool) (first second : ℕ × Option Bytes) (scratch : Bool)
          → (let ended : ℕ × Proved =
                if tables
                then elim first.1 [
                  | none ↦ (first.0, failed)
                  | some stars ↦ elim second.1 [
                    | none ↦ (second.0, failed)
                    | some rs ↦
                        if scratch
                        then goes_on second.0
                            (blocks seed_size k.instances stars)
                            (blocks 32 k.instances rs)
                        else (second.0, failed)
                  ]
                ]
                else (calls, failed) in
              ended.1)
            ≡ written file
          → IsAnswered file
      drawn_seeds true (c1, none) second scratch f = absurd cc
      drawn_seeds true (c1, some stars) (c2, none) scratch f = absurd cc
      drawn_seeds true (c1, some stars) (c2, some rs) true f = prove_with-IsAnswered c2 _ _ file f
      drawn_seeds true (c1, some stars) (c2, some rs) false f = absurd cc
      drawn_seeds false first second scratch f = absurd cc
