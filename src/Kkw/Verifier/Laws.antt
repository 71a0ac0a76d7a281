-- ===== src/Kkw/Verifier/Laws.antt =====
-- What an accepted proof of kkw/src/kkw_verify.c has passed.
use hash_blind_signatures.Common.{
  both, map, get_or, ℕ, zero, suc, ◌-◌, ◌/◌, ◌%◌, ◌^◌, ◌<◌, ◌≡◌, ◌∙◌, refl, ap, arith, Bool, true,
  false, ◌&&◌, Option, none, some, [], ◌∷◌, List, Bytes, length, replicate, memcmp_eq, ◌==◌, ==_iff,
  Bool-cases, inl, inr, if◌then◌else◌,
}
use mathlib.Core.Path.{subst}
use hash_blind_signatures.Platform.{Platform}
use hash_blind_signatures.Xmss.Params.{pk_seed_bytes}
use hash_blind_signatures.Circuit.Shares.{y_size}
use hash_blind_signatures.Circuit.Prove.{Transcript}
use hash_blind_signatures.Circuit.Engine.{Ends}
use hash_blind_signatures.Circuit.Views.Evaluate.{Answer, Opening, building_views}
use hash_blind_signatures.Circuit.Views.Evaluate.Laws.{building_views-gates}
use hash_blind_signatures.Kkw.Seeds.{expand_tape, expand_xshare, input_len}
use hash_blind_signatures.Kkw.Challenge.{kkw_fs_prefix, kkw_fs_seed, kkw_fs_expand, low_bits_zero}
use hash_blind_signatures.Kkw.Proof.{Params, Head, read_head, read_closed, read_rounds}
use hash_blind_signatures.Kkw.Proof.Parts.{
  IsHead, IsClosed, unopened, read_head-IsHead, read_closed-IsClosed, length-read_rounds,
}
use hash_blind_signatures.Kkw.Verifier.Rows.{
  some_case, put_rows, place_rows-put, AreRecomputed, closed_rows-AreRecomputed,
}
use hash_blind_signatures.Kkw.Verifier.Rounds.{AreReplayed, check_rounds-AreReplayed}
use hash_blind_signatures.Kkw.Verifier.{
  Row, Checked, Machine, requests, check_rounds, h_star_of, all_granted, verdict, check_online,
  check_body, check_challenge, kkw_verify, compute_aux_from_seeds, shares_granted, hash_outputs,
}

-- A test whose other case rejects.
true_case :
    (b : Bool) (x : Option Bool)
    → (if b then x else some false) ≡ some true
    → (b ≡ true) × (x ≡ some true)
true_case true x h = (refl, h)
true_case false x h = absurd cc

nothing_left : (rest : Bytes) → (length rest == 0) ≡ true → rest ≡ []
nothing_left [] h = refl
nothing_left (x ∷ rest) h = absurd (ground (arith, ==_iff (suc (length rest)) 0))

-- Each of the low bits is zero.
low_bits_zero-bits :
    (w : ℕ) (seed : Bytes)
    → low_bits_zero w seed ≡ true
    → (b : ℕ) → b < w
    → get_or seed (31 - b / 8) 0 / 2 ^ (b % 8) % 2 ≡ 0
unfolding low_bits_zero
low_bits_zero-bits zero seed h b small = absurd (omega arith)
low_bits_zero-bits (suc w) seed h b small =
    let (others, last) = both (low_bits_zero w seed) _ h in
    elim (Bool-cases (b == w)) [
      | inl same ↦
          let here : w ≡ b = ground (arith, ==_iff b w) in
          subst (λ v. get_or seed (31 - v / 8) 0 / 2 ^ (v % 8) % 2 ≡ 0) here
            (ground (arith, last, ==_iff (get_or seed (31 - w / 8) 0 / 2 ^ (w % 8) % 2) 0))
      | inr other ↦ low_bits_zero-bits w seed others b (ground (arith, ==_iff b w))
    ]

-- With the sizes of the documented BLAKE3: compute_aux_from_seeds always gives corrections and a
-- hash, for any seeds and whatever the allocator does.
pub compute_aux_from_seeds-returns :
    (p : Platform) (k : Params) (fresh : Bytes) (seeds : List Bytes)
    → (r : List ℕ × Bytes) × (compute_aux_from_seeds p 64 1024 32 k fresh seeds ≡ some r)
unfolding compute_aux_from_seeds
compute_aux_from_seeds-returns p k fresh seeds =
    given (shares_granted p 64 1024 32 k fresh k.parties && p.malloc input_len)
      (building_views p 64 1024 32 k.parties fresh (replicate 32 0) (replicate pk_seed_bytes 0)
        (replicate input_len 0) (map (expand_xshare p) seeds) (map (expand_tape p) seeds)
        (replicate y_size 0) none [])
      (building_views-gates p k.parties fresh (replicate 32 0) (replicate pk_seed_bytes 0)
        (replicate input_len 0) (map (expand_xshare p) seeds) (map (expand_tape p) seeds)
        (replicate y_size 0) none [])
  where
    given :
        (b : Bool) (o : Option ((Answer × List ℕ) × Transcript))
        → Ends (λ tr. tr.gate_count) y_size 0 o
        → (r : List ℕ × Bytes) × ((if b
              then elim o [
                | none ↦ none
                | some (out, tr) ↦ some (tr.aux, hash_outputs p 64 1024 32 k fresh out.0.yp)
              ]
              else some (replicate y_size 0, replicate 32 0))
            ≡ some r)
    given true none h = absurd h
    given true (some (out, tr)) h = ((tr.aux, hash_outputs p 64 1024 32 k fresh out.0.yp), refl)
    given false o h = ((replicate y_size 0, replicate 32 0), refl)

module _ (p : Platform) (k : Params) (fresh : Bytes) (machine : Machine) (m_hat pk_seed : Bytes)
    (pubout : List ℕ) (qsort : List ℕ → List ℕ) (fuel : ℕ) (proof : Bytes) where
  -- The candidate of a head.
  abbrev pub seed_for : Head → Bytes
  seed_for hd =
      (kkw_fs_seed p k.grind_w fresh (kkw_fs_prefix p fresh m_hat pubout pk_seed hd.nonce hd.h_star)
        hd.ctr).0

  abbrev pub unset_rows : List Row
  unset_rows = replicate k.instances (record { h_j = fresh; h_prime = fresh; h_out = fresh })

  -- What a proof that is accepted is made of, and what it has passed.
  pub record IsAccepted : Type 0 where
    pub hd : Head
    pub body : Bytes
    pub c_out : List ℕ
    pub p_out : List ℕ
    pub entries : List (ℕ × (Bytes × Bytes))
    pub tail : Bytes
    pub sent : List (Answer × Opening)
    pub recomputed : List Row
    pub opened_rows : List Row
    -- the file begins with the magic, the parameters that are expected, and the fields of `hd`
    pub head : IsHead k proof hd body
    -- the candidate of the grinding counter has its low bits zero
    pub ground_bits :
        (b : ℕ) → b < k.grind_w → get_or (seed_for hd) (31 - b / 8) 0 / 2 ^ (b % 8) % 2 ≡ 0
    -- the challenge is drawn from the candidate
    pub drawn :
        kkw_fs_expand p qsort fuel k.instances k.rounds k.parties fresh (seed_for hd)
        ≡ some (c_out, p_out)
    pub memory : all_granted p 64 1024 32 k fresh (requests k machine) ≡ true
    -- then come a seed and a hash for each instance that is not opened
    pub closed : IsClosed (unopened c_out k.instances 0) body entries tail
    -- from which its row is recomputed
    pub closed_rows : AreRecomputed p k fresh entries recomputed
    -- then the opened instances, one for each hidden party, with nothing after them
    pub rounds_read : read_rounds k p_out tail ≡ some (sent, [])
    -- each of which is replayed without an error, to the public output
    pub replayed : AreReplayed p k fresh m_hat pk_seed pubout p_out sent opened_rows
    -- and the rows of all instances, in their places, hash to h_star
    pub hashed :
        memcmp_eq 32
          (h_star_of p 64 1024 32 k fresh
            (put_rows c_out opened_rows (put_rows (map (λ x. x.0) entries) recomputed unset_rows)))
          hd.h_star
        ≡ true

  online-inv :
      (hd : Head) (c_out p_out : List ℕ) (rows : List Row)
      (got : Option (List (Answer × Opening) × Bytes))
      → check_online p 64 1024 32 k fresh machine m_hat pk_seed pubout hd c_out p_out rows got
        ≡ some true
      → (sent : List (Answer × Opening)) × (got ≡ some (sent, []))
        × ((cs : List Checked) × (check_rounds p 64 1024 32 k fresh m_hat pk_seed pubout p_out sent
              ≡ some cs)
            × (verdict p 64 1024 32 k fresh machine m_hat pk_seed pubout hd c_out rows cs ≡ true))
  unfolding check_online
  online-inv hd c_out p_out rows none h = absurd cc
  online-inv hd c_out p_out rows (some (sent, rest)) h =
      let (ended, h1) = true_case _ _ h in
      let (cs, ran, ok) =
        some_case (check_rounds p 64 1024 32 k fresh m_hat pk_seed pubout p_out sent) none _ true h1
          (cc) in
      (sent, ap (λ t. some (sent, t)) (nothing_left rest ended), (cs, ran, cc))

  -- For any parameters and any qsort, with the sizes of the documented BLAKE3. A proof that
  -- kkw_verify accepts is: the magic, the words of the expected parameters, and the nonce, h_star
  -- and counter of a head; then a seed and a hash for each instance that is not opened; then the
  -- opened instances, one for each hidden party, and nothing more. The candidate of the head has
  -- each of its low bits zero, and the challenge is drawn from it; all memory is granted. The row
  -- of each instance that is not opened is recomputed from its seed. Each opened instance is
  -- replayed by the circuit with the output shares of its answer in every slot, its masked output
  -- and shares come to the public output in all eight words, and its row is made of the replay's
  -- messages and of what was revealed. The rows, in their places, hash to h_star.
  pub kkw_verify-IsAccepted :
      kkw_verify p 64 1024 32 k fresh machine m_hat pk_seed pubout qsort fuel proof ≡ some true
      → IsAccepted
  unfolding kkw_verify check_challenge check_body verdict kkw_fs_seed
  kkw_verify-IsAccepted h =
      let ((hd, body), head_read, h1) = some_case (read_head k proof) (some false) _ true h (cc) in
      let (bits, h2) = true_case _ _ h1 in
      let ((c_out, p_out), drawn, h3) = some_case _ none _ true h2 (cc) in
      let (memory, h4) = true_case _ _ h3 in
      let ((entries, tail), closed_read, h5) =
        some_case (read_closed c_out k.instances 0 body) (some false) _ true h4 (cc) in
      let (rows, closed_hashed, h6) = some_case _ none _ true h5 (cc) in
      let (sent, rounds_read, (checked, replayed, ok)) =
        online-inv hd c_out p_out rows (read_rounds k p_out tail) h6 in
      let (pass, hashed) = both _ _ ok in
      let (recomputed, are, placed) =
        closed_rows-AreRecomputed p k fresh entries unset_rows rows closed_hashed in
      record {
        hd = hd;
        body = body;
        c_out = c_out;
        p_out = p_out;
        entries = entries;
        tail = tail;
        sent = sent;
        recomputed = recomputed;
        opened_rows = map (λ c. c.row) checked;
        head = read_head-IsHead k proof hd body head_read;
        ground_bits = low_bits_zero-bits k.grind_w _ bits;
        drawn = drawn;
        memory = memory;
        closed = read_closed-IsClosed c_out k.instances 0 body entries tail closed_read;
        closed_rows = are;
        rounds_read = rounds_read;
        replayed =
            check_rounds-AreReplayed p k fresh m_hat pk_seed pubout p_out sent checked replayed
              (length-read_rounds k p_out tail sent [] rounds_read) pass;
        hashed =
            subst (λ rs. memcmp_eq 32 (h_star_of p 64 1024 32 k fresh rs) hd.h_star ≡ true)
              (place_rows-put c_out checked rows
                ∙ ap (put_rows c_out (map (λ c. c.row) checked)) placed)
              hashed;
      }
