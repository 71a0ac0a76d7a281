-- ===== src/Circuit/Views/Evaluate/Laws.antt =====
-- What building_views and verify of kkw/src/circuits.c return.
use hash_blind_signatures.Common.{
  both, ℕ, zero, suc, ◌-◌, ◌<◌, ◌≡◌, refl, arith, Bool, true, false, Option, none, some, [], List,
  Bytes, get_or, if◌then◌else◌, ◌⊎◌, ◌==◌, ap, sym, ◌∙◌, map, ==_iff, Bool-cases, inl, inr,
}
use hash_blind_signatures.Platform.{Platform}
use hash_blind_signatures.Circuit.Shares.{Masked, y_size}
use hash_blind_signatures.Circuit.Prove.{Transcript}
use hash_blind_signatures.Circuit.Verify.{Replay, orig}
use hash_blind_signatures.Circuit.Engine.{Ends}
use hash_blind_signatures.Circuit.Views.{view_circuit}
use hash_blind_signatures.Circuit.Views.Gates.{view_circuit-Runs}
use hash_blind_signatures.Circuit.Views.Evaluate.{
  Answer, Opening, output_shares, words_match, slot_matches, slots_match, prover, verifier,
  views_of, building_views, verify_granted, verdict_of, replay_circuit, verify,
}
use hash_blind_signatures.Circuit.Views.Evaluate.Counted.{prover-IsCounted, verifier-IsCounted}
use hash_blind_signatures.Kkw.Seeds.{expand_tape, expand_xshare, recompute_h_prime_verify}

-- How a guarded run with a fallback ended.
ended_by :
    {A B : Type 0} (g : Bool) (o : Option A) (f : A → B) (fallback r : B)
    → (if g then elim o [ none ↦ none | some x ↦ some (f x) ] else some fallback) ≡ some r
    → ((g ≡ true) × ((x : A) × (o ≡ some x) × (f x ≡ r))) ⊎ (fallback ≡ r)
ended_by true none f fallback r h = absurd cc
ended_by true (some x) f fallback r h = inl (refl, (x, refl, cc))
ended_by false o f fallback r h = inr cc

words_match-lem :
    (k : ℕ) (xs ys : List ℕ)
    → words_match k xs ys ≡ true
    → (w : ℕ) → w < k
    → get_or xs w 0 ≡ get_or ys w 0
unfolding words_match
words_match-lem zero xs ys h w small = absurd (omega arith)
words_match-lem (suc k) xs ys h w small = elim (Bool-cases (w == k)) [
  | inl same ↦
      let here : w ≡ k = ground (arith, ==_iff w k) in
      ap (λ t. get_or xs t 0) here
      ∙ ground (arith, ==_iff (get_or xs k 0) (get_or ys k 0), parts.1)
      ∙ sym (ap (λ t. get_or ys t 0) here)
  | inr other ↦ words_match-lem k xs ys parts.0 w (ground (arith, ==_iff w k))
]
  where
    parts : (words_match k xs ys ≡ true) × ((get_or xs k 0 == get_or ys k 0) ≡ true)
    parts = both (words_match k xs ys) (get_or xs k 0 == get_or ys k 0) h

slots_match-lem :
    (m e : ℕ) (out : List Masked) (yp : List (List ℕ))
    → slots_match m e out yp ≡ true
    → (j : ℕ) → j < m
    → slot_matches e out yp j ≡ true
unfolding slots_match
slots_match-lem zero e out yp h j small = absurd (omega arith)
slots_match-lem (suc m) e out yp h j small = elim (Bool-cases (j == m)) [
  | inl same ↦
      ap (slot_matches e out yp) (ground (arith, ==_iff j m))
      ∙ (both (slots_match m e out yp) (slot_matches e out yp m) h).1
  | inr other ↦
      slots_match-lem m e out yp (both (slots_match m e out yp) (slot_matches e out yp m) h).0 j
        (ground (arith, ==_iff j m))
]

-- A slot that passes its checks has the words of its party.
slot_matches-words :
    (e : ℕ) (out : List Masked) (yp : List (List ℕ)) (j : ℕ)
    → slot_matches e out yp j ≡ true
    → (get_or (get_or yp (orig j e) []) 7 0 ≡ 0)
      × ((w : ℕ) → w < 7 → get_or (output_shares out j) w 0 ≡ get_or (get_or yp (orig j e) []) w 0)
unfolding slot_matches
slot_matches-words e out yp j h = (
  ground (arith, ==_iff (get_or row 7 0) 0, parts.1),
  words_match-lem 7 (output_shares out j) row parts.0,
)
  where
    row : List ℕ
    row = get_or yp (orig j e) []

    parts : (words_match 7 (output_shares out j) row ≡ true) × ((get_or row 7 0 == 0) ≡ true)
    parts = both (words_match 7 (output_shares out j) row) (get_or row 7 0 == 0) h

module _ (p : Platform) (n : ℕ) where
  -- With the sizes of the documented BLAKE3, for any number of parties and any inputs:
  -- building_views always gives a result, and runs exactly the 94186 gates (YSIZE_GATES) that the
  -- tapes and the corrections have room for.
  pub building_views-gates :
      (before m_hat pk_seed d_pub : Bytes) (lam tapes : List Bytes) (aux : List ℕ)
      (s_all : Option (List (List ℕ))) (r_j : Bytes)
      → Ends
          (λ tr. tr.gate_count)
          y_size
          0
          (building_views p 64 1024 32 n before m_hat pk_seed d_pub lam tapes aux s_all r_j)
  unfolding building_views views_of
  building_views-gates before m_hat pk_seed d_pub lam tapes aux s_all r_j =
      kept (view_circuit (prover p 64 1024 32 n tapes) pk_seed (d_pub, lam) m_hat start) (
        (view_circuit-Runs (prover p 64 1024 32 n tapes) (prover-IsCounted p n tapes) pk_seed
            (d_pub, lam) m_hat).run
          start)
    where
      start : Transcript
      start = record { aux = aux; s_all = s_all; gate_count = 0 }

      kept :
          (o : Option (List Masked × Transcript))
          → Ends (λ tr. tr.gate_count) y_size 0 o
          → Ends
              (λ tr. tr.gate_count)
              y_size
              0
              (elim o [
                | none ↦ none
                | some ended ↦ some (views_of p 64 1024 32 n before d_pub r_j ended)
              ])
      kept none h = h
      kept (some (out, tr)) h = h

  module _ (slots : List (List ℕ)) (m_hat pk_seed : Bytes) (error : Bool) (a : Answer) (e : ℕ)
      (z : Opening) (zh : List ℕ) where
    abbrev replayed : Option (List Masked × Replay)
    replayed = replay_circuit p 64 1024 32 n slots m_hat pk_seed e z

    -- With the sizes of the documented BLAKE3, for any number of parties and whatever an opening
    -- holds: the verifier's run of the circuit gives a result, after exactly the 94186 gates of
    -- the prover's.
    pub replay_circuit-gates : Ends (λ rp. rp.gate_count) y_size 0 replayed
    unfolding replay_circuit
    replay_circuit-gates =
        (view_circuit-Runs (verifier p 64 1024 32 n e (map (expand_tape p) z.ke) z.msgs_e z.aux)
            (verifier-IsCounted p n e (map (expand_tape p) z.ke) z.msgs_e z.aux) pk_seed
            (z.x_offset, map (expand_xshare p) z.ke) m_hat).run
          (record { s_slots = slots; gate_count = 0 })

    verdict-accepts :
        (ended : List Masked × Replay) (a' : Answer) (zh' : List ℕ)
        → verdict_of p 64 1024 32 n error a e z ended ≡ (false, (a', zh'))
        → (error ≡ false)
          × (slots_match (n - 1) e ended.0 a.yp ≡ true)
          × (zh' ≡ map (λ x. x.h) ended.0)
          × (a'.h_prime
              ≡ recompute_h_prime_verify p n a.h_prime e z.x_offset ended.1.s_slots z.msgs_e z.r_j)
    unfolding verdict_of
    verdict-accepts (out, rp) a' zh' h = ground arith

    -- For any number of parties, with the sizes of the documented BLAKE3: when verify leaves the
    -- error flag clear, the flag was clear before, all memory was granted, the replayed circuit
    -- gave an output, the masked output and the hash of the messages that it stores are those of
    -- the replay, and for each slot the first seven words of the output shares are those of the
    -- slot's party in the answer, and the eighth word of that party is zero.
    pub verify-accepts :
        (a' : Answer) (zh' : List ℕ)
        → verify p 64 1024 32 n slots m_hat pk_seed error a e z zh ≡ some (false, (a', zh'))
        → (error ≡ false)
          × (verify_granted p 64 1024 32 n ≡ true)
          × ((ended : List Masked × Replay) × (replayed ≡ some ended)
              × (zh' ≡ map (λ x. x.h) ended.0)
              × (a'.h_prime
                  ≡ recompute_h_prime_verify p n a.h_prime e z.x_offset ended.1.s_slots z.msgs_e
                      z.r_j)
              × ((j : ℕ)
                  → j < n - 1
                  → (get_or (get_or a.yp (orig j e) []) 7 0 ≡ 0)
                    × ((w : ℕ)
                        → w < 7
                        → get_or (output_shares ended.0 j) w 0
                          ≡ get_or (get_or a.yp (orig j e) []) w 0)))
    unfolding verify
    verify-accepts a' zh' h =
        elim (ended_by (verify_granted p 64 1024 32 n) replayed
          (verdict_of p 64 1024 32 n error a e z) (true, (a, zh)) (false, (a', zh')) h) [
            | inl (granted, (ended, ran, same)) ↦
                let told = verdict-accepts ended a' zh' same in
                (
                  told.0,
                  granted,
                  (
                    ended,
                    ran,
                    told.2,
                    told.3,
                    λ j small.
                        slot_matches-words e ended.0 a.yp j
                          (slots_match-lem (n - 1) e ended.0 a.yp told.1 j small),
                  ),
                )
            | inr refused ↦ absurd cc
          ]
