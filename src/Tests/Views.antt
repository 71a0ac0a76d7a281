-- ===== src/Tests/Views.antt =====
-- The circuit on the concrete platform, with four parties.
use hash_blind_signatures.Common.{
  ℕ, Option, ◌⊎◌, ◌<◌, ◌≡◌, refl, arith, Bool, true, false, none, some, [], ◌∷◌, List, Bytes,
  replicate, map, get_or,
}
use hash_blind_signatures.Circuit.Shares.{Masked, y_size}
use hash_blind_signatures.Circuit.Verify.{Replay, orig}
use hash_blind_signatures.Circuit.Engine.{Ends}
use hash_blind_signatures.Circuit.Views.Evaluate.{
  Answer, Opening, output_shares, words_match, slot_matches, slots_match, building_views,
  tapes_granted, verify_granted, verdict_of, replay_circuit, verify,
}
use hash_blind_signatures.Circuit.Views.Evaluate.Laws.{
  building_views-gates, replay_circuit-gates, verify-accepts,
}
use hash_blind_signatures.Circuit.Views.Evaluate.Decides.{Passes, verify-decides}
use hash_blind_signatures.Kkw.Seeds.{recompute_h_prime_verify}
use hash_blind_signatures.Tests.{toy}

shares : ℕ → Bytes
shares k = replicate 1599 k

tape_of : ℕ → Bytes
tape_of k = replicate 753488 k

abbrev m_hat : Bytes
m_hat = replicate 32 9

abbrev pk_seed : Bytes
pk_seed = replicate 16 4

-- The prover's circuit.
building_views-gates_example :
    Ends
      (λ tr. tr.gate_count)
      y_size
      0
      (building_views toy 64 1024 32 4 [] m_hat pk_seed
        (shares 200)
        (shares 1 ∷ shares 2 ∷ shares 3 ∷ shares 4 ∷ [])
        (tape_of 5 ∷ tape_of 6 ∷ tape_of 7 ∷ tape_of 8 ∷ [])
        []
        none
        (replicate 32 1))
building_views-gates_example =
    building_views-gates toy 4 [] m_hat pk_seed (shares 200)
      (shares 1 ∷ shares 2 ∷ shares 3 ∷ shares 4 ∷ [])
      (tape_of 5 ∷ tape_of 6 ∷ tape_of 7 ∷ tape_of 8 ∷ []) [] none (replicate 32 1)

abbrev opening : Opening
opening = record {
  ke = replicate 32 11 ∷ replicate 32 12 ∷ replicate 32 13 ∷ [];
  x_offset = shares 200;
  aux = 3 ∷ [];
  msgs_e = 5 ∷ [];
  com_hidden = replicate 32 7;
  r_j = replicate 32 1;
}

abbrev blank : Answer
blank = record { yp = []; h_prime = [] }

replay_circuit-gates_example :
    Ends (λ rp. rp.gate_count) y_size 0 (replay_circuit toy 64 1024 32 4 [] m_hat pk_seed 1 opening)
replay_circuit-gates_example = replay_circuit-gates toy 4 [] m_hat pk_seed false blank 1 opening []

-- The shares that the verifier finds itself, so that the slots match.
abbrev row_of : List ℕ → List ℕ
row_of xs =
    get_or xs 0 0
    ∷ get_or xs 1 0
    ∷ get_or xs 2 0
    ∷ get_or xs 3 0
    ∷ get_or xs 4 0
    ∷ get_or xs 5 0
    ∷ get_or xs 6 0
    ∷ 0
    ∷ []

replay_of : Option (List Masked × Replay) → List Masked × Replay
replay_of none = ([], record { s_slots = []; gate_count = 0 })
replay_of (some ended) = ended

end : List Masked × Replay
end = replay_of (replay_circuit toy 64 1024 32 4 [] m_hat pk_seed 1 opening)

answered :
    (o : Option (List Masked × Replay))
    → Ends (λ rp. rp.gate_count) y_size 0 o
    → o ≡ some (replay_of o)
unfolding replay_of
answered none h = absurd h
answered (some ended) h = refl

abbrev answer : Answer
answer = record {
  yp =
      row_of (output_shares end.0 0)
      ∷ []
      ∷ row_of (output_shares end.0 1)
      ∷ row_of (output_shares end.0 2)
      ∷ [];
  h_prime = [];
}

row-matches : (xs : List ℕ) → words_match 7 xs (row_of xs) ≡ true
unfolding words_match
row-matches xs = ground arith

matched : slots_match 3 1 end.0 answer.yp ≡ true
unfolding slots_match slot_matches
matched =
    rw
      (
        row-matches (output_shares end.0 0),
        row-matches (output_shares end.0 1),
        row-matches (output_shares end.0 2),
      )
      refl

verdict : Bool × (Answer × List ℕ)
verdict = verdict_of toy 64 1024 32 4 false answer 1 opening end

ran : replay_circuit toy 64 1024 32 4 [] m_hat pk_seed 1 opening ≡ some end
unfolding end
ran =
    answered (replay_circuit toy 64 1024 32 4 [] m_hat pk_seed 1 opening)
      (replay_circuit-gates toy 4 [] m_hat pk_seed false answer 1 opening [])

accepted :
    verify toy 64 1024 32 4 [] m_hat pk_seed false answer 1 opening [] ≡ some (false, verdict.1)
unfolding verify verify_granted tapes_granted verdict verdict_of
accepted = rw (ran, matched) refl

-- Three slots that match: the flag stays clear.
verify-accepts_example :
    (false ≡ false)
    × (verify_granted toy 64 1024 32 4 ≡ true)
    × ((ended : List Masked × Replay) × (replay_circuit toy 64 1024 32 4 [] m_hat pk_seed 1 opening
          ≡ some ended)
        × (verdict.1.1 ≡ map (λ x. x.h) ended.0)
        × (verdict.1.0.h_prime
            ≡ recompute_h_prime_verify toy 4 answer.h_prime 1 opening.x_offset ended.1.s_slots
                opening.msgs_e opening.r_j)
        × ((j : ℕ)
            → j < 3
            → (get_or (get_or answer.yp (orig j 1) []) 7 0 ≡ 0)
              × ((w : ℕ)
                  → w < 7
                  → get_or (output_shares ended.0 j) w 0
                    ≡ get_or (get_or answer.yp (orig j 1) []) w 0)))
verify-accepts_example =
    verify-accepts toy 4 [] m_hat pk_seed false answer 1 opening [] verdict.1.0 verdict.1.1 accepted

-- The same slots, decided.
verify-decides_example :
    (flag : Bool) × (a' : Answer) × (zh' : List ℕ) × (verify toy 64 1024 32 4 [] m_hat pk_seed false
        answer 1 opening []
      ≡ some (flag, (a', zh')))
    × (((flag ≡ false) × Passes toy 4 [] m_hat pk_seed false answer 1 opening [])
        ⊎ ((flag ≡ true) × (¬ (Passes toy 4 [] m_hat pk_seed false answer 1 opening []))))
verify-decides_example = verify-decides toy 4 [] m_hat pk_seed false answer 1 opening []
