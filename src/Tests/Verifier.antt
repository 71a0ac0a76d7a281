-- ===== src/Tests/Verifier.antt =====
-- A proof that is accepted on the concrete platform: two instances, the second of which is opened,
-- and eight bits of grinding.
use hash_blind_signatures.Common.{
  ap, ◌∙◌, Bool, ℕ, ◌≡◌, refl, arith, true, false, some, none, Option, [], ◌∷◌, List, Bytes, length,
  replicate, tabulate, memcmp_eq_refl,
}
use hash_blind_signatures.Hash.{th_into}
use hash_blind_signatures.Circuit.Views.Evaluate.{Answer, Opening}
use hash_blind_signatures.Kkw.Challenge.{
  kkw_fs_seed, low_bits_zero, kkw_fs_expand, shuffle_loop, party_loop, party_draw, prg_below,
  draw_loop, prg_u32, prg_byte, prg_init, prg_fill,
}
use hash_blind_signatures.Kkw.Seeds.{expand_seed_star, preproc_commit_instance}
use hash_blind_signatures.Kkw.Proof.{
  Head, read_head, read_closed, read_rounds, write_rounds, write_body, write_proof, opened,
}
use hash_blind_signatures.Kkw.Proof.Laws.{read_proof-write}
use hash_blind_signatures.Kkw.Verifier.{
  Row, Machine, requests, round_requests, all_granted, compute_aux_from_seeds, closed_row,
  closed_rows, check_rounds, rounds_pass, place_rows, h_star_of, verdict, check_online, check_body,
  check_challenge, kkw_verify,
}
use hash_blind_signatures.Kkw.Verifier.Laws.{
  compute_aux_from_seeds-returns, IsAccepted, kkw_verify-IsAccepted,
}
use hash_blind_signatures.Tests.{toy}
use hash_blind_signatures.Tests.Round.{
  k, m_hat, pk_seed, answer, opening, opening-IsSent, a, z, pubout, checked, round_ran,
  round_passes,
}

abbrev machine : Machine
machine = record { threads = 1; pointer = 8; sizeof_a = 160; sizeof_z = 200 }

abbrev entry : ℕ → Bytes × Bytes
entry j = (replicate 32 3, replicate 32 4)

-- The corrections of the other instance.
found :
    (r : List ℕ × Bytes) × (compute_aux_from_seeds toy 64 1024 32 k []
        (expand_seed_star toy 1 (replicate 32 3))
      ≡ some r)
found = compute_aux_from_seeds-returns toy k [] (expand_seed_star toy 1 (replicate 32 3))

row_with : List ℕ × Bytes → Row
row_with (aux, h_out) = record {
  h_j = preproc_commit_instance toy 1 [] [] (expand_seed_star toy 1 (replicate 32 3)) (some aux);
  h_prime = replicate 32 4;
  h_out = h_out;
}

abbrev unset : Row
unset = record { h_j = []; h_prime = []; h_out = [] }

closed : Row
closed = row_with found.0

hashed :
    closed_rows toy 64 1024 32 k [] ((0, entry 0) ∷ []) (unset ∷ unset ∷ [])
    ≡ some (closed ∷ unset ∷ [])
unfolding closed_rows closed_row closed row_with
hashed =
    ap
      (λ o.
        let one : Option Row = elim o [
          | none ↦ none
          | some (aux, h_out) ↦ some (row_with (aux, h_out))
        ] in
        elim one [ none ↦ none | some row ↦ closed_rows toy 64 1024 32 k [] [] (row ∷ unset ∷ []) ])
      found.1

star : Bytes
star = h_star_of toy 64 1024 32 k [] (closed ∷ checked.row ∷ [])

length-star : length star ≡ 32
unfolding star h_star_of th_into
length-star = refl

abbrev hd : Head
hd = record { nonce = replicate 32 1; h_star = star; ctr = 0 }

abbrev body : Bytes
body = write_body k (1 ∷ []) (0 ∷ []) entry ((answer, opening) ∷ [])

abbrev tail : Bytes
tail = write_rounds (0 ∷ []) ((answer, opening) ∷ [])

file : Bytes
file = write_proof k hd (1 ∷ []) (0 ∷ []) entry ((answer, opening) ∷ [])

reads :
    (read_head k file ≡ some (hd, body))
    × (read_closed (1 ∷ []) 2 0 body ≡ some ((0, entry 0) ∷ [], tail))
    × (read_rounds k (0 ∷ []) tail ≡ some ((a, z) ∷ [], []))
unfolding file opened
reads =
    read_proof-write k hd (1 ∷ []) (0 ∷ []) entry ((answer, opening) ∷ []) (omega arith) refl
      length-star (omega arith) (λ i. (refl, refl)) (opening-IsSent, tt)

same : List ℕ → List ℕ
same xs = xs

rounds_ran :
    check_rounds toy 64 1024 32 k [] m_hat pk_seed pubout (0 ∷ []) ((a, z) ∷ [])
    ≡ some (checked ∷ [])
unfolding check_rounds
rounds_ran = ap (λ o. elim o [ none ↦ none | some c ↦ some (c ∷ []) ]) round_ran

ends_well :
    verdict toy 64 1024 32 k [] machine m_hat pk_seed pubout hd
      (1 ∷ [])
      (closed ∷ unset ∷ [])
      (checked ∷ [])
    ≡ true
unfolding verdict rounds_pass place_rows star
ends_well = rw (round_passes.0, round_passes.1) (memcmp_eq_refl 32 star)

abbrev online : List Row → Option (List (Answer × Opening) × Bytes) → Option Bool
online rs got =
    check_online toy 64 1024 32 k [] machine m_hat pk_seed pubout hd (1 ∷ []) (0 ∷ []) rs got

online_passes : online (closed ∷ unset ∷ []) (some ((a, z) ∷ [], [])) ≡ some true
unfolding check_online
online_passes =
    ap
      (λ o. elim o [
        | none ↦ none
        | some cs ↦ some (
            verdict toy 64 1024 32 k [] machine m_hat pk_seed pubout hd (1 ∷ [])
              (closed ∷ unset ∷ []) cs)
      ])
      rounds_ran
    ∙ ap some ends_well

-- From the instance that is not opened on.
body_passes :
    check_body toy 64 1024 32 k [] machine m_hat pk_seed pubout hd (1 ∷ [], 0 ∷ []) body ≡ some true
unfolding check_body
body_passes =
    ap
      (λ o. elim o [
        | none ↦ some false
        | some (entries, rest) ↦
            elim (closed_rows toy 64 1024 32 k [] entries (unset ∷ unset ∷ [])) [
              | none ↦ none
              | some rs ↦ online rs (read_rounds k (0 ∷ []) rest)
            ]
      ])
      reads.1
    ∙ ap (λ o. elim o [ none ↦ none | some rs ↦ online rs (read_rounds k (0 ∷ []) tail) ]) hashed
    ∙ ap (online (closed ∷ unset ∷ [])) reads.2
    ∙ online_passes

-- The draws for the second instance, and for the one party.
drawn : (seed : Bytes) → kkw_fs_expand toy same 1 2 1 1 [] seed ≡ some (1 ∷ [], 0 ∷ [])
unfolding kkw_fs_expand shuffle_loop party_loop party_draw prg_below draw_loop prg_u32 prg_byte
    prg_init prg_fill th_into same tabulate
drawn seed = refl

challenge_passes :
    check_challenge toy 64 1024 32 k [] machine m_hat pk_seed pubout same 1 hd body ≡ some true
unfolding check_challenge kkw_fs_seed low_bits_zero all_granted requests round_requests th_into
challenge_passes =
    ap
      (λ o. elim o [
        | none ↦ none
        | some challenge ↦
            check_body toy 64 1024 32 k [] machine m_hat pk_seed pubout hd challenge body
      ])
      (drawn _)
    ∙ body_passes

accepted : kkw_verify toy 64 1024 32 k [] machine m_hat pk_seed pubout same 1 file ≡ some true
unfolding kkw_verify
accepted =
    ap
      (λ o. elim o [
        | none ↦ some false
        | some (hd', rest) ↦
            check_challenge toy 64 1024 32 k [] machine m_hat pk_seed pubout same 1 hd' rest
      ])
      reads.0
    ∙ challenge_passes

kkw_verify-IsAccepted_example : IsAccepted toy k [] machine m_hat pk_seed pubout same 1 file
kkw_verify-IsAccepted_example =
    kkw_verify-IsAccepted toy k [] machine m_hat pk_seed pubout same 1 file accepted
