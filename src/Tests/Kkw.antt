-- ===== src/Tests/Kkw.antt =====
-- The hash of the messages of four parties, on the concrete platform.
use hash_blind_signatures.Common.{
  ℕ, ◌≡◌, refl, arith, some, tabulate, tabulate_from, [], ◌∷◌, List, replicate,
}
use hash_blind_signatures.Kkw.Seeds.{compute_h_prime, compute_msgs_e, recompute_h_prime_verify}
use hash_blind_signatures.Kkw.Seeds.Laws.{slots_of, recompute-compute_h_prime}
use hash_blind_signatures.Hash.{th_into}
use hash_blind_signatures.Kkw.Challenge.{
  kkw_fs_expand, shuffle_loop, prg_below, draw_loop, prg_init, prg_fill, prg_byte, prg_u32,
  party_loop, party_draw,
}
use hash_blind_signatures.Kkw.Challenge.Laws.{IsChallenge, kkw_fs_expand-IsChallenge}
use hash_blind_signatures.Tests.{toy, toy-IsDocumented}

abbrev rows : List (List ℕ)
rows = (1 ∷ 2 ∷ []) ∷ (3 ∷ 4 ∷ []) ∷ (5 ∷ 6 ∷ []) ∷ (7 ∷ 8 ∷ []) ∷ []

-- The third party is hidden.
recompute-compute_h_prime_example :
    recompute_h_prime_verify toy 4
      (replicate 32 0)
      2
      (9 ∷ [])
      (slots_of 3 2 rows)
      (compute_msgs_e 2 rows)
      (replicate 32 1)
    ≡ compute_h_prime toy 4 (replicate 32 0) (9 ∷ []) rows (replicate 32 1)
recompute-compute_h_prime_example =
    recompute-compute_h_prime toy toy-IsDocumented 3 2 (replicate 32 0) (9 ∷ []) rows
      (replicate 32 1) (omega arith)

expands :
    kkw_fs_expand toy (λ xs. xs) 2 5 2 4 (replicate 32 0) (replicate 32 3)
    ≡ some (1 ∷ 2 ∷ [], 1 ∷ 3 ∷ [])
unfolding kkw_fs_expand shuffle_loop prg_below draw_loop prg_init prg_fill prg_byte prg_u32
    party_loop party_draw th_into tabulate tabulate_from
expands = refl

-- Two of five instances are opened, and the sort leaves them as they are.
kkw_fs_expand-IsChallenge_example : IsChallenge toy (λ xs. xs) 5 2 4 (1 ∷ 2 ∷ []) (1 ∷ 3 ∷ [])
kkw_fs_expand-IsChallenge_example =
    kkw_fs_expand-IsChallenge toy (λ xs. xs) 2 5 2 4 (replicate 32 0) (replicate 32 3) (1 ∷ 2 ∷ [])
      (1 ∷ 3 ∷ []) (omega arith) (omega arith) expands
