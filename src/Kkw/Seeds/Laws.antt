-- ===== src/Kkw/Seeds/Laws.antt =====
-- The hash of an instance's messages in kkw/src/shared.c, the prover's and the verifier's.
use hash_blind_signatures.Common.{
  ℕ, zero, suc, ◌+◌, ◌-◌, ◌<◌, ◌≤◌, ◌≡◌, ◌∙◌, refl, sym, ap, arith, [], ◌∷◌, ◌++◌, List, Bytes,
  get_or, concat, tabulate, tabulate_from, Bool-cases, get_or-tabulate, ◌==◌, ==_iff, ltb,
  if◌then◌else◌, false, inl, inr,
}
use mathlib.Core.List.{append-nil}
use hash_blind_signatures.Platform.{Platform, IsDocumented}
use hash_blind_signatures.Hash.{ThCtx, poisoned, ready, update_nonempty, blake3_th_update}
use hash_blind_signatures.Circuit.Verify.{orig}
use hash_blind_signatures.Kkw.Seeds.{
  word_bytes, update_with, party_words, hprime_loop, hprime_init, final_into, compute_h_prime,
  compute_msgs_e, recompute_h_prime_verify,
}

-- What the verifier has of the prover's rows.
abbrev pub slots_of : ℕ → ℕ → List (List ℕ) → List (List ℕ)
slots_of m e s_all = tabulate m (λ j. get_or s_all (orig j e) [])

-- The words that the verifier hashes for a party are the prover's.
party_words-slots :
    (m e q : ℕ) (s_all : List (List ℕ))
    → e ≤ m
    → q < suc m
    → party_words e (slots_of m e s_all) (compute_msgs_e e s_all) q ≡ get_or s_all q []
unfolding party_words compute_msgs_e
party_words-slots m e q s_all he hq = elim (Bool-cases (q == e)) [
  | inl same ↦ rw same (ap (λ t. get_or s_all t []) (sym ((==_iff q e).0 same)))
  | inr other ↦ rw other (slot other)
]
  where
    place : ℕ
    place = if ltb q e then q else q - 1

    slot :
        (q == e) ≡ false
        → get_or (slots_of m e s_all) (if ltb q e then q else q - 1) [] ≡ get_or s_all q []
    slot other =
        get_or-tabulate m place (λ j. get_or s_all (orig j e) []) [] inside
        ∙ ap (λ t. get_or s_all t []) back
      where
        inside : place < m
        inside = ground arith

        back : orig place e ≡ q
        back = ground arith

module _ (p : Platform) (d : IsDocumented p) where
  update_nonempty-cons :
      (s : p.Hasher) (x : ℕ) (xs : Bytes) → update_nonempty p s (x ∷ xs) ≡ p.update s (x ∷ xs)
  unfolding update_nonempty
  update_nonempty-cons s x xs = ground arith

  update_nonempty-append :
      (s : p.Hasher) (xs ys : Bytes)
      → update_nonempty p (update_nonempty p s xs) ys ≡ update_nonempty p s (xs ++ ys)
  update_nonempty-append s [] ys = unfold update_nonempty in refl
  update_nonempty-append s (x ∷ xs) [] =
      unfold update_nonempty in ap (update_nonempty p s) (sym (append-nil {0} (x ∷ xs)))
  update_nonempty-append s (x ∷ xs) (y ∷ ys) =
      update_nonempty-cons (update_nonempty p s (x ∷ xs)) y ys
      ∙ ap (λ t. p.update t (y ∷ ys)) (update_nonempty-cons s x xs)
      ∙ d.update-append s (x ∷ xs) (y ∷ ys)
      ∙ sym (update_nonempty-cons s x (xs ++ y ∷ ys))

  update_with-append :
      (ctx : ThCtx p) (a b : Bytes)
      → update_with p (update_with p ctx a) b ≡ update_with p ctx (a ++ b)
  unfolding blake3_th_update
  update_with-append poisoned a b = refl
  update_with-append (ready h) a b = ap ready (update_nonempty-append h a b)

  update_with-nil : (ctx : ThCtx p) → update_with p ctx [] ≡ ctx
  unfolding blake3_th_update update_nonempty
  update_with-nil poisoned = refl
  update_with-nil (ready h) = refl

  -- The loop hashes the parties' words one after another.
  hprime_loop-concat :
      (e m : ℕ) (s_all : List (List ℕ))
      → e ≤ m
      → (left q : ℕ) (ctx : ThCtx p) → q + left ≤ suc m
      → hprime_loop p e (slots_of m e s_all) (compute_msgs_e e s_all) left q ctx
        ≡ update_with p ctx (concat (tabulate_from q left (λ i. word_bytes (get_or s_all i []))))
  unfolding hprime_loop tabulate_from
  hprime_loop-concat e m s_all he zero q ctx hq = sym (update_with-nil ctx)
  hprime_loop-concat e m s_all he (suc left) q ctx hq =
      ap
        (λ ws.
          hprime_loop p e (slots_of m e s_all) (compute_msgs_e e s_all) left (q + 1)
            (update_with p ctx (word_bytes ws)))
        (party_words-slots m e q s_all he (omega arith))
      ∙ hprime_loop-concat e m s_all he left (q + 1)
          (update_with p ctx (word_bytes (get_or s_all q []))) (omega arith)
      ∙ update_with-append ctx (word_bytes (get_or s_all q []))
          (concat (tabulate_from (q + 1) left (λ i. word_bytes (get_or s_all i []))))

  -- On a platform with the documented hasher, for a hidden party among the parties: from that
  -- party's message row and the rows of the others, recompute_h_prime_verify gives the hash that
  -- compute_h_prime gives on all rows.
  pub recompute-compute_h_prime :
      (m e : ℕ) (before d_pub : Bytes) (s_all : List (List ℕ)) (r_j : Bytes)
      → e ≤ m
      → recompute_h_prime_verify p
          (suc m)
          before
          e
          d_pub
          (slots_of m e s_all)
          (compute_msgs_e e s_all)
          r_j
        ≡ compute_h_prime p (suc m) before d_pub s_all r_j
  unfolding recompute_h_prime_verify compute_h_prime tabulate
  recompute-compute_h_prime m e before d_pub s_all r_j he =
      ap (λ ctx. final_into p before (update_with p ctx r_j))
        (hprime_loop-concat e m s_all he (suc m) 0 (hprime_init p d_pub) (omega arith))
