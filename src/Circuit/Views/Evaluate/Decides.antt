-- ===== src/Circuit/Views/Evaluate/Decides.antt =====
-- When `verify` of kkw/src/circuits.c sets its error flag.
use hash_blind_signatures.Common.{
  ℕ, zero, suc, ◌-◌, ◌<◌, ◌≡◌, refl, sym, ap, ◌∙◌, arith, Bool, true, false, Option, none, some, [],
  List, Bytes, get_or, ==_iff, inl, inr, ◌⊎◌, if◌then◌else◌,
}
use hash_blind_signatures.Platform.{Platform}
use hash_blind_signatures.Circuit.Shares.{Masked, y_size}
use hash_blind_signatures.Circuit.Verify.{Replay, orig}
use hash_blind_signatures.Circuit.Engine.{Ends}
use hash_blind_signatures.Circuit.Views.Evaluate.{
  Answer, Opening, output_shares, words_match, slot_matches, slots_match, verify_granted,
  verdict_of, replay_circuit, verify,
}
use hash_blind_signatures.Circuit.Views.Evaluate.Laws.{replay_circuit-gates, verify-accepts}

words_match-all :
    (k : ℕ) (xs ys : List ℕ)
    → ((w : ℕ) → w < k → get_or xs w 0 ≡ get_or ys w 0)
    → words_match k xs ys ≡ true
unfolding words_match
words_match-all zero xs ys h = refl
words_match-all (suc k) xs ys h = ground (
  arith,
  words_match-all k xs ys (λ w small. h w (omega arith)),
  h k (omega arith),
  ==_iff (get_or xs k 0) (get_or ys k 0),
)

-- A slot with the words of its party.
abbrev pub SlotAgrees : ℕ → List Masked → List (List ℕ) → ℕ → Type 0
SlotAgrees e out yp j =
    (get_or (get_or yp (orig j e) []) 7 0 ≡ 0)
    × ((w : ℕ) → w < 7 → get_or (output_shares out j) w 0 ≡ get_or (get_or yp (orig j e) []) w 0)

SlotAgrees-matches :
    (e : ℕ) (out : List Masked) (yp : List (List ℕ)) (j : ℕ)
    → SlotAgrees e out yp j
    → slot_matches e out yp j ≡ true
unfolding slot_matches
SlotAgrees-matches e out yp j (last, words) = ground (
  arith,
  words_match-all 7 (output_shares out j) (get_or yp (orig j e) []) words,
  ==_iff (get_or (get_or yp (orig j e) []) 7 0) 0,
  last,
)

slots_match-all :
    (m e : ℕ) (out : List Masked) (yp : List (List ℕ))
    → ((j : ℕ) → j < m → SlotAgrees e out yp j)
    → slots_match m e out yp ≡ true
unfolding slots_match
slots_match-all zero e out yp h = refl
slots_match-all (suc m) e out yp h = ground (
  arith,
  slots_match-all m e out yp (λ j small. h j (omega arith)),
  SlotAgrees-matches e out yp m (h m (omega arith)),
)

clash : {A : Type 0} (x y : A) → ◌≡◌ {A = Option (Bool × A)} (some (true, x)) (some (false, y)) → ⊥
clash x y h = cc

module _ (p : Platform) (n : ℕ) (slots : List (List ℕ)) (m_hat pk_seed : Bytes) (error : Bool)
    (a : Answer) (e : ℕ) (z : Opening) (zh : List ℕ) where
  -- No error before, memory granted, and a replay whose output shares are those of the answer in
  -- every slot.
  pub record Passes : Type 0 where
    pub no_error : error ≡ false
    pub granted : verify_granted p 64 1024 32 n ≡ true
    pub ended : List Masked × Replay
    pub ran : replay_circuit p 64 1024 32 n slots m_hat pk_seed e z ≡ some ended
    pub agrees : (j : ℕ) → j < n - 1 → SlotAgrees e ended.0 a.yp j

  abbrev pub call : Option (Bool × (Answer × List ℕ))
  call = verify p 64 1024 32 n slots m_hat pk_seed error a e z zh

  pub accepted-Passes : (a' : Answer) (zh' : List ℕ) → call ≡ some (false, (a', zh')) → Passes
  accepted-Passes a' zh' h =
      let (no_error, granted, (ended, ran, same_zh, same_h, agrees)) =
        verify-accepts p n slots m_hat pk_seed error a e z zh a' zh' h in
      record { no_error = no_error; granted = granted; ended = ended; ran = ran; agrees = agrees }

  flag_clear : (v : Passes) → (verdict_of p 64 1024 32 n error a e z v.ended).0 ≡ false
  unfolding verdict_of
  flag_clear v = ground (arith, v.no_error, slots_match-all (n - 1) e v.ended.0 a.yp v.agrees)

  pub Passes-accepted :
      (v : Passes) → call ≡ some (false, (verdict_of p 64 1024 32 n error a e z v.ended).1)
  unfolding verify
  Passes-accepted v =
      rw (v.granted, v.ran)
        (ap (λ b. some (b, (verdict_of p 64 1024 32 n error a e z v.ended).1)) (flag_clear v))

  returned : (r : Bool × (Answer × List ℕ)) × (call ≡ some r)
  unfolding verify
  returned =
      given (verify_granted p 64 1024 32 n) (replay_circuit p 64 1024 32 n slots m_hat pk_seed e z)
        (replay_circuit-gates p n slots m_hat pk_seed error a e z zh)
    where
      given :
          (g : Bool) (o : Option (List Masked × Replay))
          → Ends (λ rp. rp.gate_count) y_size 0 o
          → (r : Bool × (Answer × List ℕ)) × ((if g
                then elim o [
                  | none ↦ none
                  | some x ↦ some (verdict_of p 64 1024 32 n error a e z x)
                ]
                else some (true, (a, zh)))
              ≡ some r)
      given true none h = absurd h
      given true (some x) h = (verdict_of p 64 1024 32 n error a e z x, refl)
      given false o h = ((true, (a, zh)), refl)

  -- With the sizes of the documented BLAKE3, for any number of parties, whatever the opening and
  -- the allocator do: verify returns, and either leaves the error flag clear, when it was clear,
  -- all memory is granted and the output shares of the replayed circuit are those of the answer
  -- in every slot, with a zero eighth word; or sets it, when one of these fails.
  pub verify-decides :
      (flag : Bool) × (a' : Answer) × (zh' : List ℕ) × (call ≡ some (flag, (a', zh')))
      × (((flag ≡ false) × Passes) ⊎ ((flag ≡ true) × (¬ Passes)))
  verify-decides = by_flag returned.0.0 returned.0.1.0 returned.0.1.1 returned.1
    where
      by_flag :
          (flag : Bool) (a' : Answer) (zh' : List ℕ)
          → call ≡ some (flag, (a', zh'))
          → (b : Bool) × (a'' : Answer) × (zh'' : List ℕ) × (call ≡ some (b, (a'', zh'')))
            × (((b ≡ false) × Passes) ⊎ ((b ≡ true) × (¬ Passes)))
      by_flag false a' zh' h = (false, a', zh', h, inl (refl, accepted-Passes a' zh' h))
      by_flag true a' zh' h =
          (true, a', zh', h, inr (refl, λ v. clash _ _ (sym h ∙ Passes-accepted v)))
