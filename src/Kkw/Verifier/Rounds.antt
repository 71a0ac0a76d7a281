-- ===== src/Kkw/Verifier/Rounds.antt =====
-- The rows of the instances that are opened in kkw/src/kkw_verify.c.
use hash_blind_signatures.Common.{
  both, map, ℕ, zero, suc, ◌-◌, ◌<◌, ◌≡◌, ◌∙◌, refl, sym, arith, Bool, true, false, Option, none,
  some, [], ◌∷◌, List, Bytes, length, get_or, concat, tabulate, replicate, codes, ◌==◌, ==_iff,
  Bool-cases, inl, inr,
}
use mathlib.Core.Path.{subst}
use hash_blind_signatures.Platform.{Platform}
use hash_blind_signatures.Hash.{th_into}
use hash_blind_signatures.Circuit.Shares.{xor_from, y_size}
use hash_blind_signatures.Circuit.Views.Evaluate.{Answer, Opening, verdict_of}
use hash_blind_signatures.Circuit.Views.Evaluate.Decides.{
  Passes, call, accepted-Passes, Passes-accepted,
}
use hash_blind_signatures.Kkw.Seeds.{recompute_h_prime_verify}
use hash_blind_signatures.Kkw.Proof.{Params}
use hash_blind_signatures.Kkw.Verifier.{
  Row, Checked, output_equal, rounds_pass, check_round, check_rounds, hash_outputs,
  party_commitment,
}
use hash_blind_signatures.Kkw.Verifier.Rows.{some_case, some_eq}

eq_of_test : (a b : ℕ) → (a == b) ≡ true → a ≡ b
eq_of_test a b h = ground (arith, ==_iff a b)

stored_eq :
    {A : Type 0} (x y : A) → ◌≡◌ {A = Option (Bool × A)} (some (false, x)) (some (false, y)) → x ≡ y
stored_eq x y h = cc

pass_parts :
    (c : Checked) (cs : List Checked)
    → rounds_pass (c ∷ cs) ≡ true
    → (c.error ≡ false) × ((c.output ≡ true) × (rounds_pass cs ≡ true))
unfolding rounds_pass
pass_parts c cs h = (ground arith, (ground arith, ground arith))

output_equal-words :
    (n m : ℕ) (zh : List ℕ) (yp : List (List ℕ)) (pubout : List ℕ)
    → output_equal n m zh yp pubout ≡ true
    → (w : ℕ) → w < m
    → xor_from (get_or zh w 0) n (λ q. get_or (get_or yp q []) w 0) ≡ get_or pubout w 0
unfolding output_equal
output_equal-words n zero zh yp pubout h w small = absurd (omega arith)
output_equal-words n (suc m) zh yp pubout h w small =
    let (before, last) = both (output_equal n m zh yp pubout) _ h in
    elim (Bool-cases (w == m)) [
      | inl same ↦
          let here : m ≡ w = ground (arith, ==_iff w m) in
          subst
            (λ v. xor_from (get_or zh v 0) n (λ q. get_or (get_or yp q []) v 0) ≡ get_or pubout v 0)
            here (eq_of_test _ _ last)
      | inr other ↦ output_equal-words n m zh yp pubout before w (ground (arith, ==_iff w m))
    ]

module _ (p : Platform) (k : Params) (fresh : Bytes) where
  module _ (m_hat pk_seed : Bytes) (pubout : List ℕ) where
    -- What the replay of an opened instance asks for.
    abbrev pub RoundPasses : ℕ → Answer × Opening → Type 0
    RoundPasses e (a, z) =
        Passes p k.parties (replicate (k.parties - 1) (replicate y_size 0)) m_hat pk_seed false a e
          z (replicate 8 0)

    -- An opened instance: its replay passes, the masked output and the shares come to the public
    -- output, and its row is made of what was revealed and of the replay's messages.
    pub record IsReplayed (e : ℕ) (s : Answer × Opening) (row : Row) : Type 0 where
      pub passes : RoundPasses e s
      pub output :
          (w : ℕ)
          → w < 8
          → xor_from
              (get_or (map (λ x. x.h) passes.ended.0) w 0)
              k.parties
              (λ q. get_or (get_or s.0.yp q []) w 0)
            ≡ get_or pubout w 0
      pub h_j :
          row.h_j
          ≡ th_into p fresh
              (codes "KKWhj")
              (concat (tabulate k.parties (party_commitment p 64 1024 32 k fresh e s.1)))
              32
      pub h_prime :
          row.h_prime
          ≡ recompute_h_prime_verify p k.parties s.0.h_prime e s.1.x_offset passes.ended.1.s_slots
              s.1.msgs_e s.1.r_j
      pub h_out : row.h_out ≡ hash_outputs p 64 1024 32 k fresh s.0.yp

    abbrev pub AreReplayed : List ℕ → List (Answer × Opening) → List Row → Type 0
    AreReplayed [] [] [] = Unit {0}
    AreReplayed [] [] (row ∷ made) = ⊥
    AreReplayed [] (s ∷ sent) made = ⊥
    AreReplayed (e ∷ p_out) [] made = ⊥
    AreReplayed (e ∷ p_out) (s ∷ sent) [] = ⊥
    AreReplayed (e ∷ p_out) (s ∷ sent) (row ∷ made) =
        IsReplayed e s row × AreReplayed p_out sent made

    -- The row of an opened instance, from the answer that verify leaves.
    abbrev row_from : ℕ → Opening → Answer → Row
    row_from e z a' = record {
      h_j =
          th_into p fresh (codes "KKWhj")
            (concat (tabulate k.parties (party_commitment p 64 1024 32 k fresh e z))) 32;
      h_prime = a'.h_prime;
      h_out = hash_outputs p 64 1024 32 k fresh a'.yp;
    }

    abbrev round_call : ℕ → Answer → Opening → Option (Bool × (Answer × List ℕ))
    round_call e a z =
        call p k.parties (replicate (k.parties - 1) (replicate y_size 0)) m_hat pk_seed false a e z
          (replicate 8 0)

    call-IsReplayed :
        (e : ℕ) (a : Answer) (z : Opening) (error : Bool) (a' : Answer) (zh : List ℕ)
        → round_call e a z ≡ some (error, (a', zh))
        → error ≡ false
        → output_equal k.parties 8 zh a'.yp pubout ≡ true
        → IsReplayed e (a, z) (row_from e z a')
    unfolding verdict_of
    call-IsReplayed e a z true a' zh ran clear = absurd cc
    call-IsReplayed e a z false a' zh ran clear =
        let v : RoundPasses e (a, z) =
          accepted-Passes p k.parties (replicate (k.parties - 1) (replicate y_size 0)) m_hat pk_seed
            false a e z (replicate 8 0) a' zh ran in
        let again =
          Passes-accepted p k.parties (replicate (k.parties - 1) (replicate y_size 0)) m_hat pk_seed
            false a e z (replicate 8 0) v in
        subst
          (λ r.
            output_equal k.parties 8 r.1 r.0.yp pubout ≡ true
            → IsReplayed e (a, z) (row_from e z r.0))
          (stored_eq _ (a', zh) (sym again ∙ ran))
          (λ out. record {
            passes = v;
            output = output_equal-words k.parties 8 (map (λ x. x.h) v.ended.0) a.yp pubout out;
            h_j = refl;
            h_prime = refl;
            h_out = refl;
          })

    check_round-IsReplayed :
        (e : ℕ) (s : Answer × Opening) (c : Checked)
        → check_round p 64 1024 32 k fresh m_hat pk_seed pubout e s ≡ some c
        → c.error ≡ false
        → c.output ≡ true
        → IsReplayed e s c.row
    unfolding check_round
    check_round-IsReplayed e (a, z) c h =
        let ((error, (a', zh)), ran, h1) = some_case (round_call e a z) none _ c h (cc) in
        subst (λ d. d.error ≡ false → d.output ≡ true → IsReplayed e (a, z) d.row) (some_eq _ c h1)
          (call-IsReplayed e a z error a' zh ran)

    pub check_rounds-AreReplayed :
        (p_out : List ℕ) (sent : List (Answer × Opening)) (cs : List Checked)
        → check_rounds p 64 1024 32 k fresh m_hat pk_seed pubout p_out sent ≡ some cs
        → length sent ≡ length p_out
        → rounds_pass cs ≡ true
        → AreReplayed p_out sent (map (λ c. c.row) cs)
    unfolding check_rounds rounds_pass
    check_rounds-AreReplayed [] [] cs h same pass =
        subst (λ l. AreReplayed [] [] (map (λ c. c.row) l)) (some_eq [] cs h) tt
    check_rounds-AreReplayed [] (s ∷ sent) cs h same pass = absurd (omega arith)
    check_rounds-AreReplayed (e ∷ p_out) [] cs h same pass = absurd (omega arith)
    check_rounds-AreReplayed (e ∷ p_out) (s ∷ sent) cs h same pass =
        let (c, one, h1) =
          some_case (check_round p 64 1024 32 k fresh m_hat pk_seed pubout e s) none _ cs h (cc) in
        let (others, rest, h2) =
          some_case (check_rounds p 64 1024 32 k fresh m_hat pk_seed pubout p_out sent) none _ cs h1
            (cc) in
        subst (λ l. rounds_pass l ≡ true → AreReplayed (e ∷ p_out) (s ∷ sent) (map (λ c. c.row) l))
          (some_eq _ cs h2)
          (λ passed.
            let (clear, (out, later)) = pass_parts c others passed in
            (
              check_round-IsReplayed e s c one clear out,
              check_rounds-AreReplayed p_out sent others rest (omega (arith, same)) later,
            ))
          pass
