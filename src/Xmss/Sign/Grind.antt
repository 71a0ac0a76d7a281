-- ===== src/Xmss/Sign/Grind.antt =====
-- The candidates of `xmss_grind_nonce` of kkw/src/xmss.c, one after another.
use hash_blind_signatures.Common.{
  ℕ, zero, suc, ◌<◌, ◌≡◌, refl, sym, ap, ◌∙◌, arith, Bool, true, false, Option, none, some, List,
  Bytes, length, get_or, ==_iff, if◌then◌else◌, Bool-cases, inl, inr,
}
use mathlib.Core.Path.{subst}
use hash_blind_signatures.Platform.{Platform}
use hash_blind_signatures.Random.{randombytes_fill}
use hash_blind_signatures.Xmss.Params.{nonce_len, wots_len, target_sum}
use hash_blind_signatures.Xmss.Hashes.{hash_message, extract_coords, sum_coords}
use hash_blind_signatures.Xmss.Hashes.Laws.{extract_coords-lt, length-extract_coords}
use hash_blind_signatures.Xmss.Sign.{Ground, found, rng_failed, accepts, grind_nonce}

-- What the two checks of a message hash ask for.
pub record IsGood (digits : List ℕ × Bool) : Type 0 where
  pub sum : sum_coords digits.0 ≡ target_sum
  pub leftover : digits.1 ≡ true

accepts-IsGood : (digits : List ℕ × Bool) → accepts digits ≡ true → IsGood digits
unfolding accepts
accepts-IsGood (coords, true) h = record {
  sum = ground (arith, ==_iff (sum_coords coords) target_sum);
  leftover = refl;
}
accepts-IsGood (coords, false) h = cc

IsGood-accepts : (digits : List ℕ × Bool) → accepts digits ≡ false → ¬ (IsGood digits)
unfolding accepts
IsGood-accepts (coords, true) h good =
    ground (arith, ==_iff (sum_coords coords) target_sum, good.sum)
IsGood-accepts (coords, false) h good = cc (good.leftover)

module _ (p : Platform) (pk_seed : Bytes) (epoch : ℕ) (message : Bytes) where
  -- The calls of the random source before candidate `t`, and that candidate.
  abbrev pub calls_before : ℕ → ℕ → ℕ
  calls_before calls zero = calls
  calls_before calls (suc t) = calls_before (randombytes_fill p calls nonce_len).0 t

  abbrev pub candidate : ℕ → ℕ → Option Bytes
  candidate calls t = (randombytes_fill p (calls_before calls t) nonce_len).1

  abbrev pub digits_for : Bytes → List ℕ × Bool
  digits_for nonce = extract_coords (hash_message p pk_seed epoch nonce message)

  -- Candidate `t` was drawn and is the first that is good.
  pub record IsFirst (fuel calls : ℕ) (nonce : Bytes) (coords : List ℕ) (calls' : ℕ) : Type 0 where
    pub t : ℕ
    pub in_time : t < fuel
    pub drawn : candidate calls t ≡ some nonce
    pub calls_made : calls' ≡ calls_before calls (suc t)
    pub digits : coords ≡ (digits_for nonce).0
    pub count : length coords ≡ wots_len
    pub bound : (i : ℕ) → i < wots_len → get_or coords i 0 < 8
    pub good : IsGood (digits_for nonce)
    pub earlier :
        (s : ℕ)
        → s < t
        → (nonce' : Bytes) × (candidate calls s ≡ some nonce') × (¬ (IsGood (digits_for nonce')))

  -- One candidate before those of a later result.
  later :
      {fuel calls calls' : ℕ} {nonce : Bytes} {coords : List ℕ} (before : Bytes)
      → candidate calls 0 ≡ some before
      → ¬ (IsGood (digits_for before))
      → IsFirst fuel (randombytes_fill p calls nonce_len).0 nonce coords calls'
      → IsFirst (suc fuel) calls nonce coords calls'
  later {calls = calls} before drawn bad f = record {
    t = suc f.t;
    in_time = omega (arith, f.in_time);
    drawn = f.drawn;
    calls_made = f.calls_made;
    digits = f.digits;
    count = f.count;
    bound = f.bound;
    good = f.good;
    earlier = all;
  }
    where
      all :
          (s : ℕ)
          → s < suc f.t
          → (nonce' : Bytes) × (candidate calls s ≡ some nonce') × (¬ (IsGood (digits_for nonce')))
      all zero small = (before, drawn, bad)
      all (suc s) small = f.earlier s (omega arith)

  -- The first candidate, when it is good.
  at_once :
      {fuel calls calls' : ℕ} {nonce : Bytes} {coords : List ℕ} (n : Bytes)
      → candidate calls 0 ≡ some n
      → accepts (digits_for n) ≡ true
      → found n (digits_for n).0 (randombytes_fill p calls nonce_len).0 ≡ found nonce coords calls'
      → IsFirst (suc fuel) calls nonce coords calls'
  at_once {nonce = nonce} {coords = coords} n e ok h = record {
    t = 0;
    in_time = omega arith;
    drawn = e ∙ ap some same;
    calls_made = cc;
    digits = digits;
    count = ap length digits ∙ length-extract_coords (hash_message p pk_seed epoch nonce message);
    bound = λ i small.
        subst (λ cs. get_or cs i 0 < 8) (sym digits)
          (extract_coords-lt (hash_message p pk_seed epoch nonce message) i small);
    good = subst (λ m. IsGood (digits_for m)) same (accepts-IsGood (digits_for n) ok);
    earlier = λ s small. absurd (omega arith);
  }
    where
      same : n ≡ nonce
      same = cc

      digits : coords ≡ (digits_for nonce).0
      digits = cc

  -- What the loop does with its first candidate.
  next_step :
      (fuel calls : ℕ) (nonce : Bytes) (coords : List ℕ) (calls' : ℕ) (o : Option Bytes)
      (again : Ground)
      → candidate calls 0 ≡ o
      → (again ≡ found nonce coords calls'
          → IsFirst fuel (randombytes_fill p calls nonce_len).0 nonce coords calls')
      → (elim o [
        | none ↦ rng_failed (randombytes_fill p calls nonce_len).0
        | some n ↦
            if accepts (digits_for n)
            then found n (digits_for n).0 (randombytes_fill p calls nonce_len).0
            else again
      ])
        ≡ found nonce coords calls'
      → IsFirst (suc fuel) calls nonce coords calls'
  next_step fuel calls nonce coords calls' none again e rest h = cc
  next_step fuel calls nonce coords calls' (some n) again e rest h =
      elim (Bool-cases (accepts (digits_for n))) [
        | inl ok ↦ at_once n e ok (ground arith)
        | inr bad ↦ later n e (IsGood-accepts (digits_for n) bad) (rest (ground arith))
      ]

  -- When grinding returns a nonce, it is one of the first `fuel` candidates that the random
  -- source gives, and the first of them whose message hash has the target sum of digits and clear
  -- leftover bits; the coordinates returned are the 42 digits of that hash, each below 8, and
  -- nothing is drawn after it.
  pub grind_nonce-IsFirst :
      (fuel calls : ℕ) (nonce : Bytes) (coords : List ℕ) (calls' : ℕ)
      → grind_nonce p fuel pk_seed epoch message calls ≡ found nonce coords calls'
      → IsFirst fuel calls nonce coords calls'
  unfolding grind_nonce
  grind_nonce-IsFirst zero calls nonce coords calls' h = cc
  grind_nonce-IsFirst (suc fuel) calls nonce coords calls' h =
      next_step fuel calls nonce coords calls' (candidate calls 0) _ refl
        (grind_nonce-IsFirst fuel (randombytes_fill p calls nonce_len).0 nonce coords calls') h
