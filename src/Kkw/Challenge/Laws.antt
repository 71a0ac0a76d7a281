-- ===== src/Kkw/Challenge/Laws.antt =====
-- The shuffle and the draws of `kkw_fs_expand` of kkw/src/shared.c.
use hash_blind_signatures.Common.{
  ℕ, zero, suc, ◌+◌, ◌-◌, ◌<◌, ◌≤◌, ◌≡◌, ◌∙◌, refl, sym, ap, arith, [], ◌∷◌, List, Bytes, none,
  some, length, get_or, set, take, tabulate, get_or-tabulate, length-tabulate, length-set, ◌==◌,
  if◌then◌else◌, Option-cases, inl, inr,
}
use mathlib.Core.Path.{subst}
use hash_blind_signatures.Platform.{Platform}
use hash_blind_signatures.Kkw.Challenge.{
  Prg, swap, prg_byte, prg_init, prg_below, shuffle_loop, party_draw, party_loop, kkw_fs_expand,
}

get_or-set :
    (xs : List ℕ) (i k v : ℕ)
    → i < length xs
    → get_or (set xs i v) k 0 ≡ (if k == i then v else get_or xs k 0)
get_or-set [] i k v h = absurd (omega arith)
get_or-set (x ∷ xs) zero zero v h = refl
get_or-set (x ∷ xs) zero (suc k) v h = ground arith
get_or-set (x ∷ xs) (suc i) zero v h = ground arith
get_or-set (x ∷ xs) (suc i) (suc k) v h = get_or-set xs i k v (omega arith) ∙ shifted
  where
    shifted : (if k == i then v else get_or xs k 0) ≡ (if suc k == suc i then v else get_or xs k 0)
    shifted = ground arith

-- Every entry is below `n`.
abbrev pub IsBelow : ℕ → List ℕ → Type 0
IsBelow n [] = Unit {0}
IsBelow n (x ∷ xs) = (x < n) × IsBelow n xs

-- Where the entry at `k` came from in a swap.
abbrev pub swapped : ℕ → ℕ → ℕ → ℕ
swapped i j k = if k == j then i else (if k == i then j else k)

get_or-swap :
    (arr : List ℕ) (i j k : ℕ)
    → i < length arr
    → j < length arr
    → get_or (swap arr i j) k 0 ≡ get_or arr (swapped i j k) 0
get_or-swap arr i j k hi hj = ground (
  arith,
  get_or-set (set arr i (get_or arr j 0)) j k (get_or arr i 0)
      (omega (arith, length-set {0} arr i (get_or arr j 0))),
  get_or-set arr i k (get_or arr j 0) hi,
)

-- An arrangement of the numbers below `m`.
pub record IsArrangement (m : ℕ) (arr : List ℕ) : Type 0 where
  pub size : length arr ≡ m
  pub below : (k : ℕ) → k < m → get_or arr k 0 < m
  pub distinct : (k l : ℕ) → k < m → l < m → get_or arr k 0 ≡ get_or arr l 0 → k ≡ l

identity-IsArrangement : (m : ℕ) → IsArrangement m (tabulate m (λ i. i))
identity-IsArrangement m = record {
  size = length-tabulate {0} m (λ i. i);
  below = λ k hk. omega (arith, get_or-tabulate {0} m k (λ i. i) 0 hk);
  distinct = λ k l hk hl e.
      omega
        (arith, e, get_or-tabulate {0} m k (λ i. i) 0 hk, get_or-tabulate {0} m l (λ i. i) 0 hl);
}

swap-IsArrangement :
    (m : ℕ) (arr : List ℕ) (i j : ℕ)
    → IsArrangement m arr
    → i < m
    → j < m
    → IsArrangement m (swap arr i j)
swap-IsArrangement m arr i j v hi hj = record {
  size =
      length-set {0} (set arr i (get_or arr j 0)) j (get_or arr i 0)
      ∙ length-set {0} arr i (get_or arr j 0)
      ∙ v.size;
  below = λ k hk. omega (arith, came k, v.below (swapped i j k) (swapped-lt k hk));
  distinct = λ k l hk hl e. unswapped k l (
      v.distinct (swapped i j k) (swapped i j l) (swapped-lt k hk) (swapped-lt l hl)
        (sym (came k) ∙ e ∙ came l));
}
  where
    came : (k : ℕ) → get_or (swap arr i j) k 0 ≡ get_or arr (swapped i j k) 0
    came k = get_or-swap arr i j k (omega (arith, v.size)) (omega (arith, v.size))

    swapped-lt : (k : ℕ) → k < m → swapped i j k < m
    swapped-lt k hk = ground arith

    unswapped : (k l : ℕ) → swapped i j k ≡ swapped i j l → k ≡ l
    unswapped k l e = ground arith

module _ (p : Platform) where
  -- A draw below a positive bound is below it.
  prg_below-lt :
      (fuel : ℕ) (g : Prg) (bound r : ℕ) (g' : Prg)
      → 0 < bound
      → prg_below p fuel g bound ≡ some (r, g')
      → r < bound
  unfolding prg_below
  prg_below-lt fuel g bound r g' pos h = ground arith

  shuffle_loop-IsArrangement :
      (fuel m left i : ℕ) (arr : List ℕ) (g : Prg) (arr' : List ℕ) (g' : Prg)
      → i + left ≤ m
      → IsArrangement m arr
      → shuffle_loop p fuel m left i arr g ≡ some (arr', g')
      → IsArrangement m arr'
  unfolding shuffle_loop
  shuffle_loop-IsArrangement fuel m zero i arr g arr' g' fits v h = subst (IsArrangement m) same v
    where
      same : arr ≡ arr'
      same = cc
  shuffle_loop-IsArrangement fuel m (suc left) i arr g arr' g' fits v h =
      elim (Option-cases (prg_below p fuel g (m - i))) [
        | inl failed ↦ stuck failed
        | inr ((r, g1), drawn) ↦
            shuffle_loop-IsArrangement fuel m left (i + 1) (swap arr i (i + r)) g1 arr' g'
              (omega arith)
              (swap-IsArrangement m arr i (i + r) v (omega arith)
                (omega (arith, prg_below-lt fuel g (m - i) r g1 (omega arith) drawn)))
              (continued r g1 drawn)
      ]
    where
      continued :
          (r : ℕ) (g1 : Prg)
          → prg_below p fuel g (m - i) ≡ some (r, g1)
          → shuffle_loop p fuel m left (i + 1) (swap arr i (i + r)) g1 ≡ some (arr', g')
      continued r g1 drawn = ground arith

      stuck : prg_below p fuel g (m - i) ≡ none → IsArrangement m arr'
      stuck failed = ground arith

  party_draw-lt :
      (fuel n : ℕ) (g : Prg) (v : ℕ) (g' : Prg)
      → 0 < n
      → party_draw p n fuel g ≡ some (v, g')
      → v < n
  unfolding party_draw
  party_draw-lt zero n g v g' pos h = cc
  party_draw-lt (suc fuel) n g v g' pos h =
      ground (arith, party_draw-lt fuel n (prg_byte p g).1 v g' pos)

  party_loop-IsBelow :
      (fuel n left : ℕ) (g : Prg) (parties : List ℕ)
      → 0 < n
      → party_loop p fuel n left g ≡ some parties
      → (length parties ≡ left) × IsBelow n parties
  unfolding party_loop
  party_loop-IsBelow fuel n zero g parties pos h =
      subst (λ ps. (length ps ≡ 0) × IsBelow n ps) same (refl, tt)
    where
      same : [] ≡ parties
      same = cc
  party_loop-IsBelow fuel n (suc left) g parties pos h =
      elim (Option-cases (party_draw p n fuel g)) [
        | inl failed ↦ stuck failed
        | inr ((v, g1), drawn) ↦ elim (Option-cases (party_loop p fuel n left g1)) [
          | inl failed ↦ stuck_later v g1 drawn failed
          | inr (rest, drawn_rest) ↦
              subst (λ ps. (length ps ≡ suc left) × IsBelow n ps) (whole v g1 drawn rest drawn_rest)
                (
                  ap suc (party_loop-IsBelow fuel n left g1 rest pos drawn_rest).0,
                  (
                    party_draw-lt fuel n g v g1 pos drawn,
                    (party_loop-IsBelow fuel n left g1 rest pos drawn_rest).1,
                  ),
                )
        ]
      ]
    where
      stuck : party_draw p n fuel g ≡ none → (length parties ≡ suc left) × IsBelow n parties
      stuck failed = ground arith

      stuck_later :
          (v : ℕ) (g1 : Prg)
          → party_draw p n fuel g ≡ some (v, g1)
          → party_loop p fuel n left g1 ≡ none
          → (length parties ≡ suc left) × IsBelow n parties
      stuck_later v g1 drawn failed = ground arith

      whole :
          (v : ℕ) (g1 : Prg)
          → party_draw p n fuel g ≡ some (v, g1)
          → (rest : List ℕ) → party_loop p fuel n left g1 ≡ some rest
          → v ∷ rest ≡ parties
      whole v g1 drawn rest drawn_rest = ground arith

  -- What a challenge is: the opened instances are the first of an arrangement of all of them,
  -- sorted, and there is a hidden party for each.
  pub record IsChallenge (qsort : List ℕ → List ℕ) (m rounds n : ℕ) (opened parties : List ℕ)
      : Type 0 where
    pub arranged : List ℕ
    pub arrangement : IsArrangement m arranged
    pub first : opened ≡ qsort (take rounds arranged)
    pub count : length parties ≡ rounds
    pub hidden : IsBelow n parties

  -- For at most as many rounds as instances, at least one party and any function for qsort: when
  -- kkw_fs_expand returns, the opened instances are qsort of the first entries of an arrangement
  -- of all instances without repetition, and there is a hidden party below the number of parties
  -- for each round.
  pub kkw_fs_expand-IsChallenge :
      (qsort : List ℕ → List ℕ) (fuel m rounds n : ℕ) (fresh seed : Bytes) (opened parties : List ℕ)
      → rounds ≤ m
      → 0 < n
      → kkw_fs_expand p qsort fuel m rounds n fresh seed ≡ some (opened, parties)
      → IsChallenge qsort m rounds n opened parties
  unfolding kkw_fs_expand
  kkw_fs_expand-IsChallenge qsort fuel m rounds n fresh seed opened parties fits pos h =
      elim (Option-cases
        (shuffle_loop p fuel m rounds 0 (tabulate m (λ i. i)) (prg_init p fresh seed))) [
          | inl failed ↦ stuck failed
          | inr ((arr, g), shuffled) ↦
              let ends = finished arr g shuffled in
              record {
                arranged = arr;
                arrangement =
                    shuffle_loop-IsArrangement fuel m rounds 0 (tabulate m (λ i. i))
                      (prg_init p fresh seed) arr g (omega arith) (identity-IsArrangement m)
                      shuffled;
                first = ends.1;
                count = (party_loop-IsBelow fuel n rounds g parties pos ends.0).0;
                hidden = (party_loop-IsBelow fuel n rounds g parties pos ends.0).1;
              }
        ]
    where
      stuck :
          shuffle_loop p fuel m rounds 0 (tabulate m (λ i. i)) (prg_init p fresh seed) ≡ none
          → IsChallenge qsort m rounds n opened parties
      stuck failed = ground arith

      finished :
          (arr : List ℕ) (g : Prg)
          → shuffle_loop p fuel m rounds 0 (tabulate m (λ i. i)) (prg_init p fresh seed)
            ≡ some (arr, g)
          → (party_loop p fuel n rounds g ≡ some parties) × (opened ≡ qsort (take rounds arr))
      finished arr g shuffled = ground arith
