-- ===== src/Circuit/Views/Chains/Select.antt =====
-- kkw/src/pooled_chains.inc: how a step finds its chain from the masked schedule entry, without
-- an index into an array.
use hash_blind_signatures.Common.{
  ℕ, zero, suc, ◌+◌, ◌-◌, ◌*◌, ◌/◌, ◌%◌, ◌^◌, refl, bit_xor, bit_or, [], ◌∷◌, List, u32, set,
  tabulate, ltb, if◌then◌else◌,
}
use hash_blind_signatures.Xmss.Params.{wots_len}
use hash_blind_signatures.Circuit.Shares.{Masked, share, xor_from, mw_const, mpc_xor}
use hash_blind_signatures.Circuit.Prove.Compress.{masked_at}
use hash_blind_signatures.Common.Comp.{Comp, ◌>>=◌, give, loop}
use hash_blind_signatures.Circuit.Engine.{
  Engine, IsCounted, Runs, Runs-do, Runs-map, Runs-loop, and_of, add_of, and_of-Runs, add_of-Runs,
}
use hash_blind_signatures.Circuit.Views.Lanes.{on_words, bitmask}

-- GROUPS
abbrev pub groups : ℕ
groups = (wots_len + 3) / 4

-- `pattern |= (1u ^ (((32 * g + lane) >> b) & 1u)) << lane`, for the lanes below `n`
unfoldable pub pattern_of : ℕ → ℕ → ℕ → ℕ
pattern_of g b zero = 0
pattern_of g b (suc n) =
    bit_or (pattern_of g b n) (u32 (bit_xor 1 ((32 * g + n) / 2 ^ b % 2) * 2 ^ n))

-- `x ^= x >> 16; ...; return x & 1u;`
unfoldable pub parity : ℕ → ℕ
parity x = folded (folded (folded (folded (folded x 16) 8) 4) 2) 1 % 2
  where
    folded : ℕ → ℕ → ℕ
    folded v k = bit_xor v (v / 2 ^ k)

-- The lanes of group `g`: `lane < 4 && 4 * g + lane < XMSS_WOTS_LEN`.
abbrev pub lanes_of : ℕ → ℕ
lanes_of g = if ltb (wots_len - 4 * g) 4 then wots_len - 4 * g else 4

-- On `n` shares.
module _ (n : ℕ) where
  unfoldable pub match_of : Masked → ℕ → ℕ → Masked
  match_of idx g b =
      let match = bitmask n idx b in record match { h = bit_xor match.h (pattern_of g b 32) }

  -- `invalid`: no lane of the two words is set.
  unfoldable pub invalid_of : Masked → Masked → Masked
  invalid_of first second = record {
    h = bit_xor (parity (bit_xor first.h second.h)) 1;
    l = tabulate n (λ i. parity (bit_xor (share first i) (share second i)));
  }

  -- `masks[ci]`, from the two words
  unfoldable pub masks_of : Masked → Masked → List Masked
  masks_of first second =
      tabulate wots_len (λ ci. bitmask n (masked_at (first ∷ second ∷ []) (ci / 32)) (ci % 32))

  -- The xor over a group's lanes of what `f` makes of each lane's mask.
  abbrev pub over_lanes : (ℕ → ℕ → ℕ) → List Masked → ℕ → Masked
  over_lanes f masks g = record {
    h = xor_from 0 (lanes_of g) (λ t. f t (masked_at masks (4 * g + t)).h);
    l =
        tabulate n
          (λ i. xor_from 0 (lanes_of g) (λ t. f t (share (masked_at masks (4 * g + t)) i)));
  }

  unfoldable pub increment_of : List Masked → ℕ → Masked
  increment_of = over_lanes (λ t v. u32 (v % 2 * 2 ^ (8 * t)))

  unfoldable pub group_mask_of : List Masked → ℕ → Masked
  group_mask_of = over_lanes (λ t v. v)

module _ (E : Engine) where
  -- `or_into`
  unfoldable pub or_into : Masked → Masked → Comp E.State Masked
  or_into x y = do t ← and_of E x y; give (mpc_xor E.lanes (mpc_xor E.lanes x y) t)

  -- `onehot[g]`
  unfoldable pub one_hot : Masked → ℕ → Comp E.State Masked
  one_hot idx g =
      loop 7 1 (λ b acc. and_of E acc (match_of E.lanes idx g b)) (match_of E.lanes idx g 0)

  -- `acc ^= masks[ci] & of(ci)` over the chains.
  unfoldable pub select : List Masked → (ℕ → Masked) → Comp E.State Masked
  select masks of_chain =
      loop wots_len 0
        (λ ci acc. do t ← and_of E (masked_at masks ci) (of_chain ci); give (mpc_xor E.lanes acc t))
        (mw_const E.lanes 0)

  -- One group: its counters, and the position so far.
  unfoldable pub count_group :
      List Masked → ℕ → List Masked × Masked → Comp E.State (List Masked × Masked)
  count_group masks g (positions, position) = do
    counted ← add_of E (masked_at positions g) (increment_of E.lanes masks g)
    t ← and_of E (group_mask_of E.lanes masks g) counted
    give (set positions g counted, mpc_xor E.lanes position t)

  -- `position ^= mask & (position ^ (position >> (8 << b)))`
  unfoldable pub pick_half : Masked → ℕ → Masked → Comp E.State Masked
  pick_half idx b position = do
    t ←
        and_of E (bitmask E.lanes idx b)
          (on_words E.lanes (λ v. bit_xor v (v / 2 ^ (8 * 2 ^ b))) position)
    give (mpc_xor E.lanes position t)

  module _ (c : IsCounted E) where
    pub or_into-Runs : (x y : Masked) → Runs E.gates 1 (or_into x y)
    unfolding or_into
    or_into-Runs x y = Runs-map _ (and_of-Runs E c x y)

    pub one_hot-Runs : (idx : Masked) (g : ℕ) → Runs E.gates 7 (one_hot idx g)
    unfolding one_hot
    one_hot-Runs idx g = Runs-loop 7 1 _ λ b acc. and_of-Runs E c _ _

    pub select-Runs :
        (masks : List Masked) (of_chain : ℕ → Masked) → Runs E.gates 42 (select masks of_chain)
    unfolding select
    select-Runs masks of_chain = Runs-loop wots_len 0 _ λ ci acc. Runs-map _ (and_of-Runs E c _ _)

    pub count_group-Runs :
        (masks : List Masked) (g : ℕ) (state : List Masked × Masked)
        → Runs E.gates 2 (count_group masks g state)
    unfolding count_group
    count_group-Runs masks g (positions, position) =
        Runs-do refl (add_of-Runs E c _ _) λ counted. Runs-map _ (and_of-Runs E c _ _)

    pub pick_half-Runs :
        (idx : Masked) (b : ℕ) (position : Masked) → Runs E.gates 1 (pick_half idx b position)
    unfolding pick_half
    pick_half-Runs idx b position = Runs-map _ (and_of-Runs E c _ _)
