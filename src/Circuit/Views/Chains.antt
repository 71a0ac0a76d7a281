-- ===== src/Circuit/Views/Chains.antt =====
-- kkw/src/pooled_chains.inc: the chains of the one-time signature, advanced along the masked
-- schedule, all in one pool.
mod Select
use hash_blind_signatures.Common.{
  ℕ, zero, suc, ◌+◌, ◌-◌, ◌*◌, ◌/◌, ◌%◌, ◌^◌, ◌≡◌, refl, arith, bit_xor, bit_and, [], ◌∷◌, ◌++◌,
  List, Bytes, u8, u32, get_or, set, take, tabulate, replicate,
}
use hash_blind_signatures.Xmss.Params.{
  node_bytes, pk_seed_bytes, wots_len, wots_max_steps, coord_res_bits, tweak_chain,
}
use hash_blind_signatures.Xmss.Hashes.{bit_at, coord_bit_pos}
use hash_blind_signatures.Protocol.User.{w_leafidx_off, schedule_len}
use hash_blind_signatures.Circuit.Shares.{Masked, share, xor_from, mw_const, mpc_xor}
use hash_blind_signatures.Circuit.Input.{valid_sizes}
use hash_blind_signatures.Circuit.Prove.Compress.{masked_at}
use hash_blind_signatures.Common.Comp.{Comp, ◌>>=◌, give, loop, each}
use hash_blind_signatures.Circuit.Engine.{
  Engine, IsCounted, Runs, Runs-do, Runs-map, Runs-loop, Runs-each, and_of, and_of-Runs,
}
use hash_blind_signatures.Circuit.Views.Lanes.{
  Buffer, read_word, on_words, load_word, byte_buffer, stored, joined, slice, public_bytes,
  input_of, w_sig_off, w_schedule_off,
}
use hash_blind_signatures.Circuit.Views.Chains.Select.{
  groups, lanes_of, invalid_of, masks_of, or_into, one_hot, select, count_group, pick_half,
  or_into-Runs, one_hot-Runs, select-Runs, count_group-Runs, pick_half-Runs,
}

-- What the loop over the schedule carries.
pub record Pool : Type 0 where
  pub nodes : List (List Masked)
  pub positions : List Masked
  pub check : Masked

abbrev pub node_at : List (List Masked) → ℕ → ℕ → Masked
node_at nodes ci w = masked_at (get_or nodes ci []) w

-- The bits of the digits of the chains of group `g`, each chain in a byte.
abbrev pub packed_digits : ℕ → Bytes → ℕ
packed_digits g mh = xor_from 0 (lanes_of g) (λ t.
    xor_from 0 coord_res_bits
      (λ b. u32 (bit_at mh (coord_bit_pos (4 * g + t) + b) * 2 ^ (8 * t + b))))

-- `positions[g].h ^= XMSS_WOTS_MAX_STEPS << (8 * lane)`, for each lane
abbrev pub less_ends : ℕ → Masked → Masked
less_ends g x = record x { h = xor_from x.h (lanes_of g) (λ t. u32 (wots_max_steps * 2 ^ (8 * t))) }

-- On `n` shares.
module _ (n : ℕ) where
  unfoldable pub start_pool : Buffer → Buffer → Pool
  start_pool w mh = record {
    nodes =
        tabulate wots_len
          (λ ci. tabulate 4 (load_word n (slice n (w_sig_off + ci * node_bytes) node_bytes w)));
    positions = tabulate groups (λ g. read_word n (packed_digits g) mh);
    check = mw_const n 0;
  }

  -- The schedule entry of a step.
  abbrev pub entry_at : Buffer → ℕ → Masked
  entry_at w step = read_word n (λ xs. get_or xs (w_schedule_off + step) 0) w

  -- The public key's hashes.
  unfoldable pub flat_nodes : List (List Masked) → List Masked
  flat_nodes [] = []
  flat_nodes (ws ∷ nodes) = ws ++ flat_nodes nodes

module _ (E : Engine) (pk_seed : Bytes) (w : Buffer) where
  abbrev n : ℕ
  n = E.lanes

  -- The hash of a chain step.
  unfoldable pub step_hash : List Masked → Masked → Masked → Comp E.State Buffer
  step_hash selected idx position =
      E.hash
        (input_of (node_bytes + 1)
          (joined n (stored n selected) (public_bytes n (tweak_chain ∷ []))))
        (input_of (pk_seed_bytes + 4 + 2) (
          joined n (public_bytes n (take pk_seed_bytes pk_seed)) (
            joined n (slice n w_leafidx_off 4 w)
              (joined n (byte_buffer n idx) (byte_buffer n position)))))
        node_bytes

  -- `nodes[ci][t] ^= masks[ci] & delta`
  unfoldable pub update_node :
      List Masked → Masked → ℕ → ℕ → List (List Masked) → Comp E.State (List (List Masked))
  update_node masks delta t ci nodes = do
    z ← and_of E (masked_at masks ci) delta
    give (set nodes ci (set (get_or nodes ci []) t (mpc_xor n (node_at nodes ci t) z)))

  unfoldable pub update_nodes :
      List Masked → List Masked → Buffer → List (List Masked) → Comp E.State (List (List Masked))
  update_nodes masks selected hashed = loop 4 0 (λ t.
      loop wots_len 0
        (update_node masks (mpc_xor n (masked_at selected t) (load_word n hashed t)) t))

  -- What a step does with its chain, once the masks are known.
  unfoldable pub advance : Masked → List Masked → Masked → Pool → Comp E.State Pool
  advance idx masks check pool = do
    selected ← each 4 0 (λ t. select E masks (λ ci. node_at pool.nodes ci t))
    (positions, position) ← loop groups 0 (count_group E masks) (pool.positions, mw_const n 0)
    half ← pick_half E idx 1 position
    position' ← pick_half E idx 0 half
    hashed ← step_hash selected idx position'
    nodes ← update_nodes masks selected hashed pool.nodes
    give (record { nodes = nodes; positions = positions; check = check })

  -- One round of the loop over the schedule.
  unfoldable pub pool_step : ℕ → Pool → Comp E.State Pool
  pool_step step pool = do
    let idx = entry_at n w step
    first ← one_hot E idx 0
    second ← one_hot E idx 1
    let second' = on_words n (λ v. bit_and v 1023) second
    check ← or_into E pool.check (invalid_of n first second')
    advance idx (masks_of n first second') check pool

  -- `pool_chains` and `pool_v_chains`: the hashes, and the word that is to be zero.
  unfoldable pub pool_chains : Buffer → Comp E.State (Buffer × Masked)
  pool_chains mh = do
    pool ← loop schedule_len 0 pool_step (start_pool n w mh)
    check ←
        loop groups 0 (λ g check. or_into E check (less_ends g (masked_at pool.positions g)))
          pool.check
    give (stored n (flat_nodes n pool.nodes), check)

  module _ (c : IsCounted E) where
    advance-Runs :
        (idx : Masked) (masks : List Masked) (check : Masked) (pool : Pool)
        → Runs E.gates 696 (advance idx masks check pool)
    unfolding advance step_hash update_nodes update_node valid_sizes
    advance-Runs idx masks check pool =
        Runs-do refl (Runs-each 4 0 λ t. select-Runs E c masks _) λ selected.
          Runs-do refl (Runs-loop groups 0 _ (count_group-Runs E c masks)) λ counted.
            Runs-do refl (pick_half-Runs E c idx 1 _) λ half.
              Runs-do refl (pick_half-Runs E c idx 0 half) λ position.
                Runs-do refl (c.hash-Runs _ _ node_bytes refl) λ hashed. Runs-map _ (
                  Runs-loop 4 0 _ λ t nodes.
                    Runs-loop wots_len 0 nodes λ ci nodes'. Runs-map _ (and_of-Runs E c _ _))

    pool_step-Runs : (step : ℕ) (pool : Pool) → Runs E.gates 711 (pool_step step pool)
    unfolding pool_step
    pool_step-Runs step pool = Runs-do refl (one_hot-Runs E c _ 0) λ first.
        Runs-do refl (one_hot-Runs E c _ 1)
          λ second. Runs-do refl (or_into-Runs E c _ _) λ check. advance-Runs _ _ check pool

    pub pool_chains-Runs : (mh : Buffer) → Runs E.gates 70400 (pool_chains mh)
    unfolding pool_chains
    pool_chains-Runs mh =
        Runs-do refl (Runs-loop schedule_len 0 _ pool_step-Runs)
          λ pool. Runs-map _ (Runs-loop groups 0 _ λ g check. or_into-Runs E c check _)
