-- ===== src/Circuit/Verify.antt =====
-- kkw/src/MPC_verify_functions.c: the gates as the verifier computes them, without the shares
-- and the tape of the hidden party `e`.
pub mod Laws
pub mod Add
pub mod Compress
pub mod Hash
use hash_blind_signatures.Common.{
  ℕ, zero, suc, ◌+◌, ◌-◌, ◌*◌, ◌/◌, ◌%◌, ◌^◌, bit_xor, bit_and, bit_or, [], ◌∷◌, List, Bytes, u32,
  get_or, set, tabulate, ◌==◌, ltb, if◌then◌else◌,
}
use hash_blind_signatures.Bits.Width.{bit_of}
use hash_blind_signatures.Circuit.Shares.{
  Masked, share, xor_from, tape_lam, tape_prod, prefix_xor_shift,
}

-- The party that is in slot `j`.
abbrev pub orig : ℕ → ℕ → ℕ
orig j e = if ltb j e then j else j + 1

-- What the gates write besides their results: the messages of each slot, and the gates so far.
pub record Replay : Type 0 where
  pub s_slots : List (List ℕ)
  pub gate_count : ℕ

-- The message that slot `j` must have sent for a product of two masked words.
abbrev pub slot_message : ℕ → ℕ → ℕ → ℕ → (ℕ → ℕ) → (ℕ → ℕ) → (ℕ → ℕ) → (ℕ → ℕ) → ℕ → ℕ
slot_message e xh yh corr lx ly t lz j =
    let s = bit_xor (bit_xor (bit_xor (bit_and xh (ly j)) (bit_and yh (lx j))) (t j)) (lz j) in
    if orig j e == 0 then bit_xor s (bit_xor (bit_and xh yh) corr) else s

-- On `m` slots (N_PARTIES - 1); `msgs_e` are the hidden party's messages, `aux` the corrections.
module _ (m e : ℕ) where
  -- `s_slots[j][g] = s(j)` for each slot, and the next gate.
  unfoldable pub replay_gate : Replay → (ℕ → ℕ) → Replay
  replay_gate rp s = record {
    s_slots = tabulate m (λ j. set (get_or rp.s_slots j []) rp.gate_count (s j));
    gate_count = rp.gate_count + 1;
  }

  module _ (tapes : List Bytes) (msgs_e aux : List ℕ) where
    abbrev pub slot_mask : ℕ → ℕ → ℕ
    slot_mask g j = tape_lam (get_or tapes j []) g

    abbrev pub slot_product : ℕ → ℕ → ℕ
    slot_product g j = tape_prod (get_or tapes j []) g

    unfoldable pub and_slot : Masked → Masked → ℕ → ℕ → ℕ
    and_slot x y g =
        slot_message e x.h y.h (get_or aux g 0) (share x) (share y) (slot_product g) (slot_mask g)

    unfoldable pub mpc_and_verify : Masked → Masked → Replay → Masked × Replay
    mpc_and_verify x y rp =
        let g = rp.gate_count in
        (
          record {
            h = xor_from (get_or msgs_e g 0) m (and_slot x y g);
            l = tabulate m (slot_mask g);
          },
          replay_gate rp (and_slot x y g),
        )

    abbrev pub slot_carry : ℕ → ℕ → ℕ
    slot_carry g j = prefix_xor_shift (slot_mask g j)

    -- `lp` and `lq`
    abbrev pub slot_sum : Masked → ℕ → ℕ → ℕ
    slot_sum x g j = bit_xor (share x j) (slot_carry g j)

    -- The message bit of the hidden party is compared with what the others sent: a bit of the
    -- mask of the carry.
    unfoldable pub carry_bit : Masked → Masked → ℕ → ℕ → ℕ → ℕ
    carry_bit x y g ch b =
        let pb = bit_of (bit_xor x.h ch) b in
        let qb = bit_of (bit_xor y.h ch) b in
        let has0 = if e == 0 then 0 else 1 in
        bit_xor (bit_of (get_or msgs_e g 0) b) (
          bit_xor
            (bit_xor
              (bit_xor
                (bit_xor (bit_and pb (bit_of (xor_from 0 m (slot_sum y g)) b))
                  (bit_and qb (bit_of (xor_from 0 m (slot_sum x g)) b)))
                (bit_of (xor_from 0 m (slot_product g)) b))
              (bit_of (xor_from 0 m (slot_mask g)) b))
            (bit_and has0 (bit_xor (bit_and pb qb) (bit_of (get_or aux g 0) b))))

    -- The loop over the bits from `b`, with `left` to go: the masked carries, bit by bit.
    unfoldable pub carry_loop : Masked → Masked → ℕ → ℕ → ℕ → ℕ → ℕ
    carry_loop x y g zero b ch = ch
    carry_loop x y g (suc left) b ch =
        carry_loop x y g left (b + 1)
          (bit_or ch (u32 (bit_xor (bit_of ch b) (carry_bit x y g ch b) * 2 ^ (b + 1))))

    unfoldable pub add_slot : Masked → Masked → ℕ → ℕ → ℕ → ℕ
    add_slot x y g ch =
        slot_message e (bit_xor x.h ch) (bit_xor y.h ch) (get_or aux g 0) (slot_sum x g)
          (slot_sum y g) (slot_product g) (slot_mask g)

    unfoldable pub mpc_add_verify : Masked → Masked → Replay → Masked × Replay
    mpc_add_verify x y rp =
        let g = rp.gate_count in
        let ch = carry_loop x y g 31 0 0 in
        (
          record {
            h = bit_xor (bit_xor x.h y.h) ch;
            l = tabulate m (λ j. bit_xor (bit_xor (share x j) (share y j)) (slot_carry g j));
          },
          replay_gate rp (add_slot x y g ch),
        )
