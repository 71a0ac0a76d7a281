-- ===== src/Circuit/Prove.antt =====
-- kkw/src/MPC_prove_functions.c: `mpc_AND` and `mpc_ADD`; the children are the hash. The gates
-- read their operands before they store the result, so an output that is also an input is safe.
pub mod Laws
pub mod Compress
pub mod Hash
use hash_blind_signatures.Common.{
  ℕ, zero, suc, ◌+◌, ◌-◌, ◌*◌, ◌%◌, ◌^◌, bit_xor, bit_and, Option, none, some, [], ◌∷◌, ◌++◌, List,
  Bytes, u32, get_or, set, tabulate, replicate, ◌==◌, if◌then◌else◌, take, map,
}
use hash_blind_signatures.Circuit.Shares.{
  Masked, share, xor_from, tape_lam, tape_prod, prefix_xor_shift, mw_const, mpc_xor,
  mpc_right_rotate,
}

-- What the gates write besides their results: the corrections, each party's messages (a row of
-- `s_all` for each party; `none` for a NULL pointer) and the number of gates so far.
pub record Transcript : Type 0 where
  pub aux : List ℕ
  pub s_all : Option (List (List ℕ))
  pub gate_count : ℕ

-- One message: what party `i` broadcasts for a product of two masked words.
abbrev pub message_of : ℕ → ℕ → ℕ → (ℕ → ℕ) → (ℕ → ℕ) → (ℕ → ℕ) → (ℕ → ℕ) → ℕ → ℕ
message_of xh yh corr lx ly t lz i =
    let s = bit_xor (bit_xor (bit_xor (bit_and xh (ly i)) (bit_and yh (lx i))) (t i)) (lz i) in
    if i == 0 then bit_xor s (bit_xor (bit_and xh yh) corr) else s

-- On `n` parties (N_PARTIES).
module _ (n : ℕ) where
  -- `aux[g] = corr`, `s_all[i][g] = s(i)` for each party, and the next gate.
  unfoldable pub record_gate : Transcript → ℕ → (ℕ → ℕ) → Transcript
  record_gate tr corr s = record {
    aux = set tr.aux tr.gate_count corr;
    s_all = elim tr.s_all [
      | none ↦ none
      | some rows ↦ some (tabulate n (λ i. set (get_or rows i []) tr.gate_count (s i)))
    ];
    gate_count = tr.gate_count + 1;
  }

  module _ (tapes : List Bytes) where
    -- A share of the mask of gate `g`'s result, and of the product of its operands' masks.
    abbrev pub mask_at : ℕ → ℕ → ℕ
    mask_at g i = tape_lam (get_or tapes i []) g

    abbrev pub product_at : ℕ → ℕ → ℕ
    product_at g i = tape_prod (get_or tapes i []) g

    unfoldable pub and_corr : Masked → Masked → ℕ → ℕ
    and_corr x y g =
        bit_xor (bit_and (xor_from 0 n (share x)) (xor_from 0 n (share y)))
          (xor_from 0 n (product_at g))

    unfoldable pub and_message : Masked → Masked → ℕ → ℕ → ℕ
    and_message x y g =
        message_of x.h y.h (and_corr x y g) (share x) (share y) (product_at g) (mask_at g)

    unfoldable pub mpc_and : Masked → Masked → Transcript → Masked × Transcript
    mpc_and x y tr =
        let g = tr.gate_count in
        (
          record { h = xor_from 0 n (and_message x y g); l = tabulate n (mask_at g) },
          record_gate tr (and_corr x y g) (and_message x y g),
        )

    -- A share of the mask of the carries.
    abbrev pub carry_mask : ℕ → ℕ → ℕ
    carry_mask g i = prefix_xor_shift (mask_at g i)

    -- The masked carries `ch`.
    unfoldable pub carries : Masked → Masked → ℕ → ℕ
    carries x y g =
        let xv = bit_xor x.h (xor_from 0 n (share x)) in
        let yv = bit_xor y.h (xor_from 0 n (share y)) in
        bit_xor (bit_xor (bit_xor (u32 (xv + yv)) xv) yv) (xor_from 0 n (carry_mask g))

    unfoldable pub add_corr : Masked → Masked → ℕ → ℕ
    add_corr x y g =
        let lc = xor_from 0 n (carry_mask g) in
        bit_and
          (bit_xor
            (bit_and (bit_xor (xor_from 0 n (share x)) lc) (bit_xor (xor_from 0 n (share y)) lc))
            (xor_from 0 n (product_at g)))
          2147483647

    unfoldable pub add_message : Masked → Masked → ℕ → ℕ → ℕ
    add_message x y g =
        let ch = carries x y g in
        message_of (bit_xor x.h ch) (bit_xor y.h ch) (add_corr x y g)
          (λ i. bit_xor (share x i) (carry_mask g i)) (λ i. bit_xor (share y i) (carry_mask g i))
          (product_at g) (mask_at g)

    unfoldable pub mpc_add : Masked → Masked → Transcript → Masked × Transcript
    mpc_add x y tr =
        let g = tr.gate_count in
        (
          record {
            h = bit_xor (bit_xor x.h y.h) (carries x y g);
            l = tabulate n (λ i. bit_xor (bit_xor (share x i) (share y i)) (carry_mask g i));
          },
          record_gate tr (add_corr x y g) (add_message x y g),
        )
