-- ===== src/Circuit/Verify/Add.antt =====
-- mpc_ADD_verify of kkw/src/MPC_verify_functions.c next to mpc_ADD of kkw/src/MPC_prove_functions.c.
mod Digits
mod Messages
mod Carry
use hash_blind_signatures.Common.{
  ℕ, zero, suc, ◌+◌, ◌-◌, ◌*◌, ◌/◌, ◌%◌, ◌^◌, ◌≤◌, ◌<◌, bit_and, bit_xor, bit_or, ◌≡◌, refl, ◌∙◌,
  sym, ap, ap₂, arith, u32, [], List, Bytes, get_or, tabulate, tabulate_ext, get_or-tabulate, ◌==◌,
  ==_iff, if◌then◌else◌, Bool-cases, inl, inr, true, false, two-pow-suc, two-pow_mono, two-pow_pos,
}
use native.Mathlib.Nat.{mod-eq_of_lt, mod-lt}
use hash_blind_signatures.Bits.{
  xor_comm, xor_assoc, xor_self, xor-zero, xor_cancel, zero-xor, and_comm, and-zero, or-shifted,
}
use hash_blind_signatures.Bits.Width.{
  bit_of, bit_of-xor, bit_of-and, bit_of-half, bit_of-low, low-next,
}
use hash_blind_signatures.Circuit.Shares.{
  Masked, share, unmask, xor_from, prefix_xor_shift, tape_lam, tape_prod,
}
use hash_blind_signatures.Circuit.Shares.Laws.{
  xor_medial, xor_right_comm, xor_from_ext, xor_from-start, xor_from-xor, xor_from-and,
}
use hash_blind_signatures.Circuit.Adder.{carry_word}
use hash_blind_signatures.Circuit.Adder.Carries.{
  mask_sum, masked_carries, masked_carries-first, masked_carries-next, masked_carries-lt,
}
use hash_blind_signatures.Circuit.Prove.{
  Transcript, message_of, mask_at, product_at, carry_mask, carries, add_corr, add_message, mpc_add,
}
use hash_blind_signatures.Circuit.Prove.Laws.{product_algebra}
use hash_blind_signatures.Circuit.Verify.{
  orig, Replay, carry_bit, carry_loop, add_slot, mpc_add_verify, slot_mask, slot_product,
  slot_carry, slot_sum,
}
use hash_blind_signatures.Circuit.Verify.Laws.{
  hide, hide_tapes, xor_from_hidden, orig-lt, share-hide, tape-hide,
}
use hash_blind_signatures.Circuit.Verify.Add.Carry.{add_word-hide}

-- At a gate where the tapes' mask words and the values of the operands are 32-bit words, and the
-- verifier has the prover's correction and the hidden party's message: the verifier's adder,
-- which finds the carries bit by bit, on the operands and tapes without the hidden party, gives
-- the prover's result without the hidden party's share.
pub mpc_add_verify-hide :
    (m e : ℕ) (tapes : List Bytes) (msgs_e aux : List ℕ) (x y : Masked) (tr : Transcript)
    (rp : Replay)
    → e ≤ m
    → ((i : ℕ) → i < suc m → mask_at (suc m) tapes tr.gate_count i < 2 ^ 32)
    → unmask (suc m) x < 2 ^ 32
    → unmask (suc m) y < 2 ^ 32
    → rp.gate_count ≡ tr.gate_count
    → get_or aux tr.gate_count 0 ≡ add_corr (suc m) tapes x y tr.gate_count
    → get_or msgs_e tr.gate_count 0 ≡ add_message (suc m) tapes x y tr.gate_count e
    → (mpc_add_verify m e (hide_tapes m e tapes) msgs_e aux (hide m e x) (hide m e y) rp).0
      ≡ hide m e (mpc_add (suc m) tapes x y tr).0
unfolding mpc_add_verify mpc_add unmask hide carry_loop
mpc_add_verify-hide m e tapes msgs_e aux x y tr rp small words hx hy same corrected sent =
    ap at_gate same
    ∙ add_word-hide m e small tapes msgs_e aux x y tr.gate_count words corrected sent hx hy
  where
    at_gate : ℕ → Masked
    at_gate g = record {
      h =
          bit_xor (bit_xor (hide m e x).h (hide m e y).h)
            (carry_loop m e (hide_tapes m e tapes) msgs_e aux (hide m e x) (hide m e y) g 31 0 0);
      l = tabulate m (λ j.
          bit_xor (bit_xor (share (hide m e x) j) (share (hide m e y) j))
            (slot_carry m e (hide_tapes m e tapes) msgs_e aux g j));
    }
