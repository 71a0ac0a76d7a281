-- ===== src/Circuit/Verify/Add/Carry.antt =====
-- The carry loop of mpc_ADD_verify in kkw/src/MPC_verify_functions.c and the prover's carries.
use hash_blind_signatures.Common.{
  ℕ, zero, suc, ◌+◌, ◌%◌, ◌^◌, ◌≤◌, ◌<◌, bit_and, bit_xor, ◌≡◌, refl, ◌∙◌, sym, ap, ap₂, arith,
  List, Bytes, get_or, tabulate, tabulate_ext, get_or-tabulate, ◌==◌, if◌then◌else◌,
}
use native.Mathlib.Nat.{mod-eq_of_lt}
use hash_blind_signatures.Bits.Width.{bit_of, bit_of-low}
use hash_blind_signatures.Circuit.Shares.{
  Masked, share, xor_from, prefix_xor_shift, tape_lam, tape_prod,
}
use hash_blind_signatures.Circuit.Shares.Laws.{xor_from_ext}
use hash_blind_signatures.Circuit.Adder.Carries.{masked_carries-first, masked_carries-lt}
use hash_blind_signatures.Circuit.Prove.{
  mask_at, product_at, carry_mask, carries, add_corr, add_message,
}
use hash_blind_signatures.Circuit.Verify.{
  orig, carry_bit, carry_loop, add_slot, slot_mask, slot_product, slot_carry, slot_sum,
}
use hash_blind_signatures.Circuit.Verify.Laws.{hide, hide_tapes, orig-lt, share-hide, tape-hide}
use hash_blind_signatures.Circuit.Verify.Add.Digits.{carries-grow}
use hash_blind_signatures.Circuit.Verify.Add.Messages.{next_mask, next_mask-carry}

module _ (m e : ℕ) (small : e ≤ m) (tapes : List Bytes) (msgs_e aux : List ℕ) (x y : Masked) (g : ℕ)
    (words : (i : ℕ) → i < suc m → mask_at (suc m) tapes g i < 2 ^ 32)
    (corrected : get_or aux g 0 ≡ add_corr (suc m) tapes x y g)
    (sent : get_or msgs_e g 0 ≡ add_message (suc m) tapes x y g e) where
  abbrev pub opened : List Bytes
  opened = hide_tapes m e tapes

  pub slot_mask-hide :
      (j : ℕ) → j < m → slot_mask m e opened msgs_e aux g j ≡ mask_at (suc m) tapes g (orig j e)
  slot_mask-hide j hj = ap (λ t. tape_lam t g) (tape-hide m e small tapes j hj)

  pub slot_product-hide :
      (j : ℕ)
      → j < m
      → slot_product m e opened msgs_e aux g j ≡ product_at (suc m) tapes g (orig j e)
  slot_product-hide j hj = ap (λ t. tape_prod t g) (tape-hide m e small tapes j hj)

  pub slot_sum-hide :
      (w : Masked) (j : ℕ)
      → j < m
      → slot_sum m e opened msgs_e aux (hide m e w) g j
        ≡ bit_xor (share w (orig j e)) (prefix_xor_shift (mask_at (suc m) tapes g (orig j e)))
  slot_sum-hide w j hj =
      ap₂ (λ r s. bit_xor r (prefix_xor_shift s)) (share-hide m e small w j hj)
        (slot_mask-hide j hj)

  carry_bit-hide :
      (w b : ℕ)
      → carry_bit m e opened msgs_e aux (hide m e x) (hide m e y) g w b
        ≡ next_mask m e small x.h y.h
            (share x)
            (share y)
            (product_at (suc m) tapes g)
            (mask_at (suc m) tapes g)
            words
            w
            b
  unfolding carry_bit next_mask hide add_message add_corr carries
  carry_bit-hide w b i =
      let pb = bit_of (bit_xor x.h w) b in
      let qb = bit_of (bit_xor y.h w) b in
      bit_xor (bit_of (sent i) b) (
        bit_xor
          (bit_xor
            (bit_xor (bit_xor (bit_and pb (bit_of (qs i) b)) (bit_and qb (bit_of (ps i) b)))
              (bit_of (ts i) b))
            (bit_of (rs i) b))
          (bit_and (if e == 0 then 0 else 1) (bit_xor (bit_and pb qb) (bit_of (corrected i) b))))
    where
      qs :
          xor_from 0 m (slot_sum m e opened msgs_e aux (hide m e y) g)
          ≡ xor_from 0 m (λ j.
            bit_xor (share y (orig j e)) (prefix_xor_shift (mask_at (suc m) tapes g (orig j e))))
      qs =
          xor_from_ext 0 m (slot_sum m e opened msgs_e aux (hide m e y) g)
            (λ j.
              bit_xor (share y (orig j e)) (prefix_xor_shift (mask_at (suc m) tapes g (orig j e))))
            (slot_sum-hide y)

      ps :
          xor_from 0 m (slot_sum m e opened msgs_e aux (hide m e x) g)
          ≡ xor_from 0 m (λ j.
            bit_xor (share x (orig j e)) (prefix_xor_shift (mask_at (suc m) tapes g (orig j e))))
      ps =
          xor_from_ext 0 m (slot_sum m e opened msgs_e aux (hide m e x) g)
            (λ j.
              bit_xor (share x (orig j e)) (prefix_xor_shift (mask_at (suc m) tapes g (orig j e))))
            (slot_sum-hide x)

      ts :
          xor_from 0 m (slot_product m e opened msgs_e aux g)
          ≡ xor_from 0 m (λ j. product_at (suc m) tapes g (orig j e))
      ts =
          xor_from_ext 0 m (slot_product m e opened msgs_e aux g)
            (λ j. product_at (suc m) tapes g (orig j e)) slot_product-hide

      rs :
          xor_from 0 m (slot_mask m e opened msgs_e aux g)
          ≡ xor_from 0 m (λ j. mask_at (suc m) tapes g (orig j e))
      rs =
          xor_from_ext 0 m (slot_mask m e opened msgs_e aux g)
            (λ j. mask_at (suc m) tapes g (orig j e)) slot_mask-hide

  carry_loop-low :
      (left b w : ℕ)
      → b + left ≡ 31
      → w ≡ carries (suc m) tapes x y g % 2 ^ suc b
      → carry_loop m e opened msgs_e aux (hide m e x) (hide m e y) g left b w
        ≡ carries (suc m) tapes x y g % 2 ^ 32
  unfolding carry_loop carries
  carry_loop-low zero b w hb low = low ∙ ap (λ t. carries (suc m) tapes x y g % 2 ^ t) full
    where
      full : suc b ≡ 32
      full = omega arith
  carry_loop-low (suc left) b w hb low = carry_loop-low left (b + 1) _ (omega arith) (
      carries-grow (carries (suc m) tapes x y g) w b
        (bit_xor (bit_of w b) (carry_bit m e opened msgs_e aux (hide m e x) (hide m e y) g w b))
        (omega arith) low
        (ap (bit_xor (bit_of w b)) (carry_bit-hide w b)
          ∙ next_mask-carry m e small x.h y.h (share x) (share y) (product_at (suc m) tapes g)
              (mask_at (suc m) tapes g) words w b (omega arith) agree)
      ∙ ap (λ t. carries (suc m) tapes x y g % 2 ^ t) next)
    where
      next : suc (suc b) ≡ suc (b + 1)
      next = omega arith

      agree : bit_of w b ≡ bit_of (carries (suc m) tapes x y g) b
      agree =
          ap (λ t. bit_of t b) low
          ∙ bit_of-low (carries (suc m) tapes x y g) b (suc b) (omega arith)

  -- The loop finds the prover's carries, where the operands are words.
  pub carry_loop-carries :
      bit_xor x.h (xor_from 0 (suc m) (share x)) < 2 ^ 32
      → bit_xor y.h (xor_from 0 (suc m) (share y)) < 2 ^ 32
      → carry_loop m e opened msgs_e aux (hide m e x) (hide m e y) g 31 0 0
        ≡ carries (suc m) tapes x y g
  unfolding carries
  carry_loop-carries hx hy =
      carry_loop-low 31 0 0 refl (
        sym (
          masked_carries-first (suc m) (bit_xor x.h (xor_from 0 (suc m) (share x)))
            (bit_xor y.h (xor_from 0 (suc m) (share y))) (mask_at (suc m) tapes g)))
      ∙ mod-eq_of_lt (
          masked_carries-lt (suc m) (bit_xor x.h (xor_from 0 (suc m) (share x)))
            (bit_xor y.h (xor_from 0 (suc m) (share y))) (mask_at (suc m) tapes g) hx hy)

  -- The slots hold the messages of their parties.
  pub add_slot-message :
      (j : ℕ)
      → j < m
      → add_slot m e opened msgs_e aux (hide m e x) (hide m e y) g (carries (suc m) tapes x y g) j
        ≡ add_message (suc m) tapes x y g (orig j e)
  unfolding add_slot add_message hide
  add_slot-message j hj i =
      let ph = bit_xor x.h (carries (suc m) tapes x y g) in
      let qh = bit_xor y.h (carries (suc m) tapes x y g) in
      let s =
        bit_xor
          (bit_xor
            (bit_xor (bit_and ph (slot_sum-hide y j hj i)) (bit_and qh (slot_sum-hide x j hj i)))
            (slot_product-hide j hj i))
          (slot_mask-hide j hj i) in
      if orig j e == 0 then bit_xor s (bit_xor (bit_and ph qh) (corrected i)) else s

  -- The words of the result.
  pub add_word-hide :
      bit_xor x.h (xor_from 0 (suc m) (share x)) < 2 ^ 32
      → bit_xor y.h (xor_from 0 (suc m) (share y)) < 2 ^ 32
      → record {
        h =
            bit_xor
              (bit_xor x.h y.h)
              (carry_loop m e opened msgs_e aux (hide m e x) (hide m e y) g 31 0 0);
        l = tabulate m (λ j.
            bit_xor
              (bit_xor (share (hide m e x) j) (share (hide m e y) j))
              (slot_carry m e opened msgs_e aux g j));
      }
        ≡ hide m e (record {
          h = bit_xor (bit_xor x.h y.h) (carries (suc m) tapes x y g);
          l =
              tabulate
                (suc m)
                (λ i. bit_xor (bit_xor (share x i) (share y i)) (carry_mask (suc m) tapes g i));
        })
  unfolding hide
  add_word-hide hx hy i = record {
    h = bit_xor (bit_xor x.h y.h) (carry_loop-carries hx hy i);
    l = shares i;
  }
    where
      summed : ℕ → ℕ
      summed k = bit_xor (bit_xor (share x k) (share y k)) (carry_mask (suc m) tapes g k)

      shares :
          tabulate m (λ j.
            bit_xor
              (bit_xor (share (hide m e x) j) (share (hide m e y) j))
              (slot_carry m e opened msgs_e aux g j))
          ≡ tabulate m (λ j. get_or (tabulate (suc m) summed) (orig j e) 0)
      shares =
          tabulate_ext m
            (λ j.
              bit_xor (bit_xor (share (hide m e x) j) (share (hide m e y) j))
                (slot_carry m e opened msgs_e aux g j))
            (λ j. get_or (tabulate (suc m) summed) (orig j e) 0)
            λ j hj.
              ap₂ bit_xor (ap₂ bit_xor (share-hide m e small x j hj) (share-hide m e small y j hj))
                (ap prefix_xor_shift (slot_mask-hide j hj))
              ∙ sym (get_or-tabulate (suc m) (orig j e) summed 0 (orig-lt m e small j hj))
