-- ===== src/Circuit/Verify/Add/Messages.antt =====
-- What carry_bit of kkw/src/MPC_verify_functions.c computes at one bit, from the hidden message
-- and the slots: the next bit of the carries.
use hash_blind_signatures.Common.{
  ℕ, suc, ◌^◌, ◌≤◌, ◌<◌, bit_and, bit_xor, ◌≡◌, refl, ◌∙◌, sym, ap, ap₂, arith, ◌==◌, if◌then◌else◌,
}
use hash_blind_signatures.Bits.{xor_cancel}
use hash_blind_signatures.Bits.Width.{bit_of, bit_of-xor, bit_of-and}
use hash_blind_signatures.Circuit.Shares.{xor_from, prefix_xor_shift}
use hash_blind_signatures.Circuit.Shares.Laws.{xor_medial, xor_from-xor}
use hash_blind_signatures.Circuit.Adder.{carry_word}
use hash_blind_signatures.Circuit.Adder.Carries.{mask_sum, masked_carries, masked_carries-next}
use hash_blind_signatures.Circuit.Prove.{message_of}
use hash_blind_signatures.Circuit.Prove.Laws.{product_algebra}
use hash_blind_signatures.Circuit.Verify.{orig}
use hash_blind_signatures.Circuit.Verify.Add.Digits.{
  base, base-sum, bit_of-ones, and-bit, bit_of-four, hidden_and_slots,
}

-- One addition: the operands `xh` and `yh` with the shares `lx` and `ly` of their masks, and the
-- shares `t` and `lr` that the tapes give.
module _ (m e : ℕ) (small : e ≤ m) (xh yh : ℕ) (lx ly t lr : ℕ → ℕ)
    (words : (i : ℕ) → i < suc m → lr i < 2 ^ 32) where
  abbrev xv : ℕ
  xv = bit_xor xh (xor_from 0 (suc m) lx)

  abbrev yv : ℕ
  yv = bit_xor yh (xor_from 0 (suc m) ly)

  abbrev ch : ℕ
  ch = masked_carries (suc m) xv yv lr

  abbrev lp : ℕ → ℕ
  lp i = bit_xor (lx i) (prefix_xor_shift (lr i))

  abbrev lq : ℕ → ℕ
  lq i = bit_xor (ly i) (prefix_xor_shift (lr i))

  abbrev corr : ℕ
  corr =
      bit_and
        (bit_xor
          (bit_and (bit_xor (xor_from 0 (suc m) lx) (mask_sum (suc m) lr))
            (bit_xor (xor_from 0 (suc m) ly) (mask_sum (suc m) lr)))
          (xor_from 0 (suc m) t))
        2147483647

  -- The masks of the operands of the product.
  mask-lp :
      (l : ℕ → ℕ)
      → xor_from 0 (suc m) (λ i. bit_xor (l i) (prefix_xor_shift (lr i)))
        ≡ bit_xor (xor_from 0 (suc m) l) (mask_sum (suc m) lr)
  mask-lp l = xor_from-xor (suc m) l (λ i. prefix_xor_shift (lr i))

  -- Unmasking an operand of the product.
  operand :
      (h v : ℕ) (l : ℕ → ℕ)
      → v ≡ bit_xor h (xor_from 0 (suc m) l)
      → bit_xor (bit_xor h ch) (bit_xor (xor_from 0 (suc m) l) (mask_sum (suc m) lr))
        ≡ bit_xor v (carry_word xv yv)
  operand h v l e1 =
      xor_medial h ch (xor_from 0 (suc m) l) (mask_sum (suc m) lr)
      ∙ ap₂ bit_xor (sym e1) (xor_cancel (carry_word xv yv) (mask_sum (suc m) lr))

  -- The sum of all messages at bit `b`.
  all_messages :
      (b : ℕ)
      → b < 31
      → bit_of
          (bit_xor
            (xor_from 0 (suc m) (base (bit_xor xh ch) (bit_xor yh ch) lp lq t lr))
            (bit_xor (bit_and (bit_xor xh ch) (bit_xor yh ch)) corr))
          b
        ≡ bit_xor
            (bit_of (bit_and (bit_xor xv (carry_word xv yv)) (bit_xor yv (carry_word xv yv))) b)
            (bit_of (xor_from 0 (suc m) lr) b)
  all_messages b hb =
      cut
      ∙ ap (λ w. bit_of w b) (sym (xor_cancel total sum_r) ∙ ap (λ w. bit_xor w sum_r) products)
      ∙ bit_of-xor (bit_and (bit_xor xv (carry_word xv yv)) (bit_xor yv (carry_word xv yv))) sum_r b
    where
      ph : ℕ
      ph = bit_xor xh ch

      qh : ℕ
      qh = bit_xor yh ch

      sum_r : ℕ
      sum_r = xor_from 0 (suc m) lr

      sum_t : ℕ
      sum_t = xor_from 0 (suc m) t

      px : ℕ
      px = bit_xor (xor_from 0 (suc m) lx) (mask_sum (suc m) lr)

      py : ℕ
      py = bit_xor (xor_from 0 (suc m) ly) (mask_sum (suc m) lr)

      messages : ℕ
      messages = bit_xor (bit_xor (bit_xor (bit_and ph py) (bit_and qh px)) sum_t) sum_r

      -- with the correction before it is cut to 31 bits
      total : ℕ
      total = bit_xor messages (bit_xor (bit_and ph qh) (bit_xor (bit_and px py) sum_t))

      products :
          bit_xor total sum_r
          ≡ bit_and (bit_xor xv (carry_word xv yv)) (bit_xor yv (carry_word xv yv))
      products =
          product_algebra ph qh px py sum_t sum_r
          ∙ ap₂ bit_and (operand xh xv lx refl) (operand yh yv ly refl)

      uncut : bit_of corr b ≡ bit_of (bit_xor (bit_and px py) sum_t) b
      uncut =
          bit_of-and (bit_xor (bit_and px py) sum_t) 2147483647 b
          ∙ ap (bit_and (bit_of (bit_xor (bit_and px py) sum_t) b)) (bit_of-ones 31 b hb)
          ∙ and-bit (bit_of (bit_xor (bit_and px py) sum_t) b) (omega arith)

      by_bits :
          (c : ℕ)
          → bit_of (bit_xor messages (bit_xor (bit_and ph qh) c)) b
            ≡ bit_xor (bit_of messages b) (bit_xor (bit_of (bit_and ph qh) b) (bit_of c b))
      by_bits c =
          bit_of-xor messages (bit_xor (bit_and ph qh) c) b
          ∙ ap (bit_xor (bit_of messages b)) (bit_of-xor (bit_and ph qh) c b)

      summed : xor_from 0 (suc m) (base ph qh lp lq t lr) ≡ messages
      summed =
          base-sum (suc m) ph qh lp lq t lr
          ∙ ap₂ (λ r s. bit_xor (bit_xor (bit_xor (bit_and ph r) (bit_and qh s)) sum_t) sum_r)
              (mask-lp ly) (mask-lp lx)

      cut :
          bit_of
            (bit_xor (xor_from 0 (suc m) (base ph qh lp lq t lr)) (bit_xor (bit_and ph qh) corr))
            b
          ≡ bit_of total b
      cut =
          ap (λ s. bit_of (bit_xor s (bit_xor (bit_and ph qh) corr)) b) summed
          ∙ by_bits corr
          ∙ ap (λ r. bit_xor (bit_of messages b) (bit_xor (bit_of (bit_and ph qh) b) r)) uncut
          ∙ sym (by_bits (bit_xor (bit_and px py) sum_t))

  -- What the verifier computes at bit `b` from the hidden message and the sums of the slots, for
  -- any word that has the carry's bit there.
  unfoldable pub next_mask : ℕ → ℕ → ℕ
  next_mask w b =
      let pb = bit_of (bit_xor xh w) b in
      let qb = bit_of (bit_xor yh w) b in
      bit_xor (bit_of (message_of (bit_xor xh ch) (bit_xor yh ch) corr lp lq t lr e) b) (
        bit_xor
          (bit_xor
            (bit_xor
              (bit_xor (bit_and pb (bit_of (xor_from 0 m (λ j. lq (orig j e))) b))
                (bit_and qb (bit_of (xor_from 0 m (λ j. lp (orig j e))) b)))
              (bit_of (xor_from 0 m (λ j. t (orig j e))) b))
            (bit_of (xor_from 0 m (λ j. lr (orig j e))) b))
          (bit_and (if e == 0 then 0 else 1) (bit_xor (bit_and pb qb) (bit_of corr b))))

  pub next_mask-carry :
      (w b : ℕ)
      → b < 31
      → bit_of w b ≡ bit_of ch b
      → bit_xor (bit_of w b) (next_mask w b) ≡ bit_of ch (suc b)
  unfolding next_mask
  next_mask-carry w b hb agree =
      ap₂ bit_xor agree
        (slots ∙ hidden_and_slots m e b z (base ph qh lp lq t lr) small ∙ all_messages b hb)
      ∙ sym (masked_carries-next (suc m) b xv yv lr words (omega arith))
    where
      ph : ℕ
      ph = bit_xor xh ch

      qh : ℕ
      qh = bit_xor yh ch

      z : ℕ
      z = bit_xor (bit_and ph qh) corr

      has0 : ℕ
      has0 = if e == 0 then 0 else 1

      same_bit : (h : ℕ) → bit_of (bit_xor h w) b ≡ bit_of (bit_xor h ch) b
      same_bit h = bit_of-xor h w b ∙ ap (bit_xor (bit_of h b)) agree ∙ sym (bit_of-xor h ch b)

      slot_bits :
          bit_of (xor_from 0 m (λ j. base ph qh lp lq t lr (orig j e))) b
          ≡ bit_xor
              (bit_xor
                (bit_xor
                  (bit_and (bit_of ph b) (bit_of (xor_from 0 m (λ j. lq (orig j e))) b))
                  (bit_and (bit_of qh b) (bit_of (xor_from 0 m (λ j. lp (orig j e))) b)))
                (bit_of (xor_from 0 m (λ j. t (orig j e))) b))
              (bit_of (xor_from 0 m (λ j. lr (orig j e))) b)
      slot_bits =
          ap (λ s. bit_of s b)
            (base-sum m ph qh (λ j. lp (orig j e)) (λ j. lq (orig j e)) (λ j. t (orig j e))
              (λ j. lr (orig j e)))
          ∙ bit_of-four (bit_and ph (xor_from 0 m (λ j. lq (orig j e))))
              (bit_and qh (xor_from 0 m (λ j. lp (orig j e)))) (xor_from 0 m (λ j. t (orig j e)))
              (xor_from 0 m (λ j. lr (orig j e))) b
          ∙ ap₂
              (λ r s.
                bit_xor (bit_xor (bit_xor r s) (bit_of (xor_from 0 m (λ j. t (orig j e))) b))
                  (bit_of (xor_from 0 m (λ j. lr (orig j e))) b))
              (bit_of-and ph (xor_from 0 m (λ j. lq (orig j e))) b)
              (bit_of-and qh (xor_from 0 m (λ j. lp (orig j e))) b)

      z_bit : bit_of z b ≡ bit_xor (bit_and (bit_of ph b) (bit_of qh b)) (bit_of corr b)
      z_bit =
          bit_of-xor (bit_and ph qh) corr b
          ∙ ap (λ r. bit_xor r (bit_of corr b)) (bit_of-and ph qh b)

      slots :
          next_mask w b
          ≡ bit_xor
              (bit_of
                (if e == 0 then bit_xor (base ph qh lp lq t lr e) z else base ph qh lp lq t lr e)
                b)
              (bit_xor
                (bit_of (xor_from 0 m (λ j. base ph qh lp lq t lr (orig j e))) b)
                (bit_and has0 (bit_of z b)))
      slots =
          ap₂
            (λ pb qb. bit_xor (bit_of (message_of ph qh corr lp lq t lr e) b) (
              bit_xor
                (bit_xor
                  (bit_xor
                    (bit_xor (bit_and pb (bit_of (xor_from 0 m (λ j. lq (orig j e))) b))
                      (bit_and qb (bit_of (xor_from 0 m (λ j. lp (orig j e))) b)))
                    (bit_of (xor_from 0 m (λ j. t (orig j e))) b))
                  (bit_of (xor_from 0 m (λ j. lr (orig j e))) b))
                (bit_and has0 (bit_xor (bit_and pb qb) (bit_of corr b)))))
            (same_bit xh) (same_bit yh)
          ∙ ap₂
              (λ r s.
                bit_xor (bit_of (message_of ph qh corr lp lq t lr e) b)
                  (bit_xor r (bit_and has0 s)))
              (sym slot_bits) (sym z_bit)
