-- ===== src/Circuit/Prove/Laws.antt =====
-- The gates of kkw/src/MPC_prove_functions.c on the values that are shared.
use hash_blind_signatures.Common.{
  ℕ, suc, ◌+◌, bit_xor, bit_and, ◌≡◌, ◌∙◌, refl, sym, ap, ap₂, List, Bytes, get_or, tabulate,
  get_or-tabulate, u32,
}
use hash_blind_signatures.Bits.{xor_comm, xor_assoc, xor_cancel, and_comm, and-xor, xor-and}
use hash_blind_signatures.Circuit.Shares.{Masked, share, xor_from, mpc_xor, unmask}
use hash_blind_signatures.Circuit.Shares.Laws.{
  xor_medial, xor_right_comm, xor_common, xor_from_ext, xor_from-xor, xor_from-and, xor_from_first,
}
use hash_blind_signatures.Circuit.Prove.{
  Transcript, message_of, mask_at, product_at, and_corr, and_message, mpc_and, carry_mask, carries,
  mpc_add,
}

-- The sum of the shares that a loop stores is the sum of what it computes.
pub unmask-tabulate :
    (n h : ℕ) (f : ℕ → ℕ)
    → unmask n (record { h = h; l = tabulate n f }) ≡ bit_xor h (xor_from 0 n f)
unfolding unmask
unmask-tabulate n h f =
    ap (bit_xor h)
      (xor_from_ext 0 n (λ i. get_or (tabulate n f) i 0) f (λ i hi. get_or-tabulate n i f 0 hi))

-- Unmasking the exclusive or of two words.
pub unmask-mpc_xor :
    (n : ℕ) (x y : Masked) → unmask n (mpc_xor n x y) ≡ bit_xor (unmask n x) (unmask n y)
unfolding mpc_xor
unmask-mpc_xor n x y =
    unmask-tabulate n (bit_xor x.h y.h) (λ i. bit_xor (share x i) (share y i))
    ∙ ap (bit_xor (bit_xor x.h y.h)) (xor_from-xor n (share x) (share y))
    ∙ xor_medial x.h y.h (xor_from 0 n (share x)) (xor_from 0 n (share y))
    ∙ unfold unmask in refl

-- All the messages of a product together: what they reveal is the product of the masked words.
pub message_of-sum :
    (m xh yh corr : ℕ) (lx ly t lz : ℕ → ℕ)
    → xor_from 0 (suc m) (message_of xh yh corr lx ly t lz)
      ≡ bit_xor
          (bit_xor
            (bit_xor
              (bit_xor (bit_and xh (xor_from 0 (suc m) ly)) (bit_and yh (xor_from 0 (suc m) lx)))
              (xor_from 0 (suc m) t))
            (xor_from 0 (suc m) lz))
          (bit_xor (bit_and xh yh) corr)
message_of-sum m xh yh corr lx ly t lz =
    xor_from_first (bit_xor (bit_and xh yh) corr) m
      (λ i. bit_xor (bit_xor (bit_xor (bit_and xh (ly i)) (bit_and yh (lx i))) (t i)) (lz i))
    ∙ ap (λ s. bit_xor s (bit_xor (bit_and xh yh) corr)) whole
  where
    n : ℕ
    n = suc m

    whole :
        xor_from 0
          (suc m)
          (λ i. bit_xor (bit_xor (bit_xor (bit_and xh (ly i)) (bit_and yh (lx i))) (t i)) (lz i))
        ≡ bit_xor
            (bit_xor
              (bit_xor (bit_and xh (xor_from 0 (suc m) ly)) (bit_and yh (xor_from 0 (suc m) lx)))
              (xor_from 0 (suc m) t))
            (xor_from 0 (suc m) lz)
    whole =
        xor_from-xor (suc m) (λ i. bit_xor (bit_xor (bit_and xh (ly i)) (bit_and yh (lx i))) (t i))
          lz
        ∙ ap (λ s. bit_xor s (xor_from 0 (suc m) lz))
            (xor_from-xor (suc m) (λ i. bit_xor (bit_and xh (ly i)) (bit_and yh (lx i))) t
              ∙ ap (λ s. bit_xor s (xor_from 0 (suc m) t))
                  (xor_from-xor (suc m) (λ i. bit_and xh (ly i)) (λ i. bit_and yh (lx i))
                    ∙ ap₂ bit_xor (xor_from-and xh (suc m) ly) (xor_from-and yh (suc m) lx)))

-- The algebra of one product: masks `lx` and `ly`, product share sum `t`, result mask `lz`.
pub product_algebra :
    (xh yh lx ly t lz : ℕ)
    → bit_xor
        (bit_xor
          (bit_xor (bit_xor (bit_xor (bit_and xh ly) (bit_and yh lx)) t) lz)
          (bit_xor (bit_and xh yh) (bit_xor (bit_and lx ly) t)))
        lz
      ≡ bit_and (bit_xor xh lx) (bit_xor yh ly)
product_algebra xh yh lx ly t lz =
    xor_right_comm (bit_xor (bit_xor (bit_xor (bit_and xh ly) (bit_and yh lx)) t) lz)
      (bit_xor (bit_and xh yh) (bit_xor (bit_and lx ly) t)) lz
    ∙ ap₂ bit_xor (xor_cancel (bit_xor (bit_xor (bit_and xh ly) (bit_and yh lx)) t) lz)
        (sym (xor_assoc (bit_and xh yh) (bit_and lx ly) t))
    ∙ xor_common (bit_xor (bit_and xh ly) (bit_and yh lx)) (bit_xor (bit_and xh yh) (bit_and lx ly))
        t
    ∙ ap (λ s. bit_xor s (bit_xor (bit_and xh yh) (bit_and lx ly)))
        (xor_comm (bit_and xh ly) (bit_and yh lx))
    ∙ xor_comm (bit_xor (bit_and yh lx) (bit_and xh ly)) (bit_xor (bit_and xh yh) (bit_and lx ly))
    ∙ expand
  where
    expand :
        bit_xor (bit_xor (bit_and xh yh) (bit_and lx ly)) (bit_xor (bit_and yh lx) (bit_and xh ly))
        ≡ bit_and (bit_xor xh lx) (bit_xor yh ly)
    expand =
        ap (bit_xor (bit_xor (bit_and xh yh) (bit_and lx ly)))
          (ap (λ s. bit_xor s (bit_and xh ly)) (and_comm yh lx))
        ∙ xor_medial (bit_and xh yh) (bit_and lx ly) (bit_and lx yh) (bit_and xh ly)
        ∙ ap (bit_xor (bit_xor (bit_and xh yh) (bit_and lx yh)))
            (xor_comm (bit_and lx ly) (bit_and xh ly))
        ∙ ap₂ bit_xor (sym (xor-and xh lx yh)) (sym (xor-and xh lx ly))
        ∙ sym (and-xor (bit_xor xh lx) yh ly)

module _ (m : ℕ) (tapes : List Bytes) (x y : Masked) (tr : Transcript) where
  -- For at least one party, any masks and any tapes, the value shared by the result of mpc_AND is
  -- the bitwise and of the values shared by its operands.
  pub unmask-mpc_and :
      unmask (suc m) (mpc_and (suc m) tapes x y tr).0
      ≡ bit_and (unmask (suc m) x) (unmask (suc m) y)
  unfolding mpc_and and_message and_corr
  unmask-mpc_and =
      unmask-tabulate (suc m) (xor_from 0 (suc m) (and_message (suc m) tapes x y tr.gate_count))
        (mask_at (suc m) tapes tr.gate_count)
      ∙ ap (λ s. bit_xor s (xor_from 0 (suc m) (mask_at (suc m) tapes tr.gate_count)))
          (message_of-sum m x.h y.h (and_corr (suc m) tapes x y tr.gate_count) (share x) (share y)
            (product_at (suc m) tapes tr.gate_count) (mask_at (suc m) tapes tr.gate_count))
      ∙ product_algebra x.h y.h (xor_from 0 (suc m) (share x)) (xor_from 0 (suc m) (share y))
          (xor_from 0 (suc m) (product_at (suc m) tapes tr.gate_count))
          (xor_from 0 (suc m) (mask_at (suc m) tapes tr.gate_count))
      ∙ unfold unmask in refl

  -- For at least one party, any masks and any tapes, the value shared by the result of mpc_ADD is
  -- the sum modulo 2^32 of the values shared by its operands.
  pub unmask-mpc_add :
      unmask (suc m) (mpc_add (suc m) tapes x y tr).0 ≡ u32 (unmask (suc m) x + unmask (suc m) y)
  unfolding mpc_add carries
  unmask-mpc_add =
      unmask-tabulate (suc m) (bit_xor (bit_xor x.h y.h) (carries (suc m) tapes x y tr.gate_count))
        (λ i. bit_xor (bit_xor (share x i) (share y i)) (carry_mask (suc m) tapes tr.gate_count i))
      ∙ ap (bit_xor (bit_xor (bit_xor x.h y.h) (carries (suc m) tapes x y tr.gate_count))) (
          xor_from-xor (suc m) (λ i. bit_xor (share x i) (share y i))
            (carry_mask (suc m) tapes tr.gate_count)
          ∙ ap (λ s. bit_xor s lc) (xor_from-xor (suc m) (share x) (share y)))
      ∙ xor_medial (bit_xor x.h y.h) (bit_xor (bit_xor (bit_xor sum xv) yv) lc) (bit_xor lx ly) lc
      ∙ ap₂ bit_xor (xor_medial x.h y.h lx ly) (xor_cancel (bit_xor (bit_xor sum xv) yv) lc)
      ∙ ap (bit_xor (bit_xor xv yv)) (xor_assoc sum xv yv)
      ∙ xor_comm (bit_xor xv yv) (bit_xor sum (bit_xor xv yv))
      ∙ xor_cancel sum (bit_xor xv yv)
      ∙ unfold unmask in refl
    where
      lx : ℕ
      lx = xor_from 0 (suc m) (share x)

      ly : ℕ
      ly = xor_from 0 (suc m) (share y)

      lc : ℕ
      lc = xor_from 0 (suc m) (carry_mask (suc m) tapes tr.gate_count)

      xv : ℕ
      xv = bit_xor x.h lx

      yv : ℕ
      yv = bit_xor y.h ly

      sum : ℕ
      sum = u32 (xv + yv)
