-- ===== src/Circuit/Verify/Laws.antt =====
-- The verifier's AND gate of kkw/src/MPC_verify_functions.c next to the prover's.
use hash_blind_signatures.Common.{
  ℕ, zero, suc, ◌<◌, ◌≤◌, bit_xor, bit_and, ◌≡◌, ◌∙◌, refl, sym, ap, ap₂, arith, [], List, Bytes,
  get_or, tabulate, tabulate_ext, get_or-tabulate, ◌==◌, if◌then◌else◌, ◌⊎◌, inl, inr,
}
use hash_blind_signatures.Bits.{xor_comm}
use hash_blind_signatures.Circuit.Shares.{Masked, share, xor_from, tape_lam, tape_prod}
use hash_blind_signatures.Circuit.Shares.Laws.{xor_right_comm, xor_from_ext, xor_from-start}
use hash_blind_signatures.Circuit.Prove.{Transcript, mask_at, and_corr, and_message, mpc_and}
use hash_blind_signatures.Circuit.Verify.{orig, Replay, and_slot, mpc_and_verify, slot_mask}

-- The parties are the hidden one and those in the slots.
pub xor_from_hidden :
    (e m : ℕ) (f : ℕ → ℕ) → e ≤ m → xor_from (f e) m (λ j. f (orig j e)) ≡ xor_from 0 (suc m) f
unfolding xor_from
xor_from_hidden e m f he =
    xor_from-start (f e) m (λ j. f (orig j e))
    ∙ xor_comm (f e) (xor_from 0 m (λ j. f (orig j e)))
    ∙ slots m he
  where
    -- Slots below the hidden party are the parties themselves.
    below : (k : ℕ) → k ≤ e → xor_from 0 k (λ j. f (orig j e)) ≡ xor_from 0 k f
    below k hk = xor_from_ext 0 k (λ j. f (orig j e)) f (λ j hj. ap f (unmoved j (omega arith)))
      where
        unmoved : (j : ℕ) → j < e → orig j e ≡ j
        unmoved j hj = ground arith

    slots :
        (k : ℕ) → e ≤ k → bit_xor (xor_from 0 k (λ j. f (orig j e))) (f e) ≡ xor_from 0 (suc k) f
    slots zero hk = ap (λ t. bit_xor 0 (f t)) none_below
      where
        none_below : e ≡ 0
        none_below = omega arith
    slots (suc k) hk = elim (last_or_before e k hk) [
      | inl last ↦ ap₂ bit_xor (below (suc k) (omega arith)) (ap f last)
      | inr before ↦
          ap (λ t. bit_xor (bit_xor (xor_from 0 k (λ j. f (orig j e))) (f t)) (f e)) (moved before)
          ∙ xor_right_comm (xor_from 0 k (λ j. f (orig j e))) (f (suc k)) (f e)
          ∙ ap (λ s. bit_xor s (f (suc k))) (slots k before)
    ]
      where
        last_or_before : (a b : ℕ) → a ≤ suc b → (a ≡ suc b) ⊎ (a ≤ b)
        last_or_before a b h = ground arith

        moved : e ≤ k → orig k e ≡ suc k
        moved before = ground arith

-- What the verifier has of a masked word: all but the share of party `e`.
unfoldable pub hide : ℕ → ℕ → Masked → Masked
hide m e x = record { h = x.h; l = tabulate m (λ j. share x (orig j e)) }

-- The tapes of all parties but `e`.
unfoldable pub hide_tapes : ℕ → ℕ → List Bytes → List Bytes
hide_tapes m e tapes = tabulate m (λ j. get_or tapes (orig j e) [])

module _ (m e : ℕ) (small : e ≤ m) where
  -- A slot is one of the parties.
  pub orig-lt : (j : ℕ) → j < m → orig j e < suc m
  orig-lt j hj = ground arith

  pub share-hide : (x : Masked) (j : ℕ) → j < m → share (hide m e x) j ≡ share x (orig j e)
  unfolding hide
  share-hide x j hj = get_or-tabulate m j (λ k. share x (orig k e)) 0 hj

  pub tape-hide :
      (tapes : List Bytes) (j : ℕ)
      → j < m
      → get_or (hide_tapes m e tapes) j [] ≡ get_or tapes (orig j e) []
  unfolding hide_tapes
  tape-hide tapes j hj = get_or-tabulate m j (λ k. get_or tapes (orig k e) []) [] hj

  module _ (tapes : List Bytes) (msgs_e aux : List ℕ) (x y : Masked) (g : ℕ)
      (corrected : get_or aux g 0 ≡ and_corr (suc m) tapes x y g) where
    -- The verifier's slots hold the messages of their parties.
    pub and_slot-message :
        (j : ℕ)
        → j < m
        → and_slot m e (hide_tapes m e tapes) msgs_e aux (hide m e x) (hide m e y) g j
          ≡ and_message (suc m) tapes x y g (orig j e)
    unfolding and_slot and_message
    and_slot-message j hj i =
        let s =
          bit_xor
            (bit_xor
              (bit_xor (bit_and (hx i) (share-hide y j hj i))
                (bit_and (hy i) (share-hide x j hj i)))
              (tape_prod (tape-hide tapes j hj i) g))
            (tape_lam (tape-hide tapes j hj i) g) in
        if orig j e == 0 then bit_xor s (bit_xor (bit_and (hx i) (hy i)) (corrected i)) else s
      where
        hx : (hide m e x).h ≡ x.h
        hx = unfold hide in refl

        hy : (hide m e y).h ≡ y.h
        hy = unfold hide in refl

  -- At a gate where the verifier has the prover's correction and the hidden party's message, the
  -- verifier's AND gate, on the operands and tapes without the hidden party, gives the prover's
  -- result without the hidden party's share.
  pub mpc_and_verify-hide :
      (tapes : List Bytes) (msgs_e aux : List ℕ) (x y : Masked) (tr : Transcript) (rp : Replay)
      → rp.gate_count ≡ tr.gate_count
      → get_or aux tr.gate_count 0 ≡ and_corr (suc m) tapes x y tr.gate_count
      → get_or msgs_e tr.gate_count 0 ≡ and_message (suc m) tapes x y tr.gate_count e
      → (mpc_and_verify m e (hide_tapes m e tapes) msgs_e aux (hide m e x) (hide m e y) rp).0
        ≡ hide m e (mpc_and (suc m) tapes x y tr).0
  unfolding mpc_and_verify mpc_and hide
  mpc_and_verify-hide tapes msgs_e aux x y tr rp same corrected sent =
      ap at_gate same ∙ λ i. record { h = masked i; l = shares i }
    where
      g : ℕ
      g = tr.gate_count

      at_gate : ℕ → Masked
      at_gate k = record {
        h =
            xor_from (get_or msgs_e k 0) m
              (and_slot m e (hide_tapes m e tapes) msgs_e aux (hide m e x) (hide m e y) k);
        l = tabulate m (slot_mask m e (hide_tapes m e tapes) msgs_e aux k);
      }

      masked :
          xor_from
            (get_or msgs_e g 0)
            m
            (and_slot m e (hide_tapes m e tapes) msgs_e aux (hide m e x) (hide m e y) g)
          ≡ xor_from 0 (suc m) (and_message (suc m) tapes x y g)
      masked =
          xor_from_ext (get_or msgs_e g 0) m
            (and_slot m e (hide_tapes m e tapes) msgs_e aux (hide m e x) (hide m e y) g)
            (λ j. and_message (suc m) tapes x y g (orig j e))
            (and_slot-message tapes msgs_e aux x y g corrected)
          ∙ ap (λ t. xor_from t m (λ j. and_message (suc m) tapes x y g (orig j e))) sent
          ∙ xor_from_hidden e m (and_message (suc m) tapes x y g) small

      shares :
          tabulate m (slot_mask m e (hide_tapes m e tapes) msgs_e aux g)
          ≡ tabulate m (λ j. get_or (tabulate (suc m) (mask_at (suc m) tapes g)) (orig j e) 0)
      shares =
          tabulate_ext m (slot_mask m e (hide_tapes m e tapes) msgs_e aux g)
            (λ j. get_or (tabulate (suc m) (mask_at (suc m) tapes g)) (orig j e) 0)
            λ j hj.
              ap (λ t. tape_lam t g) (tape-hide tapes j hj)
              ∙ sym (get_or-tabulate (suc m) (orig j e) (mask_at (suc m) tapes g) 0 (orig-lt j hj))
