-- ===== src/Xmss/Wots/Laws.antt =====
-- The one-time signatures of kkw/src/xmss.c: signing and recovering the public key.
use hash_blind_signatures.Common.{
  ℕ, ◌+◌, ◌-◌, ◌<◌, ◌≡◌, ◌∙◌, refl, sym, ap, arith, true, Bool-cases, inl, inr, [], List, Bytes,
  get_or, u8, ◌==◌, ==_iff, if◌then◌else◌, tabulate_ext, get_or-tabulate,
}
use hash_blind_signatures.Platform.{Platform}
use hash_blind_signatures.Xmss.Params.{Node, wots_len, wots_max_steps}
use hash_blind_signatures.Xmss.Hashes.{hash_chain_multi}
use hash_blind_signatures.Xmss.Hashes.Laws.{chain_from, hash_chain_multi_lem, chain_from-append}
use hash_blind_signatures.Xmss.Wots.{
  wots_pk_from_sk, key_chain, sign_chain, recover_chain, wots_sign, wots_pk_from_sig,
  remaining_steps,
}

module _ (p : Platform) (pk_seed : Bytes) (epoch : ℕ) where
  -- What the two branches of signing store is a climb of `c` steps from position 0.
  signed_tip :
      (i c : ℕ) (start : Node)
      → (if c == 0 then start else hash_chain_multi p pk_seed epoch start (u8 i) 0 c)
        ≡ chain_from p pk_seed epoch (u8 i) c 0 start
  unfolding chain_from
  signed_tip i c start = elim (Bool-cases (c == 0)) [
    | inl e ↦ rw (e, (==_iff c 0).0 e) refl
    | inr e ↦ rw e (hash_chain_multi_lem p pk_seed epoch (u8 i) start 0 c)
  ]

  -- What the two branches of recovery store is a climb of `7 - c` steps from position `c`.
  recovered_end :
      (i c : ℕ) (tip : Node)
      → c < 8
      → (if remaining_steps c == 0
          then tip
          else hash_chain_multi p pk_seed epoch tip (u8 i) c (remaining_steps c))
        ≡ chain_from p pk_seed epoch (u8 i) (7 - c) c tip
  unfolding chain_from
  recovered_end i c tip h = elim (Bool-cases (remaining_steps c == 0)) [
    | inl e ↦ rw e (sym (ap (λ t. chain_from p pk_seed epoch (u8 i) t c tip) (none_left e)))
    | inr e ↦ rw e (
        hash_chain_multi_lem p pk_seed epoch (u8 i) tip c (remaining_steps c)
        ∙ ap (λ t. chain_from p pk_seed epoch (u8 i) t c tip) left)
  ]
    where
      none_left : (remaining_steps c == 0) ≡ true → 7 - c ≡ 0
      none_left e = omega (arith, (==_iff (remaining_steps c) 0).0 e)

      left : remaining_steps c ≡ 7 - c
      left = omega arith

  -- One chain: signing and recovering together climb all seven steps.
  whole_chain :
      (i c : ℕ) (start : Node)
      → c < 8
      → (if remaining_steps c == 0
          then (if c == 0 then start else hash_chain_multi p pk_seed epoch start (u8 i) 0 c)
          else hash_chain_multi p pk_seed epoch
              (if c == 0 then start else hash_chain_multi p pk_seed epoch start (u8 i) 0 c)
              (u8 i)
              c
              (remaining_steps c))
        ≡ hash_chain_multi p pk_seed epoch start (u8 i) 0 wots_max_steps
  whole_chain i c start h =
      recovered_end i c _ h
      ∙ ap (chain_from p pk_seed epoch (u8 i) (7 - c) c) (signed_tip i c start)
      ∙ ap (λ t. chain_from p pk_seed epoch (u8 i) (7 - c) t tip) from_zero
      ∙ chain_from-append p pk_seed epoch (u8 i) c (7 - c) 0 start
      ∙ ap (λ t. chain_from p pk_seed epoch (u8 i) t 0 start) seven
      ∙ sym (hash_chain_multi_lem p pk_seed epoch (u8 i) start 0 wots_max_steps)
    where
      tip : Node
      tip = chain_from p pk_seed epoch (u8 i) c 0 start

      from_zero : c ≡ 0 + c
      from_zero = omega arith

      seven : c + (7 - c) ≡ 7
      seven = omega arith

  -- For digits below 8, the one-time public key that is recovered from a one-time signature is
  -- the public key of the secret chains.
  pub wots_pk_from_sig-sign :
      (sk : List Node) (coords : List ℕ)
      → ((i : ℕ) → i < wots_len → get_or coords i 0 < 8)
      → wots_pk_from_sig p pk_seed epoch (wots_sign p pk_seed epoch sk coords) coords
        ≡ wots_pk_from_sk p pk_seed epoch sk
  unfolding wots_pk_from_sig wots_sign wots_pk_from_sk
  wots_pk_from_sig-sign sk coords digits =
      tabulate_ext wots_len
        (recover_chain p pk_seed epoch (wots_sign p pk_seed epoch sk coords) coords)
        (key_chain p pk_seed epoch sk)
        λ i h.
          rw (get_or-tabulate wots_len i (sign_chain p pk_seed epoch sk coords) [] h)
            (whole_chain i (get_or coords i 0) (get_or sk i []) (digits i h))
