-- ===== src/Kkw/Challenge.antt =====
-- kkw/src/shared.c: the Fiat-Shamir challenge. `prg_below` and the choice of parties draw again
-- until a draw is accepted, without a bound in C: they take fuel, and `none` is its end.
pub mod Laws
use hash_blind_signatures.Common.{
  ℕ, zero, suc, ◌+◌, ◌-◌, ◌*◌, ◌/◌, ◌%◌, ◌^◌, ◌==◌, ltb, leb, bit_or, Bool, true, false, ◌&&◌, not,
  if◌then◌else◌, Option, none, some, [], ◌∷◌, ◌++◌, List, Bytes, put_be32, u8, u32, get_or, set,
  concat, take, tabulate, codes, map,
}
use hash_blind_signatures.Platform.{Platform}
use hash_blind_signatures.Hash.{th_into}

-- `prg_ctx`
pub record Prg : Type 0 where
  pub state : Bytes
  pub ctr : ℕ
  pub buf : Bytes
  pub pos : ℕ

-- `arr[i] = arr[j]; arr[j] = tmp`, where `tmp` is `arr[i]`
abbrev pub swap : List ℕ → ℕ → ℕ → List ℕ
swap arr i j = set (set arr i (get_or arr j 0)) j (get_or arr i 0)

-- Whether bits 0 to `w - 1` are zero, counted from the last byte of 32.
unfoldable pub low_bits_zero : ℕ → Bytes → Bool
low_bits_zero zero seed = true
low_bits_zero (suc w) seed =
    low_bits_zero w seed && (get_or seed (31 - w / 8) 0 / 2 ^ (w % 8) % 2 == 0)

-- `(v << 8) | byte`
abbrev pub word_step : ℕ → ℕ → ℕ
word_step v byte = bit_or (u32 (v * 2 ^ 8)) byte

module _ (p : Platform) where
  -- The stack buffer `h_pre` held `before`.
  unfoldable pub kkw_fs_prefix : Bytes → Bytes → List ℕ → Bytes → Bytes → Bytes → Bytes
  kkw_fs_prefix before msg pubout pk_seed nonce h_star =
      th_into p before (codes "KKWfs")
        (msg ++ (concat (map put_be32 pubout) ++ (pk_seed ++ (nonce ++ h_star)))) 32

  -- The candidate and whether its `grind_w` lowest bits are zero.
  unfoldable pub kkw_fs_seed : ℕ → Bytes → Bytes → ℕ → Bytes × Bool
  kkw_fs_seed grind_w before h_pre ctr =
      let seed = th_into p before (codes "KKWgrind") (h_pre ++ put_be32 ctr) 32 in
      (seed, low_bits_zero grind_w seed)

  unfoldable pub prg_fill : Prg → Prg
  prg_fill g = record g {
    ctr = u32 (g.ctr + 1);
    buf = th_into p g.buf (codes "KKWprg") (g.state ++ put_be32 g.ctr) 32;
    pos = 0;
  }

  -- `fresh` is what the buffer held before.
  unfoldable pub prg_init : Bytes → Bytes → Prg
  prg_init fresh seed = prg_fill (record { state = seed; ctr = 0; buf = fresh; pos = 0 })

  -- `if (pos >= 32) prg_fill(p); ... buf[pos++]`
  unfoldable pub prg_byte : Prg → ℕ × Prg
  prg_byte g =
      let filled = if leb 32 g.pos then prg_fill g else g in
      (get_or filled.buf filled.pos 0, record filled { pos = filled.pos + 1 })

  unfoldable pub prg_u32 : Prg → ℕ × Prg
  prg_u32 g =
      let (b0, g0) = prg_byte g in
      let (b1, g1) = prg_byte g0 in
      let (b2, g2) = prg_byte g1 in
      let (b3, g3) = prg_byte g2 in
      (word_step (word_step (word_step (word_step 0 b0) b1) b2) b3, g3)

  -- The draws until one is below `limit`.
  unfoldable pub draw_loop : ℕ → ℕ → Prg → Option (ℕ × Prg)
  draw_loop limit zero g = none
  draw_loop limit (suc fuel) g =
      let (r, g') = prg_u32 g in
      let again = draw_loop limit fuel g' in if leb limit r then again else some (r, g')

  unfoldable pub prg_below : ℕ → Prg → ℕ → Option (ℕ × Prg)
  prg_below fuel g bound = elim (draw_loop (2 ^ 32 - 2 ^ 32 % bound) fuel g) [
    | none ↦ none
    | some (r, g') ↦ some (r % bound, g')
  ]

  -- The swaps from index `i`, with `left` to go, in an array of `m` entries (M_KKW).
  unfoldable pub shuffle_loop : ℕ → ℕ → ℕ → ℕ → List ℕ → Prg → Option (List ℕ × Prg)
  shuffle_loop fuel m zero i arr g = some (arr, g)
  shuffle_loop fuel m (suc left) i arr g = elim (prg_below fuel g (m - i)) [
    | none ↦ none
    | some (r, g') ↦ shuffle_loop fuel m left (i + 1) (swap arr i (i + r)) g'
  ]

  -- The draws of one hidden party among `n`.
  unfoldable pub party_draw : ℕ → ℕ → Prg → Option (ℕ × Prg)
  party_draw n zero g = none
  party_draw n (suc fuel) g =
      let (val, g') = prg_byte g in
      let again = party_draw n fuel g' in
      if leb (n * (256 / n)) val then again else some (val % n, g')

  unfoldable pub party_loop : ℕ → ℕ → ℕ → Prg → Option (List ℕ)
  party_loop fuel n zero g = some []
  party_loop fuel n (suc left) g = elim (party_draw n fuel g) [
    | none ↦ none
    | some (val, g') ↦ elim (party_loop fuel n left g') [
      | none ↦ none
      | some rest ↦ some (val ∷ rest)
    ]
  ]

  -- The C library's `qsort` with `cmp_int` is a parameter.
  module _ (qsort : List ℕ → List ℕ) where
    -- The opened instances and the hidden party of each, for `m` instances, `rounds` of them
    -- opened, and `n` parties.
    unfoldable pub kkw_fs_expand : ℕ → ℕ → ℕ → ℕ → Bytes → Bytes → Option (List ℕ × List ℕ)
    kkw_fs_expand fuel m rounds n fresh seed =
        elim (shuffle_loop fuel m rounds 0 (tabulate m (λ i. i)) (prg_init fresh seed)) [
          | none ↦ none
          | some (arr, g) ↦ elim (party_loop fuel n rounds g) [
            | none ↦ none
            | some parties ↦ some (qsort (take rounds arr), parties)
          ]
        ]
