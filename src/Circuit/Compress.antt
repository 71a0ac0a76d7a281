-- ===== src/Circuit/Compress.antt =====
-- The BLAKE3 compression function: plain, as in kkw/src/blake3_th.c, with the tables that the
-- circuit shares with it.
use hash_blind_signatures.Common.{
  ℕ, zero, suc, ◌+◌, ◌-◌, ◌/◌, ◌^◌, bit_xor, [], ◌∷◌, List, u32, get_or, set, tabulate, ltb,
  if◌then◌else◌,
}
use hash_blind_signatures.Circuit.Shares.{right_rotate}

abbrev pub b3_iv : List ℕ
b3_iv = 1779033703 ∷ 3144134277 ∷ 1013904242 ∷ 2773480762 ∷ []

abbrev pub msg_permutation : List ℕ
msg_permutation = 2 ∷ 6 ∷ 3 ∷ 10 ∷ 7 ∷ 0 ∷ 4 ∷ 13 ∷ 1 ∷ 11 ∷ 12 ∷ 5 ∷ 9 ∷ 14 ∷ 15 ∷ 8 ∷ []

-- The indices of one call of `g`: `a`, `b`, `c`, `d`, and the first of its two schedule entries.
abbrev pub Quarter : Type 0
Quarter = ℕ × ℕ × ℕ × ℕ × ℕ

-- The eight calls of a round.
abbrev pub quarters : List Quarter
quarters =
    (0, 4, 8, 12, 0)
    ∷ (1, 5, 9, 13, 2)
    ∷ (2, 6, 10, 14, 4)
    ∷ (3, 7, 11, 15, 6)
    ∷ (0, 5, 10, 15, 8)
    ∷ (1, 6, 11, 12, 10)
    ∷ (2, 7, 8, 13, 12)
    ∷ (3, 4, 9, 14, 14)
    ∷ []

-- `t[i] = s[MSG_PERMUTATION[i]]`
abbrev pub permuted : List ℕ → List ℕ
permuted s = tabulate 16 (λ i. get_or s (get_or msg_permutation i 0) 0)

-- `s[i] = i`
abbrev pub first_schedule : List ℕ
first_schedule = tabulate 16 (λ i. i)

-- An entry of `v`.
abbrev pub word_at : List ℕ → ℕ → ℕ
word_at v i = get_or v i 0

-- `v[d] = ROTR32(v[d] ^ v[a], n)`
abbrev pub rotated_xor : List ℕ → ℕ → ℕ → ℕ → List ℕ
rotated_xor v d a n = set v d (right_rotate (bit_xor (word_at v d) (word_at v a)) n)

unfoldable pub g : List ℕ → Quarter → ℕ → ℕ → List ℕ
g v (a, b, c, d, k) x y =
    let v1 = set v a (u32 (word_at v a + word_at v b + x)) in
    let v2 = rotated_xor v1 d a 16 in
    let v3 = set v2 c (u32 (word_at v2 c + word_at v2 d)) in
    let v4 = rotated_xor v3 b c 12 in
    let v5 = set v4 a (u32 (word_at v4 a + word_at v4 b + y)) in
    let v6 = rotated_xor v5 d a 8 in
    let v7 = set v6 c (u32 (word_at v6 c + word_at v6 d)) in rotated_xor v7 b c 7

-- The schedule entries of a call.
abbrev pub entry_of : Quarter → ℕ
entry_of (a, b, c, d, k) = k

unfoldable pub quarter_loop : List ℕ → List ℕ → List Quarter → List ℕ → List ℕ
quarter_loop m s [] v = v
quarter_loop m s (q ∷ qs) v =
    quarter_loop m s qs
      (g v q (word_at m (word_at s (entry_of q))) (word_at m (word_at s (entry_of q + 1))))

-- `rounds` rounds to go.
unfoldable pub round_loop : ℕ → List ℕ → List ℕ → List ℕ → List ℕ
round_loop zero m s v = v
round_loop (suc rounds) m s v = round_loop rounds m (permuted s) (quarter_loop m s quarters v)

unfoldable pub blake3_compress : List ℕ → List ℕ → ℕ → ℕ → ℕ → List ℕ
blake3_compress cv block_words counter block_len flags =
    let start = tabulate 16 (λ i.
      if ltb i 8
      then word_at cv i
      else (if ltb i 12
          then word_at b3_iv (i - 8)
          else word_at (u32 counter ∷ u32 (counter / 2 ^ 32) ∷ block_len ∷ flags ∷ []) (i - 12))) in
    let v = round_loop 7 block_words first_schedule start in
    tabulate 8 (λ i. bit_xor (word_at v i) (word_at v (i + 8)))
