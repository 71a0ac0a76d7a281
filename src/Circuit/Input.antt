-- ===== src/Circuit/Input.antt =====
-- The framing of the circuit's hash: kkw/src/blake3_th_mpc.h, and what `mpc_blake3_th` and
-- `mpc_blake3_th_verify` have in common. Sizes are never negative here. The sizes that blake3.h
-- defines (BLAKE3_BLOCK_LEN, BLAKE3_CHUNK_LEN, BLAKE3_OUT_LEN) are parameters.
use hash_blind_signatures.Common.{
  ℕ, ◌+◌, ◌-◌, ◌*◌, ◌/◌, ◌%◌, ◌^◌, bit_or, Bool, true, false, ◌&&◌, Option, none, some, [], ◌∷◌,
  List, Bytes, u8, u32, get_or, tabulate, ltb, leb, if◌then◌else◌, ◌==◌,
}
use hash_blind_signatures.Hash.{th_max_domain}
use hash_blind_signatures.Circuit.Shares.{Masked, share, mw_const}

-- BLAKE3_TH_FRAME_LEN
abbrev pub th_frame_len : ℕ
th_frame_len = 4

abbrev pub th_context_key : List ℕ
th_context_key =
    2461811754 ∷ 1904130521 ∷ 3873659012 ∷ 1708237813 ∷ 3195301711 ∷ 996110550 ∷ 2944263288
    ∷ 3971386809 ∷ []

-- Byte `i` of the frame; `none` is a NULL pointer.
abbrev pub frame_byte : Option Bytes → ℕ → Option Bytes → ℕ → Bool → ℕ → ℕ
frame_byte domain dom_len data_in data_len mask_share i =
    let j = i - th_frame_len - dom_len in
    if ltb i th_frame_len
    then (if mask_share then 0 else u8 (u32 dom_len / 2 ^ (8 * i)))
    else (if ltb i (th_frame_len + dom_len)
        then elim domain [ none ↦ 0 | some xs ↦ get_or xs (i - th_frame_len) 0 ]
        else elim data_in [ none ↦ 0 | some xs ↦ if ltb j data_len then get_or xs j 0 else 0 ])

unfoldable pub th_mpc_word : Option Bytes → ℕ → Option Bytes → ℕ → ℕ → Bool → ℕ
th_mpc_word domain dom_len data_in data_len off mask_share =
    let byte = frame_byte domain dom_len data_in data_len mask_share in
    bit_or
      (bit_or (bit_or (bit_or 0 (byte off)) (byte (off + 1) * 2 ^ 8)) (byte (off + 2) * 2 ^ 16))
      (byte (off + 3) * 2 ^ 24)

-- A public byte array, its length, and the shares of its mask (`none` for NULL).
pub record Input : Type 0 where
  pub bytes : Bytes
  pub len : ℕ
  pub lam : Option (List Bytes)

abbrev pub lam_at : Input → ℕ → Option Bytes
lam_at x i = elim x.lam [ none ↦ none | some ls ↦ some (get_or ls i []) ]

module _ (block_max chunk_max out_max : ℕ) where
  unfoldable pub valid_sizes : ℕ → ℕ → ℕ → Bool
  valid_sizes dom_len data_len out_len =
      leb dom_len th_max_domain
      && (leb data_len (chunk_max - th_frame_len - dom_len) && leb out_len out_max)

  abbrev pub framed_len : Input → Input → ℕ
  framed_len domain data_in = th_frame_len + domain.len + data_in.len

  abbrev pub nblocks : Input → Input → ℕ
  nblocks domain data_in = (framed_len domain data_in + block_max - 1) / block_max

  abbrev pub blen : Input → Input → ℕ → ℕ
  blen domain data_in b =
      let left = framed_len domain data_in - b * block_max in
      if ltb block_max left then block_max else left

  -- BLAKE3_DERIVE_KEY_MATERIAL, BLAKE3_CHUNK_START, BLAKE3_CHUNK_END | BLAKE3_ROOT
  abbrev pub block_flags : Input → Input → ℕ → ℕ
  block_flags domain data_in b =
      bit_or (bit_or 64 (if b == 0 then 1 else 0))
        (if b + 1 == nblocks domain data_in then bit_or 2 8 else 0)

  -- The sixteen masked words of block `b`, on `n` shares.
  unfoldable pub block_words : ℕ → Input → Input → ℕ → List Masked
  block_words n domain data_in b = tabulate 16 (λ w. record {
    h =
        th_mpc_word (some domain.bytes) domain.len (some data_in.bytes) data_in.len
          (b * block_max + w * 4) false;
    l = tabulate n (λ i.
        th_mpc_word (lam_at domain i) domain.len (lam_at data_in i) data_in.len
          (b * block_max + w * 4) true);
  })

-- `mw_const` of each word of the context key
unfoldable pub key_words : ℕ → List Masked
key_words n = tabulate 8 (λ w. mw_const n (get_or th_context_key w 0))

-- Byte `i` of the words.
abbrev pub out_byte : (ℕ → ℕ) → ℕ → ℕ
out_byte words i = u8 (words (i / 4) / 2 ^ (8 * (i % 4)))

-- The public bytes and the shares of their masks.
unfoldable pub out_bytes : ℕ → ℕ → List Masked → Bytes × List Bytes
out_bytes n out_len cv =
    let word = λ (w : ℕ). get_or cv w (record { h = 0; l = [] }) in
    (
      tabulate out_len (out_byte (λ w. (word w).h)),
      tabulate n (λ i. tabulate out_len (out_byte (λ w. share (word w) i))),
    )
