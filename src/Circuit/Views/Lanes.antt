-- ===== src/Circuit/Views/Lanes.antt =====
-- Masked byte buffers of kkw/src/circuits.c and kkw/src/pooled_chains.inc: a public array next to
-- an array of mask bytes for each share, and the steps that treat them alike.
use hash_blind_signatures.Common.{
  ℕ, ◌+◌, ◌-◌, ◌*◌, ◌/◌, ◌%◌, ◌^◌, bit_or, [], ◌∷◌, ◌++◌, List, Bytes, u8, u32, some, none, get_or,
  take, drop, length, replicate, tabulate, put_le32, concat, map, leb, if◌then◌else◌,
}
use hash_blind_signatures.Xmss.Params.{nonce_len, wots_len, node_bytes, tree_h}
use hash_blind_signatures.Protocol.User.{w_nonce_off}
use hash_blind_signatures.Xmss.Hashes.{bit_at, coord_bit_pos}
use hash_blind_signatures.Circuit.Shares.{Masked, share}
use hash_blind_signatures.Circuit.Input.{Input}

-- The public array, and the masks' shares.
abbrev pub Buffer : Type 0
Buffer = Bytes × List Bytes

abbrev pub lane : Buffer → ℕ → Bytes
lane b i = get_or b.1 i []

-- The offsets of kkw/src/circuits.h that follow the nonce.
abbrev pub w_sig_off : ℕ
w_sig_off = w_nonce_off + nonce_len

abbrev pub w_path_off : ℕ
w_path_off = w_sig_off + wots_len * node_bytes

abbrev pub w_schedule_off : ℕ
w_schedule_off = w_path_off + tree_h * node_bytes

-- `xmss_node_load_word`
unfoldable pub node_load_word : Bytes → ℕ → ℕ
node_load_word node word =
    bit_or
      (bit_or (bit_or (bit_or 0 (get_or node (4 * word) 0)) (get_or node (4 * word + 1) 0 * 2 ^ 8))
        (get_or node (4 * word + 2) 0 * 2 ^ 16))
      (get_or node (4 * word + 3) 0 * 2 ^ 24)

-- `0u - (v & 1u)`
abbrev pub negated_bit : ℕ → ℕ
negated_bit v = u32 (2 ^ 32 - v % 2)

abbrev pub shr32 : ℕ → ℕ → ℕ
shr32 v k = if leb 32 k then 0 else v / 2 ^ k

-- `(b[0] << 24) | (b[1] << 16) | (b[2] << 8) | b[3]`
abbrev pub be_word : Bytes → ℕ
be_word b =
    bit_or (bit_or (bit_or (get_or b 0 0 * 2 ^ 24) (get_or b 1 0 * 2 ^ 16)) (get_or b 2 0 * 2 ^ 8))
      (get_or b 3 0)

-- The three bits of digit `ci`.
abbrev pub coord_word : ℕ → Bytes → ℕ
coord_word ci mh =
    let pos = coord_bit_pos ci in
    bit_or
      (bit_or (bit_or 0 (u32 (bit_at mh pos % 2 * 2 ^ 0))) (u32 (bit_at mh (pos + 1) % 2 * 2 ^ 1)))
      (u32 (bit_at mh (pos + 2) % 2 * 2 ^ 2))

-- A hash input from a masked buffer, and from a public array.
abbrev pub input_of : ℕ → Buffer → Input
input_of len b = record { bytes = b.0; len = len; lam = some b.1 }

abbrev pub public_input : ℕ → Bytes → Input
public_input len bs = record { bytes = bs; len = len; lam = none }

-- On `n` shares.
module _ (n : ℕ) where
  abbrev pub on_lanes : (Bytes → Bytes) → Buffer → Buffer
  on_lanes f b = (f b.0, tabulate n (λ i. f (lane b i)))

  abbrev pub on_words : (ℕ → ℕ) → Masked → Masked
  on_words f x = record { h = f x.h; l = tabulate n (λ i. f (share x i)) }

  -- `len` bytes from an offset
  unfoldable pub slice : ℕ → ℕ → Buffer → Buffer
  slice off len = on_lanes (λ b. take len (drop off b))

  -- Public bytes: the masks are zero.
  unfoldable pub public_bytes : Bytes → Buffer
  public_bytes bs = (bs, tabulate n (λ i. replicate (length bs) 0))

  unfoldable pub joined : Buffer → Buffer → Buffer
  joined a b = (a.0 ++ b.0, tabulate n (λ i. lane a i ++ lane b i))

  -- Entry `w` of arrays of words, as a masked word.
  unfoldable pub lane_word : Buffer → ℕ → Masked
  lane_word b w = record { h = get_or b.0 w 0; l = tabulate n (λ i. get_or (lane b i) w 0) }

  -- What `f` reads from each array, as a masked word.
  abbrev pub read_word : (Bytes → ℕ) → Buffer → Masked
  read_word f b = record { h = f b.0; l = tabulate n (λ i. f (lane b i)) }

  abbrev pub load_word : Buffer → ℕ → Masked
  load_word b w = read_word (λ node. node_load_word node w) b

  -- Words one after another, each in little-endian order.
  unfoldable pub stored : List Masked → Buffer
  stored ws = (
    concat (map (λ w. put_le32 w.h) ws),
    tabulate n (λ i. concat (map (λ w. put_le32 (share w i)) ws)),
  )

  -- One byte of a masked word.
  abbrev pub byte_buffer : Masked → Buffer
  byte_buffer x = (u8 x.h ∷ [], tabulate n (λ i. u8 (share x i) ∷ []))

  -- `bitmask`: all bits equal to bit `bit`.
  unfoldable pub bitmask : Masked → ℕ → Masked
  bitmask x bit = on_words (λ v. negated_bit (v / 2 ^ bit)) x

  unfoldable pub mask_from_bit : Masked → Masked
  mask_from_bit = on_words negated_bit

  unfoldable pub mh_coord : Buffer → ℕ → Masked
  mh_coord mh ci = read_word (coord_word ci) mh

  -- `put_idx_le(dom + dlen - 4, shr32(li, level + 1))`
  unfoldable pub idx_bytes : Masked → ℕ → Buffer
  idx_bytes li level = stored (on_words (λ v. shr32 v (level + 1)) li ∷ [])
