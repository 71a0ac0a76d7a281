-- ===== src/Xmss/Codec/Laws.antt =====
-- Writing and reading the signatures of kkw/src/xmss.c.
use hash_blind_signatures.Common.{
  ℕ, ◌+◌, ◌*◌, ◌^◌, ◌<◌, ◌≡◌, ◌≢◌, ◌∙◌, sym, ap, ap₂, arith, [], ◌∷◌, ◌++◌, Bytes, length, take,
  drop, none, some, byte_of, put_le32, concat, blocks, Sized, IsBytes, ==_iff, length-append,
  length-concat, blocks-concat, take-append, drop-append, concat-blocks, concat-blocks-drop,
  take-append-drop, length-drop,
}
use mathlib.Core.List.{append-nil}
use hash_blind_signatures.Bits.{or-shifted}
use hash_blind_signatures.Xmss.Params.{node_bytes, nonce_len, wots_len, tree_h, sig_bytes}
use hash_blind_signatures.Xmss.Sign.{Signature}
use hash_blind_signatures.Xmss.Codec.{get_le32, sig_fields, write_sig, read_sig}

-- `|` of four shifted bytes is their weighted sum.
pub get_le32-sum :
    (a b c d : ℕ) (rest : Bytes)
    → a < 256
    → b < 256
    → c < 256
    → d < 256
    → get_le32 (a ∷ b ∷ c ∷ d ∷ rest) ≡ a + b * 2 ^ 8 + c * 2 ^ 16 + d * 2 ^ 24
unfolding get_le32
get_le32-sum a b c d rest p q r s =
    rw (or-shifted 8 b a (omega arith), or-shifted 16 c (a + b * 2 ^ 8) (omega arith))
      (or-shifted 24 d (a + b * 2 ^ 8 + c * 2 ^ 16) (omega arith))

pub get_le32-put : (v : ℕ) (rest : Bytes) → v < 2 ^ 32 → get_le32 (put_le32 v ++ rest) ≡ v
get_le32-put v rest h =
    get_le32-sum (byte_of v 0) (byte_of v 1) (byte_of v 2) (byte_of v 3) rest (omega arith)
      (omega arith) (omega arith) (omega arith)
    ∙ omega arith

-- The sizes that the C type `xmss_sig` fixes.
pub record IsSig (sig : Signature) : Type 0 where
  pub index_fits : sig.leaf_index < 2 ^ 32
  pub nonce_size : length sig.nonce ≡ nonce_len
  pub hashes : length sig.sig_hashes ≡ wots_len
  pub hash_sizes : Sized node_bytes sig.sig_hashes
  pub path : length sig.auth_path ≡ tree_h
  pub path_sizes : Sized node_bytes sig.auth_path

module _ {sig : Signature} (v : IsSig sig) where
  pub length-write_sig : length (write_sig sig) ≡ sig_bytes
  unfolding write_sig
  length-write_sig = omega (
    arith,
    length-append {0} (put_le32 sig.leaf_index)
        (sig.nonce ++ (concat sig.sig_hashes ++ concat sig.auth_path)),
    length-append {0} sig.nonce (concat sig.sig_hashes ++ concat sig.auth_path),
    length-append {0} (concat sig.sig_hashes) (concat sig.auth_path),
    length-concat node_bytes wots_len sig.sig_hashes v.hash_sizes v.hashes,
    length-concat node_bytes tree_h sig.auth_path v.path_sizes v.path,
    v.nonce_size,
  )

  after_index : Bytes
  after_index = sig.nonce ++ (concat sig.sig_hashes ++ concat sig.auth_path)

  hashes_read : blocks node_bytes wots_len (drop nonce_len after_index) ≡ sig.sig_hashes
  unfolding after_index
  hashes_read =
      ap (blocks node_bytes wots_len) (
        drop-append nonce_len sig.nonce (concat sig.sig_hashes ++ concat sig.auth_path)
          v.nonce_size)
      ∙ blocks-concat node_bytes wots_len sig.sig_hashes (concat sig.auth_path) v.hash_sizes
          v.hashes

  path_read :
      blocks node_bytes tree_h (drop (wots_len * node_bytes) (drop nonce_len after_index))
      ≡ sig.auth_path
  unfolding after_index
  path_read =
      ap (λ b. blocks node_bytes tree_h (drop (wots_len * node_bytes) b))
        (drop-append nonce_len sig.nonce (concat sig.sig_hashes ++ concat sig.auth_path)
          v.nonce_size)
      ∙ ap (blocks node_bytes tree_h) (
          drop-append (wots_len * node_bytes) (concat sig.sig_hashes) (concat sig.auth_path)
            (length-concat node_bytes wots_len sig.sig_hashes v.hash_sizes v.hashes)
          ∙ sym (append-nil {0} (concat sig.auth_path)))
      ∙ blocks-concat node_bytes tree_h sig.auth_path [] v.path_sizes v.path

  -- Reading back the encoding of a signature with the sizes of the C type gives the signature.
  pub read_sig-write : read_sig (write_sig sig) ≡ some sig
  unfolding read_sig
  read_sig-write =
      rw ((==_iff (length (write_sig sig)) sig_bytes).1 length-write_sig) (ap some fields)
    where
      fields : sig_fields (write_sig sig) ≡ sig
      fields =
          unfold sig_fields write_sig after_index in
          λ i. record {
            leaf_index = get_le32-put sig.leaf_index after_index v.index_fits i;
            nonce =
                take-append nonce_len sig.nonce (concat sig.sig_hashes ++ concat sig.auth_path)
                  v.nonce_size i;
            sig_hashes = hashes_read i;
            auth_path = path_read i;
          }

-- The four bytes that a little-endian word was read from.
put_le32-get :
    (a b c d : ℕ) (rest : Bytes)
    → a < 256
    → b < 256
    → c < 256
    → d < 256
    → put_le32 (get_le32 (a ∷ b ∷ c ∷ d ∷ rest)) ≡ a ∷ b ∷ c ∷ d ∷ []
put_le32-get a b c d rest p q r s =
    ap put_le32 (get_le32-sum a b c d rest p q r s) ∙ λ i. e0 i ∷ e1 i ∷ e2 i ∷ e3 i ∷ []
  where
    n : ℕ
    n = a + b * 2 ^ 8 + c * 2 ^ 16 + d * 2 ^ 24

    e0 : byte_of n 0 ≡ a
    e0 = omega arith

    e1 : byte_of n 1 ≡ b
    e1 = omega arith

    e2 : byte_of n 2 ≡ c
    e2 = omega arith

    e3 : byte_of n 3 ≡ d
    e3 = omega arith

-- A buffer is accepted exactly at the length of a signature.
pub read_sig-refuses : (buf : Bytes) → length buf ≢ sig_bytes → read_sig buf ≡ none
unfolding read_sig
read_sig-refuses buf h = ground arith

-- Cutting a buffer into a head and two runs of blocks loses nothing.
rest_of_fields :
    (k w n m : ℕ) (rest : Bytes)
    → length rest ≡ k + n * w + w * m
    → take k rest
        ++ (concat (blocks w n (drop k rest)) ++ concat (blocks w m (drop (n * w) (drop k rest))))
      ≡ rest
rest_of_fields k w n m rest e =
    ap (λ t. take k rest ++ (concat (blocks w n (drop k rest)) ++ t))
      (concat-blocks w m (drop (n * w) (drop k rest))
          (omega (arith, length-drop (n * w) (drop k rest), length-drop k rest))
        ∙ ap (λ t. drop t (drop k rest)) (omega arith))
    ∙ ap (λ t. take k rest ++ t) (concat-blocks-drop w n (drop k rest))
    ∙ take-append-drop k rest

write_sig-fields :
    (buf : Bytes) → IsBytes buf → length buf ≡ sig_bytes → write_sig (sig_fields buf) ≡ buf
unfolding sig_fields write_sig
write_sig-fields [] h e = absurd (omega arith)
write_sig-fields (a ∷ []) h e = absurd (omega arith)
write_sig-fields (a ∷ b ∷ []) h e = absurd (omega arith)
write_sig-fields (a ∷ b ∷ c ∷ []) h e = absurd (omega arith)
write_sig-fields (a ∷ b ∷ c ∷ d ∷ rest) h e =
    ap₂ ◌++◌ (put_le32-get a b c d rest h.0 h.1.0 h.1.1.0 h.1.1.1.0)
      (rest_of_fields nonce_len node_bytes wots_len tree_h rest (omega arith))

-- If a buffer of bytes is read as a signature, the encoding of that signature is the buffer.
pub write_sig-read :
    (buf : Bytes) (sig : Signature) → IsBytes buf → read_sig buf ≡ some sig → write_sig sig ≡ buf
write_sig-read buf sig h e = ap write_sig (sym was.1) ∙ write_sig-fields buf h was.0
  where
    was : (length buf ≡ sig_bytes) × (sig_fields buf ≡ sig)
    was = unfold read_sig in ground arith
