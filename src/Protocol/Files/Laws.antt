-- ===== src/Protocol/Files/Laws.antt =====
-- The signer key file of kkw/src/protocol.c, written and read.
use hash_blind_signatures.Common.{
  ℕ, ◌+◌, ◌*◌, ◌/◌, ◌%◌, ◌^◌, ◌<◌, ◌≤◌, ◌≡◌, ◌∙◌, sym, ap, arith, [], ◌∷◌, ◌++◌, Bytes, length,
  take, drop, get_or, none, some, byte_of, bit_or, ltb, ==_iff, ◌||◌, if◌then◌else◌, length-append,
  take-append, drop-append,
}
use hash_blind_signatures.Bits.{or-shifted}
use hash_blind_signatures.Protocol.Signer.{SignerKey}
use hash_blind_signatures.Protocol.Files.{
  put_le64, get_le64, write_signer_key, key_fields, read_signer_key, signer_key_bytes,
}

-- `|` of eight shifted bytes is their weighted sum.
get_le64-sum :
    (a b c d e f g h : ℕ) (rest : Bytes)
    → a < 256
    → b < 256
    → c < 256
    → d < 256
    → e < 256
    → f < 256
    → g < 256
    → h < 256
    → get_le64 (a ∷ b ∷ c ∷ d ∷ e ∷ f ∷ g ∷ h ∷ rest)
      ≡ a + b * 2 ^ 8 + c * 2 ^ 16 + d * 2 ^ 24 + e * 2 ^ 32 + f * 2 ^ 40 + g * 2 ^ 48 + h * 2 ^ 56
unfolding get_le64
get_le64-sum a b c d e f g h rest a0 b0 c0 d0 e0 f0 g0 h0 =
    ap (λ t. s56 (s48 (s40 (s32 (s24 (s16 (s8 t))))))) zero_or
    ∙ ap (λ t. s56 (s48 (s40 (s32 (s24 (s16 t)))))) (or-shifted 8 b a (omega arith))
    ∙ ap (λ t. s56 (s48 (s40 (s32 (s24 t))))) (or-shifted 16 c n1 (omega arith))
    ∙ ap (λ t. s56 (s48 (s40 (s32 t)))) (or-shifted 24 d n2 (omega arith))
    ∙ ap (λ t. s56 (s48 (s40 t))) (or-shifted 32 e n3 (omega arith))
    ∙ ap (λ t. s56 (s48 t)) (or-shifted 40 f n4 (omega arith))
    ∙ ap s56 (or-shifted 48 g n5 (omega arith))
    ∙ or-shifted 56 h n6 (omega arith)
  where
    s8 : ℕ → ℕ
    s8 t = bit_or t (b * 2 ^ 8)

    s16 : ℕ → ℕ
    s16 t = bit_or t (c * 2 ^ 16)

    s24 : ℕ → ℕ
    s24 t = bit_or t (d * 2 ^ 24)

    s32 : ℕ → ℕ
    s32 t = bit_or t (e * 2 ^ 32)

    s40 : ℕ → ℕ
    s40 t = bit_or t (f * 2 ^ 40)

    s48 : ℕ → ℕ
    s48 t = bit_or t (g * 2 ^ 48)

    s56 : ℕ → ℕ
    s56 t = bit_or t (h * 2 ^ 56)

    n1 : ℕ
    n1 = a + b * 2 ^ 8

    n2 : ℕ
    n2 = n1 + c * 2 ^ 16

    n3 : ℕ
    n3 = n2 + d * 2 ^ 24

    n4 : ℕ
    n4 = n3 + e * 2 ^ 32

    n5 : ℕ
    n5 = n4 + f * 2 ^ 40

    n6 : ℕ
    n6 = n5 + g * 2 ^ 48

    times_one : a * 2 ^ 0 ≡ a
    times_one = omega arith

    zero_or : bit_or 0 a ≡ a
    zero_or = sym (ap (bit_or 0) times_one) ∙ or-shifted 0 a 0 (omega arith) ∙ omega arith

get_le64-put : (v : ℕ) → v < 2 ^ 64 → get_le64 (put_le64 v) ≡ v
get_le64-put v small =
    get_le64-sum (byte_of v 0) (byte_of v 1) (byte_of v 2) (byte_of v 3) (byte_of (v / 2 ^ 32) 0)
      (byte_of (v / 2 ^ 32) 1) (byte_of (v / 2 ^ 32) 2) (byte_of (v / 2 ^ 32) 3) [] (omega arith)
      (omega arith) (omega arith) (omega arith) (omega arith) (omega arith) (omega arith)
      (omega arith)
    ∙ omega arith

-- The sizes that the C type `blind_signer_key` fixes, and a height that a tree can have.
pub record IsStorable (key : SignerKey) : Type 0 where
  pub sk_size : length key.sk_seed ≡ 32
  pub pk_size : length key.pk_seed ≡ 16
  pub height_pos : 1 ≤ key.height
  pub height_fits : key.height ≤ 32
  pub leaf_fits : key.next_leaf < 2 ^ 64

module _ (key : SignerKey) (v : IsStorable key) where
  -- The file after both seeds.
  tail : Bytes
  tail = key.height % 2 ^ 8 ∷ put_le64 key.next_leaf

  size : length (write_signer_key key) ≡ signer_key_bytes
  unfolding write_signer_key
  size = omega (
    arith,
    length-append {0} key.sk_seed (key.pk_seed ++ key.height % 2 ^ 8 ∷ put_le64 key.next_leaf),
    length-append {0} key.pk_seed (key.height % 2 ^ 8 ∷ put_le64 key.next_leaf),
    v.sk_size,
    v.pk_size,
  )

  fields : key_fields (write_signer_key key) ≡ record key { tree = none }
  unfolding key_fields write_signer_key tail
  fields i = record {
    sk_seed = take-append 32 key.sk_seed (key.pk_seed ++ tail) v.sk_size i;
    pk_seed = (ap (take 16) after_sk ∙ take-append 16 key.pk_seed tail v.pk_size) i;
    height = (ap (λ b. get_or b 0 0) after_pk ∙ small) i;
    next_leaf = (ap (λ b. get_le64 (drop 1 b)) after_pk ∙ get_le64-put key.next_leaf v.leaf_fits) i;
    tree = none;
  }
    where
      after_sk : drop 32 (key.sk_seed ++ (key.pk_seed ++ tail)) ≡ key.pk_seed ++ tail
      after_sk = drop-append 32 key.sk_seed (key.pk_seed ++ tail) v.sk_size

      after_pk : drop 16 (drop 32 (key.sk_seed ++ (key.pk_seed ++ tail))) ≡ tail
      after_pk = ap (drop 16) after_sk ∙ drop-append 16 key.pk_seed tail v.pk_size

      small : key.height % 2 ^ 8 ≡ key.height
      small = omega (arith, v.height_fits)

  -- For a signer key with seeds of 32 and 16 bytes, a height from 1 to 32 and a leaf counter
  -- below 2^64: reading back the file that is written gives the key, without its tree.
  pub read_signer_key-write :
      read_signer_key (write_signer_key key) ≡ some (record key { tree = none })
  unfolding read_signer_key
  read_signer_key-write =
      rw ((==_iff (length (write_signer_key key)) signer_key_bytes).1 size)
        (ap (λ k. if ltb k.height 1 || ltb 32 k.height then none else some k) fields ∙ accepted)
    where
      accepted :
          (if ltb key.height 1 || ltb 32 key.height
            then none
            else some (record key { tree = none }))
          ≡ some (record key { tree = none })
      accepted = ground (arith, v.height_pos, v.height_fits)
