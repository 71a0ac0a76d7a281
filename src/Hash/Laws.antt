-- ===== src/Hash/Laws.antt =====
-- The tweakable hash of kkw/src/blake3_th.c as one hash of a framed message.
use hash_blind_signatures.Common.{
  ℕ, ◌≤◌, ◌<◌, none, some, [], ◌∷◌, ◌++◌, Bytes, length, put_le32, u32, ◌≡◌, ap, ◌∙◌, sym, arith,
}
use mathlib.Core.List.{append-nil, append_assoc}
use hash_blind_signatures.Platform.{Platform, IsDocumented}
use hash_blind_signatures.Hash.{th_into, array, th_context, blake3_th, update_nonempty}

-- LE32(domain_len) || domain || data
abbrev pub framed : Bytes → Bytes → Bytes
framed domain data_in = put_le32 (u32 (length domain)) ++ (domain ++ data_in)

module _ (p : Platform) where
  -- The call succeeds exactly on domains of at most 28 bytes and outputs of at most 32.
  pub blake3_th-fits :
      (domain data_in : Bytes) (n : ℕ)
      → length domain ≤ 28
      → n ≤ 32
      → 0 < n
      → blake3_th p (array domain) (array data_in) n
        ≡ some (
            p.finalize
              (update_nonempty p
                (update_nonempty p
                  (p.update (p.init_derive_key th_context) (put_le32 (u32 (length domain))))
                  domain)
                data_in)
              n)
  unfolding blake3_th
  blake3_th-fits domain data_in n h k pos = ground arith

  pub blake3_th-refuses :
      (domain data_in : Bytes) (n : ℕ)
      → 28 < length domain
      → blake3_th p (array domain) (array data_in) n ≡ none
  unfolding blake3_th
  blake3_th-refuses domain data_in n h = ground arith

  module _ (d : IsDocumented p) where
    update_nonempty_lem :
        (h : p.Hasher) (a b : Bytes) → update_nonempty p (p.update h a) b ≡ p.update h (a ++ b)
    unfolding update_nonempty
    update_nonempty_lem h a [] = ap (p.update h) (sym (append-nil {0} _))
    update_nonempty_lem h a (x ∷ b) = ground (arith, d.update-append h a (x ∷ b))

    -- On a platform with the documented hasher, a domain of at most 28 bytes and an output of 1
    -- to 32 bytes: blake3_th succeeds, and hashes the little-endian length of the domain, the
    -- domain and the data, in one stream.
    pub blake3_th_lem :
        (domain data_in : Bytes) (n : ℕ)
        → length domain ≤ 28
        → n ≤ 32
        → 0 < n
        → blake3_th p (array domain) (array data_in) n
          ≡ some (p.finalize (p.update (p.init_derive_key th_context) (framed domain data_in)) n)
    blake3_th_lem domain data_in n h k pos =
        blake3_th-fits domain data_in n h k pos
        ∙ ap (λ s. some (p.finalize s n))
            (ap (λ s. update_nonempty p s data_in) (update_nonempty_lem _ _ domain)
              ∙ update_nonempty_lem _ _ data_in
              ∙ ap (p.update (p.init_derive_key th_context))
                  (append_assoc (put_le32 (u32 (length domain))) domain data_in))

    -- A buffer that a hash is written to has the length of the output.
    pub length-th_into :
        (before domain data_in : Bytes) (n : ℕ)
        → length domain ≤ 28
        → n ≤ 32
        → 0 < n
        → length (th_into p before domain data_in n) ≡ n
    unfolding th_into
    length-th_into before domain data_in n h k pos =
        ap (λ o. length (elim o [ none ↦ before | some out ↦ out ]))
          (blake3_th_lem domain data_in n h k pos)
        ∙ d.length-finalize _ n
