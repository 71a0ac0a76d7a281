-- ===== src/Tests.antt =====
-- A concrete platform, on which the definitions run, and the theorems at concrete inputs.
mod Xmss
mod Signer
mod Tree
mod Codec
mod Circuit
mod Views
mod Proof
mod Round
mod Verifier
mod Prover
mod Kkw
use hash_blind_signatures.Common.{
  ℕ, zero, suc, ◌+◌, ◌*◌, ◌%◌, ◌<◌, ◌≡◌, refl, ap, arith, none, some, [], ◌∷◌, ◌++◌, List, Bytes,
  length, IsBytes, Bool-cases, inl, inr, replicate, length-replicate, ◌==◌, if◌then◌else◌, true,
}
use mathlib.Core.Path.{subst}
use hash_blind_signatures.Platform.{Platform, IsDocumented}

-- A small mixing function in the place of BLAKE3.
abbrev pub mix : ℕ → Bytes → ℕ
mix h [] = h
mix h (x ∷ xs) = mix ((h * 3 + x + 1) % 256) xs

-- 42 digits that add up to the target sum, with both leftover bits zero.
abbrev pub good_digest : Bytes
good_digest =
    108 ∷ 75 ∷ 182 ∷ 101 ∷ 203 ∷ 178 ∷ 109 ∷ 73 ∷ 45 ∷ 203 ∷ 150 ∷ 109 ∷ 91 ∷ 146 ∷ 109 ∷ 89 ∷ []

abbrev pub spread : ℕ → ℕ → Bytes
spread zero h = []
spread (suc n) h = h % 256 ∷ spread n (h % 256 * 5 + 1)

-- Outputs of 32 bytes are the good digest; others depend on the input.
abbrev pub digest_of : ℕ → ℕ → Bytes
digest_of h n = if n == 32 then good_digest ++ replicate 16 0 else spread n h

abbrev pub toy : Platform
toy = record {
  Hasher = ℕ;
  init_derive_key = mix 0;
  init_keyed = mix 1;
  update = mix;
  finalize = digest_of;
  getentropy = λ k n. some (replicate n (k % 256));
  malloc = λ n. true;
}

mix-append : (h : ℕ) (a b : Bytes) → mix (mix h a) b ≡ mix h (a ++ b)
mix-append h [] b = refl
mix-append h (x ∷ a) b = mix-append ((h * 3 + x + 1) % 256) a b

length-spread : (n h : ℕ) → length (spread n h) ≡ n
length-spread zero h = refl
length-spread (suc n) h = ap suc (length-spread n (h % 256 * 5 + 1))

spread-IsBytes : (n h : ℕ) → IsBytes (spread n h)
spread-IsBytes zero h = tt
spread-IsBytes (suc n) h = (omega arith, spread-IsBytes n (h % 256 * 5 + 1))

pub replicate-IsBytes : (n k : ℕ) → k < 256 → IsBytes (replicate n k)
replicate-IsBytes zero k h = tt
replicate-IsBytes (suc n) k h = (h, replicate-IsBytes n k h)

good-IsBytes : IsBytes (good_digest ++ replicate 16 0)
good-IsBytes = omega arith

toy-length-finalize : (h n : ℕ) → length (digest_of h n) ≡ n
toy-length-finalize h n = ground (arith, length-spread n h)

toy-finalize-IsBytes : (h n : ℕ) → IsBytes (digest_of h n)
toy-finalize-IsBytes h n = elim (Bool-cases (n == 32)) [
  | inl e ↦ rw (e, IsBytes) good-IsBytes
  | inr e ↦ rw (e, IsBytes) (spread-IsBytes n h)
]

filled :
    (k n : ℕ) (out : Bytes) → some (replicate n (k % 256)) ≡ some out → replicate n (k % 256) ≡ out
filled k n out e = cc

toy-length-getentropy : (k n : ℕ) (out : Bytes) → toy.getentropy k n ≡ some out → length out ≡ n
toy-length-getentropy k n out e =
    subst (λ o. length o ≡ n) (filled k n out e) (length-replicate n (k % 256))

toy-getentropy-IsBytes : (k n : ℕ) (out : Bytes) → toy.getentropy k n ≡ some out → IsBytes out
toy-getentropy-IsBytes k n out e =
    subst IsBytes (filled k n out e) (replicate-IsBytes n (k % 256) (omega arith))

-- The toy platform behaves as documented.
pub toy-IsDocumented : IsDocumented toy
toy-IsDocumented = record {
  update-append = mix-append;
  length-finalize = toy-length-finalize;
  finalize-IsBytes = toy-finalize-IsBytes;
  length-getentropy = toy-length-getentropy;
  getentropy-IsBytes = toy-getentropy-IsBytes;
}
