-- ===== src/Platform.antt =====
-- What the C sources call and do not define: the BLAKE3 hasher (`blake3.h`), `getentropy`
-- and `malloc`. They are fields of a record that the model takes as a parameter.
use hash_blind_signatures.Common.{ℕ, Bool, Option, Bytes, length, IsBytes, ◌≡◌, ◌++◌, some}

pub record Platform : Type 1 where
  -- the state of a `blake3_hasher`
  pub Hasher : Type 0
  -- `blake3_hasher_init_derive_key(&h, context)`
  pub init_derive_key : Bytes → Hasher
  -- `blake3_hasher_init_keyed(&h, key)`
  pub init_keyed : Bytes → Hasher
  -- `blake3_hasher_update(&h, data, len)`
  pub update : Hasher → Bytes → Hasher
  -- `blake3_hasher_finalize(&h, out, out_len)`: the output, for a length
  pub finalize : Hasher → ℕ → Bytes
  -- what the k-th call of `getentropy(out, n)` stores, `none` for a failure
  pub getentropy : ℕ → ℕ → Option Bytes
  -- whether `malloc(n)` is granted: the same answer to each request of this size
  pub malloc : ℕ → Bool

-- The documented behaviour that some theorems rely on.
pub record IsDocumented (p : Platform) : Type 0 where
  -- the hasher is a stream: it does not see how its input was cut
  pub update-append : (h : p.Hasher) (a b : Bytes) → p.update (p.update h a) b ≡ p.update h (a ++ b)
  -- the output has the length asked for
  pub length-finalize : (h : p.Hasher) (n : ℕ) → length (p.finalize h n) ≡ n
  -- the output is made of bytes
  pub finalize-IsBytes : (h : p.Hasher) (n : ℕ) → IsBytes (p.finalize h n)
  -- a successful `getentropy` fills the buffer, with bytes
  pub length-getentropy : (k n : ℕ) (out : Bytes) → p.getentropy k n ≡ some out → length out ≡ n
  pub getentropy-IsBytes : (k n : ℕ) (out : Bytes) → p.getentropy k n ≡ some out → IsBytes out
