-- ===== src/Random.antt =====
-- kkw/src/randombytes.c. The state is the number of `getentropy` calls made so far.
pub mod Laws
use hash_blind_signatures.Common.{
  ℕ, zero, suc, ◌+◌, ◌-◌, Option, none, some, ◌++◌, Bytes, [], ltb, ◌==◌, if◌then◌else◌,
}
use hash_blind_signatures.Platform.{Platform}

abbrev pub getentropy_max : ℕ
getentropy_max = 256

-- `length < BLIND_MSS_GETENTROPY_MAX ? length : BLIND_MSS_GETENTROPY_MAX`
abbrev pub chunk_of : ℕ → ℕ
chunk_of left = if ltb left getentropy_max then left else getentropy_max

module _ (p : Platform) where
  -- The `while` loop, with `filled` for what `out` has moved over. Each round fills at least a
  -- byte, so a fuel of `left` is enough; `none` is the failure, which zeroes the buffer.
  unfoldable pub fill_loop : ℕ → ℕ → ℕ → Bytes → ℕ × Option Bytes
  fill_loop zero calls left filled = (calls, some filled)
  fill_loop (suc fuel) calls left filled =
      let rest =
        λ (out : Bytes). fill_loop fuel (calls + 1) (left - chunk_of left) (filled ++ out) in
      if left == 0 then (calls, some filled) else elim (p.getentropy calls (chunk_of left)) [
        | none ↦ (calls + 1, none)
        | some out ↦ rest out
      ]

  unfoldable pub randombytes_fill : ℕ → ℕ → ℕ × Option Bytes
  unfolding fill_loop
  randombytes_fill calls len = fill_loop len calls len []
