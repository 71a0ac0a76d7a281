-- ===== src/Hash.antt =====
-- kkw/src/blake3_th.c and kkw/src/blake3_keyed_xof.c: the tweakable hash and the keyed
-- XOF, over the BLAKE3 hasher of the platform.
pub mod Laws
use hash_blind_signatures.Common.{
  ℕ, zero, suc, ◌+◌, ◌*◌, ◌/◌, ◌%◌, ◌^◌, Bool, true, false, ◌||◌, ◌&&◌, not, Option, none, some, [],
  ◌∷◌, ◌++◌, List, Bytes, length, get_or, byte_of, u8, u32, ltb, ◌==◌, if◌then◌else◌, put_le32,
  tabulate, codes,
}
use hash_blind_signatures.Platform.{Platform}

abbrev pub th_context : Bytes
th_context = codes "blind-mss tweakable hash v2"

abbrev pub th_max_domain : ℕ
th_max_domain = 28

-- A pointer with its length: NULL with a length, or an array of that length.
pub data Slice : Type 0 where
  null : ℕ → Slice
  array : Bytes → Slice

abbrev pub slice_len : Slice → ℕ
slice_len (null n) = n
slice_len (array xs) = length xs

-- `!p`
abbrev pub is_null : Slice → Bool
is_null (null n) = true
is_null (array xs) = false

-- the bytes read through the pointer, where it is not NULL
abbrev pub contents : Slice → Bytes
contents (null n) = []
contents (array xs) = xs

module _ (p : Platform) where
  -- `blake3_th_ctx`: the hasher of a poisoned context is never read.
  pub data ThCtx : Type 0 where
    poisoned : ThCtx
    ready : p.Hasher → ThCtx

  -- `if (domain_len) blake3_hasher_update(...)`
  unfoldable pub update_nonempty : p.Hasher → Bytes → p.Hasher
  update_nonempty h xs = if length xs == 0 then h else p.update h xs

  unfoldable pub blake3_th_init : Slice → ThCtx
  unfolding update_nonempty
  blake3_th_init domain =
      let framed = p.update (p.init_derive_key th_context) (put_le32 (u32 (slice_len domain))) in
      if ltb th_max_domain (slice_len domain) || (is_null domain && not (slice_len domain == 0))
      then poisoned
      else ready (update_nonempty framed (contents domain))

  -- The new context, and the status.
  unfoldable pub blake3_th_update : ThCtx → Slice → ThCtx × Bool
  unfolding update_nonempty
  blake3_th_update poisoned data_in = (poisoned, false)
  blake3_th_update (ready h) data_in =
      if is_null data_in && not (slice_len data_in == 0)
      then (poisoned, false)
      else (ready (update_nonempty h (contents data_in)), true)

  -- `none` is status 0, which leaves the output untouched; `out_null` is `!out`.
  unfoldable pub blake3_th_final : ThCtx → Bool → ℕ → Option Bytes
  blake3_th_final poisoned out_null out_len = none
  blake3_th_final (ready h) out_null out_len =
      if ltb 32 out_len || (out_null && not (out_len == 0))
      then none
      else (if out_len == 0 then some [] else some (p.finalize h out_len))

  -- The chain of `&&` after an initialisation and an update that report success.
  pub th_finish : ThCtx × Bool → ℕ → Option Bytes
  th_finish (ctx, ok) out_len = if ok then blake3_th_final ctx false out_len else none

  pub th_continue : ThCtx → Slice → ℕ → Option Bytes
  unfolding th_finish
  th_continue poisoned data_in out_len = none
  th_continue (ready h) data_in out_len = th_finish (blake3_th_update (ready h) data_in) out_len

  unfoldable pub blake3_th : Slice → Slice → ℕ → Option Bytes
  unfolding th_continue th_finish blake3_th_init blake3_th_update blake3_th_final update_nonempty
  blake3_th domain data_in out_len = th_continue (blake3_th_init domain) data_in out_len

  -- A call that ignores the status, on a buffer that held `before`.
  unfoldable pub th_into : Bytes → Bytes → Bytes → ℕ → Bytes
  unfolding blake3_th
  th_into before domain data_in out_len = elim (blake3_th (array domain) (array data_in) out_len) [
    | none ↦ before
    | some out ↦ out
  ]

  -- With its closing NUL (`sizeof framing`)
  abbrev xof_framing : Bytes
  xof_framing = codes "blind-mss BLAKE3 keyed XOF v1" ++ 0 ∷ []

  -- The asserts on NULL pointers hold at every call of the sources.
  unfoldable pub blake3_keyed_xof : Bytes → Bytes → Bytes → ℕ → Bytes
  unfolding update_nonempty tabulate
  blake3_keyed_xof key domain input out_len =
      let h0 = p.update (p.init_keyed key) xof_framing in
      let h1 = p.update h0 (tabulate 8 (λ i. u8 (length domain / 2 ^ (8 * i)))) in
      let h2 = p.update h1 domain in p.finalize (update_nonempty h2 input) out_len
