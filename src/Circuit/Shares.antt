-- ===== src/Circuit/Shares.antt =====
-- Masked words and random tapes: `mw` of kkw/src/MPC_prove_functions.h, `mwv` of
-- kkw/src/MPC_verify_functions.h, and the tapes of kkw/src/shared.h.
pub mod Laws
use hash_blind_signatures.Common.{
  ℕ, zero, suc, ◌+◌, ◌-◌, ◌*◌, ◌/◌, ◌%◌, ◌^◌, bit_xor, bit_or, List, Bytes, u32, get_or, drop,
  tabulate, replicate,
}
use hash_blind_signatures.Xmss.Codec.{get_le32}

-- The public masked value, and each party's share of the mask.
pub record Masked : Type 0 where
  pub h : ℕ
  pub l : List ℕ

-- A share, by its party.
abbrev pub share : Masked → ℕ → ℕ
share x i = get_or x.l i 0

-- `for (i = 0; i < n; i++) acc ^= f(i);`
unfoldable pub xor_from : ℕ → ℕ → (ℕ → ℕ) → ℕ
xor_from acc zero f = acc
xor_from acc (suc n) f = bit_xor (xor_from acc n f) (f n)

-- YSIZE_GATES
abbrev pub y_size : ℕ
y_size = 94186

-- The word that `memcpy` reads, on a little-endian machine.
abbrev pub tape_get32 : Bytes → ℕ → ℕ
tape_get32 tape pos = get_le32 (drop pos tape)

abbrev pub tape_lam : Bytes → ℕ → ℕ
tape_lam tape g = tape_get32 tape (g * 4)

abbrev pub tape_prod : Bytes → ℕ → ℕ
tape_prod tape g = tape_get32 tape (y_size * 4 + g * 4)

-- `RIGHTROTATE`
abbrev pub right_rotate : ℕ → ℕ → ℕ
right_rotate x n = bit_or (x / 2 ^ n) (u32 (x * 2 ^ (32 - n)))

-- `v ^= v << 1; v ^= v << 2; ...; return v << 1;`
abbrev pub prefix_round : ℕ → ℕ → ℕ
prefix_round v k = bit_xor v (u32 (v * 2 ^ k))

unfoldable pub prefix_xor_shift : ℕ → ℕ
prefix_xor_shift v =
    u32 (
      prefix_round (prefix_round (prefix_round (prefix_round (prefix_round v 1) 2) 4) 8) 16 * 2 ^ 1)

-- The gates that need no message, on `n` shares.
module _ (n : ℕ) where
  -- `mw_const` and `mwv_const`
  unfoldable pub mw_const : ℕ → Masked
  mw_const k = record { h = k; l = replicate n 0 }

  unfoldable pub mpc_xor : Masked → Masked → Masked
  mpc_xor x y = record {
    h = bit_xor x.h y.h;
    l = tabulate n (λ i. bit_xor (share x i) (share y i));
  }

  -- `~h` on 32 bits
  unfoldable pub mpc_negate : Masked → Masked
  mpc_negate x = record { h = 2 ^ 32 - 1 - x.h; l = tabulate n (share x) }

  unfoldable pub mpc_right_rotate : Masked → ℕ → Masked
  mpc_right_rotate x k = record {
    h = right_rotate x.h k;
    l = tabulate n (λ i. right_rotate (share x i) k);
  }

  unfoldable pub mpc_right_shift : Masked → ℕ → Masked
  mpc_right_shift x k = record { h = x.h / 2 ^ k; l = tabulate n (λ i. share x i / 2 ^ k) }

  -- The value that is shared: `h` less all mask shares.
  unfoldable pub unmask : Masked → ℕ
  unmask x = bit_xor x.h (xor_from 0 n (share x))
