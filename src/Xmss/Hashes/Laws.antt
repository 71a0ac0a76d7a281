-- ===== src/Xmss/Hashes/Laws.antt =====
-- The digits of a message hash, and the composition of hash chains.
use hash_blind_signatures.Common.{
  ℕ, zero, suc, ◌+◌, ◌*◌, ◌^◌, ◌<◌, bit_or, ◌≡◌, refl, ap, ap₂, ◌∙◌, arith, Bytes, get_or, length,
  length-tabulate, get_or-tabulate, u8,
}
use native.Mathlib.Nat.{add-zero}
use hash_blind_signatures.Platform.{Platform}
use hash_blind_signatures.Xmss.Params.{Node, wots_len}
use hash_blind_signatures.Xmss.Hashes.{
  chain_loop, hash_chain_multi, coord_at, coord_bit_pos, extract_coords, bit_at, hash_chain_step,
}

three_bits :
    (a b c : ℕ)
    → a < 2
    → b < 2
    → c < 2
    → bit_or (bit_or (bit_or 0 (u8 (a * 2 ^ 0))) (u8 (b * 2 ^ 1))) (u8 (c * 2 ^ 2))
      ≡ a + 2 * b + 4 * c
three_bits zero zero zero p q r = refl
three_bits zero zero (suc zero) p q r = refl
three_bits zero (suc zero) zero p q r = refl
three_bits zero (suc zero) (suc zero) p q r = refl
three_bits (suc zero) zero zero p q r = refl
three_bits (suc zero) zero (suc zero) p q r = refl
three_bits (suc zero) (suc zero) zero p q r = refl
three_bits (suc zero) (suc zero) (suc zero) p q r = refl
three_bits (suc (suc a)) b c p q r = absurd (omega arith)
three_bits zero (suc (suc b)) c p q r = absurd (omega arith)
three_bits (suc zero) (suc (suc b)) c p q r = absurd (omega arith)
three_bits zero zero (suc (suc c)) p q r = absurd (omega arith)
three_bits zero (suc zero) (suc (suc c)) p q r = absurd (omega arith)
three_bits (suc zero) zero (suc (suc c)) p q r = absurd (omega arith)
three_bits (suc zero) (suc zero) (suc (suc c)) p q r = absurd (omega arith)

-- A digit is the number that its three bits write.
pub coord_at-bits :
    (hash : Bytes) (pos : ℕ)
    → coord_at hash pos ≡ bit_at hash pos + 2 * bit_at hash (pos + 1) + 4 * bit_at hash (pos + 2)
unfolding coord_at
coord_at-bits hash pos =
    three_bits (bit_at hash pos) (bit_at hash (pos + 1)) (bit_at hash (pos + 2)) (omega arith)
      (omega arith) (omega arith)

pub coord_at-lt : (hash : Bytes) (pos : ℕ) → coord_at hash pos < 8
coord_at-lt hash pos = omega (arith, coord_at-bits hash pos)

pub extract_coords-lt :
    (hash : Bytes) (i : ℕ) → i < wots_len → get_or (extract_coords hash).0 i 0 < 8
unfolding extract_coords
extract_coords-lt hash i h = omega (
  arith,
  get_or-tabulate wots_len i (λ j. coord_at hash (coord_bit_pos j)) 0 h,
  coord_at-lt hash (coord_bit_pos i),
)

pub length-extract_coords : (hash : Bytes) → length (extract_coords hash).0 ≡ wots_len
unfolding extract_coords
length-extract_coords hash = length-tabulate wots_len (λ j. coord_at hash (coord_bit_pos j))

module _ (p : Platform) (pk_seed : Bytes) (epoch chain_idx : ℕ) where
  -- A chain as a walk over positions: `left` steps up from position `pos`.
  unfoldable pub chain_from : ℕ → ℕ → Node → Node
  chain_from zero pos cur = cur
  chain_from (suc left) pos cur =
      chain_from left (pos + 1) (hash_chain_step p pk_seed epoch cur chain_idx (u8 (pos + 1)))

  chain_loop_lem :
      (left start i : ℕ) (cur : Node)
      → chain_loop p pk_seed epoch chain_idx start left i cur ≡ chain_from left (start + i) cur
  unfolding chain_loop chain_from
  chain_loop_lem zero start i cur = refl
  chain_loop_lem (suc left) start i cur =
      chain_loop_lem left start (i + 1)
        (hash_chain_step p pk_seed epoch cur chain_idx (u8 (start + i + 1)))
      ∙ ap
          (λ t.
            chain_from left t (hash_chain_step p pk_seed epoch cur chain_idx (u8 (start + i + 1))))
          (add_assoc_sym start i)
    where
      add_assoc_sym : (a b : ℕ) → a + (b + 1) ≡ a + b + 1
      add_assoc_sym a b = omega arith

  pub hash_chain_multi_lem :
      (start : Node) (pos steps : ℕ)
      → hash_chain_multi p pk_seed epoch start chain_idx pos steps ≡ chain_from steps pos start
  unfolding hash_chain_multi
  hash_chain_multi_lem start pos steps =
      chain_loop_lem steps pos 0 start ∙ ap (λ t. chain_from steps t start) (omega arith)

  -- Climbing on from where a climb stopped is one longer climb.
  pub chain_from-append :
      (a b pos : ℕ) (cur : Node)
      → chain_from b (pos + a) (chain_from a pos cur) ≡ chain_from (a + b) pos cur
  unfolding chain_from
  chain_from-append zero b pos cur = ap₂ (λ s t. chain_from s t cur) (zero_left b) (add-zero pos)
    where
      zero_left : (n : ℕ) → n ≡ 0 + n
      zero_left n = omega arith
  chain_from-append (suc a) b pos cur =
      ap (λ t. chain_from b t (chain_from a (pos + 1) next)) (slide pos a)
      ∙ chain_from-append a b (pos + 1) next
      ∙ ap (λ t. chain_from t pos cur) (add_suc a b)
    where
      next : Node
      next = hash_chain_step p pk_seed epoch cur chain_idx (u8 (pos + 1))

      slide : (s t : ℕ) → s + suc t ≡ s + 1 + t
      slide s t = omega arith

      add_suc : (s t : ℕ) → suc (s + t) ≡ suc s + t
      add_suc s t = omega arith
