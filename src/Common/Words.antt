-- ===== src/Common/Words.antt =====
-- Machine words, and byte buffers: casts, byte orders, block copies, comparison.
use Prim.Native.Nat.{ℕ, zero, suc, ◌+◌, ◌*◌, ◌/◌, ◌%◌, ◌^◌, ◌<◌}
use mathlib.Core.Path.{◌≡◌, refl, ap, sym, ◌∙◌}
use mathlib.Core.Bool.{Bool, true, false, ◌&&◌}
use mathlib.Core.List.{List, [], ◌∷◌, ◌++◌, append_assoc}
use native.Mathlib.Omega.{arith}
use Prim.Native.Char.{code}
use Prim.Native.String.{String}
use hash_blind_signatures.Common.Cond.{◌==◌, ==_iff}
use hash_blind_signatures.Common.Lists.{
  length, take, drop, length-append, take-append, drop-append, take-append-drop, length-take,
  length-drop, drop-drop, drop_of_eq,
}

abbrev pub Bytes : Type 0
Bytes = List ℕ

abbrev pub u8 : ℕ → ℕ
u8 n = n % 2 ^ 8

abbrev pub u32 : ℕ → ℕ
u32 n = n % 2 ^ 32

abbrev pub u64 : ℕ → ℕ
u64 n = n % 2 ^ 64

-- `(uint8_t)(v >> (8 * k))`
abbrev pub byte_of : ℕ → ℕ → ℕ
byte_of v k = u8 (v / 2 ^ (8 * k))

abbrev pub put_le32 : ℕ → Bytes
put_le32 v = byte_of v 0 ∷ byte_of v 1 ∷ byte_of v 2 ∷ byte_of v 3 ∷ []

abbrev pub put_be32 : ℕ → Bytes
put_be32 v = byte_of v 3 ∷ byte_of v 2 ∷ byte_of v 1 ∷ byte_of v 0 ∷ []

-- The bytes of an ASCII literal.
abbrev pub codes : String → Bytes
codes String.[] = []
codes (String.◌∷◌ c s) = code c ∷ codes s

-- Every entry is a byte.
abbrev pub IsBytes : Bytes → Type 0
IsBytes [] = Unit {0}
IsBytes (x ∷ xs) = (x < 256) × IsBytes xs

-- The blocks of a buffer of nodes one after another.
abbrev pub concat : List Bytes → Bytes
concat [] = []
concat (x ∷ xs) = x ++ concat xs

-- `n` blocks of `w` bytes from the start of a buffer.
abbrev pub blocks : ℕ → ℕ → Bytes → List Bytes
blocks w zero buf = []
blocks w (suc n) buf = take w buf ∷ blocks w n (drop w buf)

-- Every block has `w` bytes.
abbrev pub Sized : ℕ → List Bytes → Type 0
Sized w [] = Unit {0}
Sized w (x ∷ xs) = (length x ≡ w) × Sized w xs

-- `memcmp(a, b, n) == 0` on buffers of at least `n` bytes.
unfoldable pub memcmp_eq : ℕ → Bytes → Bytes → Bool
memcmp_eq zero a b = true
memcmp_eq (suc n) [] [] = true
memcmp_eq (suc n) [] (y ∷ b) = false
memcmp_eq (suc n) (x ∷ a) [] = false
memcmp_eq (suc n) (x ∷ a) (y ∷ b) = (x == y) && memcmp_eq n a b

pub memcmp_eq_refl : (n : ℕ) (a : Bytes) → memcmp_eq n a a ≡ true
unfolding memcmp_eq
memcmp_eq_refl zero a = refl
memcmp_eq_refl (suc n) [] = refl
memcmp_eq_refl (suc n) (x ∷ a) = ground (arith, memcmp_eq_refl n a)

pub eq_of_memcmp :
    (n : ℕ) (a b : Bytes) → length a ≡ n → length b ≡ n → memcmp_eq n a b ≡ true → a ≡ b
unfolding memcmp_eq
eq_of_memcmp zero [] [] p q h = refl
eq_of_memcmp zero [] (y ∷ b) p q h = absurd (omega arith)
eq_of_memcmp zero (x ∷ a) b p q h = absurd (omega arith)
eq_of_memcmp (suc n) [] b p q h = absurd (omega arith)
eq_of_memcmp (suc n) (x ∷ a) [] p q h = absurd (omega arith)
eq_of_memcmp (suc n) (x ∷ a) (y ∷ b) p q h = ground (arith, ==_iff x y, eq_of_memcmp n a b)

pub length-concat :
    (w n : ℕ) (xs : List Bytes) → Sized w xs → length xs ≡ n → length (concat xs) ≡ w * n
length-concat w zero [] h e = omega arith
length-concat w (suc n) [] h e = absurd (omega arith)
length-concat w zero (x ∷ xs) h e = absurd (omega arith)
length-concat w (suc n) (x ∷ xs) h e =
    omega (arith, length-append x (concat xs), length-concat w n xs h.1 (omega arith))

-- Cutting a buffer into blocks undoes laying the blocks one after another.
pub blocks-concat :
    (w n : ℕ) (xs : List Bytes) (rest : Bytes)
    → Sized w xs
    → length xs ≡ n
    → blocks w n (concat xs ++ rest) ≡ xs
blocks-concat w zero [] rest h e = refl
blocks-concat w zero (x ∷ xs) rest h e = absurd (omega arith)
blocks-concat w (suc n) [] rest h e = absurd (omega arith)
blocks-concat w (suc n) (x ∷ xs) rest h e =
    rw
      (
        append_assoc,
        take-append w x (concat xs ++ rest) h.0,
        drop-append w x (concat xs ++ rest) h.0,
      )
      (ap (◌∷◌ x) (blocks-concat w n xs rest h.1 (omega arith)))

pub concat-blocks : (w n : ℕ) (buf : Bytes) → length buf ≡ w * n → concat (blocks w n buf) ≡ buf
concat-blocks w zero [] e = refl
concat-blocks w zero (x ∷ buf) e = absurd (omega arith)
concat-blocks w (suc n) buf e =
    ap (λ l. take w buf ++ l) (concat-blocks w n (drop w buf) (omega (arith, length-drop w buf)))
    ∙ take-append-drop w buf

pub blocks-Sized : (w n : ℕ) (buf : Bytes) → length buf ≡ w * n → Sized w (blocks w n buf)
blocks-Sized w zero buf e = tt
blocks-Sized w (suc n) buf e = (
  omega (arith, length-take w buf),
  blocks-Sized w n (drop w buf) (omega (arith, length-drop w buf)),
)

pub length-blocks : (w n : ℕ) (buf : Bytes) → length (blocks w n buf) ≡ n
length-blocks w zero buf = refl
length-blocks w (suc n) buf = ap suc (length-blocks w n (drop w buf))

-- Blocks from the start of a buffer, and what is left, make up the buffer.
pub concat-blocks-drop : (w n : ℕ) (buf : Bytes) → concat (blocks w n buf) ++ drop (w * n) buf ≡ buf
concat-blocks-drop w zero buf = drop_of_eq (w * 0) 0 buf (omega arith)
concat-blocks-drop w (suc n) buf =
    append_assoc (take w buf) (concat (blocks w n (drop w buf))) (drop (w * suc n) buf)
    ∙ ap (λ t. take w buf ++ (concat (blocks w n (drop w buf)) ++ t))
        (later ∙ sym (drop-drop w (w * n) buf))
    ∙ ap (λ t. take w buf ++ t) (concat-blocks-drop w n (drop w buf))
    ∙ take-append-drop w buf
  where
    later : drop (w * suc n) buf ≡ drop (w + w * n) buf
    later = ap (λ t. drop t buf) (omega arith)
