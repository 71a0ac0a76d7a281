-- ===== src/Common/Comp.antt =====
-- Steps on a state that can fail, and the counted loops over them.
use Prim.Native.Nat.{ℕ, zero, suc, ◌+◌}
use mathlib.Core.Option.{Option, none, some}
use mathlib.Core.List.{List, [], ◌∷◌}

-- A step from a state to a result and the next state, or to none.
abbrev pub Comp : Type 0 → Type 0 → Type 0
Comp S A = S → Option (A × S)

infixl 5 ◌>>=◌
unfoldable pub ◌>>=◌ : {S A B : Type 0} → Comp S A → (A → Comp S B) → Comp S B
◌>>=◌ m f s = elim (m s) [ none ↦ none | some (a, s') ↦ f a s' ]

unfoldable pub give : {S A : Type 0} → A → Comp S A
give a s = some (a, s)

module _ {S A : Type 0} where
  -- `for (i = i0; i < i0 + left; i++) a = body(i, a);`
  unfoldable pub loop : ℕ → ℕ → (ℕ → A → Comp S A) → A → Comp S A
  loop zero i body a = give a
  loop (suc left) i body a = body i a >>= loop left (i + 1) body

  -- `for (i = i0; i < i0 + left; i++) out[i] = f(i);`
  unfoldable pub each : ℕ → ℕ → (ℕ → Comp S A) → Comp S (List A)
  each zero i f = give []
  each (suc left) i f = f i >>= λ a. each left (i + 1) f >>= λ rest. give (a ∷ rest)
