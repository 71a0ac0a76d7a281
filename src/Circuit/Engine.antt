-- ===== src/Circuit/Engine.antt =====
-- What kkw/src/circuits.c and kkw/src/pooled_chains.inc take from the gates: the template is
-- instantiated for the prover and for the verifier, and the two evaluations in circuits.c differ
-- in the calls of the gates and of the hash alone. An engine is one such set of gates. A part of
-- a circuit is a `Comp`, whose `none` stands for the read of a buffer that a refused hash left
-- unset.
use hash_blind_signatures.Common.Comp.{Comp, ◌>>=◌, give, loop, each}
use hash_blind_signatures.Common.{
  ℕ, zero, suc, ◌+◌, ◌*◌, ◌≡◌, arith, Option, none, some, List, [], ◌∷◌, Bytes, true,
}
use mathlib.Core.Path.{subst}
use hash_blind_signatures.Circuit.Shares.{Masked}
use hash_blind_signatures.Circuit.Input.{Input, valid_sizes, nblocks}

pub record Engine : Type 1 where
  pub State : Type 0
  -- parties of the prover, slots of the verifier
  pub lanes : ℕ
  -- `*gc`
  pub gates : State → ℕ
  pub and_gate : Masked → Masked → State → Masked × State
  pub add_gate : Masked → Masked → State → Masked × State
  pub hash : Input → Input → ℕ → State → Option ((Bytes × List Bytes) × State)

-- How a run that began with `start` gates ends: with a result, and `k` gates later.
abbrev pub Ends : {S A : Type 0} → (S → ℕ) → ℕ → ℕ → Option (A × S) → Type 0
Ends gates k start none = ⊥
Ends gates k start (some (a, s)) = gates s ≡ start + k

-- From every state, it gives a result and runs `k` gates.
pub record Runs {S A : Type 0} (gates : S → ℕ) (k : ℕ) (c : Comp S A) : Type 0 where
  pub run : (s : S) → Ends gates k (gates s) (c s)

Ends-shift :
    {S B : Type 0} (gates : S → ℕ) (j k a b : ℕ) (o : Option (B × S))
    → b ≡ a + j
    → Ends gates k b o
    → Ends gates (j + k) a o
Ends-shift gates j k a b none e h = h
Ends-shift gates j k a b (some (x, s)) e h = omega arith

module _ {S : Type 0} {gates : S → ℕ} where
  pub Runs-give : {A : Type 0} (a : A) → Runs gates 0 (give a)
  unfolding give
  Runs-give a = record { run = λ s. omega arith }

  -- One part after another.
  pub Runs->>= :
      {A B : Type 0} {j k : ℕ} {c : Comp S A} {f : A → Comp S B}
      → Runs gates j c
      → ((a : A) → Runs gates k (f a))
      → Runs gates (j + k) (c >>= f)
  unfolding ◌>>=◌
  Runs->>= {A = A} {j = j} {k = k} {c = c} {f = f} r t = record {
    run = λ s. onward s (c s) (r.run s);
  }
    where
      onward :
          (s : S) (o : Option (A × S))
          → Ends gates j (gates s) o
          → Ends gates (j + k) (gates s) (elim o [ none ↦ none | some (a, s') ↦ f a s' ])
      onward s none h = h
      onward s (some (a, s')) h =
          Ends-shift gates j k (gates s) (gates s') (f a s') h ((t a).run s')

  pub Runs-do :
      {A B : Type 0} {j k t : ℕ} {c : Comp S A} {f : A → Comp S B}
      → j + k ≡ t
      → Runs gates j c
      → ((a : A) → Runs gates k (f a))
      → Runs gates t (c >>= f)
  Runs-do {c = c} {f = f} e r t = subst (λ u. Runs gates u (c >>= f)) e (Runs->>= r t)

  -- A last part, and what is made of its result.
  pub Runs-map :
      {A B : Type 0} {k : ℕ} {c : Comp S A} (f : A → B)
      → Runs gates k c
      → Runs gates k (c >>= λ a. give (f a))
  Runs-map f r = Runs-do (omega arith) r (λ a. Runs-give (f a))

  pub Runs-loop :
      {A : Type 0} {k : ℕ} {body : ℕ → A → Comp S A} (left i : ℕ) (a : A)
      → ((j : ℕ) (b : A) → Runs gates k (body j b))
      → Runs gates (left * k) (loop left i body a)
  unfolding loop
  Runs-loop zero i a r = subst (λ u. Runs gates u (give a)) (omega arith) (Runs-give a)
  Runs-loop {k = k} (suc left) i a r =
      Runs-do {k = left * k} (omega arith) (r i a) (λ b. Runs-loop left (i + 1) b r)

  pub Runs-each :
      {A : Type 0} {k : ℕ} {f : ℕ → Comp S A} (left i : ℕ)
      → ((j : ℕ) → Runs gates k (f j))
      → Runs gates (left * k) (each left i f)
  unfolding each
  Runs-each {A = A} zero i r =
      subst (λ u. Runs {A = List A} gates u (give [])) (omega arith) (Runs-give {A = List A} [])
  Runs-each {k = k} (suc left) i r =
      Runs-do {k = left * k} (omega arith) (r i)
        (λ a. Runs-map (λ rest. a ∷ rest) (Runs-each left (i + 1) r))

-- What the gates of an engine count, and that its hash accepts the sizes of the documented
-- BLAKE3 (blocks of 64 bytes, chunks of 1024 and outputs of 32).
pub record IsCounted (E : Engine) : Type 0 where
  pub and_gate-gates : (x y : Masked) (s : E.State) → E.gates (E.and_gate x y s).1 ≡ E.gates s + 1
  pub add_gate-gates : (x y : Masked) (s : E.State) → E.gates (E.add_gate x y s).1 ≡ E.gates s + 1
  pub hash-Runs :
      (domain data_in : Input) (out_len : ℕ)
      → valid_sizes 64 1024 32 domain.len data_in.len out_len ≡ true
      → Runs E.gates (nblocks 64 1024 32 domain data_in * 336) (E.hash domain data_in out_len)

module _ (E : Engine) where
  -- The gates as parts of a circuit.
  unfoldable pub and_of : Masked → Masked → Comp E.State Masked
  and_of x y s = some (E.and_gate x y s)

  unfoldable pub add_of : Masked → Masked → Comp E.State Masked
  add_of x y s = some (E.add_gate x y s)

  pub and_of-Runs : IsCounted E → (x y : Masked) → Runs E.gates 1 (and_of x y)
  unfolding and_of
  and_of-Runs c x y = record { run = c.and_gate-gates x y }

  pub add_of-Runs : IsCounted E → (x y : Masked) → Runs E.gates 1 (add_of x y)
  unfolding add_of
  add_of-Runs c x y = record { run = c.add_gate-gates x y }
