-- ===== src/Random/Laws.antt =====
-- What the loop of kkw/src/randombytes.c fills.
use hash_blind_signatures.Common.{
  ℕ, zero, suc, ◌+◌, ◌-◌, ◌≤◌, ◌≡◌, refl, arith, Option, none, some, [], ◌∷◌, ◌++◌, Bytes, length,
  length-append, ◌==◌, ==_iff, if◌then◌else◌, Bool, true, false, IsBytes,
}
use mathlib.Core.Path.{subst}
use hash_blind_signatures.Platform.{Platform, IsDocumented}
use hash_blind_signatures.Random.{chunk_of, fill_loop, randombytes_fill}

append-IsBytes : (a b : Bytes) → IsBytes a → IsBytes b → IsBytes (a ++ b)
append-IsBytes [] b h k = k
append-IsBytes (x ∷ a) b h k = (h.0, append-IsBytes a b h.1 k)

module _ (p : Platform) (d : IsDocumented p) where
  -- How a fill of `left` bytes after `filled` ends.
  abbrev Filled : ℕ → Bytes → ℕ × Option Bytes → Type 0
  Filled left filled (calls, none) = Unit {0}
  Filled left filled (calls, some out) = (length out ≡ length filled + left) × IsBytes out

  chunk_of-le : (left : ℕ) → chunk_of left ≤ left
  chunk_of-le left = ground arith

  -- After a chunk, what is left to fill is less by the chunk.
  Filled-chunk :
      (left chunk : ℕ) (filled out : Bytes) (r : ℕ × Option Bytes)
      → length out ≡ chunk
      → chunk ≤ left
      → Filled (left - chunk) (filled ++ out) r
      → Filled left filled r
  Filled-chunk left chunk filled out (calls, none) e h f = tt
  Filled-chunk left chunk filled out (calls, some got) e h f =
      (omega (arith, f.0, length-append filled out), f.1)

  fill_loop-Filled :
      (fuel calls left : ℕ) (filled : Bytes)
      → left ≤ fuel
      → IsBytes filled
      → Filled left filled (fill_loop p fuel calls left filled)
  unfolding fill_loop
  fill_loop-Filled zero calls left filled h b = (omega arith, b)
  fill_loop-Filled (suc fuel) calls left filled h b =
      whichever (left == 0) refl (p.getentropy calls (chunk_of left)) refl (λ out e.
        fill_loop-Filled fuel (calls + 1) (left - chunk_of left) (filled ++ out) (ground arith)
          (append-IsBytes filled out b (d.getentropy-IsBytes calls (chunk_of left) out e)))
    where
      whichever :
          (z : Bool)
          → (left == 0) ≡ z
          → (o : Option Bytes) → p.getentropy calls (chunk_of left) ≡ o
          → ((out : Bytes)
              → p.getentropy calls (chunk_of left) ≡ some out
              → Filled
                  (left - chunk_of left)
                  (filled ++ out)
                  (fill_loop p fuel (calls + 1) (left - chunk_of left) (filled ++ out)))
          → Filled left filled (
              if z then (calls, some filled) else elim o [
                | none ↦ (calls + 1, none)
                | some out ↦ fill_loop p fuel (calls + 1) (left - chunk_of left) (filled ++ out)
              ])
      whichever true e o f next = (ground (arith, ==_iff left 0), b)
      whichever false e none f next = tt
      whichever false e (some out) f next =
          Filled-chunk left (chunk_of left) filled out
            (fill_loop p fuel (calls + 1) (left - chunk_of left) (filled ++ out))
            (d.length-getentropy calls (chunk_of left) out f) (chunk_of-le left) (next out f)

  -- On a documented platform: when randombytes_fill succeeds, its loop has filled the whole
  -- buffer, with bytes; a fuel of one round for each byte is enough.
  pub randombytes_fill-fills :
      (calls n calls' : ℕ) (out : Bytes)
      → randombytes_fill p calls n ≡ (calls', some out)
      → (length out ≡ n) × IsBytes out
  unfolding randombytes_fill
  randombytes_fill-fills calls n calls' out h = (omega (arith, got.0), got.1)
    where
      got : (length out ≡ 0 + n) × IsBytes out
      got = subst (Filled n []) h (fill_loop-Filled n calls n [] (omega arith) tt)
