-- ===== src/Protocol/User/Laws.antt =====
-- The schedule of `kkw_build_schedule` in kkw/src/circuits.c.
use hash_blind_signatures.Common.{
  ℕ, zero, suc, ◌+◌, ◌-◌, ◌≤◌, ◌<◌, ◌≡◌, refl, arith, Option, none, some, [], ◌∷◌, ◌++◌, List,
  Bytes, length, length-append, u8, ◌==◌, ==_iff, if◌then◌else◌, Bool, true, false, take, drop,
}
use hash_blind_signatures.Platform.{Platform}
use hash_blind_signatures.Commitment.{hm_commit, hm_r_bytes, hm_a_bytes}
use hash_blind_signatures.Xmss.Params.{nonce_len, wots_len, wots_max_steps}
use hash_blind_signatures.Xmss.Hashes.{hash_message, extract_coords}
use mathlib.Core.Path.{subst}
use hash_blind_signatures.Xmss.Hashes.Laws.{length-extract_coords}
use hash_blind_signatures.Protocol.User.{
  schedule_len, push_steps, finish_schedule, schedule_loop, build_schedule, epoch_of, w_leafidx_off,
  w_nonce_off, w_a_off,
}

-- Every entry names a chain.
abbrev pub AreChains : Bytes → Type 0
AreChains [] = Unit {0}
AreChains (c ∷ cs) = (c < wots_len) × AreChains cs

append-AreChains : (a b : Bytes) → AreChains a → AreChains b → AreChains (a ++ b)
append-AreChains [] b h k = k
append-AreChains (x ∷ a) b h k = (h.0, append-AreChains a b h.1 k)

-- The slot counts the entries that are written.
abbrev IsCounted : Option (ℕ × Bytes) → Type 0
IsCounted none = Unit {0}
IsCounted (some (slot, written)) = (slot ≡ length written) × AreChains written

push_steps-IsCounted :
    (ci steps slot : ℕ) (written : Bytes)
    → ci < wots_len
    → slot ≡ length written
    → AreChains written
    → IsCounted (push_steps ci steps slot written)
unfolding push_steps
push_steps-IsCounted ci zero slot written small e w = (e, w)
push_steps-IsCounted ci (suc steps) slot written small e w =
    whichever (slot == schedule_len) (push_steps ci steps (slot + 1) (written ++ u8 ci ∷ [])) (
      push_steps-IsCounted ci steps (slot + 1) (written ++ u8 ci ∷ []) small
        (omega (arith, e, length-append written (u8 ci ∷ [])))
        (append-AreChains written (u8 ci ∷ []) w (omega arith, tt)))
  where
    whichever :
        (b : Bool) (o : Option (ℕ × Bytes)) → IsCounted o → IsCounted (if b then none else o)
    whichever true o h = tt
    whichever false o h = h

schedule_loop-IsCounted :
    (ci : ℕ) (digits : List ℕ) (slot : ℕ) (written : Bytes)
    → ci + length digits ≤ wots_len
    → slot ≡ length written
    → AreChains written
    → IsCounted (schedule_loop ci digits slot written)
unfolding schedule_loop
schedule_loop-IsCounted ci [] slot written fits e w = (e, w)
schedule_loop-IsCounted ci (c ∷ cs) slot written fits e w =
    pushed (push_steps ci (wots_max_steps - c) slot written)
      (push_steps-IsCounted ci (wots_max_steps - c) slot written (omega arith) e w)
      (λ slot' written' f v. schedule_loop-IsCounted (ci + 1) cs slot' written' (omega arith) f v)
  where
    pushed :
        (o : Option (ℕ × Bytes))
        → IsCounted o
        → ((slot' : ℕ) (written' : Bytes)
            → slot' ≡ length written'
            → AreChains written'
            → IsCounted (schedule_loop (ci + 1) cs slot' written'))
        → IsCounted (elim o [
          | none ↦ none
          | some (slot', written') ↦ schedule_loop (ci + 1) cs slot' written'
        ])
    pushed none h next = tt
    pushed (some (slot', written')) h next = next slot' written' h.0 h.1

finished :
    (o : Option (ℕ × Bytes)) (schedule : Bytes)
    → IsCounted o
    → finish_schedule o ≡ some schedule
    → (length schedule ≡ schedule_len) × AreChains schedule
unfolding finish_schedule
finished none schedule h e = absurd cc
finished (some (slot, written)) schedule h e = whichever (slot == schedule_len) refl e
  where
    whichever :
        (b : Bool)
        → (slot == schedule_len) ≡ b
        → (if b then some written else none) ≡ some schedule
        → (length schedule ≡ schedule_len) × AreChains schedule
    whichever true same f =
        let all : written ≡ schedule = cc in
        subst (λ s. (length s ≡ schedule_len) × AreChains s) all
          (ground (arith, ==_iff slot schedule_len, h.0), h.1)
    whichever false same f = absurd cc

-- A schedule that kkw_build_schedule builds has exactly the 99 entries that the witness has room
-- for, and each names one of the 42 chains.
pub build_schedule-AreChains :
    (p : Platform) (input m_hat pk_seed schedule : Bytes)
    → build_schedule p input m_hat pk_seed ≡ some schedule
    → (length schedule ≡ schedule_len) × AreChains schedule
unfolding build_schedule
build_schedule-AreChains p input m_hat pk_seed schedule h = accepted (extract_coords mh).1 h
  where
    mh : Bytes
    mh =
        hash_message p pk_seed (epoch_of (drop w_leafidx_off input))
          (take nonce_len (drop w_nonce_off input))
          (hm_commit p m_hat (take hm_r_bytes input) (take hm_a_bytes (drop w_a_off input))).1

    counted : IsCounted (schedule_loop 0 (extract_coords mh).0 0 [])
    counted =
        schedule_loop-IsCounted 0 (extract_coords mh).0 0 []
          (omega (arith, length-extract_coords mh)) refl tt

    accepted :
        (b : Bool)
        → (if b then finish_schedule (schedule_loop 0 (extract_coords mh).0 0 []) else none)
          ≡ some schedule
        → (length schedule ≡ schedule_len) × AreChains schedule
    accepted true e = finished (schedule_loop 0 (extract_coords mh).0 0 []) schedule counted e
    accepted false e = absurd cc
