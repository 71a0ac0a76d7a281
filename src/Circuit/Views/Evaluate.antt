-- ===== src/Circuit/Views/Evaluate.antt =====
-- `building_views` and `verify` of kkw/src/circuits.c: the circuit on the prover's gates and on
-- the verifier's, and what each does with the output. `g_circuit_gates` is a copy of the gate
-- count, for a report.
pub mod Counted
pub mod Laws
pub mod Decides
use hash_blind_signatures.Common.{
  ℕ, zero, suc, ◌+◌, ◌-◌, ◌*◌, Bool, true, false, not, ◌&&◌, ◌||◌, Option, none, some, [], ◌∷◌,
  List, Bytes, get_or, tabulate, map, ◌==◌, ltb, if◌then◌else◌,
}
use hash_blind_signatures.Platform.{Platform}
use hash_blind_signatures.Circuit.Shares.{Masked, share, y_size}
use hash_blind_signatures.Circuit.Prove.{Transcript, mpc_and, mpc_add}
use hash_blind_signatures.Circuit.Prove.Hash.{mpc_blake3_th}
use hash_blind_signatures.Circuit.Verify.{Replay, orig, mpc_and_verify, mpc_add_verify}
use hash_blind_signatures.Circuit.Verify.Hash.{mpc_blake3_th_verify}
use hash_blind_signatures.Circuit.Engine.{Engine}
use hash_blind_signatures.Circuit.Views.{view_circuit}
use hash_blind_signatures.Kkw.Seeds.{
  expand_tape, expand_xshare, compute_h_prime, recompute_h_prime_verify, tape_size, input_len,
}

-- The public output words and the index of the last word that the circuit sets.
abbrev pub yp_pool_word : ℕ
yp_pool_word = 6

-- `a`: the shares of the output's masks, and the hash of the online messages.
pub record Answer : Type 0 where
  pub yp : List (List ℕ)
  pub h_prime : Bytes

-- `z`: what one round of a proof reveals.
pub record Opening : Type 0 where
  pub ke : List Bytes
  pub x_offset : Bytes
  pub aux : List ℕ
  pub msgs_e : List ℕ
  pub com_hidden : Bytes
  pub r_j : Bytes

-- The shares of party `i` of the output.
abbrev pub output_shares : List Masked → ℕ → List ℕ
output_shares out i = map (λ x. share x i) out

-- The first `k` words of an output share are those of `yp[o]`.
unfoldable pub words_match : ℕ → List ℕ → List ℕ → Bool
words_match zero shares row = true
words_match (suc k) shares row = words_match k shares row && get_or shares k 0 == get_or row k 0

-- The checks of slot `j`: the words up to the check of the pool, and zeros after them.
unfoldable pub slot_matches : ℕ → List Masked → List (List ℕ) → ℕ → Bool
slot_matches e out yp j =
    let row = get_or yp (orig j e) [] in
    words_match (yp_pool_word + 1) (output_shares out j) row && get_or row 7 0 == 0

unfoldable pub slots_match : ℕ → ℕ → List Masked → List (List ℕ) → Bool
slots_match zero e out yp = true
slots_match (suc m) e out yp = slots_match m e out yp && slot_matches e out yp m

-- The sizes of blake3.h, and the number of parties.
module _ (p : Platform) (block_max chunk_max out_max n : ℕ) where
  -- The gates of the prover, on `n` tapes.
  abbrev pub prover : List Bytes → Engine
  prover tapes = record {
    State = Transcript;
    lanes = n;
    gates = λ tr. tr.gate_count;
    and_gate = mpc_and n tapes;
    add_gate = mpc_add n tapes;
    hash = mpc_blake3_th block_max chunk_max out_max n tapes;
  }

  -- The gates of the verifier, on the tapes of all parties but `e`.
  abbrev pub verifier : ℕ → List Bytes → List ℕ → List ℕ → Engine
  verifier e tapes msgs_e aux = record {
    State = Replay;
    lanes = n - 1;
    gates = λ rp. rp.gate_count;
    and_gate = mpc_and_verify (n - 1) e tapes msgs_e aux;
    add_gate = mpc_add_verify (n - 1) e tapes msgs_e aux;
    hash = mpc_blake3_th_verify block_max chunk_max out_max (n - 1) e tapes msgs_e aux;
  }

  -- What `building_views` stores: `a`, with what it held before, the masked output `zh_out`, and
  -- the transcript.
  unfoldable pub views_of :
      Bytes → Bytes → Bytes → List Masked × Transcript → (Answer × List ℕ) × Transcript
  views_of before d_pub r_j (out, tr) = (
    (
      record {
        yp = tabulate n (output_shares out);
        h_prime = elim tr.s_all [
          | none ↦ before
          | some rows ↦ compute_h_prime p n before d_pub rows r_j
        ];
      },
      map (λ x. x.h) out,
    ),
    tr,
  )

  -- From `aux` and `s_all` as they are before the call (`none` for a NULL pointer).
  unfoldable pub building_views :
      Bytes
      → Bytes
      → Bytes
      → Bytes
      → List Bytes
      → List Bytes
      → List ℕ
      → Option (List (List ℕ))
      → Bytes
      → Option ((Answer × List ℕ) × Transcript)
  building_views before m_hat pk_seed d_pub lam tapes aux s_all r_j =
      elim (view_circuit (prover tapes) pk_seed (d_pub, lam) m_hat
        (record { aux = aux; s_all = s_all; gate_count = 0 })) [
          | none ↦ none
          | some ended ↦ some (views_of before d_pub r_j ended)
        ]

  -- The allocations of a tape for each slot, up to the first that is refused.
  unfoldable pub tapes_granted : ℕ → Bool
  tapes_granted zero = true
  tapes_granted (suc m) = tapes_granted m && p.malloc tape_size

  unfoldable pub verify_granted : Bool
  verify_granted =
      tapes_granted (n - 1) && (p.malloc ((n - 1) * y_size * 4) && p.malloc ((n - 1) * input_len))

  -- What `verify` stores after the circuit: the error flag, `a`, and `zh_out`.
  unfoldable pub verdict_of :
      Bool → Answer → ℕ → Opening → List Masked × Replay → Bool × (Answer × List ℕ)
  verdict_of error a e z (out, rp) = (
    error || not (slots_match (n - 1) e out a.yp),
    (
      record a {
        h_prime = recompute_h_prime_verify p n a.h_prime e z.x_offset rp.s_slots z.msgs_e z.r_j;
      },
      map (λ x. x.h) out,
    ),
  )

  -- The circuit on what an opening reveals. `slots` is what the memory for the messages holds
  -- at first.
  unfoldable pub replay_circuit :
      List (List ℕ) → Bytes → Bytes → ℕ → Opening → Option (List Masked × Replay)
  replay_circuit slots m_hat pk_seed e z =
      view_circuit (verifier e (map (expand_tape p) z.ke) z.msgs_e z.aux) pk_seed
        (z.x_offset, map (expand_xshare p) z.ke) m_hat (record { s_slots = slots; gate_count = 0 })

  -- `zh` is what `zh_out` holds at first.
  unfoldable pub verify :
      List (List ℕ)
      → Bytes
      → Bytes
      → Bool
      → Answer
      → ℕ
      → Opening
      → List ℕ
      → Option (Bool × (Answer × List ℕ))
  verify slots m_hat pk_seed error a e z zh =
      let ended = replay_circuit slots m_hat pk_seed e z in
      if verify_granted
      then elim ended [ none ↦ none | some out ↦ some (verdict_of error a e z out) ]
      else some (true, (a, zh))
