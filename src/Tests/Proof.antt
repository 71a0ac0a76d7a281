-- ===== src/Tests/Proof.antt =====
-- Proof files on the concrete platform.
use hash_blind_signatures.Common.{
  ℕ, zero, suc, ◌^◌, ◌<◌, ◌≡◌, refl, arith, some, [], ◌∷◌, List, Bytes, length, replicate,
  length-replicate,
}
use hash_blind_signatures.Circuit.Shares.{y_size}
use hash_blind_signatures.Circuit.Views.Evaluate.{Answer, Opening}
use hash_blind_signatures.Kkw.Seeds.{input_len}
use hash_blind_signatures.Kkw.Proof.{
  Params, Head, read_head, read_closed, read_rounds, write_rounds, write_body, write_proof,
}
use hash_blind_signatures.Kkw.Proof.Reads.{IsWords}
use hash_blind_signatures.Kkw.Proof.Rounds.{IsSent, received_all}
use hash_blind_signatures.Kkw.Proof.Laws.{closed_entries, read_proof-write}

replicate-IsWords : (n w : ℕ) → w < 2 ^ 32 → IsWords (replicate n w)
replicate-IsWords zero w h = tt
replicate-IsWords (suc n) w h = (h, replicate-IsWords n w h)

-- Words for each gate.
words : List ℕ
words = replicate y_size 77

length-words : length words ≡ y_size
unfolding words
length-words = length-replicate {A = ℕ} y_size 77

words-IsWords : IsWords words
unfolding words
words-IsWords = replicate-IsWords y_size 77 (omega arith)

masked : Bytes
masked = replicate input_len 3

length-masked : length masked ≡ input_len
unfolding masked
length-masked = length-replicate {A = ℕ} input_len 3

abbrev k : Params
k = record { parties = 2; instances = 2; rounds = 1; grind_w = 0 }

abbrev hd : Head
hd = record { nonce = replicate 32 1; h_star = replicate 32 2; ctr = 5 }

abbrev answer : Answer
answer = record { yp = replicate 2 (replicate 8 9); h_prime = [] }

abbrev opening : Opening
opening = record {
  ke = replicate 32 6 ∷ [];
  x_offset = masked;
  aux = words;
  msgs_e = words;
  com_hidden = replicate 32 7;
  r_j = replicate 32 8;
}

opening-IsSent : IsSent k answer opening
opening-IsSent = record {
  rows = refl;
  row_words =
      (refl, replicate-IsWords 8 9 (omega arith), (refl, replicate-IsWords 8 9 (omega arith), tt));
  seeds = refl;
  seed_bytes = (refl, tt);
  witness = length-masked;
  aux_len = length-words;
  aux_words = words-IsWords;
  msgs_len = length-words;
  msgs_words = words-IsWords;
  com_len = refl;
  r_len = refl;
}

abbrev entry : ℕ → Bytes × Bytes
entry j = (replicate 32 3, replicate 32 4)

abbrev sent : List (Answer × Opening)
sent = (answer, opening) ∷ []

-- The first of two instances opened, with the second party hidden.
read_proof-write_example :
    (read_head k (write_proof k hd (0 ∷ []) (1 ∷ []) entry sent)
      ≡ some (hd, write_body k (0 ∷ []) (1 ∷ []) entry sent))
    × (read_closed (0 ∷ []) 2 0 (write_body k (0 ∷ []) (1 ∷ []) entry sent)
        ≡ some (closed_entries (0 ∷ []) 2 0 entry, write_rounds (1 ∷ []) sent))
    × (read_rounds k (1 ∷ []) (write_rounds (1 ∷ []) sent) ≡ some (received_all (1 ∷ []) sent, []))
read_proof-write_example =
    read_proof-write k hd (0 ∷ []) (1 ∷ []) entry sent (omega arith) refl refl (omega arith)
      (λ i. (refl, refl)) (opening-IsSent, tt)
