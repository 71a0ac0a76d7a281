-- ===== src/Kkw/Proof/Laws.antt =====
-- What kkw/src/kkw_prove.c writes, kkw/src/kkw_verify.c reads back.
use hash_blind_signatures.Common.Comp.{Comp, ◌>>=◌, give}
use hash_blind_signatures.Common.{
  ℕ, zero, suc, ◌+◌, ◌^◌, ◌<◌, ◌≡◌, ◌∙◌, refl, sym, ap, arith, Bool, true, false, some, [], ◌∷◌,
  ◌++◌, List, Bytes, length, codes, if◌then◌else◌,
}
use mathlib.Core.List.{append_assoc, append-nil}
use mathlib.Core.Path.{subst}
use hash_blind_signatures.Circuit.Views.Evaluate.{Answer, Opening}
use hash_blind_signatures.Kkw.Seeds.{seed_size}
use hash_blind_signatures.Kkw.Proof.{
  Params, Head, header_words, words_equal, require, opened, write_head, read_head, write_closed,
  read_entry, read_closed, write_rounds, read_rounds, write_body, write_proof,
}
use hash_blind_signatures.Kkw.Proof.Reads.{
  Reads, Reads-give, Reads-do, Reads-map, fread-Reads, fread_words-Reads,
}
use hash_blind_signatures.Kkw.Proof.Rounds.{AreSent, received_all, read_rounds-Reads}

-- The instances that are not opened, with their indices.
abbrev pub closed_entries : List ℕ → ℕ → ℕ → (ℕ → Bytes × Bytes) → List (ℕ × (Bytes × Bytes))
closed_entries c_out zero j entry = []
closed_entries c_out (suc left) j entry =
    if opened c_out j
    then closed_entries c_out left (j + 1) entry
    else (j, entry j) ∷ closed_entries c_out left (j + 1) entry

read_closed-Reads :
    (c_out : List ℕ) (left j : ℕ) (entry : ℕ → Bytes × Bytes)
    → ((i : ℕ) → (length (entry i).0 ≡ seed_size) × (length (entry i).1 ≡ 32))
    → Reads
        (read_closed c_out left j)
        (write_closed c_out left j entry)
        (closed_entries c_out left j entry)
unfolding read_closed write_closed read_entry
read_closed-Reads c_out zero j entry sizes = Reads-give []
read_closed-Reads c_out (suc left) j entry sizes =
    whichever (opened c_out j) (read_closed-Reads c_out left (j + 1) entry sizes)
  where
    both_bytes : Reads read_entry ((entry j).0 ++ (entry j).1) (entry j)
    both_bytes =
        Reads-do _ (fread-Reads seed_size (entry j).0 (sizes j).0)
          (Reads-map _ (fread-Reads 32 (entry j).1 (sizes j).1))

    next : Comp Bytes (List (ℕ × (Bytes × Bytes)))
    next = read_closed c_out left (j + 1)

    after : Bytes
    after = write_closed c_out left (j + 1) entry

    entries : List (ℕ × (Bytes × Bytes))
    entries = closed_entries c_out left (j + 1) entry

    whichever :
        (b : Bool)
        → Reads next after entries
        → Reads
            (if b then next else (read_entry >>= λ e. next >>= λ es. give ((j, e) ∷ es)))
            (if b then after else (entry j).0 ++ ((entry j).1 ++ after))
            (if b then entries else (j, entry j) ∷ entries)
    whichever true later = later
    whichever false later =
        subst
          (λ bs.
            Reads (read_entry >>= λ e. next >>= λ es. give ((j, e) ∷ es)) bs
              ((j, entry j) ∷ entries))
          (append_assoc (entry j).0 (entry j).1 after) (Reads-do _ both_bytes (Reads-map _ later))

words_equal_refl : (ws : List ℕ) → words_equal ws ws ≡ true
unfolding words_equal
words_equal_refl [] = refl
words_equal_refl (w ∷ ws) = ground (arith, words_equal_refl ws)

require-Reads : (b : Bool) → b ≡ true → Reads (require b) [] true
unfolding require
require-Reads true h = record { read = λ rest. refl }
require-Reads false h = absurd cc

-- The words of the header fit 32 bits.
abbrev pub IsParams : Params → Type 0
IsParams k =
    (k.parties < 2 ^ 32) × (k.instances < 2 ^ 32) × (k.rounds < 2 ^ 32) × (k.grind_w < 2 ^ 32)

pub read_head-Reads :
    (k : Params) (hd : Head)
    → IsParams k
    → length hd.nonce ≡ 32
    → length hd.h_star ≡ 32
    → hd.ctr < 2 ^ 32
    → Reads (read_head k) (write_head k hd) hd
unfolding read_head write_head
read_head-Reads k hd v nonce_len star_len ctr_fits =
    Reads-do _ (fread-Reads 4 (codes "KKW2") refl) (
      Reads-do _
        (fread_words-Reads 5 (header_words k) refl (v.0, (v.1, (v.2, (omega arith, (v.3, tt))))))
        (Reads-do _
          (require-Reads (words_equal (codes "KKW2") (codes "KKW2"))
            (words_equal_refl (codes "KKW2")))
          (Reads-do _
            (require-Reads (words_equal (header_words k) (header_words k))
              (words_equal_refl (header_words k)))
            (Reads-do _ (fread-Reads 32 hd.nonce nonce_len) (
              Reads-do _ (fread-Reads 32 hd.h_star star_len)
                (Reads-map _ (fread_words-Reads 1 (hd.ctr ∷ []) refl (ctr_fits, tt))))))))

-- For parameters and a grinding counter of 32 bits, and parts of the sizes of the C types:
-- reading the head, the instances that are not opened and the opened ones of a proof file, one
-- after another, gives what was written, up to the end of the file; the corrections of a round
-- whose hidden party is 0 come back as zeros, and the hash of its messages is still zero.
pub read_proof-write :
    (k : Params) (hd : Head) (c_out p_out : List ℕ) (entry : ℕ → Bytes × Bytes)
    (sent : List (Answer × Opening))
    → IsParams k
    → length hd.nonce ≡ 32
    → length hd.h_star ≡ 32
    → hd.ctr < 2 ^ 32
    → ((i : ℕ) → (length (entry i).0 ≡ seed_size) × (length (entry i).1 ≡ 32))
    → AreSent k p_out sent
    → (read_head k (write_proof k hd c_out p_out entry sent)
        ≡ some (hd, write_body k c_out p_out entry sent))
      × (read_closed c_out k.instances 0 (write_body k c_out p_out entry sent)
          ≡ some (closed_entries c_out k.instances 0 entry, write_rounds p_out sent))
      × (read_rounds k p_out (write_rounds p_out sent) ≡ some (received_all p_out sent, []))
unfolding write_proof
read_proof-write k hd c_out p_out entry sent params nonce_len star_len ctr_fits sizes v = (
  (read_head-Reads k hd params nonce_len star_len ctr_fits).read
      (write_body k c_out p_out entry sent),
  (read_closed-Reads c_out k.instances 0 entry sizes).read (write_rounds p_out sent),
  ap (read_rounds k p_out) (sym (append-nil {0} (write_rounds p_out sent)))
      ∙ (read_rounds-Reads k p_out sent v).read [],
)
