-- ===== src/Kkw/Proof/Rounds.antt =====
-- The opened instances of a proof, written by kkw/src/kkw_prove.c and read by
-- kkw/src/kkw_verify.c.
use hash_blind_signatures.Common.Comp.{give}
use hash_blind_signatures.Common.{
  ℕ, ◌-◌, ◌*◌, ◌≡◌, ◌∙◌, refl, ap, ap₂, Bool, true, false, [], ◌∷◌, List, Bytes, length, blocks,
  map, concat, replicate, ◌==◌, if◌then◌else◌, Sized, length-concat,
}
use mathlib.Core.Path.{subst}
use hash_blind_signatures.Circuit.Shares.{y_size}
use hash_blind_signatures.Circuit.Views.Evaluate.{Answer, Opening}
use hash_blind_signatures.Kkw.Seeds.{seed_size, input_len, word_bytes}
use hash_blind_signatures.Kkw.Proof.{
  Params, words_of, fread_words, write_round, read_aux, read_round, write_rounds, read_rounds,
}
use hash_blind_signatures.Kkw.Proof.Reads.{
  Reads, Reads-give, Reads-do, Reads-map, fread-Reads, length-map, blocks_alone, words_of-bytes,
  length-word_bytes, fread_words-Reads, IsWords,
}

-- Rows of eight words.
abbrev pub IsRows : List (List ℕ) → Type 0
IsRows [] = Unit {0}
IsRows (row ∷ rows) = (length row ≡ 8) × IsWords row × IsRows rows

rows_Sized : (rows : List (List ℕ)) → IsRows rows → Sized 32 (map word_bytes rows)
rows_Sized [] h = tt
rows_Sized (row ∷ rows) (e, w, h) = (length-word_bytes 8 row e, rows_Sized rows h)

rows_back : (rows : List (List ℕ)) → IsRows rows → map (words_of 8) (map word_bytes rows) ≡ rows
rows_back [] h = refl
rows_back (row ∷ rows) (e, w, h) = ap₂ ◌∷◌ (words_of-bytes 8 row e w) (rows_back rows h)

-- What kkw_prove has when it writes an opened instance: the sizes of the C types.
pub record IsSent (k : Params) (a : Answer) (z : Opening) : Type 0 where
  pub rows : length a.yp ≡ k.parties
  pub row_words : IsRows a.yp
  pub seeds : length z.ke ≡ k.parties - 1
  pub seed_bytes : Sized seed_size z.ke
  pub witness : length z.x_offset ≡ input_len
  pub aux_len : length z.aux ≡ y_size
  pub aux_words : IsWords z.aux
  pub msgs_len : length z.msgs_e ≡ y_size
  pub msgs_words : IsWords z.msgs_e
  pub com_len : length z.com_hidden ≡ 32
  pub r_len : length z.r_j ≡ 32

-- What the verifier has in its place: no hash of the messages yet, and no corrections where the
-- hidden party is the one that has them.
abbrev pub received : ℕ → Answer × Opening → Answer × Opening
received e (a, z) = (
  record a { h_prime = replicate 32 0 },
  record z { aux = if e == 0 then replicate y_size 0 else z.aux },
)

read_aux-Reads :
    (e : ℕ) (aux : List ℕ)
    → length aux ≡ y_size
    → IsWords aux
    → Reads
        (read_aux e)
        (if e == 0 then [] else word_bytes aux)
        (if e == 0 then replicate y_size 0 else aux)
unfolding read_aux
read_aux-Reads e aux h w = whichever (e == 0)
  where
    whichever :
        (b : Bool)
        → Reads
            (if b then give (replicate y_size 0) else fread_words y_size)
            (if b then [] else word_bytes aux)
            (if b then replicate y_size 0 else aux)
    whichever true = Reads-give (replicate y_size 0)
    whichever false = fread_words-Reads y_size aux h w

read_round-Reads :
    (k : Params) (e : ℕ) (a : Answer) (z : Opening)
    → IsSent k a z
    → Reads (read_round k e) (write_round e (a, z)) (received e (a, z))
unfolding read_round write_round
read_round-Reads k e a z v = subst (Reads (read_round k e) (write_round e (a, z))) same (
    Reads-do _ (fread-Reads 32 z.com_hidden v.com_len) (
      Reads-do _
        (fread-Reads (32 * k.parties) (concat (map word_bytes a.yp)) (
          length-concat 32 k.parties (map word_bytes a.yp) (rows_Sized a.yp v.row_words)
            (length-map word_bytes a.yp ∙ v.rows)))
        (Reads-do _
          (fread-Reads (seed_size * (k.parties - 1)) (concat z.ke)
            (length-concat seed_size (k.parties - 1) z.ke v.seed_bytes v.seeds))
          (Reads-do _ (fread-Reads input_len z.x_offset v.witness) (
            Reads-do _ (read_aux-Reads e z.aux v.aux_len v.aux_words) (
              Reads-do _ (fread_words-Reads y_size z.msgs_e v.msgs_len v.msgs_words)
                (Reads-map _ (fread-Reads 32 z.r_j v.r_len))))))))
  where
    yp_back : map (words_of 8) (blocks 32 k.parties (concat (map word_bytes a.yp))) ≡ a.yp
    yp_back =
        ap (map (words_of 8)) (
          blocks_alone 32 k.parties (map word_bytes a.yp) (rows_Sized a.yp v.row_words)
            (length-map word_bytes a.yp ∙ v.rows))
        ∙ rows_back a.yp v.row_words

    ke_back : blocks seed_size (k.parties - 1) (concat z.ke) ≡ z.ke
    ke_back = blocks_alone seed_size (k.parties - 1) z.ke v.seed_bytes v.seeds

    as_read : List (List ℕ) → List Bytes → Answer × Opening
    as_read yp ke = (
      record { yp = yp; h_prime = replicate 32 0 },
      record z { ke = ke; aux = if e == 0 then replicate y_size 0 else z.aux },
    )

    same :
        as_read
          (map (words_of 8) (blocks 32 k.parties (concat (map word_bytes a.yp))))
          (blocks seed_size (k.parties - 1) (concat z.ke))
        ≡ received e (a, z)
    same = ap₂ as_read yp_back ke_back

-- A well-formed round for each hidden party.
abbrev pub AreSent : Params → List ℕ → List (Answer × Opening) → Type 0
AreSent k [] [] = Unit {0}
AreSent k [] (s ∷ sent) = ⊥
AreSent k (e ∷ p_out) [] = ⊥
AreSent k (e ∷ p_out) (s ∷ sent) = IsSent k s.0 s.1 × AreSent k p_out sent

abbrev pub received_all : List ℕ → List (Answer × Opening) → List (Answer × Opening)
received_all [] sent = []
received_all (e ∷ p_out) [] = []
received_all (e ∷ p_out) (s ∷ sent) = received e s ∷ received_all p_out sent

pub read_rounds-Reads :
    (k : Params) (p_out : List ℕ) (sent : List (Answer × Opening))
    → AreSent k p_out sent
    → Reads (read_rounds k p_out) (write_rounds p_out sent) (received_all p_out sent)
unfolding read_rounds write_rounds
read_rounds-Reads k [] [] v = Reads-give []
read_rounds-Reads k [] (s ∷ sent) v = absurd v
read_rounds-Reads k (e ∷ p_out) [] v = absurd v
read_rounds-Reads k (e ∷ p_out) (s ∷ sent) v =
    Reads-do _ (read_round-Reads k e s.0 s.1 v.0) (Reads-map _ (read_rounds-Reads k p_out sent v.1))
