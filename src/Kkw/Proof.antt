-- ===== src/Kkw/Proof.antt =====
-- The proof file: what kkw/src/kkw_prove.c writes at its end, and how kkw/src/kkw_verify.c reads
-- it. Words are little-endian, as the machine stores them; a file is a list of bytes, and a read
-- past its end fails.
pub mod Reads
pub mod Rounds
pub mod Laws
pub mod Parts
use hash_blind_signatures.Common.Comp.{Comp, ◌>>=◌, give}
use hash_blind_signatures.Common.{
  ℕ, zero, suc, ◌+◌, ◌-◌, ◌*◌, Bool, true, false, ◌&&◌, Option, none, some, [], ◌∷◌, ◌++◌, List,
  Bytes, length, get_or, take, drop, blocks, map, concat, tabulate, replicate, put_le32, codes, ltb,
  ◌==◌, if◌then◌else◌,
}
use hash_blind_signatures.Xmss.Codec.{get_le32}
use hash_blind_signatures.Circuit.Shares.{y_size}
use hash_blind_signatures.Circuit.Views.Evaluate.{Answer, Opening}
use hash_blind_signatures.Kkw.Seeds.{seed_size, input_len, word_bytes}

-- N_PARTIES, M_KKW, NUM_ROUNDS, GRIND_W
pub record Params : Type 0 where
  pub parties : ℕ
  pub instances : ℕ
  pub rounds : ℕ
  pub grind_w : ℕ

-- What stands before the instances: the nonce, `h_star` and the grinding counter.
pub record Head : Type 0 where
  pub nonce : Bytes
  pub h_star : Bytes
  pub ctr : ℕ

-- `fread(out, len, 1, proof)`
unfoldable pub fread : ℕ → Comp Bytes Bytes
fread len file = if ltb (length file) len then none else some (take len file, drop len file)

-- `len` words
abbrev pub words_of : ℕ → Bytes → List ℕ
words_of len buf = map get_le32 (blocks 4 len buf)

unfoldable pub fread_words : ℕ → Comp Bytes (List ℕ)
fread_words len = fread (4 * len) >>= λ buf. give (words_of len buf)

-- `hdr`
abbrev pub header_words : Params → List ℕ
header_words k = k.parties ∷ k.instances ∷ k.rounds ∷ y_size ∷ k.grind_w ∷ []

unfoldable pub words_equal : List ℕ → List ℕ → Bool
words_equal [] [] = true
words_equal [] (y ∷ ys) = false
words_equal (x ∷ xs) [] = false
words_equal (x ∷ xs) (y ∷ ys) = x == y && words_equal xs ys

-- `return -1` unless the test holds
unfoldable pub require : Bool → Comp Bytes Bool
require true file = some (true, file)
require false file = none

-- Whether an index is among the opened instances: `in_C[j]`.
unfoldable pub opened : List ℕ → ℕ → Bool
opened [] j = false
opened (c ∷ cs) j = if c == j then true else opened cs j

-- The seed and the hash of the messages of each instance that is not opened, from index `j`.
unfoldable pub write_closed : List ℕ → ℕ → ℕ → (ℕ → Bytes × Bytes) → Bytes
write_closed c_out zero j entry = []
write_closed c_out (suc left) j entry =
    let rest = write_closed c_out left (j + 1) entry in
    if opened c_out j then rest else (entry j).0 ++ ((entry j).1 ++ rest)

unfoldable pub read_entry : Comp Bytes (Bytes × Bytes)
read_entry = do seed ← fread seed_size; h_prime ← fread 32; give (seed, h_prime)

-- With the index of each.
unfoldable pub read_closed : List ℕ → ℕ → ℕ → Comp Bytes (List (ℕ × (Bytes × Bytes)))
read_closed c_out zero j = give []
read_closed c_out (suc left) j =
    let rest = read_closed c_out left (j + 1) in
    if opened c_out j
    then rest
    else (read_entry >>= λ entry. rest >>= λ later. give ((j, entry) ∷ later))

-- One opened instance, whose hidden party is `e`. The corrections are left out for party 0.
unfoldable pub write_round : ℕ → Answer × Opening → Bytes
write_round e (a, z) =
    z.com_hidden
    ++ (concat (map word_bytes a.yp)
        ++ (concat z.ke
            ++ (z.x_offset
                ++ ((if e == 0 then [] else word_bytes z.aux) ++ (word_bytes z.msgs_e ++ z.r_j)))))

unfoldable pub read_aux : ℕ → Comp Bytes (List ℕ)
read_aux e = if e == 0 then give (replicate y_size 0) else fread_words y_size

-- A round for each hidden party.
unfoldable pub write_rounds : List ℕ → List (Answer × Opening) → Bytes
write_rounds [] sent = []
write_rounds (e ∷ p_out) [] = []
write_rounds (e ∷ p_out) (s ∷ sent) = write_round e s ++ write_rounds p_out sent

module _ (k : Params) where
  unfoldable pub write_head : Head → Bytes
  write_head hd =
      codes "KKW2" ++ (word_bytes (header_words k) ++ (hd.nonce ++ (hd.h_star ++ put_le32 hd.ctr)))

  unfoldable pub read_head : Comp Bytes Head
  read_head = do
    magic ← fread 4
    hdr ← fread_words 5
    good ← require (words_equal magic (codes "KKW2"))
    same ← require (words_equal hdr (header_words k))
    nonce ← fread 32
    h_star ← fread 32
    ctr ← fread_words 1
    give (record { nonce = nonce; h_star = h_star; ctr = get_or ctr 0 0 })

  -- `calloc` gives `h_prime` of zeros.
  unfoldable pub read_round : ℕ → Comp Bytes (Answer × Opening)
  read_round e = do
    com_hidden ← fread 32
    yp ← fread (32 * k.parties)
    ke ← fread (seed_size * (k.parties - 1))
    x_offset ← fread input_len
    aux ← read_aux e
    msgs_e ← fread_words y_size
    r_j ← fread 32
    give (
      record { yp = map (words_of 8) (blocks 32 k.parties yp); h_prime = replicate 32 0 },
      record {
        ke = blocks seed_size (k.parties - 1) ke;
        x_offset = x_offset;
        aux = aux;
        msgs_e = msgs_e;
        com_hidden = com_hidden;
        r_j = r_j;
      },
    )

  unfoldable pub read_rounds : List ℕ → Comp Bytes (List (Answer × Opening))
  read_rounds [] = give []
  read_rounds (e ∷ p_out) = do first ← read_round e; later ← read_rounds p_out; give (first ∷ later)

  -- The online part of the file, what follows the head, and the file.
  abbrev pub write_body : List ℕ → List ℕ → (ℕ → Bytes × Bytes) → List (Answer × Opening) → Bytes
  write_body c_out p_out entry sent =
      write_closed c_out k.instances 0 entry ++ write_rounds p_out sent

  unfoldable pub write_proof :
      Head → List ℕ → List ℕ → (ℕ → Bytes × Bytes) → List (Answer × Opening) → Bytes
  write_proof hd c_out p_out entry sent = write_head hd ++ write_body c_out p_out entry sent
