-- ===== src/Kkw/Proof/Reads.antt =====
-- Reading what was written, step by step: `fread` in kkw/src/kkw_verify.c.
use hash_blind_signatures.Common.Comp.{Comp, ◌>>=◌, give}
use hash_blind_signatures.Common.{
  ℕ, suc, ◌*◌, ◌^◌, ◌<◌, ◌≡◌, ◌∙◌, refl, sym, ap, ap₂, arith, none, some, [], ◌∷◌, ◌++◌, List,
  Bytes, length, blocks, map, concat, put_le32, Sized, blocks-concat, length-concat, take-append,
  drop-append, length-append,
}
use mathlib.Core.List.{append_assoc, append-nil}
use mathlib.Core.Path.{subst}
use hash_blind_signatures.Xmss.Codec.{get_le32}
use hash_blind_signatures.Xmss.Codec.Laws.{get_le32-put}
use hash_blind_signatures.Kkw.Seeds.{word_bytes}
use hash_blind_signatures.Kkw.Proof.{fread, words_of, fread_words}

-- Before anything else, the reader takes `bs` and gives `v`.
pub record Reads {A : Type 0} (c : Comp Bytes A) (bs : Bytes) (v : A) : Type 0 where
  pub read : (rest : Bytes) → c (bs ++ rest) ≡ some (v, rest)

pub Reads-give : {A : Type 0} (v : A) → Reads (give v) [] v
unfolding give
Reads-give v = record { read = λ rest. refl }

pub Reads-do :
    {A B : Type 0} {c : Comp Bytes A} {a : A} {v : B} {bs bs' : Bytes} (f : A → Comp Bytes B)
    → Reads c bs a
    → Reads (f a) bs' v
    → Reads (c >>= f) (bs ++ bs') v
unfolding ◌>>=◌
Reads-do {c = c} {bs = bs} {bs' = bs'} f r t = record {
  read = λ rest.
      ap (c >>= f) (append_assoc bs bs' rest)
      ∙ ap (λ o. elim o [ none ↦ none | some (a, s) ↦ f a s ]) (r.read (bs' ++ rest))
      ∙ t.read rest;
}

-- The last step, and what is made of it.
pub Reads-map :
    {A B : Type 0} {c : Comp Bytes A} {a : A} {bs : Bytes} (f : A → B)
    → Reads c bs a
    → Reads (c >>= λ x. give (f x)) bs (f a)
unfolding ◌>>=◌ give
Reads-map f r = record {
  read = λ rest. ap (λ o. elim o [ none ↦ none | some (a, s) ↦ some (f a, s) ]) (r.read rest);
}

pub fread-Reads : (n : ℕ) (bs : Bytes) → length bs ≡ n → Reads (fread n) bs bs
unfolding fread
fread-Reads n bs e = record {
  read = λ rest.
      ground (arith, length-append bs rest, take-append n bs rest e, drop-append n bs rest e);
}

-- Words of 32 bits.
abbrev pub IsWords : List ℕ → Type 0
IsWords [] = Unit {0}
IsWords (w ∷ ws) = (w < 2 ^ 32) × IsWords ws

words_Sized : (ws : List ℕ) → Sized 4 (map put_le32 ws)
words_Sized [] = tt
words_Sized (w ∷ ws) = (refl, words_Sized ws)

words_back : (ws : List ℕ) → IsWords ws → map get_le32 (map put_le32 ws) ≡ ws
words_back [] h = refl
words_back (w ∷ ws) h = ap₂ ◌∷◌ (get_le32-put w [] h.0) (words_back ws h.1)

pub length-map : {A B : Type 0} (f : A → B) (xs : List A) → length (map f xs) ≡ length xs
length-map f [] = refl
length-map f (x ∷ xs) = ap suc (length-map f xs)

pub blocks_alone :
    (w n : ℕ) (xs : List Bytes) → Sized w xs → length xs ≡ n → blocks w n (concat xs) ≡ xs
blocks_alone w n xs s e =
    ap (blocks w n) (sym (append-nil {0} (concat xs))) ∙ blocks-concat w n xs [] s e

pub words_of-bytes :
    (n : ℕ) (ws : List ℕ) → length ws ≡ n → IsWords ws → words_of n (word_bytes ws) ≡ ws
words_of-bytes n ws e h =
    ap (map get_le32)
      (blocks_alone 4 n (map put_le32 ws) (words_Sized ws) (length-map put_le32 ws ∙ e))
    ∙ words_back ws h

pub length-word_bytes : (n : ℕ) (ws : List ℕ) → length ws ≡ n → length (word_bytes ws) ≡ 4 * n
length-word_bytes n ws e =
    length-concat 4 n (map put_le32 ws) (words_Sized ws) (length-map put_le32 ws ∙ e)

pub fread_words-Reads :
    (n : ℕ) (ws : List ℕ) → length ws ≡ n → IsWords ws → Reads (fread_words n) (word_bytes ws) ws
unfolding fread_words
fread_words-Reads n ws e h =
    subst (Reads (fread_words n) (word_bytes ws)) (words_of-bytes n ws e h)
      (Reads-map (words_of n) (fread-Reads (4 * n) (word_bytes ws) (length-word_bytes n ws e)))
