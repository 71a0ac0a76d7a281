-- ===== src/Kkw/Proof/Parts.antt =====
-- What kkw/src/kkw_verify.c has read, as parts of the file.
use hash_blind_signatures.Common.Comp.{Comp, ◌>>=◌, give}
use hash_blind_signatures.Common.{
  ℕ, zero, suc, ◌+◌, ◌*◌, ◌≡◌, ◌∙◌, refl, sym, ap, ap₂, arith, Bool, true, false, Option, none,
  some, [], ◌∷◌, ◌++◌, List, Bytes, length, get_or, map, concat, codes, ◌==◌, ==_iff, both, ltb,
  take, drop, take-append-drop, length-take, if◌then◌else◌, Bool-cases, inl, inr,
}
use mathlib.Core.List.{append_assoc}
use mathlib.Core.Path.{subst₂}
use hash_blind_signatures.Circuit.Views.Evaluate.{Answer, Opening}
use hash_blind_signatures.Kkw.Seeds.{seed_size}
use hash_blind_signatures.Kkw.Proof.{
  Params, Head, fread, words_of, fread_words, header_words, words_equal, require, opened, read_head,
  read_entry, read_closed, read_rounds,
}

-- A step that gave `a`, before the rest.
record Took {S A : Type 0} (m : Comp S A) (s : S) (rest : A → S → Type 0) : Type 0 where
  a : A
  s' : S
  gave : m s ≡ some (a, s')
  after : rest a s'

bind-Took :
    {S A B : Type 0} (m : Comp S A) (f : A → Comp S B) (s : S) (r : B × S)
    → (m >>= f) s ≡ some r
    → Took m s (λ a s'. f a s' ≡ some r)
unfolding ◌>>=◌
bind-Took {S} {A} {B} m f s r h = from (m s) refl h
  where
    from :
        (o : Option (A × S))
        → m s ≡ o
        → elim o [ none ↦ none | some (a, s') ↦ f a s' ] ≡ some r
        → Took m s (λ a s'. f a s' ≡ some r)
    from none e h = cc
    from (some (a, s')) e h = record { a = a; s' = s'; gave = e; after = h }

-- The bytes that were read, and the others.
fread-parts :
    (len : ℕ) (file a rest : Bytes)
    → fread len file ≡ some (a, rest)
    → (file ≡ a ++ rest) × (length a ≡ len)
unfolding fread
fread-parts len file a rest h = elim (Bool-cases (ltb (length file) len)) [
  | inl short ↦ absurd (ground arith)
  | inr enough ↦ (
    sym (take-append-drop len file) ∙ ap₂ ◌++◌ first.0 first.1,
    ap length (sym first.0) ∙ length-take len file ∙ ground arith,
  )
]
  where
    first : (take len file ≡ a) × (drop len file ≡ rest)
    first = ground arith

-- Words that were read, with their bytes.
record IsWordsRead (len : ℕ) (file : Bytes) (ws : List ℕ) (rest : Bytes) : Type 0 where
  buf : Bytes
  parts : file ≡ buf ++ rest
  size : length buf ≡ 4 * len
  words : words_of len buf ≡ ws

fread_words-parts :
    (len : ℕ) (file : Bytes) (ws : List ℕ) (rest : Bytes)
    → fread_words len file ≡ some (ws, rest)
    → IsWordsRead len file ws rest
unfolding fread_words give
fread_words-parts len file ws rest h =
    let t = bind-Took (fread (4 * len)) (λ buf. give (words_of len buf)) file (ws, rest) h in
    let left : t.s' ≡ rest = after_rest t in
    let cut = fread-parts (4 * len) file t.a rest (t.gave ∙ ap (λ r. some (t.a, r)) left) in
    record { buf = t.a; parts = cut.0; size = cut.1; words = after_words t }
  where
    after_rest :
        (t : Took (fread (4 * len)) file (λ buf s'. give (words_of len buf) s' ≡ some (ws, rest)))
        → t.s' ≡ rest
    after_rest t = ground (arith, t.after)

    after_words :
        (t : Took (fread (4 * len)) file (λ buf s'. give (words_of len buf) s' ≡ some (ws, rest)))
        → words_of len t.a ≡ ws
    after_words t = ground (arith, t.after)

words_equal-eq : (xs ys : List ℕ) → words_equal xs ys ≡ true → xs ≡ ys
unfolding words_equal
words_equal-eq [] [] h = refl
words_equal-eq [] (y ∷ ys) h = cc
words_equal-eq (x ∷ xs) [] h = cc
words_equal-eq (x ∷ xs) (y ∷ ys) h =
    let (first, others) = both (x == y) (words_equal xs ys) h in
    ap₂ ◌∷◌ (ground (arith, ==_iff x y)) (words_equal-eq xs ys others)

require-parts :
    (b good : Bool) (file rest : Bytes)
    → require b file ≡ some (good, rest)
    → (b ≡ true) × (file ≡ rest)
unfolding require
require-parts true good file rest h = (refl, cc)
require-parts false good file rest h = absurd cc

given-parts : {A : Type 0} (a b : A) (s s' : Bytes) → give a s ≡ some (b, s') → (a ≡ b) × (s ≡ s')
unfolding give
given-parts a b s s' h = (cc, cc)

-- A head at the start of a file: the magic, the parameters, and the fields of `hd`.
pub record IsHead (k : Params) (file : Bytes) (hd : Head) (body : Bytes) : Type 0 where
  pub hdr : Bytes
  pub ctr : Bytes
  pub layout : file ≡ codes "KKW2" ++ (hdr ++ (hd.nonce ++ (hd.h_star ++ (ctr ++ body))))
  pub params : words_of 5 hdr ≡ header_words k
  pub counter : hd.ctr ≡ get_or (words_of 1 ctr) 0 0
  pub hdr_len : length hdr ≡ 20
  pub nonce_len : length hd.nonce ≡ 32
  pub star_len : length hd.h_star ≡ 32
  pub ctr_len : length ctr ≡ 4

pub read_head-IsHead :
    (k : Params) (file : Bytes) (hd : Head) (body : Bytes)
    → read_head k file ≡ some (hd, body)
    → IsHead k file hd body
unfolding read_head
read_head-IsHead k file hd body h =
    let t1 = bind-Took _ _ file (hd, body) h in
    let t2 = bind-Took _ _ t1.s' (hd, body) t1.after in
    let t3 = bind-Took _ _ t2.s' (hd, body) t2.after in
    let t4 = bind-Took _ _ t3.s' (hd, body) t3.after in
    let t5 = bind-Took _ _ t4.s' (hd, body) t4.after in
    let t6 = bind-Took _ _ t5.s' (hd, body) t5.after in
    let t7 = bind-Took _ _ t6.s' (hd, body) t6.after in
    let magic = fread-parts 4 file t1.a t1.s' t1.gave in
    let hdr = fread_words-parts 5 t1.s' t2.a t2.s' t2.gave in
    let good = require-parts _ t3.a t2.s' t3.s' t3.gave in
    let same = require-parts _ t4.a t3.s' t4.s' t4.gave in
    let nonce = fread-parts 32 t4.s' t5.a t5.s' t5.gave in
    let star = fread-parts 32 t5.s' t6.a t6.s' t6.gave in
    let ctr = fread_words-parts 1 t6.s' t7.a t7.s' t7.gave in
    let made : IsHead k file (record { nonce = t5.a; h_star = t6.a; ctr = get_or t7.a 0 0 }) t7.s' =
      record {
        hdr = hdr.buf;
        ctr = ctr.buf;
        layout =
            magic.0
            ∙ ap₂ ◌++◌ (words_equal-eq t1.a (codes "KKW2") good.0) (
                hdr.parts
                ∙ ap (◌++◌ hdr.buf) (
                    good.1
                    ∙ same.1
                    ∙ nonce.0
                    ∙ ap (◌++◌ t5.a) (star.0 ∙ ap (◌++◌ t6.a) ctr.parts)));
        params = hdr.words ∙ words_equal-eq t2.a (header_words k) same.0;
        counter = ap (λ ws. get_or ws 0 0) (sym ctr.words);
        hdr_len = hdr.size;
        nonce_len = nonce.1;
        star_len = star.1;
        ctr_len = ctr.size;
      } in
    let (is_hd, is_body) = given-parts _ hd t7.s' body t7.after in
    subst₂ (IsHead k file) is_hd is_body made

-- The indices from `j` on that are not opened.
abbrev pub unopened : List ℕ → ℕ → ℕ → List ℕ
unopened c_out zero j = []
unopened c_out (suc left) j =
    if opened c_out j then unopened c_out left (j + 1) else j ∷ unopened c_out left (j + 1)

-- Every entry is a seed and a hash.
abbrev pub AreEntries : List (ℕ × (Bytes × Bytes)) → Type 0
AreEntries [] = Unit {0}
AreEntries ((j, entry) ∷ entries) =
    (length entry.0 ≡ seed_size) × (length entry.1 ≡ 32) × AreEntries entries

-- The entries of the instances `numbers`, one after another.
pub record IsClosed (numbers : List ℕ) (file : Bytes) (entries : List (ℕ × (Bytes × Bytes)))
    (tail : Bytes) : Type 0 where
  pub layout : file ≡ concat (map (λ x. x.1.0 ++ x.1.1) entries) ++ tail
  pub indices : map (λ x. x.0) entries ≡ numbers
  pub sizes : AreEntries entries

read_entry-parts :
    (file : Bytes) (entry : Bytes × Bytes) (rest : Bytes)
    → read_entry file ≡ some (entry, rest)
    → (file ≡ (entry.0 ++ entry.1) ++ rest) × (length entry.0 ≡ seed_size) × (length entry.1 ≡ 32)
unfolding read_entry
read_entry-parts file entry rest h =
    let t1 = bind-Took _ _ file (entry, rest) h in
    let t2 = bind-Took _ _ t1.s' (entry, rest) t1.after in
    let seed = fread-parts seed_size file t1.a t1.s' t1.gave in
    let hash = fread-parts 32 t1.s' t2.a t2.s' t2.gave in
    let (is_entry, is_rest) = given-parts _ entry t2.s' rest t2.after in
    subst₂ (λ en r. (file ≡ (en.0 ++ en.1) ++ r) × (length en.0 ≡ seed_size) × (length en.1 ≡ 32))
      is_entry is_rest
      (seed.0 ∙ ap (◌++◌ t1.a) hash.0 ∙ sym (append_assoc t1.a t2.a t2.s'), seed.1, hash.1)

-- An instance of the loop, before the others.
closed_step :
    (b : Bool) (j : ℕ) (next : Comp Bytes (List (ℕ × (Bytes × Bytes)))) (numbers : List ℕ)
    → ((file : Bytes) (entries : List (ℕ × (Bytes × Bytes))) (tail : Bytes)
        → next file ≡ some (entries, tail)
        → IsClosed numbers file entries tail)
    → (file : Bytes) (entries : List (ℕ × (Bytes × Bytes))) (tail : Bytes)
    → (if b then next else (read_entry >>= λ e. next >>= λ es. give ((j, e) ∷ es))) file
      ≡ some (entries, tail)
    → IsClosed (if b then numbers else j ∷ numbers) file entries tail
closed_step true j next numbers ih file entries tail h = ih file entries tail h
closed_step false j next numbers ih file entries tail h =
    let t1 = bind-Took _ _ file (entries, tail) h in
    let t2 = bind-Took _ _ t1.s' (entries, tail) t1.after in
    let (here, seed_len, hash_len) = read_entry-parts file t1.a t1.s' t1.gave in
    let v = ih t1.s' t2.a t2.s' t2.gave in
    let (is_entries, is_tail) = given-parts ((j, t1.a) ∷ t2.a) entries t2.s' tail t2.after in
    subst₂ (IsClosed (j ∷ numbers) file) is_entries is_tail (record {
      layout =
          here
          ∙ ap (◌++◌ (t1.a.0 ++ t1.a.1)) v.layout
          ∙ sym (append_assoc (t1.a.0 ++ t1.a.1) (concat (map (λ x. x.1.0 ++ x.1.1) t2.a)) t2.s');
      indices = ap (◌∷◌ j) v.indices;
      sizes = (seed_len, hash_len, v.sizes);
    })

pub read_closed-IsClosed :
    (c_out : List ℕ) (left j : ℕ) (file : Bytes) (entries : List (ℕ × (Bytes × Bytes)))
    (tail : Bytes)
    → read_closed c_out left j file ≡ some (entries, tail)
    → IsClosed (unopened c_out left j) file entries tail
unfolding read_closed
read_closed-IsClosed c_out zero j file entries tail h =
    let (e, r) = given-parts [] entries file tail h in
    subst₂ (IsClosed [] file) e r (record { layout = refl; indices = refl; sizes = tt })
read_closed-IsClosed c_out (suc left) j file entries tail h =
    closed_step (opened c_out j) j (read_closed c_out left (j + 1)) (unopened c_out left (j + 1))
      (read_closed-IsClosed c_out left (j + 1)) file entries tail h

-- A round for each hidden party.
pub length-read_rounds :
    (k : Params) (p_out : List ℕ) (file : Bytes) (sent : List (Answer × Opening)) (rest : Bytes)
    → read_rounds k p_out file ≡ some (sent, rest)
    → length sent ≡ length p_out
unfolding read_rounds
length-read_rounds k [] file sent rest h = ap length (sym (given-parts [] sent file rest h).0)
length-read_rounds k (e ∷ p_out) file sent rest h =
    let t1 = bind-Took _ _ file (sent, rest) h in
    let t2 = bind-Took _ _ t1.s' (sent, rest) t1.after in
    ap length (sym (given-parts (t1.a ∷ t2.a) sent t2.s' rest t2.after).0)
    ∙ ap suc (length-read_rounds k p_out t1.s' t2.a t2.s' t2.gave)
