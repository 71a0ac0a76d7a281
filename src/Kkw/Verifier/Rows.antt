-- ===== src/Kkw/Verifier/Rows.antt =====
-- The rows of the instances in kkw/src/kkw_verify.c, and those that are recomputed from a seed.
use hash_blind_signatures.Common.{
  map, ℕ, ◌≡◌, ◌≢◌, refl, Option, none, some, [], ◌∷◌, List, Bytes, set,
}
use mathlib.Core.Path.{subst}
use hash_blind_signatures.Platform.{Platform}
use hash_blind_signatures.Kkw.Seeds.{expand_seed_star, preproc_commit_instance}
use hash_blind_signatures.Kkw.Proof.{Params}
use hash_blind_signatures.Kkw.Verifier.{
  Row, Checked, place_rows, closed_row, closed_rows, compute_aux_from_seeds,
}

-- Every row goes to its index.
abbrev pub put_rows : List ℕ → List Row → List Row → List Row
put_rows [] made rows = rows
put_rows (j ∷ js) [] rows = rows
put_rows (j ∷ js) (row ∷ made) rows = put_rows js made (set rows j row)

pub place_rows-put :
    (c_out : List ℕ) (cs : List Checked) (rows : List Row)
    → place_rows c_out cs rows ≡ put_rows c_out (map (λ c. c.row) cs) rows
unfolding place_rows
place_rows-put [] cs rows = refl
place_rows-put (j ∷ c_out) [] rows = refl
place_rows-put (j ∷ c_out) (c ∷ cs) rows = place_rows-put c_out cs (set rows j c.row)

-- A match on an option whose other case does not give the result.
pub some_case :
    {A B : Type 0} (o : Option A) (d : Option B) (f : A → Option B) (r : B)
    → elim o [ none ↦ d | some a ↦ f a ] ≡ some r
    → d ≢ some r
    → (a : A) × (o ≡ some a) × (f a ≡ some r)
some_case none d f r h other = absurd (other h)
some_case (some a) d f r h other = (a, refl, h)

pub some_eq : {A : Type 0} (x y : A) → some x ≡ some y → x ≡ y
some_eq x y h = cc

module _ (p : Platform) (k : Params) (fresh : Bytes) where
  -- The row of an instance that is not opened: recomputed from its seed.
  pub record IsRecomputed (entry : Bytes × Bytes) (row : Row) : Type 0 where
    pub aux : List ℕ
    pub ran :
        compute_aux_from_seeds p 64 1024 32 k fresh (expand_seed_star p k.parties entry.0)
        ≡ some (aux, row.h_out)
    pub h_j :
        row.h_j
        ≡ preproc_commit_instance p k.parties fresh fresh
            (expand_seed_star p k.parties entry.0)
            (some aux)
    pub h_prime : row.h_prime ≡ entry.1

  abbrev pub AreRecomputed : List (ℕ × (Bytes × Bytes)) → List Row → Type 0
  AreRecomputed [] [] = Unit {0}
  AreRecomputed [] (row ∷ made) = ⊥
  AreRecomputed (entry ∷ entries) [] = ⊥
  AreRecomputed (entry ∷ entries) (row ∷ made) =
      IsRecomputed entry.1 row × AreRecomputed entries made

  closed_row-IsRecomputed :
      (entry : Bytes × Bytes) (row : Row)
      → closed_row p 64 1024 32 k fresh entry ≡ some row
      → IsRecomputed entry row
  unfolding closed_row
  closed_row-IsRecomputed (seed, h_prime) row h =
      let ((aux, h_out), ran, h1) =
        some_case (compute_aux_from_seeds p 64 1024 32 k fresh (expand_seed_star p k.parties seed))
          none _ row h (cc) in
      subst (IsRecomputed (seed, h_prime)) (some_eq _ row h1)
        (record { aux = aux; ran = ran; h_j = refl; h_prime = refl })

  pub closed_rows-AreRecomputed :
      (entries : List (ℕ × (Bytes × Bytes))) (rows rows' : List Row)
      → closed_rows p 64 1024 32 k fresh entries rows ≡ some rows'
      → (made : List Row) × AreRecomputed entries made
        × (rows' ≡ put_rows (map (λ x. x.0) entries) made rows)
  unfolding closed_rows
  closed_rows-AreRecomputed [] rows rows' h = ([], tt, cc)
  closed_rows-AreRecomputed ((j, entry) ∷ entries) rows rows' h =
      let (row, here, h1) = some_case (closed_row p 64 1024 32 k fresh entry) none _ rows' h (cc) in
      let (made, later, same) = closed_rows-AreRecomputed entries (set rows j row) rows' h1 in
      (row ∷ made, (closed_row-IsRecomputed entry row here, later), same)
