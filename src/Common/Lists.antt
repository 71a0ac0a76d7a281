-- ===== src/Common/Lists.antt =====
-- Arrays of C as lists: length, reads, blocks, and an array that a counted loop fills.
use Prim.Native.Nat.{ℕ, zero, suc, ◌+◌, ◌-◌, ◌≤◌, ◌<◌, min}
use mathlib.Core.Path.{◌≡◌, refl, sym, ap, ap₂, ◌∙◌}
use mathlib.Core.List.{List, [], ◌∷◌, ◌++◌}
use native.Mathlib.Omega.{arith}

module _ {ℓ} {A : Type ℓ} where
  abbrev pub length : List A → ℕ
  length [] = 0
  length (x ∷ xs) = suc (length xs)

  -- A read out of bounds gives `d`.
  abbrev pub get_or : List A → ℕ → A → A
  get_or [] i d = d
  get_or (x ∷ xs) zero d = x
  get_or (x ∷ xs) (suc i) d = get_or xs i d

  abbrev pub take : ℕ → List A → List A
  take zero xs = []
  take (suc n) [] = []
  take (suc n) (x ∷ xs) = x ∷ take n xs

  abbrev pub drop : ℕ → List A → List A
  drop zero xs = xs
  drop (suc n) [] = []
  drop (suc n) (x ∷ xs) = drop n xs

  abbrev pub replicate : ℕ → A → List A
  replicate zero a = []
  replicate (suc n) a = a ∷ replicate n a

  -- A write out of bounds changes nothing.
  abbrev pub set : List A → ℕ → A → List A
  set [] i v = []
  set (x ∷ xs) zero v = v ∷ xs
  set (x ∷ xs) (suc i) v = x ∷ set xs i v

  -- `f i, f (i + 1), …`, `n` of them: what `for (k = i; k < i + n; k++) out[k] = f(k)` stores.
  unfoldable pub tabulate_from : ℕ → ℕ → (ℕ → A) → List A
  tabulate_from i zero f = []
  tabulate_from i (suc n) f = f i ∷ tabulate_from (i + 1) n f

  unfoldable pub tabulate : ℕ → (ℕ → A) → List A
  unfolding tabulate_from
  tabulate n f = tabulate_from 0 n f

module _ {ℓ} {A : Type ℓ} where
  pub length-append : (xs ys : List A) → length (xs ++ ys) ≡ length xs + length ys
  length-append [] ys = omega arith
  length-append (x ∷ xs) ys = omega (arith, length-append xs ys)

  pub length-take : (n : ℕ) (xs : List A) → length (take n xs) ≡ min n (length xs)
  length-take zero xs = omega arith
  length-take (suc n) [] = omega arith
  length-take (suc n) (x ∷ xs) = omega (arith, length-take n xs)

  pub length-drop : (n : ℕ) (xs : List A) → length (drop n xs) ≡ length xs - n
  length-drop zero xs = omega arith
  length-drop (suc n) [] = omega arith
  length-drop (suc n) (x ∷ xs) = omega (arith, length-drop n xs)

  pub length-replicate : (n : ℕ) (a : A) → length (replicate n a) ≡ n
  length-replicate zero a = refl
  length-replicate (suc n) a = ap suc (length-replicate n a)

  pub length-set : (xs : List A) (i : ℕ) (v : A) → length (set xs i v) ≡ length xs
  length-set [] i v = refl
  length-set (x ∷ xs) zero v = refl
  length-set (x ∷ xs) (suc i) v = ap suc (length-set xs i v)

  pub take-append-drop : (n : ℕ) (xs : List A) → take n xs ++ drop n xs ≡ xs
  take-append-drop zero xs = refl
  take-append-drop (suc n) [] = refl
  take-append-drop (suc n) (x ∷ xs) = ap (◌∷◌ x) (take-append-drop n xs)

  pub drop_of_eq : (m n : ℕ) (xs : List A) → m ≡ n → drop m xs ≡ drop n xs
  drop_of_eq m n xs e = ap (λ t. drop t xs) e

  pub drop-drop : (m n : ℕ) (xs : List A) → drop n (drop m xs) ≡ drop (m + n) xs
  drop-drop zero n xs = drop_of_eq n (0 + n) xs (omega arith)
  drop-drop (suc m) n [] = drop-nil n ∙ sym (drop-nil (suc m + n))
    where
      drop-nil : (k : ℕ) → drop {A = A} k [] ≡ []
      drop-nil zero = refl
      drop-nil (suc k) = refl
  drop-drop (suc m) n (x ∷ xs) =
      drop-drop m n xs ∙ drop_of_eq (suc (m + n)) (suc m + n) (x ∷ xs) (omega arith)

  -- The first block of a buffer, and what follows it.
  pub take-append : (n : ℕ) (xs ys : List A) → length xs ≡ n → take n (xs ++ ys) ≡ xs
  take-append zero [] ys e = refl
  take-append zero (x ∷ xs) ys e = absurd (omega arith)
  take-append (suc n) [] ys e = absurd (omega arith)
  take-append (suc n) (x ∷ xs) ys e = ap (◌∷◌ x) (take-append n xs ys (omega arith))

  pub drop-append : (n : ℕ) (xs ys : List A) → length xs ≡ n → drop n (xs ++ ys) ≡ ys
  drop-append zero [] ys e = refl
  drop-append zero (x ∷ xs) ys e = absurd (omega arith)
  drop-append (suc n) [] ys e = absurd (omega arith)
  drop-append (suc n) (x ∷ xs) ys e = drop-append n xs ys (omega arith)

  pub take-length : (n : ℕ) (xs : List A) → length xs ≡ n → take n xs ≡ xs
  take-length zero [] e = refl
  take-length zero (x ∷ xs) e = absurd (omega arith)
  take-length (suc n) [] e = absurd (omega arith)
  take-length (suc n) (x ∷ xs) e = ap (◌∷◌ x) (take-length n xs (omega arith))

  pub length-tabulate_from : (i n : ℕ) (f : ℕ → A) → length (tabulate_from i n f) ≡ n
  unfolding tabulate_from
  length-tabulate_from i zero f = refl
  length-tabulate_from i (suc n) f = ap suc (length-tabulate_from (i + 1) n f)

  pub length-tabulate : (n : ℕ) (f : ℕ → A) → length (tabulate n f) ≡ n
  unfolding tabulate
  length-tabulate n f = length-tabulate_from 0 n f

  pub get_or-tabulate_from :
      (i n j : ℕ) (f : ℕ → A) (d : A) → j < n → get_or (tabulate_from i n f) j d ≡ f (i + j)
  unfolding tabulate_from
  get_or-tabulate_from i zero j f d h = absurd (omega arith)
  get_or-tabulate_from i (suc n) zero f d h = ap f (omega arith)
  get_or-tabulate_from i (suc n) (suc j) f d h =
      get_or-tabulate_from (i + 1) n j f d (omega arith) ∙ ap f (omega arith)

  pub get_or-tabulate : (n j : ℕ) (f : ℕ → A) (d : A) → j < n → get_or (tabulate n f) j d ≡ f j
  unfolding tabulate
  get_or-tabulate n j f d h = get_or-tabulate_from 0 n j f d h ∙ ap f (omega arith)

  tabulate_from_ext :
      (i n : ℕ) (f g : ℕ → A)
      → ((j : ℕ) → i ≤ j → j < i + n → f j ≡ g j)
      → tabulate_from i n f ≡ tabulate_from i n g
  unfolding tabulate_from
  tabulate_from_ext i zero f g h = refl
  tabulate_from_ext i (suc n) f g h =
      ap₂ ◌∷◌ (h i (omega arith) (omega arith))
        (tabulate_from_ext (i + 1) n f g (λ j p q. h j (omega arith) (omega arith)))

  pub tabulate_ext :
      (n : ℕ) (f g : ℕ → A) → ((j : ℕ) → j < n → f j ≡ g j) → tabulate n f ≡ tabulate n g
  unfolding tabulate
  tabulate_ext n f g h = tabulate_from_ext 0 n f g (λ j p q. h j (omega arith))

  tabulate_from-get_or :
      (i n : ℕ) (xs ys : List A) (d : A)
      → length xs ≡ i
      → length ys ≡ n
      → tabulate_from i n (λ j. get_or (xs ++ ys) j d) ≡ ys
  unfolding tabulate_from
  tabulate_from-get_or i zero xs [] d e f = refl
  tabulate_from-get_or i zero xs (y ∷ ys) d e f = absurd (omega arith)
  tabulate_from-get_or i (suc n) xs [] d e f = absurd (omega arith)
  tabulate_from-get_or i (suc n) xs (y ∷ ys) d e f =
      ap₂ ◌∷◌ (at i xs e)
        (shift xs ∙ tabulate_from-get_or (i + 1) n (xs ++ y ∷ []) ys d len (omega arith))
    where
      at : (k : ℕ) (zs : List A) → length zs ≡ k → get_or (zs ++ y ∷ ys) k d ≡ y
      at zero [] h = refl
      at zero (z ∷ zs) h = absurd (omega arith)
      at (suc k) [] h = absurd (omega arith)
      at (suc k) (z ∷ zs) h = at k zs (omega arith)

      len : length (xs ++ y ∷ []) ≡ i + 1
      len = omega (arith, length-append xs (y ∷ []))

      regroup : (zs : List A) → zs ++ y ∷ ys ≡ (zs ++ y ∷ []) ++ ys
      regroup [] = refl
      regroup (z ∷ zs) = ap (◌∷◌ z) (regroup zs)

      shift :
          (zs : List A)
          → tabulate_from (i + 1) n (λ j. get_or (zs ++ y ∷ ys) j d)
            ≡ tabulate_from (i + 1) n (λ j. get_or ((zs ++ y ∷ []) ++ ys) j d)
      shift zs = ap (λ l. tabulate_from (i + 1) n (λ j. get_or l j d)) (regroup zs)

  -- Copying an array entry by entry gives the array.
  pub tabulate-get_or :
      (n : ℕ) (xs : List A) (d : A) → length xs ≡ n → tabulate n (λ j. get_or xs j d) ≡ xs
  unfolding tabulate
  tabulate-get_or n xs d e = tabulate_from-get_or 0 n [] xs d refl e
