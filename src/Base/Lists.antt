-- ===== src/Base/Lists.antt =====
-- C arrays as lists measured and indexed by native numbers.
use Prim.Native.Nat.{ℕ, zero, suc, ◌+◌, ◌-◌, ◌≤◌, ◌<◌, min}
use mathlib.Core.Path.{◌≡◌, refl, sym, ap, ◌∙◌}
use mathlib.Core.Logic.{◌≢◌}
use mathlib.Core.List.{List, [], ◌∷◌, ◌++◌, append-nil, append_assoc}
use native.Mathlib.Nat.{add-zero, zero-add}
use mathlib.Core.Option.{Option, none, some}
use native.Mathlib.Omega.{arith}

abbrev pub Bytes : Type 0
Bytes = List ℕ

module _ {ℓ} {A : Type ℓ} where
  abbrev pub length : List A → ℕ
  length [] = 0
  length (x ∷ xs) = suc (length xs)

  abbrev pub get_elem? : List A → ℕ → Option A
  get_elem? [] i = none
  get_elem? (x ∷ xs) zero = some x
  get_elem? (x ∷ xs) (suc i) = get_elem? xs i

  abbrev pub get_or : List A → ℕ → A → A
  get_or [] i d = d
  get_or (x ∷ xs) zero d = x
  get_or (x ∷ xs) (suc i) d = get_or xs i d

  -- A write out of bounds changes nothing.
  abbrev pub set : List A → ℕ → A → List A
  set [] i v = []
  set (x ∷ xs) zero v = v ∷ xs
  set (x ∷ xs) (suc i) v = x ∷ set xs i v

  abbrev pub take : ℕ → List A → List A
  take zero xs = []
  take (suc n) [] = []
  take (suc n) (x ∷ xs) = x ∷ take n xs

  abbrev pub drop : ℕ → List A → List A
  drop zero xs = xs
  drop (suc n) [] = []
  drop (suc n) (x ∷ xs) = drop n xs

  abbrev pub replicate : ℕ → A → List A
  replicate zero a = []
  replicate (suc n) a = a ∷ replicate n a

  -- `memcpy(xs + i, src, length src)`.
  abbrev pub write_at : List A → ℕ → List A → List A
  write_at xs i [] = xs
  write_at xs i (b ∷ src) = write_at (set xs i b) (suc i) src

  -- A predicate of every element.
  abbrev pub All {κ} : (A → Type κ) → List A → Type κ
  All P [] = Unit
  All P (x ∷ xs) = P x × All P xs

module _ {ℓ} {A : Type ℓ} where
  pub length-append : (xs ys : List A) → length (xs ++ ys) ≡ length xs + length ys
  length-append [] ys = omega arith
  length-append (x ∷ xs) ys = omega (arith, length-append xs ys)

  pub length-set : (xs : List A) (i : ℕ) (v : A) → length (set xs i v) ≡ length xs
  length-set [] i v = refl
  length-set (x ∷ xs) zero v = refl
  length-set (x ∷ xs) (suc i) v = ap suc (length-set xs i v)

  pub length-replicate : (n : ℕ) (a : A) → length (replicate n a) ≡ n
  length-replicate zero a = refl
  length-replicate (suc n) a = ap suc (length-replicate n a)

  pub length-take : (n : ℕ) (xs : List A) → length (take n xs) ≡ min n (length xs)
  length-take zero xs = omega arith
  length-take (suc n) [] = omega arith
  length-take (suc n) (x ∷ xs) = omega (arith, length-take n xs)

  pub length-drop : (n : ℕ) (xs : List A) → length (drop n xs) ≡ length xs - n
  length-drop zero xs = omega arith
  length-drop (suc n) [] = omega arith
  length-drop (suc n) (x ∷ xs) = omega (arith, length-drop n xs)

  pub get_or-set_self :
      (xs : List A) (i : ℕ) (v d : A) → i < length xs → get_or (set xs i v) i d ≡ v
  get_or-set_self [] i v d h = absurd (omega arith)
  get_or-set_self (x ∷ xs) zero v d h = refl
  get_or-set_self (x ∷ xs) (suc i) v d h = get_or-set_self xs i v d (omega arith)

  pub get_or-set_ne :
      (xs : List A) (i j : ℕ) (v d : A) → i ≢ j → get_or (set xs i v) j d ≡ get_or xs j d
  get_or-set_ne [] i j v d h = refl
  get_or-set_ne (x ∷ xs) zero zero v d h = absurd (h refl)
  get_or-set_ne (x ∷ xs) zero (suc j) v d h = refl
  get_or-set_ne (x ∷ xs) (suc i) zero v d h = refl
  get_or-set_ne (x ∷ xs) (suc i) (suc j) v d h = get_or-set_ne xs i j v d (λ e. h (ap suc e))

  -- Storing at the end of the part filled so far extends that part.
  pub take-set :
      (xs : List A) (i : ℕ) (v : A)
      → i < length xs
      → take (suc i) (set xs i v) ≡ take i xs ++ (v ∷ [])
  take-set [] i v h = absurd (omega arith)
  take-set (x ∷ xs) zero v h = refl
  take-set (x ∷ xs) (suc i) v h = ap (λ t. x ∷ t) (take-set xs i v (omega arith))

  -- Storing past the part filled so far leaves that part.
  pub take-set_le : (xs : List A) (i j : ℕ) (v : A) → i ≤ j → take i (set xs j v) ≡ take i xs
  take-set_le xs zero j v h = refl
  take-set_le [] (suc i) j v h = refl
  take-set_le (x ∷ xs) (suc i) zero v h = absurd (omega arith)
  take-set_le (x ∷ xs) (suc i) (suc j) v h = ap (λ t. x ∷ t) (take-set_le xs i j v (omega arith))

  pub length-write_at :
      (xs : List A) (i : ℕ) (src : List A) → length (write_at xs i src) ≡ length xs
  length-write_at xs i [] = refl
  length-write_at xs i (b ∷ src) =
      omega (arith, length-write_at (set xs i b) (suc i) src, length-set xs i b)

  -- Copying to the end of the part filled so far extends that part.
  pub take-write_at :
      (xs : List A) (i : ℕ) (src : List A)
      → i + length src ≤ length xs
      → take (i + length src) (write_at xs i src) ≡ take i xs ++ src
  take-write_at xs i [] h = rw (add-zero, append-nil)
  take-write_at xs i (b ∷ src) h =
      let shift : i + suc (length src) ≡ suc i + length src = omega arith in
      let room : suc i + length src ≤ length (set xs i b) = omega (arith, length-set xs i b) in
      ap (λ n. take n (write_at (set xs i b) (suc i) src)) shift
      ∙ take-write_at (set xs i b) (suc i) src room
      ∙ ap (λ t. t ++ src) (take-set xs i b (omega arith))
      ∙ append_assoc (take i xs) (b ∷ []) src

  -- What is copied to the front of an array stands there.
  pub take-write_at_zero :
      (xs src : List A) → length src ≤ length xs → take (length src) (write_at xs 0 src) ≡ src
  take-write_at_zero xs src h =
      ap (λ n. take n (write_at xs 0 src)) (sym (zero-add (length src)))
      ∙ take-write_at xs 0 src (omega arith)

  pub get_elem?-set_self :
      (xs : List A) (i : ℕ) (v : A) → i < length xs → get_elem? (set xs i v) i ≡ some v
  get_elem?-set_self [] i v h = absurd (omega arith)
  get_elem?-set_self (x ∷ xs) zero v h = refl
  get_elem?-set_self (x ∷ xs) (suc i) v h = get_elem?-set_self xs i v (omega arith)

  pub get_or-drop :
      (n : ℕ) (xs : List A) (i : ℕ) (d : A) → get_or (drop n xs) i d ≡ get_or xs (n + i) d
  get_or-drop zero xs i d = ap (λ k. get_or xs k d) (sym (zero-add i))
  get_or-drop (suc n) [] i d = refl
  get_or-drop (suc n) (x ∷ xs) i d =
      get_or-drop n xs i d ∙ ap (λ k. get_or (x ∷ xs) k d) (suc_shift n i)
    where
      suc_shift : (a b : ℕ) → suc (a + b) ≡ suc a + b
      suc_shift a b = omega arith

  pub get_or-take :
      (n : ℕ) (xs : List A) (i : ℕ) (d : A) → i < n → get_or (take n xs) i d ≡ get_or xs i d
  get_or-take zero xs i d h = absurd (omega arith)
  get_or-take (suc n) [] i d h = refl
  get_or-take (suc n) (x ∷ xs) zero d h = refl
  get_or-take (suc n) (x ∷ xs) (suc i) d h = get_or-take n xs i d (omega arith)

  -- What a copy changes: the elements behind its start, as many as it has.
  pub get_or-write_at_before :
      (xs : List A) (i : ℕ) (src : List A) (j : ℕ) (d : A)
      → j < i
      → get_or (write_at xs i src) j d ≡ get_or xs j d
  get_or-write_at_before xs i [] j d h = refl
  get_or-write_at_before xs i (b ∷ src) j d h =
      get_or-write_at_before (set xs i b) (suc i) src j d (omega arith)
      ∙ get_or-set_ne xs i j b d (λ e. omega arith)

  pub get_or-write_at :
      (xs : List A) (i : ℕ) (src : List A) (j : ℕ) (d : A)
      → i + length src ≤ length xs
      → j < length src
      → get_or (write_at xs i src) (i + j) d ≡ get_or src j d
  get_or-write_at xs i [] j d h lt = absurd (omega arith)
  get_or-write_at xs i (b ∷ src) zero d h lt =
      ap (λ k. get_or (write_at (set xs i b) (suc i) src) k d) (add-zero i)
      ∙ get_or-write_at_before (set xs i b) (suc i) src i d (omega arith)
      ∙ get_or-set_self xs i b d (omega arith)
  get_or-write_at xs i (b ∷ src) (suc j) d h lt =
      let shift : i + suc j ≡ suc i + j = omega arith in
      let room : suc i + length src ≤ length (set xs i b) = omega (arith, length-set xs i b) in
      ap (λ k. get_or (write_at (set xs i b) (suc i) src) k d) shift
      ∙ get_or-write_at (set xs i b) (suc i) src j d room (omega arith)
