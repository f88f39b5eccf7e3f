-- ===== src/Table/Laws.antt =====
-- Laws of the tables: look-up after a write, and Boolean invariants of the rows.
use black_soil_loop_server.Prelude.{
  length, ◌≤◌, ◌+◌, zero, suc, ℕ, ◌≡◌, ◌≢◌, refl, Bool, true, not, ◌&&◌, ◌||◌, none, some, List, [],
  ◌∷◌, ◌++◌, arith, ◌==◌, select, all, ◌∙◌, ap, ◌⊎◌, Bool-cases, inl, ==_iff, inr, sym,
}
use black_soil_loop_server.Table.{Keyed, key_of, get, put, insert_by, order_by, limited, dropped}

module _ {A : Type 0} ⦃k : Keyed A⦄ where
  -- No two rows have one key.
  abbrev pub Unique : List A → Type 0
  Unique [] = Unit
  Unique (x ∷ xs) = (get (key_of x) xs ≡ none) × Unique xs

  pub get-put_self :
      (row : A) (xs : List A) {old : A}
      → get (key_of row) xs ≡ some old
      → get (key_of row) (put row xs) ≡ some row
  get-put_self row [] h = ground arith
  get-put_self row (x ∷ xs) {old} h = ground (arith, get-put_self row xs {old = old})

  pub get-put_at :
      (row old : A) (id : ℕ) (xs : List A)
      → key_of row ≡ id
      → get id xs ≡ some old
      → get id (put row xs) ≡ some row
  get-put_at row old id xs same found =
      rw (← same) (get-put_self row xs {old = old} (rw same found))

  pub get-put_ne :
      (row : A) (id : ℕ) (xs : List A) → key_of row ≢ id → get id (put row xs) ≡ get id xs
  get-put_ne row id [] h = refl
  get-put_ne row id (x ∷ xs) h = ground (arith, get-put_ne row id xs h)

  pub get-append_last :
      (row : A) (rows : List A)
      → get (key_of row) rows ≡ none
      → get (key_of row) (rows ++ row ∷ []) ≡ some row
  get-append_last row [] h = ground arith
  get-append_last row (x ∷ rows) h = ground (arith, get-append_last row rows)

  pub put-Unique : (row : A) (xs : List A) → Unique xs → Unique (put row xs)
  put-Unique row [] h = tt
  put-Unique row (x ∷ xs) (new, h) =
      ground (arith, put-Unique row xs h, get-put_ne row (key_of x) xs)

  -- A property of the rows holds after a write of a row that has it.
  pub all-put :
      (p : A → Bool) (row : A) (xs : List A)
      → all p xs ≡ true
      → p row ≡ true
      → all p (put row xs) ≡ true
  all-put p row [] h r = refl
  all-put p row (x ∷ xs) h r = ground (arith, all-put p row xs)

  -- What holds after the write held before of all but the row written over.
  pub all_of_put :
      (p : A → Bool) (row : A) (xs : List A)
      → all p (put row xs) ≡ true
      → all (λ x. p x || key_of x == key_of row) xs ≡ true
  all_of_put p row [] h = refl
  all_of_put p row (x ∷ xs) h = ground (arith, all_of_put p row xs, all-weaken p row xs)
    where
      all-weaken :
          (q : A → Bool) (r : A) (ys : List A)
          → all q ys ≡ true
          → all (λ y. q y || key_of y == key_of r) ys ≡ true
      all-weaken q r [] g = refl
      all-weaken q r (y ∷ ys) g = ground (arith, all-weaken q r ys)

  all_of_absent :
      (p : A → Bool) (id : ℕ) (xs : List A)
      → get id xs ≡ none
      → all (λ x. p x || key_of x == id) xs ≡ true
      → all p xs ≡ true
  all_of_absent p id [] g h = refl
  all_of_absent p id (x ∷ xs) g h = ground (arith, all_of_absent p id xs)

  -- The converse, where keys are unique.
  pub all-put-Unique :
      (p : A → Bool) (row : A) (xs : List A)
      → Unique xs
      → all (λ x. p x || key_of x == key_of row) xs ≡ true
      → p row ≡ true
      → all p (put row xs) ≡ true
  all-put-Unique p row [] u h r = refl
  all-put-Unique p row (x ∷ xs) (new, u) h r =
      ground (arith, all-put-Unique p row xs u, all_of_absent p (key_of row) xs)

module _ {A : Type 0} (by : A → ℕ) (p : A → Bool) where
  all-insert_by : (a : A) (xs : List A) → all p (insert_by by a xs) ≡ (p a && all p xs)
  unfolding insert_by
  all-insert_by a [] = refl
  all-insert_by a (x ∷ xs) = ground (arith, all-insert_by a xs)

  pub all-order_by : (xs : List A) → all p (order_by by xs) ≡ all p xs
  unfolding order_by
  all-order_by [] = refl
  all-order_by (x ∷ xs) = all-insert_by x (order_by by xs) ∙ ap (λ b. p x && b) (all-order_by xs)

pub all-select {ℓ} :
    {A : Type ℓ} (p sel : A → Bool) (xs : List A)
    → all p (select sel xs) ≡ all (λ x. not (sel x) || p x) xs
all-select p sel [] = refl
all-select p sel (x ∷ xs) = ground (arith, all-select p sel xs)

-- A row that is found after a write is the row written, or it was there before.
pub put-cases :
    {A : Type 0} ⦃k : Keyed A⦄ (new : A) (id : ℕ) (xs : List A) (row old : A)
    → get (key_of new) xs ≡ some old
    → get id (put new xs) ≡ some row
    → ((key_of new ≡ id) × (row ≡ new)) ⊎ ((key_of new ≢ id) × (get id xs ≡ some row))
put-cases new id xs row old stored found = elim (Bool-cases (key_of new == id)) [
  | inl same ↦ inl ((==_iff _ _).0 same, ground (arith, get-put_self new xs stored))
  | inr other ↦
      (let ne : key_of new ≢ id = λ e. ground (arith, e) in
        inr (ne, sym (get-put_ne new id xs ne) ∙ found))
]

-- What LIMIT takes and what it leaves make up the rows.
pub limited-dropped : {A : Type 0} (n : ℕ) (rows : List A) → limited n rows ++ dropped n rows ≡ rows
unfolding limited dropped
limited-dropped zero rows = refl
limited-dropped (suc n) [] = refl
limited-dropped (suc n) (x ∷ rows) = ap (λ xs. x ∷ xs) (limited-dropped n rows)

pub length-dropped-le :
    {A : Type 0} (n m : ℕ) (rows : List A) → length rows ≤ n + m → length (dropped n rows) ≤ m
unfolding dropped
length-dropped-le zero m rows h = omega (arith, h)
length-dropped-le (suc n) m [] h = omega arith
length-dropped-le (suc n) m (x ∷ rows) h = length-dropped-le n m rows (omega (arith, h))

dropped-nil : {A : Type 0} (n : ℕ) → dropped {A = A} n [] ≡ []
unfolding dropped
dropped-nil zero = refl
dropped-nil (suc n) = refl

pub dropped-dropped :
    {A : Type 0} (n m : ℕ) (rows : List A) → dropped m (dropped n rows) ≡ dropped (n + m) rows
unfolding dropped
dropped-dropped zero m rows = let e : m ≡ 0 + m = omega arith in ap (λ k. dropped k rows) e
dropped-dropped (suc n) m [] = dropped-nil m ∙ sym (dropped-nil (suc n + m))
dropped-dropped (suc n) m (x ∷ rows) =
    let e : suc (n + m) ≡ suc n + m = omega arith in
    dropped-dropped n m rows ∙ ap (λ k. dropped k (x ∷ rows)) e
