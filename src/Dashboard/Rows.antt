-- ===== src/Dashboard/Rows.antt =====
-- Rows in the order of a column, and the first of them that pass a test.
use black_soil_loop_server.Prelude.{
  ℕ, zero, suc, ◌≡◌, refl, ◌∙◌, ap, ◌≤◌, Bool, true, ◌&&◌, some, List, [], ◌∷◌, leb, all, find,
  ◌||◌, not, arith, Bool-cases, inl, inr, ◌⊎◌, length, if◌then◌else◌, ◌<◌, none, select, ◌+◌,
}
use black_soil_loop_server.Table.{insert_desc, order_desc, limited}

module _ {A : Type 0} (by : A → ℕ) where
  -- Greatest first.
  abbrev pub Descending : List A → Type 0
  Descending [] = Unit
  Descending (x ∷ xs) = (all (λ y. leb (by y) (by x)) xs ≡ true) × Descending xs

  all-insert_desc :
      (p : A → Bool) (a : A) (xs : List A) → all p (insert_desc by a xs) ≡ (p a && all p xs)
  unfolding insert_desc
  all-insert_desc p a [] = refl
  all-insert_desc p a (x ∷ xs) = ground (arith, all-insert_desc p a xs)

  all-weaken :
      (a x : A) (xs : List A)
      → by x ≤ by a
      → all (λ y. leb (by y) (by x)) xs ≡ true
      → all (λ y. leb (by y) (by a)) xs ≡ true
  all-weaken a x [] h e = refl
  all-weaken a x (y ∷ ys) h e = ground (arith, all-weaken a x ys h)

  pub insert_desc-Descending :
      (a : A) (xs : List A) → Descending xs → Descending (insert_desc by a xs)
  unfolding insert_desc
  insert_desc-Descending a [] h = (refl, tt)
  insert_desc-Descending a (x ∷ xs) (e, h) = elim (Bool-cases (leb (by x) (by a))) [
    | inl before ↦ rw before (ground (arith, all-weaken a x xs (ground arith) e), (e, h))
    | inr after ↦ rw after (
      ground (arith, all-insert_desc (λ y. leb (by y) (by x)) a xs, e, after),
      insert_desc-Descending a xs h,
    )
  ]

  pub order_desc-Descending : (xs : List A) → Descending (order_desc by xs)
  unfolding order_desc
  order_desc-Descending [] = tt
  order_desc-Descending (x ∷ xs) =
      insert_desc-Descending x (order_desc by xs) (order_desc-Descending xs)

  all-implied :
      (p : A → Bool) (a x : A) (xs : List A)
      → by x ≤ by a
      → all (λ y. leb (by y) (by x)) xs ≡ true
      → all (λ y. not (p y) || leb (by y) (by a)) xs ≡ true
  all-implied p a x [] h e = refl
  all-implied p a x (y ∷ ys) h e = ground (arith, all-implied p a x ys h)

  -- The first row that passes is the greatest of those that pass, among the rows that are kept.
  pub find-limited :
      (p : A → Bool) (n : ℕ) (xs : List A) (a : A)
      → Descending xs
      → find p (limited n xs) ≡ some a
      → all (λ y. not (p y) || leb (by y) (by a)) xs ≡ true
  unfolding limited
  find-limited p zero xs a d h = absurd (ground arith)
  find-limited p (suc n) [] a d h = refl
  find-limited p (suc n) (x ∷ xs) a (e, d) h = elim (Bool-cases (p x)) [
    | inl passes ↦
        let same : x ≡ a = ground (arith, h, passes) in
        ground (arith, passes, ap by same, all-implied p a x xs (ground (arith, ap by same)) e)
    | inr fails ↦ ground (arith, fails, find-limited p n xs a d, h)
  ]

pub all-order_desc :
    {A : Type 0} (by : A → ℕ) (p : A → Bool) (xs : List A) → all p (order_desc by xs) ≡ all p xs
unfolding order_desc
all-order_desc by p [] = refl
all-order_desc by p (x ∷ xs) =
    ground (arith, all-insert_desc by p x (order_desc by xs), all-order_desc by p xs)

-- A row of a list.
abbrev pub Among : {A : Type 0} → A → List A → Type 0
Among a [] = ⊥
Among a (x ∷ xs) = (x ≡ a) ⊎ Among a xs

abbrev pub how_many : {A : Type 0} → (A → Bool) → List A → ℕ
how_many p xs = length (select p xs)

module _ {A : Type 0} (by : A → ℕ) (p : A → Bool) where
  pub all_of_Among : (xs : List A) → ((a : A) → Among a xs → p a ≡ true) → all p xs ≡ true
  all_of_Among [] h = refl
  all_of_Among (x ∷ xs) h =
      ground (arith, h x (inl refl), all_of_Among xs (λ a among. h a (inr among)))

  all-Among : (xs : List A) (a : A) → all p xs ≡ true → Among a xs → p a ≡ true
  all-Among [] a h among = absurd among
  all-Among (x ∷ xs) a h (inl e) = rw (← e) (ground arith)
  all-Among (x ∷ xs) a h (inr among) = all-Among xs a (ground arith) among

  Among-insert_desc : (a x : A) (xs : List A) → Among a (insert_desc by x xs) → (x ≡ a) ⊎ Among a xs
  unfolding insert_desc
  Among-insert_desc a x [] h = h
  Among-insert_desc a x (y ∷ ys) h = elim (Bool-cases (leb (by y) (by x))) [
    | inl before ↦ rw before at h
    | inr after ↦ elim (rw after at h) [
      | inl e ↦ inr (inl e)
      | inr later ↦ elim (Among-insert_desc a x ys later) [
        | inl e ↦ inl e
        | inr among ↦ inr (inr among)
      ]
    ]
  ]

  pub Among-order_desc : (a : A) (xs : List A) → Among a (order_desc by xs) → Among a xs
  unfolding order_desc
  Among-order_desc a [] h = h
  Among-order_desc a (x ∷ xs) h = elim (Among-insert_desc a x (order_desc by xs) h) [
    | inl e ↦ inl e
    | inr among ↦ inr (Among-order_desc a xs among)
  ]

  pub Among-find : (n : ℕ) (xs : List A) (a : A) → find p (limited n xs) ≡ some a → Among a xs
  unfolding limited
  Among-find zero xs a h = absurd (ground arith)
  Among-find (suc n) [] a h = absurd (ground arith)
  Among-find (suc n) (x ∷ xs) a h = elim (Bool-cases (p x)) [
    | inl passes ↦ inl (ground (arith, passes))
    | inr fails ↦ inr (Among-find n xs a (ground (arith, fails)))
  ]

  how_many-insert_desc :
      (x : A) (xs : List A)
      → how_many p (insert_desc by x xs) ≡ (if p x then 1 else 0) + how_many p xs
  unfolding insert_desc
  how_many-insert_desc x [] = ground arith
  how_many-insert_desc x (y ∷ ys) = ground (arith, how_many-insert_desc x ys)

  pub how_many-order_desc : (xs : List A) → how_many p (order_desc by xs) ≡ how_many p xs
  unfolding order_desc
  how_many-order_desc [] = refl
  how_many-order_desc (x ∷ xs) =
      ground (arith, how_many-insert_desc x (order_desc by xs), how_many-order_desc xs)

  how_many-Among : (xs : List A) (a : A) → Among a xs → p a ≡ true → 0 < how_many p xs
  how_many-Among [] a h e = absurd h
  how_many-Among (x ∷ xs) a (inl same) e =
      let here : p x ≡ true = ap p same ∙ e in ground (arith, here)
  how_many-Among (x ∷ xs) a (inr among) e = ground (arith, how_many-Among xs a among)

-- Greatest first: a row that passes, where none of the first `n` does, has more than `n` beside it that
-- are as great.
pub outranked :
    {A : Type 0} (by : A → ℕ) (p : A → Bool) (n : ℕ) (xs : List A) (a : A)
    → Descending by xs
    → find p (limited n xs) ≡ none
    → Among a xs
    → p a ≡ true
    → n < how_many (λ y. leb (by a) (by y)) xs
unfolding limited
outranked by p zero xs a d h among e =
    how_many-Among by (λ y. leb (by a) (by y)) xs a among (ground arith)
outranked by p (suc n) [] a d h among e = absurd among
outranked by p (suc n) (x ∷ xs) a (least, d) h (inl same) e =
    let passes : p x ≡ true = ap p same ∙ e in absurd (ground (arith, passes))
outranked by p (suc n) (x ∷ xs) a (least, d) h (inr among) e =
    let below : leb (by a) (by x) ≡ true = all-Among by (λ y. leb (by y) (by x)) xs a least among in
    ground (arith, below, outranked by p n xs a d)
