-- ===== src/Dashboard/Tally.antt =====
-- The `defaultdict`s of app/domain/dashboard.py: a list of keys with their sums, in order of arrival.
use black_soil_loop_server.Prelude.{
  ℕ, ◌+◌, ◌≡◌, ◌↔◌, Bool, true, List, [], ◌∷◌, if◌then◌else◌, arith, Bool-cases, inl, inr, ap,
}

-- `same` is the equality of keys.
pub record Key (K : Type 0) : Type 0 where
  pub same : K → K → Bool
  pub same_iff : (a b : K) → (same a b ≡ true) ↔ (a ≡ b)

-- What is summed: `+` and the value that a missing key starts from.
pub record Sum (V : Type 0) : Type 0 where
  pub plus : V → V → V
  pub start : V

abbrev pub Tally : Type 0 → Type 0 → Type 0
Tally K V = List (K × V)

module _ {K V : Type 0} (key : Key K) (sum : Sum V) where
  -- `tally[k] += v`
  unfoldable pub add_to : K → V → Tally K V → Tally K V
  add_to k v [] = (k, sum.plus sum.start v) ∷ []
  add_to k v ((k', w) ∷ rows) =
      if key.same k' k then (k', sum.plus w v) ∷ rows else (k', w) ∷ add_to k v rows

-- The sum of one measure over all keys, and at one key.
abbrev pub total : {K V : Type 0} → (V → ℕ) → Tally K V → ℕ
total f [] = 0
total f ((k, v) ∷ rows) = f v + total f rows

abbrev pub sum_at : {K V : Type 0} → Key K → (V → ℕ) → K → Tally K V → ℕ
sum_at key f k [] = 0
sum_at key f k ((k', v) ∷ rows) =
    let rest = sum_at key f k rows in if key.same k' k then f v + rest else rest

-- A measure that adds up.
pub record Adds {V : Type 0} (sum : Sum V) (f : V → ℕ) : Type 0 where
  pub adds : (a b : V) → f (sum.plus a b) ≡ f a + f b
  pub starts : f sum.start ≡ 0

module _ {K V : Type 0} (key : Key K) (sum : Sum V) (f : V → ℕ) (adds : Adds sum f) where
  pub total-add_to :
      (k : K) (v : V) (rows : Tally K V) → total f (add_to key sum k v rows) ≡ f v + total f rows
  unfolding add_to
  total-add_to k v [] = omega (arith, adds.adds sum.start v, adds.starts)
  total-add_to k v ((k', w) ∷ rows) = elim (Bool-cases (key.same k' k)) [
    | inl here ↦ rw here (omega (arith, adds.adds w v))
    | inr later ↦ rw later (omega (arith, total-add_to k v rows))
  ]

  pub sum_at-add_to :
      (q k : K) (v : V) (rows : Tally K V)
      → sum_at key f q (add_to key sum k v rows)
        ≡ (if key.same k q then f v else 0) + sum_at key f q rows
  unfolding add_to
  sum_at-add_to q k v [] = ground (arith, adds.adds sum.start v, adds.starts)
  sum_at-add_to q k v ((k', w) ∷ rows) = elim (Bool-cases (key.same k' k)) [
    | inl here ↦
        let e : key.same k' q ≡ key.same k q =
          ap (λ x. key.same x q) ((key.same_iff k' k).0 here) in
        rw here (ground (arith, e, adds.adds w v))
    | inr later ↦ rw later (ground (arith, sum_at-add_to q k v rows))
  ]
