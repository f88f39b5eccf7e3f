-- ===== src/Table.antt =====
-- A table as the list of its rows, oldest first. A row is found and replaced by its primary key,
-- the field that an instance of `Keyed` names.
pub mod Laws
use black_soil_loop_server.Prelude.{
  ℕ, zero, suc, Bool, Option, List, [], ◌∷◌, ◌==◌, if◌then◌else◌, find, leb, suc,
}

pub record Keyed (A : Type 0) : Type 0 where
  pub key : A → ℕ

abbrev pub key_of : {A : Type 0} ⦃k : Keyed A⦄ → A → ℕ
key_of ⦃k⦄ = k.key

module _ {A : Type 0} ⦃k : Keyed A⦄ where
  -- `db.get(Model, id)`
  abbrev pub get : ℕ → List A → Option A
  get id rows = find (λ row. key_of row == id) rows

  -- The UPDATE of a changed object: its row is written over.
  abbrev pub put : A → List A → List A
  put row [] = []
  put row (x ∷ xs) = if key_of x == key_of row then row ∷ xs else x ∷ put row xs

-- `for row in select(...): change(row)`
abbrev pub update_where {ℓ} : {A : Type ℓ} → (A → Bool) → (A → A) → List A → List A
update_where p change [] = []
update_where p change (x ∷ xs) = (if p x then change x else x) ∷ update_where p change xs

-- `ORDER BY key`: insertion of each row behind those that are not greater.
module _ {A : Type 0} (by : A → ℕ) where
  unfoldable pub insert_by : A → List A → List A
  insert_by a [] = a ∷ []
  insert_by a (x ∷ xs) = if leb (by a) (by x) then a ∷ x ∷ xs else x ∷ insert_by a xs

  unfoldable pub order_by : List A → List A
  order_by [] = []
  order_by (x ∷ xs) = insert_by x (order_by xs)

-- `ORDER BY key DESC`
unfoldable pub insert_desc : {A : Type 0} → (A → ℕ) → A → List A → List A
insert_desc by a [] = a ∷ []
insert_desc by a (x ∷ xs) = if leb (by x) (by a) then a ∷ x ∷ xs else x ∷ insert_desc by a xs

unfoldable pub order_desc : {A : Type 0} → (A → ℕ) → List A → List A
order_desc by [] = []
order_desc by (x ∷ xs) = insert_desc by x (order_desc by xs)

-- `LIMIT n`
unfoldable pub limited : {A : Type 0} → ℕ → List A → List A
limited zero xs = []
limited (suc n) [] = []
limited (suc n) (x ∷ xs) = x ∷ limited n xs

-- `OFFSET n`
unfoldable pub dropped : {A : Type 0} → ℕ → List A → List A
dropped zero xs = xs
dropped (suc n) [] = []
dropped (suc n) (x ∷ xs) = dropped n xs
