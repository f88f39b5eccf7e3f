-- ===== src/Services/Inventory/Stock.antt =====
-- The totals of the balances and of the movements, and how a row that is added or grows changes them.
use black_soil_loop_server.Prelude.{
  ℕ, ◌+◌, ◌≤◌, ◌<◌, ◌≡◌, refl, Bool, true, ◌&&◌, some, none, List, [], ◌∷◌, ◌++◌, find, all, arith,
  ◌==◌, if◌then◌else◌, ltb, find-append_new,
}
use black_soil_loop_server.Models.{RowId, InventoryBalance, InventoryMovement}
use black_soil_loop_server.Table.{get, put}
use black_soil_loop_server.Table.Laws.{Unique}
use black_soil_loop_server.Db.{Db, balance_key}
use black_soil_loop_server.Services.Inventory.{is_balance_of}

-- What the balances of a product at a store add up to, and what its movements do.
unfoldable pub stock : RowId → RowId → List InventoryBalance → ℕ
stock store_id product_id [] = 0
stock store_id product_id (b ∷ rows) =
    let rest = stock store_id product_id rows in
    if is_balance_of store_id product_id b then b.quantity + rest else rest

abbrev pub is_movement_of : RowId → RowId → InventoryMovement → Bool
is_movement_of store_id product_id m = m.store_id == store_id && m.product_id == product_id

unfoldable pub moved : RowId → RowId → List InventoryMovement → ℕ
moved store_id product_id [] = 0
moved store_id product_id (m ∷ rows) =
    let rest = moved store_id product_id rows in
    if is_movement_of store_id product_id m then m.quantity_delta + rest else rest

-- The keys of the balances are unique and were all given out.
abbrev pub Kept : Db → Type 0
Kept db = Unique db.balances × (all (λ b. ltb b.id db.next_id) db.balances ≡ true)

pub stock-append :
    (s p : RowId) (xs ys : List InventoryBalance)
    → stock s p (xs ++ ys) ≡ stock s p xs + stock s p ys
unfolding stock
stock-append s p [] ys = omega arith
stock-append s p (x ∷ xs) ys = ground (arith, stock-append s p xs ys)

pub moved-append :
    (s p : RowId) (xs ys : List InventoryMovement)
    → moved s p (xs ++ ys) ≡ moved s p xs + moved s p ys
unfolding moved
moved-append s p [] ys = omega arith
moved-append s p (x ∷ xs) ys = ground (arith, moved-append s p xs ys)

pub get-find :
    (q : InventoryBalance → Bool) (b : InventoryBalance) (xs : List InventoryBalance)
    → Unique xs
    → find q xs ≡ some b
    → get b.id xs ≡ some b
get-find q b [] u h = absurd (ground arith)
get-find q b (x ∷ xs) (new, u) h = ground (arith, get-find q b xs u)

pub get-fresh :
    (n : ℕ) (xs : List InventoryBalance) → all (λ b. ltb b.id n) xs ≡ true → get n xs ≡ none
get-fresh n [] h = refl
get-fresh n (x ∷ xs) h = ground (arith, get-fresh n xs)

pub given_id :
    (b : InventoryBalance) (n : ℕ) (xs : List InventoryBalance)
    → get b.id xs ≡ some b
    → all (λ r. ltb r.id n) xs ≡ true
    → b.id < n
given_id b n [] h l = absurd (ground arith)
given_id b n (x ∷ xs) h l = ground (arith, given_id b n xs)

pub all-later :
    (n m : ℕ) (xs : List InventoryBalance)
    → n ≤ m
    → all (λ b. ltb b.id n) xs ≡ true
    → all (λ b. ltb b.id m) xs ≡ true
all-later n m [] le h = refl
all-later n m (x ∷ xs) le h = ground (arith, all-later n m xs le)

pub Unique-append :
    (b : InventoryBalance) (xs : List InventoryBalance)
    → Unique xs
    → get b.id xs ≡ none
    → Unique (xs ++ b ∷ [])
Unique-append b [] u h = (refl, tt)
Unique-append b (x ∷ xs) (new, u) h = (
  ground (arith, find-append_new (λ r. r.id == x.id) xs (b ∷ []) new),
  Unique-append b xs u (ground arith),
)

pub all-snoc :
    (n : ℕ) (b : InventoryBalance) (xs : List InventoryBalance)
    → all (λ b. ltb b.id n) xs ≡ true
    → b.id < n
    → all (λ b. ltb b.id n) (xs ++ b ∷ []) ≡ true
all-snoc n b [] h l = ground arith
all-snoc n b (x ∷ xs) h l = ground (arith, all-snoc n b xs)

-- A balance that grows where it stands.
abbrev pub grow : ℕ → InventoryBalance → InventoryBalance
grow n b = record b { quantity = b.quantity + n; object_version = b.object_version + 1 }

pub stock-put :
    (s p n : ℕ) (b : InventoryBalance) (xs : List InventoryBalance)
    → get b.id xs ≡ some b
    → stock s p (put (grow n b) xs) ≡ stock s p xs + (if is_balance_of s p b then n else 0)
unfolding stock
stock-put s p n b [] h = absurd (ground arith)
stock-put s p n b (x ∷ xs) h = ground (arith, stock-put s p n b xs)

pub all-put-grow :
    (m n : ℕ) (b : InventoryBalance) (xs : List InventoryBalance)
    → b.id < m
    → all (λ b. ltb b.id m) xs ≡ true
    → all (λ b. ltb b.id m) (put (grow n b) xs) ≡ true
all-put-grow m n b [] l h = refl
all-put-grow m n b (x ∷ xs) l h = ground (arith, all-put-grow m n b xs l)
