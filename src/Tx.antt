-- ===== src/Tx.antt =====
-- A unit of work on a session: it returns a value and the database that `commit` would make
-- durable, or raises. A raise gives no database: what was written before it is rolled back when
-- the session closes (app/shared/database.py, `get_db`).
use black_soil_loop_server.Prelude.{
  ℕ, ◌+◌, ◌≡◌, refl, ap, ◌⊎◌, inl, inr, Bool, true, false, Option, none, some,
}
use native.Mathlib.Omega.{arith}
use black_soil_loop_server.Errors.{Raised}
use black_soil_loop_server.Db.{Db}

pub data Result (A : Type 0) : Type 0 where
  ok : A → Result A
  err : Raised → Result A

abbrev pub Tx : Type 0 → Type 0
Tx A = Db → Result (A × Db)

abbrev pub ⊤ : Type 0
⊤ = Unit

module _ {A : Type 0} where
  abbrev pub pure : A → Tx A
  pure a db = ok (a, db)

  abbrev pub raise : Raised → Tx A
  raise e db = err e

  abbrev pub gets : (Db → A) → Tx A
  gets f db = ok (f db, db)

  abbrev pub or_raise : Option A → Raised → Tx A
  or_raise none e db = err e
  or_raise (some a) e db = ok (a, db)

abbrev pub raise_if : Bool → Raised → Tx ⊤
raise_if true e db = err e
raise_if false e db = ok (tt, db)

abbrev pub modify : (Db → Db) → Tx ⊤
modify f db = ok (tt, f db)

infixl 5 ◌>>=◌ ◌>>◌
abbrev pub ◌>>=◌ : {A B : Type 0} → Tx A → (A → Tx B) → Tx B
◌>>=◌ m f db = elim (m db) [ ok (a, db') ↦ f a db' | err e ↦ err e ]

abbrev pub ◌>>◌ : {A B : Type 0} → Tx A → Tx B → Tx B
m >> k = m >>= λ _. k

-- The default of an id column.
abbrev pub new_id : Tx ℕ
new_id db = ok (db.next_id, record db { next_id = db.next_id + 1 })

-- Inversion of a successful bind.
pub >>=-eq-ok :
    {A B : Type 0} (m : Tx A) (f : A → Tx B) (db : Db) {r : B × Db}
    → (m >>= f) db ≡ ok r
    → (a : A) × (db' : Db) × (m db ≡ ok (a, db')) × (f a db' ≡ ok r)
>>=-eq-ok {A} {B} m f db {r} h = go (m db) refl h
  where
    go :
        (s : Result (A × Db))
        → m db ≡ s
        → (elim s [ ok (a, db') ↦ f a db' | err e ↦ err e ]) ≡ ok r
        → (a : A) × (db' : Db) × (m db ≡ ok (a, db')) × (f a db' ≡ ok r)
    go (ok (a, db')) e h = (a, db', e, h)
    go (err e') e h = cc

-- A bind whose first part is known to succeed, or to raise.
pub >>=-ok :
    {A B : Type 0} (m : Tx A) (f : A → Tx B) (db : Db) {a : A} {db' : Db}
    → m db ≡ ok (a, db')
    → (m >>= f) db ≡ f a db'
>>=-ok {A} {B} m f db e =
    ap
      (λ (r : Result (A × Db)).
        let s : Result (B × Db) = elim r [ ok (a, db') ↦ f a db' | err e ↦ err e ] in s)
      e

pub >>=-err :
    {A B : Type 0} (m : Tx A) (f : A → Tx B) (db : Db) {x : Raised}
    → m db ≡ err x
    → (m >>= f) db ≡ err x
>>=-err {A} {B} m f db e =
    ap
      (λ (r : Result (A × Db)).
        let s : Result (B × Db) = elim r [ ok (a, db') ↦ f a db' | err e ↦ err e ] in s)
      e

-- Inversion of a guard, of a look-up, and of a step that returns nothing.
pub raise_if-eq-ok :
    {A : Type 0} (b : Bool) (x : Raised) (k : Tx A) (db : Db) {r : A × Db}
    → (raise_if b x >> k) db ≡ ok r
    → (b ≡ false) × (k db ≡ ok r)
raise_if-eq-ok true x k db h = absurd (ground arith)
raise_if-eq-ok false x k db h = (refl, h)

pub or_raise-eq-ok :
    {A B : Type 0} (o : Option A) (x : Raised) (f : A → Tx B) (db : Db) {r : B × Db}
    → (or_raise o x >>= f) db ≡ ok r
    → (a : A) × (o ≡ some a) × (f a db ≡ ok r)
or_raise-eq-ok none x f db h = absurd (ground arith)
or_raise-eq-ok (some a) x f db h = (a, refl, h)

pub >>-eq-ok :
    {B : Type 0} (m : Tx ⊤) (k : Tx B) (db : Db) {r : B × Db}
    → (m >> k) db ≡ ok r
    → (db' : Db) × (m db ≡ ok (tt, db')) × (k db' ≡ ok r)
>>-eq-ok m k db h = let (u, db', p, q) = >>=-eq-ok m (λ _. k) db h in (db', p, q)

-- To split on how a call ended.
pub Result-cases :
    {A : Type 0} (r : Result (A × Db))
    → ((a : A) × (db : Db) × (r ≡ ok (a, db))) ⊎ ((x : Raised) × (r ≡ err x))
Result-cases (ok (a, db)) = inl (a, db, refl)
Result-cases (err x) = inr (x, refl)
