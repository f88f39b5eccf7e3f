-- ===== src/Services/Quantities/Checked.antt =====
-- What the quantity checks of a receipt let through.
use black_soil_loop_server.Prelude.{
  ℕ, ◌≤◌, ◌≡◌, refl, true, false, not, some, [], ◌∷◌, arith, inl, inr, Option-cases, All, any, ◌==◌,
  ◌+◌, List, is_some, Bool-cases, ==_iff, ◌<◌, ◌⊎◌, ◌∙◌, sym,
}
use black_soil_loop_server.Models.{RowId, ReceiptStatus}
use black_soil_loop_server.Db.{Db}
use black_soil_loop_server.Tx.{ok, Result-cases}
use black_soil_loop_server.Services.Quantities.{
  Quantities, lookup, differs, same_keys, check_lines, has_difference, is_full, is_partial,
  is_rejected, check_quantities, covers,
}

-- A line of the stop against the receipt: it was received, no more of it than expected, and declared
-- as expected up to the tolerance of 1e-6.
abbrev pub IsLine : Quantities → Quantities → RowId × ℕ → Type 0
IsLine received declared (product_id, expected) =
    ((amount : ℕ) × (lookup product_id received ≡ some amount) × (amount ≤ expected))
    × ((quantity : ℕ) × (lookup product_id declared ≡ some quantity)
        × (quantity ≤ expected + 1000)
        × (expected ≤ quantity + 1000))

pub check_lines-IsLine :
    (expected received declared : Quantities) (db db' : Db)
    → check_lines expected received declared db ≡ ok (tt, db')
    → (db' ≡ db) × All (IsLine received declared) expected
unfolding check_lines
check_lines-IsLine [] received declared db db' h = (ground arith, tt)
check_lines-IsLine ((p, n) ∷ rest) received declared db db' h =
    elim (Option-cases (lookup p declared)) [
      | inl undeclared ↦ absurd (ground arith)
      | inr (quantity, has_quantity) ↦ elim (Option-cases (lookup p received)) [
        | inl unreceived ↦ absurd (ground arith)
        | inr (amount, has_amount) ↦
            let (same, lines) = check_lines-IsLine rest received declared db db' (ground arith) in
            (
              same,
              (
                (
                  (amount, has_amount, ground arith),
                  (quantity, has_quantity, ground arith, ground arith),
                ),
                lines,
              ),
            )
      ]
    ]

pub check_quantities-ok :
    (status : ReceiptStatus) (expected received declared : Quantities) (db db' : Db)
    → check_quantities status expected received declared db ≡ ok (tt, db')
    → (db' ≡ db)
      × (same_keys received expected ≡ true)
      × All (IsLine received declared) expected
      × (is_full status ≡ true → has_difference received expected ≡ false)
      × (is_partial status ≡ true → has_difference received expected ≡ true)
      × (is_rejected status ≡ true → any (λ e. not (e.1 == 0)) received ≡ false)
unfolding check_quantities
check_quantities-ok status expected received declared db db' h =
    elim (Result-cases (check_lines expected received declared db)) [
      | inr (x, raised) ↦ absurd (ground arith)
      | inl (u, mid, checked) ↦
          let (same, lines) = check_lines-IsLine expected received declared db mid checked in
          (
            ground (arith, same),
            ground arith,
            lines,
            λ full. ground arith,
            λ partial. ground arith,
            λ rejected. ground arith,
          )
    ]

-- A line that was received as expected up to the tolerance, and one of which less was received.
abbrev pub IsComplete : Quantities → RowId × ℕ → Type 0
IsComplete received (product_id, expected) =
    (amount : ℕ) × (lookup product_id received ≡ some amount) × (expected ≤ amount + 1000)

abbrev pub IsShort : Quantities → RowId × ℕ → Type 0
IsShort received (product_id, expected) =
    (amount : ℕ) × (lookup product_id received ≡ some amount) × (amount + 1000 < expected)

abbrev pub Exists : {A : Type 0} → (A → Type 0) → List A → Type 0
Exists p [] = ⊥
Exists p (x ∷ xs) = p x ⊎ Exists p xs

-- What the status of a receipt says of its quantities.
abbrev pub Agrees : ReceiptStatus → Quantities → Quantities → Type 0
Agrees ReceiptStatus.full expected received = All (IsComplete received) expected
Agrees ReceiptStatus.partial expected received = Exists (IsShort received) expected
Agrees ReceiptStatus.rejected expected received = All (λ e. e.1 ≡ 0) received

-- The conditions on the quantities of a receipt.
pub record Accepted (status : ReceiptStatus) (expected received declared : Quantities)
    : Type 0 where
  pub products : (p : RowId) → is_some (lookup p received) ≡ is_some (lookup p expected)
  pub lines : All (IsLine received declared) expected
  pub agrees : Agrees status expected received

covers-lookup :
    (a b : Quantities) (p : RowId)
    → covers a b ≡ true
    → is_some (lookup p a) ≡ true
    → is_some (lookup p b) ≡ true
covers-lookup [] b p h e = absurd (ground arith)
covers-lookup ((q, v) ∷ a) b p h e = elim (Bool-cases (q == p)) [
  | inl here ↦ let same : q ≡ p = (==_iff q p).0 here in rw (← same) (ground arith)
  | inr other ↦ covers-lookup a b p (ground arith) (ground (arith, other))
]

same_keys-lookup :
    (a b : Quantities) (p : RowId)
    → same_keys a b ≡ true
    → is_some (lookup p a) ≡ is_some (lookup p b)
same_keys-lookup a b p h = elim (Bool-cases (is_some (lookup p a))) [
  | inl here ↦ here ∙ sym (covers-lookup a b p (ground arith) here)
  | inr absent ↦ elim (Bool-cases (is_some (lookup p b))) [
    | inl there ↦ absurd (ground (arith, covers-lookup b a p (ground arith) there))
    | inr neither ↦ absent ∙ sym neither
  ]
]

has_difference-IsComplete :
    (received declared expected : Quantities)
    → All (IsLine received declared) expected
    → has_difference received expected ≡ false
    → All (IsComplete received) expected
has_difference-IsComplete received declared [] lines h = tt
has_difference-IsComplete received declared ((p, n) ∷ rest) (((amount, stored, le), q), lines) h = (
  (amount, stored, ground (arith, stored)),
  has_difference-IsComplete received declared rest lines (ground arith),
)

has_difference-IsShort :
    (received declared expected : Quantities)
    → All (IsLine received declared) expected
    → has_difference received expected ≡ true
    → Exists (IsShort received) expected
has_difference-IsShort received declared [] lines h = absurd (ground arith)
has_difference-IsShort received declared ((p, n) ∷ rest) (((amount, stored, le), q), lines) h =
    elim (Bool-cases (differs amount n)) [
      | inl differ ↦ inl (amount, stored, ground arith)
      | inr agree ↦
          inr (has_difference-IsShort received declared rest lines (ground (arith, stored, agree)))
    ]

all_zero : (d : Quantities) → any (λ e. not (e.1 == 0)) d ≡ false → All (λ e. e.1 ≡ 0) d
all_zero [] h = tt
all_zero ((p, n) ∷ rest) h = (ground (arith, ==_iff n 0), all_zero rest (ground arith))

status-Agrees :
    (status : ReceiptStatus) (expected received declared : Quantities)
    → All (IsLine received declared) expected
    → (is_full status ≡ true → has_difference received expected ≡ false)
    → (is_partial status ≡ true → has_difference received expected ≡ true)
    → (is_rejected status ≡ true → any (λ e. not (e.1 == 0)) received ≡ false)
    → Agrees status expected received
status-Agrees ReceiptStatus.full expected received declared lines full partial rejected =
    has_difference-IsComplete received declared expected lines (full refl)
status-Agrees ReceiptStatus.partial expected received declared lines full partial rejected =
    has_difference-IsShort received declared expected lines (partial refl)
status-Agrees ReceiptStatus.rejected expected received declared lines full partial rejected =
    all_zero received (rejected refl)

-- Quantities that pass change nothing in the database. The products received are exactly those expected; of each
-- no more was received than expected, and what was declared is within 1000 billionths of what was expected.
-- A full receipt received each product short by 1000 billionths at most, a partial one received less
-- than that of some product, and a rejected one received nothing.
pub check_quantities-Accepted :
    (status : ReceiptStatus) (expected received declared : Quantities) (db db' : Db)
    → check_quantities status expected received declared db ≡ ok (tt, db')
    → (db' ≡ db) × Accepted status expected received declared
check_quantities-Accepted status expected received declared db db' h =
    let (same, keys, lines, full, partial, rejected) =
      check_quantities-ok status expected received declared db db' h in
    (
      same,
      record {
        products = λ p. same_keys-lookup received expected p keys;
        lines = lines;
        agrees = status-Agrees status expected received declared lines full partial rejected;
      },
    )
