-- ===== src/Services/Inventory/Ledger.antt =====
-- The stock of a store and its movements, beside the lines of a receipt.
use black_soil_loop_server.Prelude.{
  ℕ, ◌+◌, ◌<◌, ◌≡◌, refl, String, true, ◌&&◌, ◌||◌, some, none, List, [], ◌∷◌, ◌++◌, find, arith,
  inl, inr, Bool-cases, Option-cases, ◌==◌, if◌then◌else◌, leb, find-append_new, find-true,
}
use black_soil_loop_server.Models.{
  RowId, ReceiptStatus, ReceiptLine, InventoryBalance, InventoryMovement, EventKey,
}
use black_soil_loop_server.Table.{get, put}
use black_soil_loop_server.Table.Laws.{put-Unique}
use black_soil_loop_server.Db.{Db, balance_key}
use black_soil_loop_server.Tx.{ok, >>-eq-ok, Result-cases}
use black_soil_loop_server.Env.{Env}
use black_soil_loop_server.Services.Quantities.{is_rejected}
use black_soil_loop_server.Services.Inventory.{
  is_balance_of, find_or_create, balance_for, add_movement, receive_line, receive_or_skip,
  receive_lines,
}
use black_soil_loop_server.Services.Inventory.Stock.{
  stock, moved, Kept, stock-append, moved-append, get-find, get-fresh, given_id, all-later,
  Unique-append, all-snoc, grow, stock-put, all-put-grow,
}

-- The balance that a line is booked on: it stands in the table, is of the store and the product, and
-- finding it left the totals alone.
record Held (store_id product_id : RowId) (b : InventoryBalance) (db db' : Db) : Type 0 where
  stands : get b.id db'.balances ≡ some b
  is_of : is_balance_of store_id product_id b ≡ true
  kept : Kept db'
  given : b.id < db'.next_id
  totals : (s p : RowId) → stock s p db'.balances ≡ stock s p db.balances
  movements : db'.movements ≡ db.movements

balance_for-Held :
    (store_id product_id : RowId) (b : InventoryBalance) (db db' : Db)
    → Kept db
    → balance_for store_id product_id db ≡ ok (b, db')
    → Held store_id product_id b db db'
unfolding balance_for find_or_create stock
balance_for-Held store_id product_id b db db' (unique, below) h =
    elim (Option-cases (find (is_balance_of store_id product_id) db.balances)) [
      | inr (row, found) ↦
          let same : db' ≡ db = ground arith in
          let mine : b ≡ row = ground arith in
          let stands = get-find (is_balance_of store_id product_id) row db.balances unique found in
          rw (same, mine)
            (record {
              stands = stands;
              is_of = find-true (is_balance_of store_id product_id) db.balances row found;
              kept = (unique, below);
              given = given_id row db.next_id db.balances stands below;
              totals = λ s p. refl;
              movements = refl;
            })
      | inl none_yet ↦
          let id : b.id ≡ db.next_id = ground arith in
          let empty : b.quantity ≡ 0 = ground arith in
          let rows : db'.balances ≡ db.balances ++ b ∷ [] = ground arith in
          let later : db'.next_id ≡ db.next_id + 1 = ground arith in
          let new : get b.id db.balances ≡ none = rw id (get-fresh db.next_id db.balances below) in
          record {
            stands =
                ground (arith, rows, find-append_new (λ r. r.id == b.id) db.balances (b ∷ []) new);
            is_of = ground arith;
            kept = (
              rw rows (Unique-append b db.balances unique new),
              rw (rows, later)
                  (all-snoc (db.next_id + 1) b db.balances
                    (all-later db.next_id (db.next_id + 1) db.balances (omega arith) below)
                    (omega (arith, id))),
            );
            given = omega (arith, id, later);
            totals = λ s p. ground (arith, rows, empty, stock-append s p db.balances (b ∷ []));
            movements = ground arith;
          }
    ]

-- What a line adds to the totals of a store and a product.
abbrev pub credit : RowId → ReceiptStatus → RowId → RowId → ReceiptLine → ℕ
credit store_id status s p line =
    if is_rejected status
    then 0
    else (if store_id == s && line.product_id == p then line.received_quantity else 0)

record Booked (store_id : RowId) (line : ReceiptLine) (db db' : Db) : Type 0 where
  kept : Kept db'
  stocked :
      (s p : RowId)
      → stock s p db'.balances ≡ stock s p db.balances + credit store_id ReceiptStatus.full s p line
  booked :
      (s p : RowId)
      → moved s p db'.movements
        ≡ moved s p db.movements + credit store_id ReceiptStatus.full s p line

receive_line-Booked :
    (env : Env) (store_id receipt_id : RowId) (key : String) (line : ReceiptLine) (db db' : Db)
    → Kept db
    → receive_line env store_id receipt_id key line db ≡ ok (tt, db')
    → Booked store_id line db db'
unfolding receive_line add_movement moved
receive_line-Booked env store_id receipt_id key line db db' k h =
    elim (Result-cases (balance_for store_id line.product_id db)) [
      | inr (x, raised) ↦ absurd (ground arith)
      | inl (b, mid, found) ↦
          let held = balance_for-Held store_id line.product_id b db mid k found in
          let grown : db'.balances ≡ put (grow line.received_quantity b) mid.balances =
            ground arith in
          let later : db'.next_id ≡ mid.next_id + 1 = ground arith in
          let m : InventoryMovement = record {
            id = mid.next_id;
            store_id = store_id;
            product_id = line.product_id;
            quantity_delta = line.received_quantity;
            source_id = receipt_id;
            idempotency_key = EventKey.product key line.product_id;
            occurred_at = env.now;
          } in
          let written : db'.movements ≡ mid.movements ++ m ∷ [] = ground arith in
          record {
            kept = (
              rw grown (put-Unique (grow line.received_quantity b) mid.balances held.kept.0),
              rw (grown, later)
                  (all-put-grow (mid.next_id + 1) line.received_quantity b mid.balances
                    (omega (arith, held.given))
                    (all-later mid.next_id (mid.next_id + 1) mid.balances (omega arith)
                      held.kept.1)),
            );
            stocked = λ s p. ground (
              arith,
              grown,
              held.totals s p,
              held.is_of,
              stock-put s p line.received_quantity b mid.balances held.stands,
            );
            booked = λ s p.
                ground (arith, written, held.movements, moved-append s p mid.movements (m ∷ []));
          }
    ]

-- What the lines of a receipt add.
unfoldable pub credits : RowId → ReceiptStatus → RowId → RowId → List ReceiptLine → ℕ
credits store_id status s p [] = 0
credits store_id status s p (line ∷ lines) =
    credit store_id status s p line + credits store_id status s p lines

-- Booking the lines of a receipt adds to the stock of each product at the store what was received of
-- it, and to the movements the same; a rejected receipt adds nothing, and other stores and products
-- keep their totals. The keys of the balances stay unique.
pub receive_lines-credits :
    (env : Env) (store_id receipt_id : RowId) (status : ReceiptStatus) (key : String)
    (lines : List ReceiptLine) (db db' : Db)
    → Kept db
    → receive_lines env store_id receipt_id status key lines db ≡ ok (tt, db')
    → Kept db'
      × ((s p : RowId)
          → (stock s p db'.balances ≡ stock s p db.balances + credits store_id status s p lines)
            × (moved s p db'.movements
                ≡ moved s p db.movements + credits store_id status s p lines))
unfolding receive_lines receive_or_skip credits
receive_lines-credits env store_id receipt_id status key [] db db' k h =
    let same : db' ≡ db = ground arith in rw same (k, λ s p. (omega arith, omega arith))
receive_lines-credits env store_id receipt_id status key (line ∷ lines) db db' k h =
    let (mid, first, rest) =
      >>-eq-ok
        (receive_or_skip env (is_rejected status || leb line.received_quantity 0) store_id
          receipt_id key line)
        (receive_lines env store_id receipt_id status key lines) db h in
    elim (Bool-cases (is_rejected status || leb line.received_quantity 0)) [
      | inl skipped ↦
          let same : mid ≡ db = ground arith in
          let (k', more) =
            receive_lines-credits env store_id receipt_id status key lines db db' k
              (rw same at rest) in
          (k', λ s p. (ground (arith, more s p), ground (arith, more s p)))
      | inr counted ↦
          let b =
            receive_line-Booked env store_id receipt_id key line db mid k (rw counted at first) in
          let (k', more) =
            receive_lines-credits env store_id receipt_id status key lines mid db' b.kept rest in
          (
            k',
            λ s p.
                (ground (arith, more s p, b.stocked s p), ground (arith, more s p, b.booked s p)),
          )
    ]
