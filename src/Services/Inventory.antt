-- ===== src/Services/Inventory.antt =====
-- The loop of `sign_receipt` (app/domain/services.py) over the lines of a receipt: what was
-- received is added to the balance of the store, and each addition leaves a movement.
pub mod Stock
pub mod Ledger
use black_soil_loop_server.Prelude.{
  ℕ, ◌+◌, String, Bool, true, false, ◌&&◌, ◌||◌, Option, none, some, List, [], ◌∷◌, ◌++◌, ◌==◌, leb,
  if◌then◌else◌, find, any,
}
use black_soil_loop_server.Models.{RowId, ReceiptStatus, ReceiptLine, InventoryBalance, EventKey}
use black_soil_loop_server.Errors.{integrity_error}
use black_soil_loop_server.Table.{put}
use black_soil_loop_server.Db.{balance_key}
use black_soil_loop_server.Tx.{Tx, ⊤, ok, err, pure, modify, ◌>>=◌, ◌>>◌}
use black_soil_loop_server.Env.{Env}
use black_soil_loop_server.Services.Events.{event_key_eq}
use black_soil_loop_server.Services.Quantities.{is_rejected}

abbrev pub is_balance_of : RowId → RowId → InventoryBalance → Bool
is_balance_of store_id product_id b = b.store_id == store_id && b.product_id == product_id

-- The default threshold, 20, in billionths.
abbrev pub default_threshold : ℕ
default_threshold = 20_000_000_000

-- The balance of a product, which is created empty where there is none.
unfoldable pub find_or_create : RowId → RowId → Option InventoryBalance → Tx InventoryBalance
find_or_create store_id product_id (some balance) db = ok (balance, db)
find_or_create store_id product_id none db =
    let balance : InventoryBalance = record {
      id = db.next_id;
      store_id = store_id;
      product_id = product_id;
      quantity = 0;
      low_stock_threshold = default_threshold;
      object_version = 1;
    } in
    ok (balance, record db { balances = db.balances ++ balance ∷ []; next_id = db.next_id + 1 })

unfoldable pub balance_for : RowId → RowId → Tx InventoryBalance
balance_for store_id product_id db =
    find_or_create store_id product_id (find (is_balance_of store_id product_id) db.balances) db

module _ (env : Env) where
  -- Refused by "uq_b02_inventory_movements_idempotency" where the store has that key.
  unfoldable pub add_movement : RowId → RowId → ℕ → RowId → EventKey → Tx ⊤
  add_movement store_id product_id received source_id key db =
      if any (λ m. m.store_id == store_id && event_key_eq m.idempotency_key key) db.movements
      then err integrity_error
      else ok (
        tt,
        record db {
          movements =
              db.movements
              ++ record {
                id = db.next_id;
                store_id = store_id;
                product_id = product_id;
                quantity_delta = received;
                source_id = source_id;
                idempotency_key = key;
                occurred_at = env.now;
              }
                ∷ [];
          next_id = db.next_id + 1;
        },
      )

  unfoldable pub receive_line : RowId → RowId → String → ReceiptLine → Tx ⊤
  receive_line store_id receipt_id key line = do
    balance ← balance_for store_id line.product_id
    modify (λ db. record db {
      balances =
          put
            (record balance {
              quantity = balance.quantity + line.received_quantity;
              object_version = balance.object_version + 1;
            })
            db.balances;
    })
    add_movement store_id line.product_id line.received_quantity receipt_id
        (EventKey.product key line.product_id)

  -- The body of the loop, behind its `continue`.
  unfoldable pub receive_or_skip : Bool → RowId → RowId → String → ReceiptLine → Tx ⊤
  receive_or_skip true store_id receipt_id key line = pure tt
  receive_or_skip false store_id receipt_id key line = receive_line store_id receipt_id key line

  -- A rejected line, and a line of nothing, is skipped.
  unfoldable pub receive_lines : RowId → RowId → ReceiptStatus → String → List ReceiptLine → Tx ⊤
  receive_lines store_id receipt_id status key [] = pure tt
  receive_lines store_id receipt_id status key (line ∷ lines) = do
    receive_or_skip (is_rejected status || leb line.received_quantity 0) store_id receipt_id key
        line
    receive_lines store_id receipt_id status key lines
