-- ===== src/Tests/Receipt.antt =====
-- Examples for a receipt: the last store of the route signs for less than was sent.
use black_soil_loop_server.Prelude.{◌+◌, ◌≡◌, refl, List, [], ◌∷◌, none, arith}
use black_soil_loop_server.Models.{
  TaskStatus, StopStatus, ReceiptStatus, ReceiptLine, Body, InventoryBalance, TransportTask,
}
use black_soil_loop_server.Table.Laws.{Unique}
use black_soil_loop_server.Db.{Db, task_key, stop_key, balance_key}
use black_soil_loop_server.Tx.{ok}
use black_soil_loop_server.Services.Transition.Consistency.{allows, IsConsistent}
use black_soil_loop_server.Services.Quantities.{
  expected_by_product, received_by_product, declared_by_product, check_quantities, assign_lines,
  check_lines, add_expected,
}
use black_soil_loop_server.Services.Quantities.Checked.{Accepted, check_quantities-Accepted}
use black_soil_loop_server.Services.Inventory.Stock.{stock, moved}
use black_soil_loop_server.Services.Inventory.Ledger.{credits}
use black_soil_loop_server.Services.Receipt.{
  sign, stop_of, record_signature, add_receipt, all_signed, announce, complete_event,
}
use black_soil_loop_server.Services.Receipt.Signed.{Signed, sign-Signed, sign-stock}
use black_soil_loop_server.Services.Receipt.Consistency.{sign-IsConsistent}
use black_soil_loop_server.Worker.Process.Receipts.{Published, sign-Published}
use black_soil_loop_server.Services.Events.{add_task_event}
use black_soil_loop_server.Tests.Data.{env, manager, task_in, stop_in, db_with, state_of}
use black_soil_loop_server.Services.Qr.{verify_task_qr, check_qr}
use black_soil_loop_server.Services.Inventory.{
  receive_lines, receive_or_skip, receive_line, balance_for, find_or_create, add_movement,
}
use black_soil_loop_server.Services.Events.{add_task_event}
use black_soil_loop_server.Services.Journal.{add_audit, add_outbox}

abbrev arrived : TransportTask
arrived = task_in TaskStatus.delivered

abbrev balance : InventoryBalance
balance = record {
  id = 50;
  store_id = 7;
  product_id = 40;
  quantity = 3;
  low_stock_threshold = 1;
  object_version = 1;
}

abbrev arrived_db : Db
arrived_db =
    record (db_with (arrived ∷ [])
      (stop_in 20 7 1 StopStatus.delivered ∷ stop_in 21 8 2 StopStatus.delivered ∷ [])) {
        balances = balance ∷ [];
      }

-- The tolerance is 1000: 9 and 5 count as equal, 5000 and 9 do not.
abbrev lines : List ReceiptLine
lines = record { product_id = 40; expected_quantity = 9; received_quantity = 5; note = none } ∷ []

abbrev body : Body
body = Body.receipt 100 10 7 ReceiptStatus.full TaskStatus.store_signed 4

abbrev signed_db : Db
signed_db =
    state_of arrived_db
      (sign env arrived manager ReceiptStatus.full lines "code" 3 "key" arrived_db)

signed :
    sign env arrived manager ReceiptStatus.full lines "code" 3 "key" arrived_db
    ≡ ok (body, signed_db)
unfolding sign verify_task_qr check_qr stop_of check_quantities received_by_product assign_lines
    expected_by_product add_expected check_lines declared_by_product record_signature add_receipt
    receive_lines receive_or_skip receive_line balance_for find_or_create add_task_event
    add_movement add_audit add_outbox all_signed announce complete_event
signed = refl

sign-Signed_example :
    Signed env arrived manager ReceiptStatus.full lines "code" 3 "key" arrived_db signed_db
sign-Signed_example =
    sign-Signed env arrived manager ReceiptStatus.full lines "code" 3 "key" body arrived_db
      signed_db signed

sign-Published_example : Published arrived arrived_db.outbox signed_db.outbox
sign-Published_example =
    sign-Published env arrived manager ReceiptStatus.full lines "code" 3 "key" body arrived_db
      signed_db signed

sign-stock_example :
    (stock 7 40 signed_db.balances
      ≡ stock 7 40 arrived_db.balances + credits 7 ReceiptStatus.full 7 40 lines)
    × (moved 7 40 signed_db.movements
        ≡ moved 7 40 arrived_db.movements + credits 7 ReceiptStatus.full 7 40 lines)
sign-stock_example =
    sign-stock env arrived manager ReceiptStatus.full lines "code" 3 "key" body arrived_db signed_db
      ((refl, tt), refl) signed 7 40

consistent : IsConsistent arrived_db
unfolding allows
consistent id task found = ground arith

sign-IsConsistent_example : Unique signed_db.stops × IsConsistent signed_db
sign-IsConsistent_example =
    sign-IsConsistent env arrived manager ReceiptStatus.full lines "code" 3 "key" body arrived_db
      signed_db (refl, (refl, tt)) refl consistent signed

check_quantities-Accepted_example :
    (arrived_db ≡ arrived_db)
    × Accepted ReceiptStatus.full
        ((40, 9) ∷ [])
        (received_by_product lines)
        (declared_by_product lines)
unfolding check_quantities received_by_product assign_lines check_lines declared_by_product
check_quantities-Accepted_example =
    check_quantities-Accepted ReceiptStatus.full ((40, 9) ∷ []) (received_by_product lines)
      (declared_by_product lines) arrived_db arrived_db refl
