-- ===== src/Services/Receipt/Signed.antt =====
-- A signature that succeeds: its checks, its effects and the stock of the store.
use black_soil_loop_server.Prelude.{
  ℕ, ◌+◌, String, ◌≡◌, true, some, List, arith, inl, inr, Option-cases, or_else,
}
use black_soil_loop_server.Models.{
  RowId, ReceiptStatus, ReceiptLine, Body, User, TransportTask, TaskStop, is_delivered,
}
use black_soil_loop_server.Db.{Db}
use black_soil_loop_server.Tx.{ok, Result-cases}
use black_soil_loop_server.Env.{Env}
use black_soil_loop_server.Services.Quantities.{
  expected_by_product, received_by_product, declared_by_product, check_quantities,
}
use black_soil_loop_server.Services.Quantities.Checked.{check_quantities-ok}
use black_soil_loop_server.Services.Inventory.Stock.{Kept, stock, moved, all-later}
use black_soil_loop_server.Services.Inventory.Ledger.{credits, receive_lines-credits}
use black_soil_loop_server.Services.Receipt.{may_sign, awaits_signature, stop_of, sign}
use black_soil_loop_server.Services.Receipt.Effects.{Recorded, record_signature-Recorded}
use black_soil_loop_server.Services.Transition.Guards.{ShowsCode, verify-cases}

-- The parts of a signature that succeeded.
pub record Signed (env : Env) (task : TransportTask) (user : User) (status : ReceiptStatus)
    (lines : List ReceiptLine) (qr_token : String) (version : ℕ) (key : String) (db db' : Db)
    : Type 0 where
  pub stop : TaskStop
  pub allowed : may_sign user.role ≡ true
  pub current : task.object_version ≡ version
  pub awaited : awaits_signature task.status ≡ true
  pub code : ShowsCode env task (some qr_token)
  pub at_store : stop_of task.id (or_else user.store_id task.store_id) db ≡ some stop
  pub was_delivered : is_delivered stop.status ≡ true
  pub checked :
      check_quantities status
        (expected_by_product stop.delivery_lines)
        (received_by_product lines)
        (declared_by_product lines)
        db
      ≡ ok (tt, db)
  pub recorded :
      Recorded env task (or_else user.store_id task.store_id) stop status lines key db db'

-- A signature that succeeds was made by a role that may sign, on the version that the task has, for a
-- task that awaits it, with the task's code in time, for the delivered stop of the user's store and
-- quantities that pass the checks; it signs that stop, sets the task to completed where no stop of it
-- is left unsigned and else to signed by a store, and books the lines of the receipt.
pub sign-Signed :
    (env : Env) (task : TransportTask) (user : User) (status : ReceiptStatus)
    (lines : List ReceiptLine) (qr_token : String) (version : ℕ) (key : String) (body : Body)
    (db db' : Db)
    → sign env task user status lines qr_token version key db ≡ ok (body, db')
    → Signed env task user status lines qr_token version key db db'
unfolding sign
sign-Signed env task user status lines qr_token version key body db db' h =
    elim (verify-cases env task (some qr_token) db) [
      | inr (x, raised) ↦ absurd (ground arith)
      | inl (shows, verified) ↦
          elim (Option-cases (stop_of task.id (or_else user.store_id task.store_id) db)) [
            | inl missing ↦ absurd (ground arith)
            | inr (stop, at_store) ↦
                elim (Result-cases (
                  check_quantities status (expected_by_product stop.delivery_lines)
                    (received_by_product lines) (declared_by_product lines) db)) [
                      | inr (x, refused) ↦ absurd (ground arith)
                      | inl (u, mid, checked) ↦
                          let same = (check_quantities-ok status _ _ _ db mid checked).0 in
                          record {
                            stop = stop;
                            allowed = ground arith;
                            current = ground arith;
                            awaited = ground arith;
                            code = shows;
                            at_store = at_store;
                            was_delivered = ground arith;
                            checked = rw same at checked;
                            recorded =
                                record_signature-Recorded env task user
                                  (or_else user.store_id task.store_id) stop status lines key body
                                  db db' (ground (arith, same));
                          }
                    ]
          ]
    ]

-- Where the keys of the balances are unique and were all given out, a signature that succeeds
-- adds to the stock of each product at the store of the receipt what the lines received of it,
-- and nothing where the receipt is a rejection; the movements of stock grow by the same, and
-- other stores and products keep both.
pub sign-stock :
    (env : Env) (task : TransportTask) (user : User) (status : ReceiptStatus)
    (lines : List ReceiptLine) (qr_token : String) (version : ℕ) (key : String) (body : Body)
    (db db' : Db)
    → Kept db
    → sign env task user status lines qr_token version key db ≡ ok (body, db')
    → (s p : RowId)
    → (stock s p db'.balances
        ≡ stock s p db.balances + credits (or_else user.store_id task.store_id) status s p lines)
      × (moved s p db'.movements
          ≡ moved s p db.movements + credits (or_else user.store_id task.store_id) status s p lines)
sign-stock env task user status lines qr_token version key body db db' k h s p =
    let b =
      (sign-Signed env task user status lines qr_token version key body db db'
        h).recorded.booking in
    let kept : Kept b.start =
      rw (b.balances, b.next_id)
        (k.0, all-later db.next_id (db.next_id + 1) db.balances (omega arith) k.1) in
    let (_, total) =
      receive_lines-credits env (or_else user.store_id task.store_id) b.receipt_id status key lines
        b.start b.booked kept b.lines_booked in
    (
      ground (arith, (total s p).0, b.balances, b.balances_after),
      ground (arith, (total s p).1, b.movements, b.movements_after),
    )
