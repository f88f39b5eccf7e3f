-- ===== src/Services/Receipt/Apart.antt =====
-- What the parts of a signature leave alone.
use black_soil_loop_server.Prelude.{
  ℕ, ◌+◌, String, ◌≡◌, Bool, true, false, ◌||◌, Option, List, [], ◌∷◌, arith, inl, inr, Bool-cases,
  Option-cases, leb, find, ◌∙◌,
}
use black_soil_loop_server.Models.{
  RowId, TaskStatus, ReceiptStatus, ReceiptLine, Body, EventAction, EventKey, Instant, Topic,
  ObjectType, AuditAction,
}
use black_soil_loop_server.Db.{Db, task_key, stop_key}
use black_soil_loop_server.Tx.{pure, ◌>>◌, ok, >>-eq-ok}
use black_soil_loop_server.Env.{Env}
use black_soil_loop_server.Services.Journal.{add_outbox, add_audit}
use black_soil_loop_server.Services.Events.{add_task_event}
use black_soil_loop_server.Services.Quantities.{is_rejected}
use black_soil_loop_server.Services.Inventory.{
  balance_for, find_or_create, add_movement, receive_line, receive_or_skip, receive_lines,
  is_balance_of,
}
use black_soil_loop_server.Services.Receipt.{add_receipt, complete_event}

-- The booking of lines leaves tasks and stops alone.
abbrev pub Apart : Db → Db → Type 0
Apart db db' = (db'.tasks ≡ db.tasks) × (db'.stops ≡ db.stops)

receive_line-Apart :
    (env : Env) (store_id receipt_id : RowId) (key : String) (line : ReceiptLine) (db db' : Db)
    → receive_line env store_id receipt_id key line db ≡ ok (tt, db')
    → Apart db db'
unfolding receive_line balance_for find_or_create add_movement
receive_line-Apart env store_id receipt_id key line db db' h =
    elim (Option-cases (find (is_balance_of store_id line.product_id) db.balances)) [
      | inl new ↦ (ground arith, ground arith)
      | inr (b, found) ↦ (ground arith, ground arith)
    ]

pub receive_lines-Apart :
    (env : Env) (store_id receipt_id : RowId) (status : ReceiptStatus) (key : String)
    (lines : List ReceiptLine) (db db' : Db)
    → receive_lines env store_id receipt_id status key lines db ≡ ok (tt, db')
    → Apart db db'
unfolding receive_lines receive_or_skip
receive_lines-Apart env store_id receipt_id status key [] db db' h = (ground arith, ground arith)
receive_lines-Apart env store_id receipt_id status key (line ∷ lines) db db' h =
    let (mid, first, rest) =
      >>-eq-ok
        (receive_or_skip env (is_rejected status || leb line.received_quantity 0) store_id
          receipt_id key line)
        (receive_lines env store_id receipt_id status key lines) db h in
    let (tasks, stops) =
      receive_lines-Apart env store_id receipt_id status key lines mid db' rest in
    elim (Bool-cases (is_rejected status || leb line.received_quantity 0)) [
      | inl skipped ↦ (ground arith, ground arith)
      | inr counted ↦
          let (t, s) =
            receive_line-Apart env store_id receipt_id key line db mid (rw counted at first) in
          (tasks ∙ t, stops ∙ s)
    ]

pub add_receipt-Apart :
    (env : Env) (task_id store_id : RowId) (status : ReceiptStatus) (lines : List ReceiptLine)
    (key : String) (actor : RowId) (id : RowId) (db db' : Db)
    → add_receipt env task_id store_id status lines key actor db ≡ ok (id, db')
    → Apart db db'
      × (db'.balances ≡ db.balances)
      × (db'.movements ≡ db.movements)
      × (db'.next_id ≡ db.next_id + 1)
unfolding add_receipt
add_receipt-Apart env task_id store_id status lines key actor id db db' h =
    ((ground arith, ground arith), ground arith, ground arith, ground arith)

pub add_task_event-Apart :
    (task_id : RowId) (from_status to_status : TaskStatus) (action : EventAction) (actor : RowId)
    (key : EventKey) (payload : Body) (at : Instant) (db db' : Db)
    → add_task_event task_id from_status to_status action actor key payload at db ≡ ok (tt, db')
    → Apart db db' × (db'.balances ≡ db.balances) × (db'.movements ≡ db.movements)
unfolding add_task_event
add_task_event-Apart task_id from_status to_status action actor key payload at db db' h =
    ((ground arith, ground arith), ground arith, ground arith)

pub complete_event-Apart :
    (env : Env) (signed : Bool) (task_id actor : RowId) (key : String) (receipt_id : RowId)
    (db db' : Db)
    → complete_event env signed task_id actor key receipt_id db ≡ ok (tt, db')
    → Apart db db' × (db'.balances ≡ db.balances) × (db'.movements ≡ db.movements)
unfolding complete_event add_task_event
complete_event-Apart env false task_id actor key receipt_id db db' h =
    ((ground arith, ground arith), ground arith, ground arith)
complete_event-Apart env true task_id actor key receipt_id db db' h =
    ((ground arith, ground arith), ground arith, ground arith)

pub closing-Apart :
    (env : Env) (t u : Topic) (o p q : ObjectType) (i j k : RowId) (v w : ℕ) (b c : Body)
    (actor : Option RowId) (action : AuditAction) (before after : Option Body) (r body : Body)
    (db db' : Db)
    → (add_outbox env t o i v b
          >> (add_outbox env u p j w c >> (add_audit env actor action q k before after >> pure r)))
        db
      ≡ ok (body, db')
    → Apart db db' × (db'.balances ≡ db.balances) × (db'.movements ≡ db.movements)
unfolding add_outbox add_audit
closing-Apart env t u o p q i j k v w b c actor action before after r body db db' h =
    ((ground arith, ground arith), ground arith, ground arith)
