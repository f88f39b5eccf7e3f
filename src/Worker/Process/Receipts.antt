-- ===== src/Worker/Process/Receipts.antt =====
-- The events of a signature, as the worker handles them.
use black_soil_loop_server.Prelude.{
  true, false, ◌≡◌, refl, List, Bool, ◌++◌, String, ◌∷◌, Option-cases, arith, [], ℕ, find, false,
  if◌then◌else◌, ◌⊎◌, ◌+◌, inr, some, inl, ◌||◌, leb, ◌∙◌, Bool-cases, or_else,
}
use black_soil_loop_server.Services.Inventory.{
  receive_line, receive_lines, balance_for, receive_or_skip, find_or_create, add_movement,
  is_balance_of,
}
use black_soil_loop_server.Services.Events.{add_task_event}
use black_soil_loop_server.Services.Receipt.{
  complete_event, announce, record_signature, sign, add_receipt, sign_stop, stop_of, all_signed,
}
use black_soil_loop_server.Models.{
  OutboxEvent, TransportTask, RowId, ReceiptStatus, TaskStatus, User, EventAction, TaskStop,
  ReceiptLine, EventKey, Body, Instant, Topic, ObjectType,
}
use black_soil_loop_server.Worker.Process.{
  process_event, handle_topic, task_status_changed, clear_qr, complete_orders,
}
use black_soil_loop_server.Env.{Env}
use black_soil_loop_server.Services.Journal.{add_outbox, add_audit, outbox_row}
use black_soil_loop_server.Db.{task_key, stop_key, Db}
use black_soil_loop_server.Tx.{ok, >>-eq-ok, Result-cases}
use black_soil_loop_server.Services.Transition.Guards.{verify-cases}
use black_soil_loop_server.Services.Quantities.{
  is_rejected, check_quantities, expected_by_product, received_by_product, declared_by_product,
}
use black_soil_loop_server.Table.{put}
use black_soil_loop_server.Services.Quantities.Checked.{check_quantities-ok}

receive_line-outbox :
    (env : Env) (store_id receipt_id : RowId) (key : String) (line : ReceiptLine) (db db' : Db)
    → receive_line env store_id receipt_id key line db ≡ ok (tt, db')
    → db'.outbox ≡ db.outbox
unfolding receive_line balance_for find_or_create add_movement
receive_line-outbox env store_id receipt_id key line db db' h =
    elim (Option-cases (find (is_balance_of store_id line.product_id) db.balances)) [
      | inl new ↦ ground arith
      | inr (b, found) ↦ ground arith
    ]

receive_lines-outbox :
    (env : Env) (store_id receipt_id : RowId) (status : ReceiptStatus) (key : String)
    (lines : List ReceiptLine) (db db' : Db)
    → receive_lines env store_id receipt_id status key lines db ≡ ok (tt, db')
    → db'.outbox ≡ db.outbox
unfolding receive_lines receive_or_skip
receive_lines-outbox env store_id receipt_id status key [] db db' h = ground arith
receive_lines-outbox env store_id receipt_id status key (line ∷ lines) db db' h =
    let (mid, first, rest) =
      >>-eq-ok
        (receive_or_skip env (is_rejected status || leb line.received_quantity 0) store_id
          receipt_id key line)
        (receive_lines env store_id receipt_id status key lines) db h in
    let later = receive_lines-outbox env store_id receipt_id status key lines mid db' rest in
    elim (Bool-cases (is_rejected status || leb line.received_quantity 0)) [
      | inl skipped ↦ ground arith
      | inr counted ↦
          later ∙ receive_line-outbox env store_id receipt_id key line db mid (rw counted at first)
    ]

add_task_event-outbox :
    (task_id : RowId) (from_status to_status : TaskStatus) (action : EventAction) (actor : RowId)
    (key : EventKey) (payload : Body) (at : Instant) (db db' : Db)
    → add_task_event task_id from_status to_status action actor key payload at db ≡ ok (tt, db')
    → db'.outbox ≡ db.outbox
unfolding add_task_event
add_task_event-outbox task_id from_status to_status action actor key payload at db db' h =
    ground arith

complete_event-outbox :
    (env : Env) (signed : Bool) (task_id actor : RowId) (key : String) (receipt_id : RowId)
    (db db' : Db)
    → complete_event env signed task_id actor key receipt_id db ≡ ok (tt, db')
    → db'.outbox ≡ db.outbox
unfolding complete_event add_task_event
complete_event-outbox env false task_id actor key receipt_id db db' h = ground arith
complete_event-outbox env true task_id actor key receipt_id db db' h = ground arith

-- An event whose handling changes nothing, whatever the state.
abbrev pub Unheard : OutboxEvent → Type 0
Unheard event =
    (env : Env) (raises : Db → Bool) (db : Db) → process_event env raises event db ≡ ok (tt, db)

Unheard-receipt :
    (event : OutboxEvent) (receipt_id task_id store_id : RowId) (kind : ReceiptStatus)
    (status : TaskStatus) (version : ℕ)
    → event.payload ≡ Body.receipt receipt_id task_id store_id kind status version
    → (event.topic ≡ Topic.task_status_changed) ⊎ (event.topic ≡ Topic.receipt_completed)
    → Unheard event
unfolding process_event handle_topic task_status_changed clear_qr complete_orders
Unheard-receipt event receipt_id task_id store_id kind status version h (inl changed) env raises
      db =
    ground arith
Unheard-receipt event receipt_id task_id store_id kind status version h (inr completed) env raises
      db =
    ground arith

-- What a signature publishes.
pub record Published (task : TransportTask) (outbox outbox' : List OutboxEvent) : Type 0 where
  pub receipt : OutboxEvent
  pub change : OutboxEvent
  pub added : outbox' ≡ (outbox ++ receipt ∷ []) ++ change ∷ []
  pub topics :
      (receipt.topic ≡ Topic.receipt_completed) × (change.topic ≡ Topic.task_status_changed)
  pub of_task : change.object_id ≡ task.id
  pub receipt_unheard : Unheard receipt
  pub change_unheard : Unheard change

announce-Published :
    (env : Env) (task : TransportTask) (user : User) (store_id : RowId) (status : ReceiptStatus)
    (key : String) (rid : RowId) (signed : Bool) (body : Body) (db db' : Db)
    → announce env task user store_id status key rid signed db ≡ ok (body, db')
    → Published task db.outbox db'.outbox
unfolding announce add_outbox add_audit
announce-Published env task user store_id status key rid signed body db db' h =
    let to = if signed then TaskStatus.completed else TaskStatus.store_signed in
    let version = task.object_version + 1 in
    let mid : Db = record db {
      tasks = put (record task { status = to; object_version = version }) db.tasks;
    } in
    let (db₁, event, h₃) =
      >>-eq-ok
        (add_task_event task.id task.status TaskStatus.store_signed (EventAction.receipt status)
          user.id (EventKey.state key) (Body.receipt_ref rid (some store_id)) env.now)
        _ mid h in
    let (db₂, last, h₄) = >>-eq-ok (complete_event env signed task.id user.id key rid) _ db₁ h₃ in
    let response = Body.receipt rid task.id store_id status to version in
    let same : db₂.outbox ≡ db.outbox =
      complete_event-outbox env signed task.id user.id key rid db₁ db₂ last
      ∙ add_task_event-outbox task.id task.status TaskStatus.store_signed
          (EventAction.receipt status) user.id (EventKey.state key)
          (Body.receipt_ref rid (some store_id)) env.now mid db₁ event in
    let receipt =
      outbox_row env db₂.next_sequence db₂.next_id Topic.receipt_completed ObjectType.receipt rid 1
        response in
    let change =
      outbox_row env (db₂.next_sequence + 1) (db₂.next_id + 1) Topic.task_status_changed
        ObjectType.transport_task task.id version response in
    record {
      receipt = receipt;
      change = change;
      added = ground (arith, same);
      topics = (refl, refl);
      of_task = refl;
      receipt_unheard =
          Unheard-receipt receipt rid task.id store_id status to version refl (inr refl);
      change_unheard =
          Unheard-receipt change rid task.id store_id status to version refl (inl refl);
    }

record_signature-Published :
    (env : Env) (task : TransportTask) (user : User) (store_id : RowId) (stop : TaskStop)
    (status : ReceiptStatus) (lines : List ReceiptLine) (key : String) (body : Body) (db db' : Db)
    → record_signature env task user store_id stop status lines key db ≡ ok (body, db')
    → Published task db.outbox db'.outbox
unfolding record_signature add_receipt
record_signature-Published env task user store_id stop status lines key body db db' h =
    elim (Result-cases (add_receipt env task.id store_id status lines key user.id db)) [
      | inr (x, taken) ↦ absurd (ground arith)
      | inl (rid, start, received) ↦
          elim (Result-cases (receive_lines env store_id rid status key lines start)) [
            | inr (x, clash) ↦ absurd (ground arith)
            | inl (u, booked, done) ↦
                let left : Db = record booked { stops = put (sign_stop stop) booked.stops } in
                let same : booked.outbox ≡ db.outbox =
                  receive_lines-outbox env store_id rid status key lines start booked done
                  ∙ ground arith in
                rw (← same) (
                  announce-Published env task user store_id status key rid (all_signed task.id left)
                    body left db' (ground arith))
          ]
    ]

-- A signature that succeeds publishes two events, of the receipt and of the status of the task, and the worker's
-- handling of each of them, whenever it comes, succeeds and changes nothing: after a signature that completes the
-- task neither its plan nor its orders are touched by what it published.
pub sign-Published :
    (env : Env) (task : TransportTask) (user : User) (status : ReceiptStatus)
    (lines : List ReceiptLine) (qr_token : String) (version : ℕ) (key : String) (body : Body)
    (db db' : Db)
    → sign env task user status lines qr_token version key db ≡ ok (body, db')
    → Published task db.outbox db'.outbox
unfolding sign
sign-Published env task user status lines qr_token version key body db db' h =
    elim (verify-cases env task (some qr_token) db) [
      | inr (x, raised) ↦ absurd (ground arith)
      | inl (shows, verified) ↦
          elim (Option-cases (stop_of task.id (or_else user.store_id task.store_id) db)) [
            | inl missing ↦ absurd (ground arith)
            | inr (stop, at_store) ↦
                elim (Result-cases (
                  check_quantities status (expected_by_product stop.delivery_lines)
                    (received_by_product lines) (declared_by_product lines) db)) [
                      | inr (x, refused) ↦ absurd (ground arith)
                      | inl (u, mid, checked) ↦
                          let same = (check_quantities-ok status _ _ _ db mid checked).0 in
                          record_signature-Published env task user
                            (or_else user.store_id task.store_id) stop status lines key body db db'
                            (ground (arith, same))
                    ]
          ]
    ]
