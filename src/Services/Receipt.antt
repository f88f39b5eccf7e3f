-- ===== src/Services/Receipt.antt =====
-- `sign_receipt` of app/domain/services.py: the quantity checks, the inventory and the signature.
pub mod Apart
pub mod Effects
pub mod Signed
pub mod Consistency
use black_soil_loop_server.Prelude.{
  ℕ, ◌+◌, String, str_eq, Bool, true, false, not, ◌&&◌, ◌||◌, Option, none, some, List, [], ◌∷◌,
  ◌++◌, ◌==◌, if◌then◌else◌, find, select, all, any, or_else,
}
use black_soil_loop_server.Models.{
  RowId, Role, TaskStatus, StopStatus, ReceiptStatus, is_delivered, is_signed, ReceiptLine, Payload,
  Scope, Body, Topic, ObjectType, User, TransportTask, TaskStop, EventAction, EventKey, AuditAction,
}
use black_soil_loop_server.Errors.{integrity_error, ErrorCode, error, version_conflict}
use black_soil_loop_server.Table.{put}
use black_soil_loop_server.Db.{Db, task_key, stop_key}
use black_soil_loop_server.Tx.{Tx, ⊤, ok, err, pure, raise, gets, raise_if, modify, ◌>>=◌, ◌>>◌}
use black_soil_loop_server.Env.{Env}
use black_soil_loop_server.Services.Idempotency.{once}
use black_soil_loop_server.Services.Journal.{add_outbox, add_audit}
use black_soil_loop_server.Services.Events.{add_task_event}
use black_soil_loop_server.Services.Qr.{verify_task_qr}
use black_soil_loop_server.Services.Quantities.{
  expected_by_product, received_by_product, declared_by_product, check_quantities,
}
use black_soil_loop_server.Services.Inventory.{receive_lines}

-- `role in {"store_manager", "third_space_manager", "park_admin"}`
abbrev pub may_sign : Role → Bool
may_sign Role.store_manager = true
may_sign Role.third_space_manager = true
may_sign Role.park_admin = true
may_sign _ = false

-- `status in {"DELIVERED", "STORE_SIGNED"}`
abbrev pub awaits_signature : TaskStatus → Bool
awaits_signature TaskStatus.delivered = true
awaits_signature TaskStatus.store_signed = true
awaits_signature _ = false

-- The stop of the store on the route of the task, if it is delivered and not yet signed.
unfoldable pub stop_of : RowId → RowId → Db → Option TaskStop
stop_of task_id store_id db = find (λ s. s.task_id == task_id && s.store_id == store_id) db.stops

abbrev pub delivered_stop : Option TaskStop → Tx TaskStop
delivered_stop none = raise (error ErrorCode.stop_not_delivered 409)
delivered_stop (some stop) = do
  raise_if (not (is_delivered stop.status)) (error ErrorCode.stop_not_delivered 409)
  pure stop

abbrev pub sign_stop : TaskStop → TaskStop
sign_stop s = record s { status = StopStatus.signed; object_version = s.object_version + 1 }

-- The count of the stops of the task that are not signed is 0.
unfoldable pub all_signed : RowId → Db → Bool
all_signed task_id db = all (λ s. is_signed s.status) (select (λ s. s.task_id == task_id) db.stops)

module _ (env : Env) where
  -- `db.add(receipt); db.flush()`, under the unique constraints of the table.
  unfoldable pub add_receipt :
      RowId → RowId → ReceiptStatus → List ReceiptLine → String → RowId → Tx RowId
  add_receipt task_id store_id receipt_status lines key actor db =
      if any (λ r. r.task_id == task_id && (r.store_id == store_id || str_eq r.idempotency_key key))
        db.receipts
      then err integrity_error
      else ok (
        db.next_id,
        record db {
          receipts =
              db.receipts
              ++ record {
                id = db.next_id;
                task_id = task_id;
                store_id = store_id;
                receipt_status = receipt_status;
                details = lines;
                idempotency_key = key;
                actor_user_id = actor;
                received_at = env.now;
              }
                ∷ [];
          next_id = db.next_id + 1;
        },
      )

  -- The second event, of a task whose last stop is signed.
  unfoldable pub complete_event : Bool → RowId → RowId → String → RowId → Tx ⊤
  complete_event false task_id actor key receipt_id = pure tt
  complete_event true task_id actor key receipt_id =
      add_task_event task_id TaskStatus.store_signed TaskStatus.completed EventAction.auto_complete
        actor (EventKey.complete key) (Body.receipt_ref receipt_id none) env.now

  -- The status of the task, its events and the response.
  unfoldable pub announce :
      TransportTask → User → RowId → ReceiptStatus → String → RowId → Bool → Tx Body
  announce task user store_id receipt_status key receipt_id signed = do
    let status = if signed then TaskStatus.completed else TaskStatus.store_signed
    let version = task.object_version + 1
    modify (λ db. record db {
      tasks = put (record task { status = status; object_version = version }) db.tasks;
    })
    add_task_event task.id task.status TaskStatus.store_signed (EventAction.receipt receipt_status)
        user.id (EventKey.state key) (Body.receipt_ref receipt_id (some store_id)) env.now
    complete_event signed task.id user.id key receipt_id
    let response = Body.receipt receipt_id task.id store_id receipt_status status version
    add_outbox env Topic.receipt_completed ObjectType.receipt receipt_id 1 response
    add_outbox env Topic.task_status_changed ObjectType.transport_task task.id version response
    add_audit env (some user.id) AuditAction.sign_receipt ObjectType.transport_task task.id
        (some (Body.task_state task.status task.object_version)) (some response)
    pure response

  -- From the accepted quantities to the response.
  unfoldable pub record_signature :
      TransportTask → User → RowId → TaskStop → ReceiptStatus → List ReceiptLine → String → Tx Body
  record_signature task user store_id stop receipt_status lines key = do
    receipt_id ← add_receipt task.id store_id receipt_status lines key user.id
    receive_lines env store_id receipt_id receipt_status key lines
    modify (λ db. record db { stops = put (sign_stop stop) db.stops })
    signed ← gets (all_signed task.id)
    announce task user store_id receipt_status key receipt_id signed

  unfoldable pub sign :
      TransportTask → User → ReceiptStatus → List ReceiptLine → String → ℕ → String → Tx Body
  sign task user receipt_status lines qr_token expected_version key = do
    raise_if (not (may_sign user.role)) (error ErrorCode.forbidden 403)
    raise_if (not (task.object_version == expected_version)) (version_conflict task.object_version)
    raise_if (not (awaits_signature task.status)) (error ErrorCode.invalid_transition 409)
    verify_task_qr env task (some qr_token)
    let store_id = or_else user.store_id task.store_id
    found ← gets (stop_of task.id store_id)
    stop ← delivered_stop found
    check_quantities receipt_status (expected_by_product stop.delivery_lines)
        (received_by_product lines) (declared_by_product lines)
    record_signature task user store_id stop receipt_status lines key

  unfoldable pub sign_receipt :
      TransportTask → User → ReceiptStatus → List ReceiptLine → String → ℕ → String → Tx Body
  sign_receipt task user receipt_status lines qr_token expected_version key =
      once env (Scope.receipt task.id (or_else user.store_id task.store_id)) key
        (Payload.receipt task.id receipt_status lines expected_version) 201
        (sign task user receipt_status lines qr_token expected_version key)
