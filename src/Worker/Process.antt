-- ===== src/Worker/Process.antt =====
-- `_process_event` and `process_pending_once` of app/worker.py.
pub mod Outcome
pub mod Receipts
pub mod Dead
pub mod Settled
use black_soil_loop_server.Prelude.{
  ℕ, zero, suc, ◌+◌, Bool, true, false, ◌&&◌, Option, none, some, List, [], ◌∷◌, ◌++◌, ◌==◌, leb,
  if◌then◌else◌, find, select,
}
use black_soil_loop_server.Models.{
  RowId, TaskStatus, OrderStatus, EventStatus, is_pending, Topic, Body, TransportPlan,
  TransportTask, OutboxEvent,
}
use black_soil_loop_server.Errors.{runtime_error}
use black_soil_loop_server.Table.{get, put, update_where, order_by}
use black_soil_loop_server.Db.{Db, plan_key, task_key, event_key}
use black_soil_loop_server.Tx.{Tx, Result, ⊤, ok, err, pure, raise_if, gets, modify, ◌>>=◌, ◌>>◌}
use black_soil_loop_server.Env.{Env}
use black_soil_loop_server.Worker.Tasks.{create_execution_task, publish_execution_task}
use black_soil_loop_server.Worker.Cancel.{cancel_execution_task, is_one_of, with_status}

-- `event.payload.get("status")`, for the values that are compared: an answer of `sign_receipt` has
-- the keys "receipt_status" and "task_status", and no "status".
abbrev pub payload_status : Body → Option TaskStatus
payload_status (Body.task _ _ status _) = some status
payload_status (Body.plan_task _ _ _ status) = some status
payload_status _ = none

abbrev pub says_accepted : Option TaskStatus → Bool
says_accepted (some TaskStatus.driver_accepted) = true
says_accepted _ = false

abbrev pub says_completed : Option TaskStatus → Bool
says_completed (some TaskStatus.completed) = true
says_completed _ = false

-- `TransportPlan.task_id == object_id`
abbrev pub is_plan_of : RowId → TransportPlan → Bool
is_plan_of task_id plan = elim plan.task_id [ none ↦ false | some id ↦ id == task_id ]

unfoldable pub clear_qr : Bool → Option TransportPlan → Tx ⊤
clear_qr true (some plan) = modify (λ db. record db {
  plans =
      put (record plan { published_qr_token = none; object_version = plan.object_version + 1 })
        db.plans;
})
clear_qr _ _ = pure tt

unfoldable pub complete_orders : Bool → Option TransportTask → Tx ⊤
complete_orders true (some task) = modify (λ db. record db {
  orders =
      update_where (is_one_of task.source_order_ids) (with_status OrderStatus.completed) db.orders;
})
complete_orders _ _ = pure tt

unfoldable pub task_status_changed : OutboxEvent → Tx ⊤
task_status_changed event = do
  task ← gets (λ db. get event.object_id db.tasks)
  plan ← gets (λ db. find (is_plan_of event.object_id) db.plans)
  clear_qr (says_accepted (payload_status event.payload)) plan
  complete_orders (says_completed (payload_status event.payload)) task

-- Attempts at which an event is given up.
abbrev pub max_attempts : ℕ
max_attempts = 5

-- `refresh_raises` is the parameter for `refresh_dashboard_projection` (app/domain/dashboard.py),
-- which writes only the projection row: whether it raises.
module _ (env : Env) (refresh_raises : Db → Bool) where
  unfoldable pub handle_topic : Topic → OutboxEvent → Tx ⊤
  handle_topic Topic.plan_confirmed event = create_execution_task env event
  handle_topic Topic.plan_publish_requested event = publish_execution_task env event
  handle_topic Topic.plan_cancellation_requested event = cancel_execution_task env event
  handle_topic Topic.task_status_changed event = task_status_changed event
  handle_topic _ event = pure tt

  unfoldable pub process_event : OutboxEvent → Tx ⊤
  process_event event = handle_topic event.topic event

  -- The `try` block up to the commit.
  unfoldable pub attempt : OutboxEvent → Tx ⊤
  attempt event = do
    process_event event
    modify (λ db. record db {
      outbox =
          put (record event { status = EventStatus.published; attempts = event.attempts + 1 })
            db.outbox;
    })
    refresh ← gets refresh_raises
    raise_if refresh runtime_error

  -- The `except` block, after the rollback.
  unfoldable pub record_failure : OutboxEvent → Db → Db
  record_failure event db =
      let attempts = event.attempts + 1 in
      if leb max_attempts attempts
      then record db {
        outbox = put (record event { status = EventStatus.dead; attempts = attempts }) db.outbox;
        dead_letters =
            db.dead_letters
            ++ record {
              id = db.next_id;
              event_id = event.event_id;
              topic = event.topic;
              payload = event.payload;
              attempts = attempts;
            }
              ∷ [];
        next_id = db.next_id + 1;
      }
      else record db { outbox = put (record event { attempts = attempts }) db.outbox }

  -- The database after the attempt, and how many events it published.
  unfoldable pub settle : OutboxEvent → Db → Result (⊤ × Db) → Db × ℕ
  settle event db (ok (_, db')) = (db', 1)
  settle event db (err _) = (record_failure event db, 0)

  unfoldable pub process_found : Option OutboxEvent → Db → Db × ℕ
  process_found none db = (db, 0)
  process_found (some event) db =
      if is_pending event.status then settle event db (attempt event db) else (db, 0)

  unfoldable pub process_one : RowId → Db → Db × ℕ
  process_one event_id db = process_found (get event_id db.outbox) db

  unfoldable pub process_all : List RowId → Db → Db × ℕ
  process_all [] db = (db, 0)
  process_all (event_id ∷ ids) db =
      let (db', n) = process_one event_id db in let (db'', m) = process_all ids db' in (db'', n + m)

  -- `WHERE status = 'PENDING' AND available_at <= now ORDER BY sequence LIMIT limit`
  abbrev take_ids : ℕ → List OutboxEvent → List RowId
  take_ids zero events = []
  take_ids (suc n) [] = []
  take_ids (suc n) (e ∷ events) = e.event_id ∷ take_ids n events

  unfoldable pub pending_ids : ℕ → Db → List RowId
  pending_ids limit db = take_ids limit (
      order_by (λ e. e.sequence)
        (select (λ e. is_pending e.status && leb e.available_at env.now) db.outbox))

  unfoldable pub process_pending_once : ℕ → Db → Db × ℕ
  process_pending_once limit db = process_all (pending_ids limit db) db
