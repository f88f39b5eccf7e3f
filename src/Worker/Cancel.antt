-- ===== src/Worker/Cancel.antt =====
-- `_cancel_execution_task` of app/worker.py.
use black_soil_loop_server.Prelude.{
  ◌+◌, String, Bool, true, false, Option, none, some, List, ◌==◌, if◌then◌else◌, any,
}
use black_soil_loop_server.Models.{
  RowId, TaskStatus, OrderStatus, PlanStatus, Topic, ObjectType, Actor, Body, TransportOrder,
  TransportPlan, TransportTask, EventAction, EventKey, OutboxEvent,
}
use black_soil_loop_server.Errors.{lookup_error}
use black_soil_loop_server.Table.{get, put, update_where}
use black_soil_loop_server.Db.{Db, plan_key, task_key}
use black_soil_loop_server.Tx.{Tx, ⊤, pure, or_raise, gets, modify, ◌>>=◌, ◌>>◌}
use black_soil_loop_server.Env.{Env}
use black_soil_loop_server.Services.Journal.{add_outbox}
use black_soil_loop_server.Services.Events.{add_task_event}

abbrev pub is_cancelled_plan : PlanStatus → Bool
is_cancelled_plan PlanStatus.cancelled = true
is_cancelled_plan _ = false

-- `status in {"CONFIRMED", "PUBLISHED", "DRIVER_ACCEPTED"}`
abbrev pub may_cancel : TaskStatus → Bool
may_cancel TaskStatus.confirmed = true
may_cancel TaskStatus.published = true
may_cancel TaskStatus.driver_accepted = true
may_cancel _ = false

-- `TransportOrder.id.in_(source_order_ids)`
abbrev pub is_one_of : List RowId → TransportOrder → Bool
is_one_of ids order = any (λ id. id == order.id) ids

abbrev pub with_status : OrderStatus → TransportOrder → TransportOrder
with_status status order = record order {
  status = status;
  object_version = order.object_version + 1;
}

-- `event.payload["reason"]` with the actor of the request.
pub record Cancellation : Type 0 where
  pub reason : String
  pub actor : Actor

abbrev pub cancellation_of : Body → Option Cancellation
cancellation_of (Body.cancellation_requested _ reason actor) =
    some (record { reason = reason; actor = actor })
cancellation_of _ = none

-- A plan whose task was never built.
unfoldable pub cancel_plan_alone : TransportPlan → Tx ⊤
cancel_plan_alone plan = modify (λ db. record db {
  plans =
      put
        (record plan {
          status = PlanStatus.cancelled;
          published_qr_token = none;
          object_version = plan.object_version + 1;
        })
        db.plans;
})

module _ (env : Env) where
  -- The task has gone too far.
  unfoldable pub reject_cancellation : TransportPlan → TransportTask → Tx ⊤
  reject_cancellation plan task = do
    let version = plan.object_version + 1
    modify (λ db. record db {
      plans =
          put
            (record plan {
              status = PlanStatus.cancellation_rejected;
              last_error = some task.status;
              object_version = version;
            })
            db.plans;
    })
    add_outbox env Topic.plan_cancellation_rejected ObjectType.transport_plan plan.id version
        (Body.cancellation_rejected plan.id task.id task.status)

  unfoldable pub cancel_task : TransportPlan → TransportTask → Body → Tx ⊤
  cancel_task plan task payload = do
    let version = task.object_version + 1
    modify (λ db. record db {
      tasks =
          put (record task { status = TaskStatus.cancelled; object_version = version }) db.tasks;
      plans =
          put
            (record plan {
              status = PlanStatus.cancelled;
              published_qr_token = none;
              object_version = plan.object_version + 1;
            })
            db.plans;
      orders =
          update_where (is_one_of task.source_order_ids) (with_status OrderStatus.cancelled)
            db.orders;
    })
    request ← or_raise (cancellation_of payload) lookup_error
    add_task_event task.id task.status TaskStatus.cancelled EventAction.cancel
        request.actor.actor_user_id (EventKey.request request.actor.idempotency_key)
        (Body.cancel_note request.reason task.status) env.now
    add_outbox env Topic.task_cancelled ObjectType.transport_task task.id version
        (Body.task_cancelled plan.id task.id task.status request.reason)

  unfoldable pub cancel_with : TransportPlan → Option TransportTask → Body → Tx ⊤
  cancel_with plan none payload = cancel_plan_alone plan
  cancel_with plan (some task) payload =
      if may_cancel task.status
      then cancel_task plan task payload
      else reject_cancellation plan task

  -- `db.get(TransportTask, plan.task_id) if plan.task_id else None`
  unfoldable pub task_of_plan : TransportPlan → Db → Option TransportTask
  task_of_plan plan db = elim plan.task_id [ none ↦ none | some task_id ↦ get task_id db.tasks ]

  unfoldable pub cancel_unless_done : Option TransportPlan → Body → Tx ⊤
  cancel_unless_done none payload = pure tt
  cancel_unless_done (some plan) payload =
      if is_cancelled_plan plan.status
      then pure tt
      else (do task ← gets (task_of_plan plan); cancel_with plan task payload)

  unfoldable pub cancel_execution_task : OutboxEvent → Tx ⊤
  cancel_execution_task event = do
    plan ← gets (λ db. get event.object_id db.plans)
    cancel_unless_done plan event.payload
