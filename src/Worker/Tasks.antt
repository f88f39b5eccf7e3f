-- ===== src/Worker/Tasks.antt =====
-- `_create_execution_task` and `_publish_execution_task` of app/worker.py.
pub mod Redelivery
use black_soil_loop_server.Prelude.{
  ℕ, suc, ◌+◌, String, Bool, true, false, not, ◌&&◌, ◌||◌, Option, none, some, List, [], ◌∷◌, ◌++◌,
  ◌==◌, str_eq, if◌then◌else◌, any, is_some,
}
use black_soil_loop_server.Models.{
  RowId, TaskStatus, StopStatus, PlanStatus, Topic, ObjectType, Candidate, CandidateStop, Actor,
  Body, TransportPlan, TransportTask, EventAction, EventKey, OutboxEvent,
}
use black_soil_loop_server.Errors.{integrity_error, runtime_error, lookup_error}
use black_soil_loop_server.Table.{get, put}
use black_soil_loop_server.Db.{plan_key, task_key}
use black_soil_loop_server.Tx.{Tx, ⊤, ok, err, pure, raise_if, or_raise, gets, modify, ◌>>=◌, ◌>>◌}
use black_soil_loop_server.Env.{Env}
use black_soil_loop_server.Text.{replace_first}
use black_soil_loop_server.Services.Journal.{add_outbox}
use black_soil_loop_server.Services.Events.{add_task_event}
use black_soil_loop_server.Services.Qr.{create_task_qr}

abbrev pub is_published_plan : PlanStatus → Bool
is_published_plan PlanStatus.published = true
is_published_plan _ = false

abbrev pub is_confirmed_task : TaskStatus → Bool
is_confirmed_task TaskStatus.confirmed = true
is_confirmed_task _ = false

-- `candidate["stops"][0]["store_id"]`
abbrev pub first_store : List CandidateStop → Option RowId
first_store [] = none
first_store (stop ∷ _) = some stop.store_id

-- `event.payload["candidate"]`
abbrev pub candidate_of : Body → Option Candidate
candidate_of (Body.plan_confirmed _ _ candidate _) = some candidate
candidate_of _ = none

-- `event.payload["actor_user_id"]` and `["idempotency_key"]`
abbrev pub publisher_of : Body → Option Actor
publisher_of (Body.publish_requested _ actor) = some actor
publisher_of _ = none

-- The new task, refused where its number is taken.
unfoldable pub add_task : String → RowId → Candidate → Tx TransportTask
add_task task_no store_id candidate db =
    let task : TransportTask = record {
      id = db.next_id;
      task_no = task_no;
      source_order_ids = candidate.order_ids;
      vehicle_id = candidate.vehicle_id;
      driver_id = candidate.driver_id;
      store_id = store_id;
      status = TaskStatus.confirmed;
      temperature_zone = candidate.temperature_zone;
      total_weight_kg = candidate.total_weight_kg;
      total_volume_m3 = candidate.total_volume_m3;
      origin_latitude = candidate.origin_latitude;
      origin_longitude = candidate.origin_longitude;
      destination_latitude = candidate.destination_latitude;
      destination_longitude = candidate.destination_longitude;
      planned_departure_at = candidate.planned_departure_at;
      qr_token_hash = none;
      qr_expires_at = none;
      object_version = 1;
    } in
    if any (λ t. str_eq t.task_no task_no) db.tasks
    then err integrity_error
    else ok (task, record db { tasks = db.tasks ++ task ∷ []; next_id = db.next_id + 1 })

-- One stop of the route, refused where the task has the number or the store already.
unfoldable pub add_stop : RowId → ℕ → CandidateStop → Tx ⊤
add_stop task_id sequence stop db =
    if any (λ s. s.task_id == task_id && (s.sequence_no == sequence || s.store_id == stop.store_id))
      db.stops
    then err integrity_error
    else ok (
      tt,
      record db {
        stops =
            db.stops
            ++ record {
              id = db.next_id;
              task_id = task_id;
              store_id = stop.store_id;
              sequence_no = sequence;
              latitude = stop.latitude;
              longitude = stop.longitude;
              status = StopStatus.planned;
              delivery_lines = stop.delivery_lines;
              object_version = 1;
            }
              ∷ [];
        next_id = db.next_id + 1;
      },
    )

-- `for sequence, stop in enumerate(stops, 1)`
unfoldable pub add_stops : RowId → ℕ → List CandidateStop → Tx ⊤
add_stops task_id sequence [] = pure tt
add_stops task_id sequence (stop ∷ stops) = do
  add_stop task_id sequence stop
  add_stops task_id (suc sequence) stops

module _ (env : Env) where
  unfoldable pub build_task : TransportPlan → Body → Tx ⊤
  build_task plan payload = do
    candidate ← or_raise (candidate_of payload) lookup_error
    store_id ← or_raise (first_store candidate.stops) lookup_error
    task ← add_task (replace_first "PLAN-" "BSL-" plan.plan_no) store_id candidate
    add_stops task.id 1 candidate.stops
    modify (λ db. record db {
      plans =
          put
            (record plan {
              task_id = some task.id;
              status = PlanStatus.ready;
              object_version = plan.object_version + 1;
            })
            db.plans;
    })
    add_outbox env Topic.task_confirmed ObjectType.transport_task task.id task.object_version
        (Body.plan_task plan.id task.id task.task_no task.status)

  unfoldable pub create_unless_built : Option TransportPlan → Body → Tx ⊤
  create_unless_built none payload = pure tt
  create_unless_built (some plan) payload =
      if is_some plan.task_id then pure tt else build_task plan payload

  unfoldable pub create_execution_task : OutboxEvent → Tx ⊤
  create_execution_task event = do
    plan ← gets (λ db. get event.object_id db.plans)
    create_unless_built plan event.payload

  unfoldable pub publish_task : TransportPlan → TransportTask → Body → Tx ⊤
  publish_task plan task payload = do
    raise_if (not (is_confirmed_task task.status)) runtime_error
    let (coded, raw_qr) = create_task_qr env task
    let version = task.object_version + 1
    modify (λ db. record db {
      tasks =
          put (record coded { status = TaskStatus.published; object_version = version }) db.tasks;
      plans =
          put
            (record plan {
              status = PlanStatus.published;
              published_qr_token = some raw_qr;
              qr_expires_at = coded.qr_expires_at;
              object_version = plan.object_version + 1;
            })
            db.plans;
    })
    actor ← or_raise (publisher_of payload) lookup_error
    add_task_event task.id TaskStatus.confirmed TaskStatus.published EventAction.publish
        actor.actor_user_id (EventKey.request actor.idempotency_key) (Body.plan_ref plan.id) env.now
    add_outbox env Topic.task_published ObjectType.transport_task task.id version
        (Body.plan_task plan.id task.id task.task_no TaskStatus.published)

  -- `db.get(TransportTask, plan.task_id)`, which is None for a plan with no task.
  unfoldable pub publish_unless_done : Option TransportPlan → Body → Tx ⊤
  publish_unless_done none payload = pure tt
  publish_unless_done (some plan) payload = if is_published_plan plan.status then pure tt else (do
    task_id ← or_raise plan.task_id runtime_error
    found ← gets (λ db. get task_id db.tasks)
    task ← or_raise found runtime_error
    publish_task plan task payload)

  unfoldable pub publish_execution_task : OutboxEvent → Tx ⊤
  publish_execution_task event = do
    plan ← gets (λ db. get event.object_id db.plans)
    publish_unless_done plan event.payload
