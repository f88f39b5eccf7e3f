-- ===== src/Tests/Outbox.antt =====
-- Examples for the worker: a plan is confirmed, built, published and told of a second time.
use black_soil_loop_server.Prelude.{◌≡◌, refl, true, [], ◌∷◌, some, none, List, false, arith}
use black_soil_loop_server.Prelude.Int.{pos}
use black_soil_loop_server.Models.{
  TaskStatus, PlanStatus, EventStatus, TemperatureZone, Topic, ObjectType, Candidate, Body,
  OutboxEvent, TransportPlan,
}
use black_soil_loop_server.Table.{get}
use black_soil_loop_server.Db.{Db, event_key}
use black_soil_loop_server.Tx.{ok}
use black_soil_loop_server.Worker.Tasks.{publish_execution_task, publish_task, publish_unless_done}
use black_soil_loop_server.Worker.Tasks.Redelivery.{publish_execution_task-again}
use black_soil_loop_server.Tests.Data.{env, env_at, task_in, db_with, state_of}
use black_soil_loop_server.Services.Events.{add_task_event}
use black_soil_loop_server.Services.Journal.{add_outbox}
use black_soil_loop_server.Worker.Process.Settled.{is_waiting, retry, retry-settles}
use black_soil_loop_server.Env.{Env}

abbrev pub candidate : Candidate
candidate = record {
  order_ids = 30 ∷ [];
  vehicle_id = 4;
  driver_id = 5;
  temperature_zone = TemperatureZone.chilled;
  planned_departure_at = 500;
  origin_latitude = pos 0;
  origin_longitude = pos 0;
  destination_latitude = pos 0;
  destination_longitude = pos 0;
  stops = record { store_id = 7; latitude = pos 0; longitude = pos 0; delivery_lines = [] } ∷ [];
  total_weight_kg = 100;
  total_volume_m3 = 2;
}

abbrev plan : TransportPlan
plan = record {
  id = 50;
  plan_no = "PLAN-1";
  algorithm_run_id = 60;
  candidate_snapshot = candidate;
  status = PlanStatus.publish_requested;
  task_id = some 10;
  published_qr_token = none;
  qr_expires_at = none;
  cancellation_reason = none;
  last_error = none;
  object_version = 3;
}

abbrev publication : Body
publication =
    Body.publish_requested
      (record {
        plan_id = 50;
        task_id = some 10;
        status = PlanStatus.publish_requested;
        object_version = 3;
      })
      (record { actor_user_id = 1; idempotency_key = "publish" })

abbrev pub event : OutboxEvent
event = record {
  sequence = 1;
  event_id = 70;
  topic = Topic.plan_publish_requested;
  object_type = ObjectType.transport_plan;
  object_id = 50;
  object_version = 3;
  payload = publication;
  status = EventStatus.pending;
  attempts = 4;
  available_at = 100;
}

abbrev db : Db
db = record (db_with (task_in TaskStatus.confirmed ∷ []) []) {
  plans = plan ∷ [];
  outbox = event ∷ [];
}

abbrev published_db : Db
published_db = state_of db (publish_execution_task env event db)

published : publish_execution_task env event db ≡ ok (tt, published_db)
unfolding publish_execution_task publish_unless_done publish_task add_task_event add_outbox
published = refl

publish_execution_task-again_example :
    publish_execution_task (env_at 9_000) event published_db ≡ ok (tt, published_db)
publish_execution_task-again_example =
    publish_execution_task-again env (env_at 9_000) event db published_db published

-- The first attempt at an event that never succeeds, and the four that are left.
abbrev envs : List Env
envs = env ∷ env_at 2_000 ∷ env_at 3_000 ∷ env_at 4_000 ∷ env_at 5_000 ∷ []

abbrev new_event : OutboxEvent
new_event = record event { attempts = 0 }

abbrev new_db : Db
new_db = record db { outbox = new_event ∷ [] }

retry-settles_example : is_waiting (get 70 (retry (λ _. true) envs 70 new_db).outbox) ≡ false
retry-settles_example =
    retry-settles (λ _. true) envs new_event new_db refl (omega arith) (omega arith)
