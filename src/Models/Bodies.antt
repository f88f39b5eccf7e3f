-- ===== src/Models/Bodies.antt =====
-- The JSON objects that the services build: what an idempotency key is bound to (`Payload`), what
-- a call answers, publishes and audits (`Body`), and the candidate of a carpool run.
use black_soil_loop_server.Prelude.{ℕ, String, Option, List}
use black_soil_loop_server.Prelude.Int.{ℤ}
use black_soil_loop_server.Models.Enums.{
  RowId, Instant, TaskStatus, ReceiptStatus, PlanStatus, AlertStatus, AlertType, ExceptionType,
  TemperatureZone,
}
use black_soil_loop_server.Models.Requests.{
  TaskActionRequest, ReceiptLine, StockoutCreate, DailyReportCreate, TelemetrySample,
  LocationCreate, TaskExceptionCreate, VersionedRequest, CancelRequest,
}

-- The f-strings that name the scope of an idempotency key.
pub data Scope : Type 0 where
  task_action : RowId → Scope
  receipt : RowId → RowId → Scope
  stockout : RowId → Scope
  daily_report : RowId → Scope
  telemetry : RowId → Scope
  task_location : RowId → Scope
  task_exception : RowId → Scope
  publish_plan : RowId → Scope
  cancel_plan : RowId → Scope

-- The request data that `stable_hash` reads.
pub data Payload : Type 0 where
  task_action : TaskActionRequest → Payload
  receipt : RowId → ReceiptStatus → List ReceiptLine → ℕ → Payload
  stockout : StockoutCreate → Payload
  daily_report : DailyReportCreate → Payload
  telemetry : RowId → RowId → List TelemetrySample → Payload
  location : LocationCreate → Payload
  task_exception : TaskExceptionCreate → Payload
  versioned : VersionedRequest → Payload
  cancel : CancelRequest → Payload

pub record DeliveryLine : Type 0 where
  pub order_ids : List RowId
  pub product_id : RowId
  pub expected_quantity : ℕ
  pub unit : String

pub record CandidateStop : Type 0 where
  pub store_id : RowId
  pub latitude : ℤ
  pub longitude : ℤ
  pub delivery_lines : List DeliveryLine

-- The fields of a carpool candidate that later steps read.
pub record Candidate : Type 0 where
  pub order_ids : List RowId
  pub vehicle_id : RowId
  pub driver_id : RowId
  pub temperature_zone : TemperatureZone
  pub planned_departure_at : Instant
  pub origin_latitude : ℤ
  pub origin_longitude : ℤ
  pub destination_latitude : ℤ
  pub destination_longitude : ℤ
  pub stops : List CandidateStop
  pub total_weight_kg : ℕ
  pub total_volume_m3 : ℕ

pub record PlanBody : Type 0 where
  pub plan_id : RowId
  pub task_id : Option RowId
  pub status : PlanStatus
  pub object_version : ℕ

pub record Actor : Type 0 where
  pub actor_user_id : RowId
  pub idempotency_key : String

pub data Body : Type 0 where
  empty : Body
  task_state : TaskStatus → ℕ → Body
  plan_state : PlanStatus → Body
  alert_state : AlertStatus → Body
  task : RowId → String → TaskStatus → ℕ → Body
  receipt : RowId → RowId → RowId → ReceiptStatus → TaskStatus → ℕ → Body
  stockout : RowId → ℕ → Body
  daily_report : RowId → ℕ → ℕ → Body
  telemetry : ℕ → List AlertType → Body
  alert : RowId → AlertType → Body
  alert_status : RowId → AlertStatus → ℕ → Body
  location : RowId → RowId → Instant → Body
  task_exception : RowId → RowId → ExceptionType → TaskStatus → Instant → Body
  plan : PlanBody → Body
  order_created : String → Body
  plan_confirmed : RowId → String → Candidate → RowId → Body
  publish_requested : PlanBody → Actor → Body
  cancellation_requested : PlanBody → String → Actor → Body
  plan_task : RowId → RowId → String → TaskStatus → Body
  task_cancelled : RowId → RowId → TaskStatus → String → Body
  cancellation_rejected : RowId → RowId → TaskStatus → Body
  receipt_ref : RowId → Option RowId → Body
  plan_ref : RowId → Body
  cancel_note : String → TaskStatus → Body
  action_note : TaskActionRequest → Body
