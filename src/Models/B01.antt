-- ===== src/Models/B01.antt =====
-- Schema `b01`: transport orders, algorithm runs and transport plans.
use black_soil_loop_server.Prelude.{ℕ, String, Bool, Option, List}
use black_soil_loop_server.Prelude.Int.{ℤ}
use black_soil_loop_server.Models.Enums.{
  RowId, Instant, OrderStatus, PlanStatus, AlgorithmType, TaskStatus, TemperatureZone,
}
use black_soil_loop_server.Models.Bodies.{Candidate}

pub record TransportOrder : Type 0 where
  pub id : RowId
  pub order_no : String
  pub scenario_code : String
  pub enterprise_id : RowId
  pub product_id : RowId
  pub store_id : RowId
  pub origin_latitude : ℤ
  pub origin_longitude : ℤ
  pub destination_latitude : ℤ
  pub destination_longitude : ℤ
  pub departure_at : Instant
  pub quantity : ℕ
  pub unit : String
  pub weight_kg : ℕ
  pub volume_m3 : ℕ
  pub temperature_zone : TemperatureZone
  pub status : OrderStatus
  pub object_version : ℕ

-- Of the two snapshots only the candidates of a carpool run are read again.
pub record AlgorithmRun : Type 0 where
  pub id : RowId
  pub algorithm_type : AlgorithmType
  pub scenario_code : Option String
  pub rules_version : String
  pub candidates : List Candidate
  pub confirmed : Bool

-- `last_error` is the f-string that quotes the status of the task.
pub record TransportPlan : Type 0 where
  pub id : RowId
  pub plan_no : String
  pub algorithm_run_id : RowId
  pub candidate_snapshot : Candidate
  pub status : PlanStatus
  pub task_id : Option RowId
  pub published_qr_token : Option String
  pub qr_expires_at : Option Instant
  pub cancellation_reason : Option String
  pub last_error : Option TaskStatus
  pub object_version : ℕ
