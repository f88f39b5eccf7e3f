-- ===== src/Models/B02.antt =====
-- Schema `b02`: tasks, their stops and events, receipts, inventory, store reports, telemetry.
use black_soil_loop_server.Prelude.{ℕ, String, Bool, Option, List}
use black_soil_loop_server.Prelude.Int.{ℤ}
use black_soil_loop_server.Models.Enums.{
  RowId, Instant, TaskStatus, StopStatus, TaskAction, ReceiptStatus, AlertStatus, AlertType,
  ExceptionType, TemperatureZone,
}
use black_soil_loop_server.Models.Requests.{ReceiptLine}
use black_soil_loop_server.Models.Bodies.{Body, DeliveryLine}

pub record TransportTask : Type 0 where
  pub id : RowId
  pub task_no : String
  pub source_order_ids : List RowId
  pub vehicle_id : RowId
  pub driver_id : RowId
  pub store_id : RowId
  pub status : TaskStatus
  pub temperature_zone : TemperatureZone
  pub total_weight_kg : ℕ
  pub total_volume_m3 : ℕ
  pub origin_latitude : ℤ
  pub origin_longitude : ℤ
  pub destination_latitude : ℤ
  pub destination_longitude : ℤ
  pub planned_departure_at : Instant
  pub qr_token_hash : Option String
  pub qr_expires_at : Option Instant
  pub object_version : ℕ

pub record TaskStop : Type 0 where
  pub id : RowId
  pub task_id : RowId
  pub store_id : RowId
  pub sequence_no : ℕ
  pub latitude : ℤ
  pub longitude : ℤ
  pub status : StopStatus
  pub delivery_lines : List DeliveryLine
  pub object_version : ℕ

-- The `action` column of an event.
pub data EventAction : Type 0 where
  driver_action : TaskAction → EventAction
  receipt : ReceiptStatus → EventAction
  auto_complete publish cancel : EventAction

-- An idempotency key of an event: the caller's, or the caller's with a suffix.
pub data EventKey : Type 0 where
  request : String → EventKey
  state complete : String → EventKey
  product : String → RowId → EventKey

pub record TaskEvent : Type 0 where
  pub id : RowId
  pub task_id : RowId
  pub from_status : TaskStatus
  pub to_status : TaskStatus
  pub action : EventAction
  pub actor_user_id : RowId
  pub idempotency_key : EventKey
  pub payload : Body
  pub occurred_at : Instant

pub record TaskException : Type 0 where
  pub id : RowId
  pub task_id : RowId
  pub exception_type : ExceptionType
  pub reason : String
  pub original_status : TaskStatus
  pub actor_user_id : RowId
  pub idempotency_key : String
  pub occurred_at : Instant

pub record Receipt : Type 0 where
  pub id : RowId
  pub task_id : RowId
  pub store_id : RowId
  pub receipt_status : ReceiptStatus
  pub details : List ReceiptLine
  pub idempotency_key : String
  pub actor_user_id : RowId
  pub received_at : Instant

pub record InventoryBalance : Type 0 where
  pub id : RowId
  pub store_id : RowId
  pub product_id : RowId
  pub quantity : ℕ
  pub low_stock_threshold : ℕ
  pub object_version : ℕ

-- The program writes movements of type "IN" from source "RECEIPT" alone.
pub record InventoryMovement : Type 0 where
  pub id : RowId
  pub store_id : RowId
  pub product_id : RowId
  pub quantity_delta : ℕ
  pub source_id : RowId
  pub idempotency_key : EventKey
  pub occurred_at : Instant

-- The status of a request stays at its default, "SUBMITTED".
pub record StockoutRequest : Type 0 where
  pub id : RowId
  pub store_id : RowId
  pub product_id : RowId
  pub requested_quantity : ℕ
  pub reason : String
  pub idempotency_key : String
  pub object_version : ℕ

pub record StoreDailyReport : Type 0 where
  pub id : RowId
  pub store_id : RowId
  pub report_date : ℕ
  pub sales_amount : ℕ
  pub order_count : ℕ
  pub authorized_for_dashboard : Bool
  pub summary : String
  pub idempotency_key : String
  pub object_version : ℕ

-- `anomaly_code` joins the codes by "+": none is NULL.
pub record TelemetryPoint : Type 0 where
  pub id : RowId
  pub task_id : RowId
  pub vehicle_id : RowId
  pub sampled_at : Instant
  pub temperature_c : ℤ
  pub humidity_pct : ℤ
  pub latitude : ℤ
  pub longitude : ℤ
  pub anomaly_code : List AlertType

pub record LocationPoint : Type 0 where
  pub id : RowId
  pub task_id : RowId
  pub driver_id : RowId
  pub latitude : ℤ
  pub longitude : ℤ
  pub speed_mps : ℕ
  pub accuracy_m : Option ℕ
  pub recorded_at : Instant
  pub idempotency_key : String

pub record Alert : Type 0 where
  pub id : RowId
  pub task_id : RowId
  pub alert_type : AlertType
  pub status : AlertStatus
  pub opened_at : Instant
  pub acknowledged_at : Option Instant
  pub resolved_at : Option Instant
  pub actor_user_id : Option RowId
  pub object_version : ℕ
