-- ===== src/Models/Requests.antt =====
-- app/shared/schemas.py: the validated request bodies. Numbers that the program holds as floats
-- are counted in billionths (quantities) or as signed thousandths (temperatures, coordinates).
use black_soil_loop_server.Prelude.{ℕ, String, Bool, Option, List}
use black_soil_loop_server.Prelude.Int.{ℤ}
use black_soil_loop_server.Models.Enums.{
  RowId, Instant, TaskAction, ReceiptStatus, ExceptionType, AlertAction, TemperatureZone,
}

pub record TransportOrderCreate : Type 0 where
  pub order_no : String
  pub scenario_code : String
  pub enterprise_id : RowId
  pub product_id : RowId
  pub store_id : RowId
  pub origin_latitude : ℤ
  pub origin_longitude : ℤ
  pub destination_latitude : ℤ
  pub destination_longitude : ℤ
  pub departure_at : Instant
  pub quantity : ℕ
  pub unit : String
  pub weight_kg : ℕ
  pub volume_m3 : ℕ
  pub temperature_zone : TemperatureZone

pub record TaskActionRequest : Type 0 where
  pub object_version : ℕ
  pub action : TaskAction
  pub qr_token : Option String
  pub stop_id : Option RowId
  pub occurred_at : Option Instant
  pub note : Option String

pub record ReceiptLine : Type 0 where
  pub product_id : RowId
  pub expected_quantity : ℕ
  pub received_quantity : ℕ
  pub note : Option String

pub record ReceiptCreate : Type 0 where
  pub object_version : ℕ
  pub receipt_status : ReceiptStatus
  pub qr_token : String
  pub lines : List ReceiptLine

pub record StockoutCreate : Type 0 where
  pub product_id : RowId
  pub requested_quantity : ℕ
  pub reason : String

-- `summary` is a JSON object that is stored and never read: its text.
pub record DailyReportCreate : Type 0 where
  pub report_date : ℕ
  pub sales_amount : ℕ
  pub order_count : ℕ
  pub authorized_for_dashboard : Bool
  pub summary : String

pub record TelemetrySample : Type 0 where
  pub sampled_at : Instant
  pub temperature_c : ℤ
  pub humidity_pct : ℤ
  pub latitude : ℤ
  pub longitude : ℤ

pub record LocationCreate : Type 0 where
  pub latitude : ℤ
  pub longitude : ℤ
  pub speed_mps : ℕ
  pub accuracy_m : Option ℕ
  pub recorded_at : Instant

pub record TaskExceptionCreate : Type 0 where
  pub exception_type : ExceptionType
  pub reason : String
  pub occurred_at : Option Instant

pub record VersionedRequest : Type 0 where
  pub object_version : ℕ

pub record CancelRequest : Type 0 where
  pub object_version : ℕ
  pub reason : String

pub record MatchConfirmRequest : Type 0 where
  pub object_version : ℕ
  pub match_run_id : RowId
  pub candidate_index : ℕ

pub record AlertUpdate : Type 0 where
  pub object_version : ℕ
  pub action : AlertAction

pub record MatchPreviewRequest : Type 0 where
  pub scenario_code : Option String
  pub order_ids : List RowId
