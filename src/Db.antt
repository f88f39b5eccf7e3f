-- ===== src/Db.antt =====
-- The database: one field for each table, the supply of fresh row ids (`new_id`, a UUID that is
-- never drawn twice) and the next value of the outbox sequence.
use black_soil_loop_server.Prelude.{ℕ, List}
use black_soil_loop_server.Table.{Keyed}
use black_soil_loop_server.Models.{
  RowId, User, UserSession, TransportOrder, AlgorithmRun, TransportPlan, TransportTask, TaskStop,
  TaskEvent, TaskException, Receipt, InventoryBalance, InventoryMovement, StockoutRequest,
  StoreDailyReport, TelemetryPoint, LocationPoint, Alert, IdempotencyRecord, OutboxEvent, AuditLog,
  DeadLetter,
}

pub record Db : Type 0 where
  pub users : List User
  pub sessions : List UserSession
  pub orders : List TransportOrder
  pub runs : List AlgorithmRun
  pub plans : List TransportPlan
  pub tasks : List TransportTask
  pub stops : List TaskStop
  pub events : List TaskEvent
  pub exceptions : List TaskException
  pub receipts : List Receipt
  pub balances : List InventoryBalance
  pub movements : List InventoryMovement
  pub stockouts : List StockoutRequest
  pub reports : List StoreDailyReport
  pub telemetry : List TelemetryPoint
  pub locations : List LocationPoint
  pub alerts : List Alert
  pub records : List IdempotencyRecord
  pub outbox : List OutboxEvent
  pub audit : List AuditLog
  pub dead_letters : List DeadLetter
  pub next_id : RowId
  pub next_sequence : ℕ

instance abbrev pub user_key : Keyed User
user_key = record { key = λ r. r.id }

instance abbrev pub session_key : Keyed UserSession
session_key = record { key = λ r. r.id }

instance abbrev pub order_key : Keyed TransportOrder
order_key = record { key = λ r. r.id }

instance abbrev pub run_key : Keyed AlgorithmRun
run_key = record { key = λ r. r.id }

instance abbrev pub plan_key : Keyed TransportPlan
plan_key = record { key = λ r. r.id }

instance abbrev pub task_key : Keyed TransportTask
task_key = record { key = λ r. r.id }

instance abbrev pub stop_key : Keyed TaskStop
stop_key = record { key = λ r. r.id }

instance abbrev pub balance_key : Keyed InventoryBalance
balance_key = record { key = λ r. r.id }

instance abbrev pub alert_key : Keyed Alert
alert_key = record { key = λ r. r.id }

instance abbrev pub event_key : Keyed OutboxEvent
event_key = record { key = λ r. r.event_id }
