-- ===== src/B02/Visibility.antt =====
-- What a user may see in app/b02/main.py: `_mobile_task_filters` and `_event_visible`.
use black_soil_loop_server.Prelude.{
  Bool, true, false, ◌&&◌, Option, none, some, List, ◌==◌, any, opt_eq,
}
use black_soil_loop_server.Models.{
  RowId, Role, ObjectType, User, TransportTask, TaskStop, OutboxEvent, StockoutRequest,
  StoreDailyReport, Receipt, is_driver, is_park_admin,
}
use black_soil_loop_server.Errors.{ErrorCode, error}
use black_soil_loop_server.Table.{Keyed, get}
use black_soil_loop_server.Db.{Db, task_key, alert_key}
use black_soil_loop_server.Tx.{Tx, pure, raise}

instance abbrev receipt_key : Keyed Receipt
receipt_key = record { key = λ r. r.id }

instance abbrev stockout_key : Keyed StockoutRequest
stockout_key = record { key = λ r. r.id }

instance abbrev report_key : Keyed StoreDailyReport
report_key = record { key = λ r. r.id }

-- The task has a stop at the store.
unfoldable pub has_stop_at : RowId → Option RowId → List TaskStop → Bool
has_stop_at task_id store_id stops =
    any (λ s. s.task_id == task_id && opt_eq (some s.store_id) store_id) stops

-- The WHERE clause of a role, or 403.
unfoldable pub filter_of : Role → User → Tx (Db → TransportTask → Bool)
filter_of Role.driver user = pure (λ db t. opt_eq (some t.driver_id) user.driver_id)
filter_of Role.store_manager user = pure (λ db t. has_stop_at t.id user.store_id db.stops)
filter_of Role.third_space_manager user = pure (λ db t. has_stop_at t.id user.store_id db.stops)
filter_of Role.park_admin user = pure (λ db t. true)
filter_of _ user = raise (error ErrorCode.forbidden 403)

unfoldable pub mobile_task_filter : User → Tx (Db → TransportTask → Bool)
mobile_task_filter user = filter_of user.role user

-- `bool(row and user.store_id == row.store_id)`
abbrev pub at_store : User → Option RowId → Bool
at_store user none = false
at_store user (some store_id) = opt_eq user.store_id (some store_id)

-- The last part of `_event_visible`: the event is about a task.
unfoldable pub sees_task : User → Option TransportTask → Db → Bool
sees_task user none db = false
sees_task user (some task) db = elim (is_driver user.role) [
  | true ↦ opt_eq (some task.driver_id) user.driver_id
  | false ↦ (elim user.store_id [
    | none ↦ false
    | some store_id ↦ has_stop_at task.id (some store_id) db.stops
  ])
]

unfoldable pub event_seen : User → ObjectType → RowId → Db → Bool
event_seen user ObjectType.transport_task id db = sees_task user (get id db.tasks) db
event_seen user ObjectType.alert id db = elim (get id db.alerts) [
  | none ↦ false
  | some alert ↦ sees_task user (get alert.task_id db.tasks) db
]
event_seen user ObjectType.receipt id db = elim (get id db.receipts) [
  | none ↦ false
  | some r ↦ at_store user (some r.store_id)
]
event_seen user ObjectType.stockout_request id db = elim (get id db.stockouts) [
  | none ↦ false
  | some r ↦ at_store user (some r.store_id)
]
event_seen user ObjectType.store_daily_report id db = elim (get id db.reports) [
  | none ↦ false
  | some r ↦ at_store user (some r.store_id)
]
event_seen user _ id db = false

unfoldable pub event_visible : User → OutboxEvent → Db → Bool
event_visible user event db = elim (is_park_admin user.role) [
  | true ↦ true
  | false ↦ event_seen user event.object_type event.object_id db
]
