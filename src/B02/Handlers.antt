-- ===== src/B02/Handlers.antt =====
-- The handlers of app/b02/main.py that load the task and call one service.
use black_soil_loop_server.Prelude.{String, not, ◌||◌, Option, none, some, List, ◌==◌, str_eq}
use black_soil_loop_server.Models.{
  RowId, is_driver, is_store_role, TaskActionRequest, ReceiptCreate, StockoutCreate,
  DailyReportCreate, TelemetrySample, LocationCreate, TaskExceptionCreate, Body, User,
  TransportTask,
}
use black_soil_loop_server.Errors.{ErrorCode, error}
use black_soil_loop_server.Table.{get}
use black_soil_loop_server.Db.{task_key}
use black_soil_loop_server.Tx.{Tx, ⊤, raise, raise_if, or_raise, gets, ◌>>=◌, ◌>>◌}
use black_soil_loop_server.Env.{Env}
use black_soil_loop_server.Auth.Roles.{require_roles, carriers}
use black_soil_loop_server.Services.Transition.{transition_task}
use black_soil_loop_server.Services.Receipt.{sign_receipt, may_sign}
use black_soil_loop_server.Services.StoreReports.{create_stockout, create_daily_report}
use black_soil_loop_server.Services.Telemetry.{ingest_telemetry}
use black_soil_loop_server.Services.FieldReports.{create_location_point, create_task_exception}

-- `db.get(TransportTask, task_id)`, or 404.
unfoldable pub load_task : RowId → Tx TransportTask
load_task task_id = do
  found ← gets (λ db. get task_id db.tasks)
  or_raise found (error ErrorCode.task_not_found 404)

-- `x_device_key` against the key of the settings.
unfoldable pub verify_device_key : String → Option String → Tx ⊤
verify_device_key device_api_key none = raise (error ErrorCode.device_auth_failed 401)
verify_device_key device_api_key (some key) =
    raise_if (str_eq key "" || not (str_eq key device_api_key))
      (error ErrorCode.device_auth_failed 401)

module _ (env : Env) where
  unfoldable pub task_action : RowId → TaskActionRequest → String → User → Tx Body
  task_action task_id payload key user = do
    require_roles carriers user
    task ← load_task task_id
    transition_task env task user payload.action payload.object_version key payload

  unfoldable pub submit_location : RowId → LocationCreate → String → User → Tx Body
  submit_location task_id payload key user = do
    require_roles is_driver user
    task ← load_task task_id
    create_location_point env task user payload key

  unfoldable pub submit_task_exception : RowId → TaskExceptionCreate → String → User → Tx Body
  submit_task_exception task_id payload key user = do
    require_roles carriers user
    task ← load_task task_id
    create_task_exception env task user payload key

  unfoldable pub receipt : RowId → ReceiptCreate → String → User → Tx Body
  receipt task_id payload key user = do
    require_roles may_sign user
    task ← load_task task_id
    sign_receipt env task user payload.receipt_status payload.lines payload.qr_token
        payload.object_version key

  unfoldable pub submit_stockout : StockoutCreate → String → User → Tx Body
  submit_stockout payload key user = do
    require_roles is_store_role user
    create_stockout env user payload key

  unfoldable pub submit_daily_report : DailyReportCreate → String → User → Tx Body
  submit_daily_report payload key user = do
    require_roles is_store_role user
    create_daily_report env user payload key

  -- A batch for another vehicle is refused as a batch for no task is.
  unfoldable pub telemetry :
      String → Option String → RowId → RowId → List TelemetrySample → String → Tx Body
  telemetry device_api_key device_key task_id vehicle_id samples key = do
    verify_device_key device_api_key device_key
    found ← gets (λ db. get task_id db.tasks)
    task ← or_raise found (error ErrorCode.telemetry_task_mismatch 409)
    raise_if (not (task.vehicle_id == vehicle_id)) (error ErrorCode.telemetry_task_mismatch 409)
    ingest_telemetry env task samples key
