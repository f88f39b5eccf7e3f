-- ===== src/Services/StoreReports.antt =====
-- `create_stockout` and `create_daily_report` of app/domain/services.py.
pub mod Daily
use black_soil_loop_server.Prelude.{
  ◌+◌, String, ◌&&◌, ◌||◌, Option, none, some, [], ◌∷◌, ◌++◌, ◌==◌, str_eq, if◌then◌else◌, any,
}
use black_soil_loop_server.Models.{
  RowId, Topic, ObjectType, StockoutCreate, DailyReportCreate, Payload, Scope, Body, User,
}
use black_soil_loop_server.Errors.{integrity_error, ErrorCode, error}
use black_soil_loop_server.Tx.{Tx, ok, err, pure, raise, raise_if, gets, ◌>>=◌, ◌>>◌}
use black_soil_loop_server.Env.{Env}
use black_soil_loop_server.Services.Idempotency.{once}
use black_soil_loop_server.Services.Journal.{add_outbox}

-- Refused by "uq_b02_stockout_idempotency" where the store has a request of that key.
unfoldable pub add_stockout : RowId → StockoutCreate → String → Tx RowId
add_stockout store_id request key db =
    if any (λ r. r.store_id == store_id && str_eq r.idempotency_key key) db.stockouts
    then err integrity_error
    else ok (
      db.next_id,
      record db {
        stockouts =
            db.stockouts
            ++ record {
              id = db.next_id;
              store_id = store_id;
              product_id = request.product_id;
              requested_quantity = request.requested_quantity;
              reason = request.reason;
              idempotency_key = key;
              object_version = 1;
            }
              ∷ [];
        next_id = db.next_id + 1;
      },
    )

-- Refused by the constraints on the date and on the key of a store's reports.
unfoldable pub add_report : RowId → DailyReportCreate → String → Tx RowId
add_report store_id request key db =
    if any
      (λ r.
        r.store_id == store_id
        && (r.report_date == request.report_date || str_eq r.idempotency_key key))
      db.reports
    then err integrity_error
    else ok (
      db.next_id,
      record db {
        reports =
            db.reports
            ++ record {
              id = db.next_id;
              store_id = store_id;
              report_date = request.report_date;
              sales_amount = request.sales_amount;
              order_count = request.order_count;
              authorized_for_dashboard = request.authorized_for_dashboard;
              summary = request.summary;
              idempotency_key = key;
              object_version = 1;
            }
              ∷ [];
        next_id = db.next_id + 1;
      },
    )

module _ (env : Env) where
  unfoldable pub submit_stockout : RowId → StockoutCreate → String → Tx Body
  submit_stockout store_id request key = do
    id ← add_stockout store_id request key
    let response = Body.stockout id 1
    add_outbox env Topic.stockout_submitted ObjectType.stockout_request id 1 response
    pure response

  unfoldable pub stockout_at : Option RowId → StockoutCreate → String → Tx Body
  stockout_at none request key = raise (error ErrorCode.store_scope_required 403)
  stockout_at (some store_id) request key =
      once env (Scope.stockout store_id) key (Payload.stockout request) 201
        (submit_stockout store_id request key)

  unfoldable pub create_stockout : User → StockoutCreate → String → Tx Body
  create_stockout user request key = stockout_at user.store_id request key

  unfoldable pub submit_report : RowId → DailyReportCreate → String → Tx Body
  submit_report store_id request key = do
    existing ←
        gets (λ db.
          any (λ r. r.store_id == store_id && r.report_date == request.report_date) db.reports)
    raise_if existing (error ErrorCode.daily_report_exists 409)
    id ← add_report store_id request key
    let response = Body.daily_report id request.report_date 1
    add_outbox env Topic.daily_report_submitted ObjectType.store_daily_report id 1 response
    pure response

  unfoldable pub report_at : Option RowId → DailyReportCreate → String → Tx Body
  report_at none request key = raise (error ErrorCode.store_scope_required 403)
  report_at (some store_id) request key =
      once env (Scope.daily_report store_id) key (Payload.daily_report request) 201
        (submit_report store_id request key)

  unfoldable pub create_daily_report : User → DailyReportCreate → String → Tx Body
  create_daily_report user request key = report_at user.store_id request key
