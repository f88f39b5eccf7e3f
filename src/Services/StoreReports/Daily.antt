-- ===== src/Services/StoreReports/Daily.antt =====
-- The reports of a store and a day.
use black_soil_loop_server.Prelude.{
  ℕ, String, ◌≡◌, refl, Bool, true, false, ◌&&◌, List, [], ◌∷◌, ◌++◌, any, any-append, arith, inl,
  inr, ◌==◌,
}
use black_soil_loop_server.Models.{RowId, DailyReportCreate, Body, StoreDailyReport}
use black_soil_loop_server.Db.{Db}
use black_soil_loop_server.Tx.{ok, Result-cases}
use black_soil_loop_server.Env.{Env}
use black_soil_loop_server.Services.Journal.{add_outbox}
use black_soil_loop_server.Services.StoreReports.{add_report, submit_report}

-- The reports of the store for the day.
abbrev pub is_report_of : RowId → ℕ → StoreDailyReport → Bool
is_report_of store_id day r = r.store_id == store_id && r.report_date == day

-- No two reports are of one store and one day.
abbrev pub OnePerDay : List StoreDailyReport → Type 0
OnePerDay [] = Unit
OnePerDay (r ∷ rows) = (any (is_report_of r.store_id r.report_date) rows ≡ false) × OnePerDay rows

OnePerDay-append :
    (rows : List StoreDailyReport) (r : StoreDailyReport)
    → OnePerDay rows
    → any (is_report_of r.store_id r.report_date) rows ≡ false
    → OnePerDay (rows ++ r ∷ [])
OnePerDay-append [] r h free = (refl, tt)
OnePerDay-append (x ∷ rows) r (one, h) free = (
  ground (arith, any-append (is_report_of x.store_id x.report_date) rows (r ∷ [])),
  OnePerDay-append rows r h (ground arith),
)

add_report-row :
    (store_id : RowId) (request : DailyReportCreate) (key : String) (id : RowId) (db db' : Db)
    → add_report store_id request key db ≡ ok (id, db')
    → (r : StoreDailyReport) × (r.store_id ≡ store_id)
      × (r.report_date ≡ request.report_date)
      × (db'.reports ≡ db.reports ++ r ∷ [])
unfolding add_report
add_report-row store_id request key id db db' p =
    let new : StoreDailyReport = record {
      id = db.next_id;
      store_id = store_id;
      report_date = request.report_date;
      sales_amount = request.sales_amount;
      order_count = request.order_count;
      authorized_for_dashboard = request.authorized_for_dashboard;
      summary = request.summary;
      idempotency_key = key;
      object_version = 1;
    } in
    (new, refl, refl, ground arith)

-- A report that is accepted keeps the reports one for each store and day; it is the first of its day.
pub submit_report-OnePerDay :
    (env : Env) (store_id : RowId) (request : DailyReportCreate) (key : String) (body : Body)
    (db db' : Db)
    → OnePerDay db.reports
    → submit_report env store_id request key db ≡ ok (body, db')
    → OnePerDay db'.reports
      × (any (is_report_of store_id request.report_date) db.reports ≡ false)
      × (any (is_report_of store_id request.report_date) db'.reports ≡ true)
unfolding submit_report add_outbox
submit_report-OnePerDay env store_id request key body db db' h p =
    elim (Result-cases (add_report store_id request key db)) [
      | inr (x, clash) ↦ absurd (ground arith)
      | inl (id, mid, added) ↦
          let (r, mine, today, grown) = add_report-row store_id request key id db mid added in
          let free : any (is_report_of store_id request.report_date) db.reports ≡ false =
            ground arith in
          let rows : db'.reports ≡ db.reports ++ r ∷ [] = ground arith in
          (
            rw rows (OnePerDay-append db.reports r h (rw (mine, today) free)),
            free,
            ground (
              arith,
              rows,
              mine,
              today,
              any-append (is_report_of store_id request.report_date) db.reports (r ∷ []),
            ),
          )
    ]
