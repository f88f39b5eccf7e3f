-- ===== src/Dashboard/Snapshot.antt =====
-- `build_dashboard_snapshot` and the projection row that keeps its result. Names, sorting for display, the
-- order of the tasks and the `data_cutoff`, which reads `updated_at`, are left out.
use black_soil_loop_server.Dashboard.Sales.{
  operations, Operations, SalesSum, shown_reports, store_of,
}
use black_soil_loop_server.Dashboard.Demand.{
  demand, Demand, inventory_by_product, low_stock_count, transport_counts, day_of,
}
use black_soil_loop_server.Dashboard.Routes.{RouteItem, route_items, latest_alerts}
use black_soil_loop_server.Table.{insert_desc}
use black_soil_loop_server.Dashboard.Tally.{Tally, total}
use black_soil_loop_server.Prelude.{
  any, ℕ, ◌+◌, Bool, true, false, Option, none, some, List, [], ◌∷◌, ◌==◌, if◌then◌else◌, select,
  length, str_eq, any,
}
use black_soil_loop_server.Models.{
  Enterprise, Store, TaskStatus, RowId, StoreDailyReport, Instant, Vehicle, Alert, is_open,
}
use black_soil_loop_server.Dashboard.Sales.{Operations, store_of, SalesSum, shown_reports}
use black_soil_loop_server.Dashboard.Tally.{Tally, total}
use black_soil_loop_server.Dashboard.Demand.{Demand, day_of}
use black_soil_loop_server.Db.{Db}
use black_soil_loop_server.Dashboard.Routes.{RouteItem, latest_alerts}

-- The rows of `core` that the dashboard reads, and `round(part / whole * 100, 2)`, in hundredths.
pub record Master : Type 0 where
  pub enterprises : List Enterprise
  pub stores : List Store
  pub vehicles : List Vehicle
  pub percent : ℕ → ℕ → ℕ

abbrev pub is_third_space : Store → Bool
is_third_space s = str_eq s.channel "THIRD_SPACE"

abbrev pub is_active_transport : TaskStatus → Bool
is_active_transport TaskStatus.completed = false
is_active_transport TaskStatus.cancelled = false
is_active_transport _ = true

abbrev pub is_third_space_id : List Store → RowId → Bool
is_third_space_id stores id = elim (store_of stores id) [
  | none ↦ false
  | some store ↦ is_third_space store
]

-- The sum over the stores of the third space.
unfoldable pub third_space_sales : List Store → Tally RowId SalesSum → ℕ
third_space_sales stores [] = 0
third_space_sales stores ((id, v) ∷ rows) =
    let rest = third_space_sales stores rows in
    if is_third_space_id stores id then v.sales_amount + rest else rest

-- `third_space_ranking`: greatest first, and those of one amount in their order.
unfoldable pub third_space_ranking : List Store → Tally RowId SalesSum → Tally RowId SalesSum
third_space_ranking stores [] = []
third_space_ranking stores (row ∷ rows) =
    let rest = third_space_ranking stores rows in
    if is_third_space_id stores row.0 then insert_desc (λ r. r.1.sales_amount) row rest else rest

-- `len({report.store_id for report in reports})`
unfoldable pub reporting_stores : List StoreDailyReport → List RowId
reporting_stores [] = []
reporting_stores (r ∷ rs) =
    let rest = reporting_stores rs in
    if any (λ id. id == r.store_id) rest then rest else r.store_id ∷ rest

pub record Summary : Type 0 where
  pub enterprise_count : ℕ
  pub store_count : ℕ
  pub third_space_count : ℕ
  pub total_sales_amount : ℕ
  pub preorder_count : ℕ
  pub operation_order_count : ℕ
  pub third_space_sales_amount : ℕ
  pub third_space_sales_share_pct : ℕ
  pub active_transport_count : ℕ
  pub open_alert_count : ℕ
  pub low_stock_count : ℕ

pub record DashboardSnapshot : Type 0 where
  pub summary : Summary
  pub operations : Operations
  pub demand : Demand
  pub third_space_ranking : Tally RowId SalesSum
  pub inventory_by_product : Tally RowId ℕ
  pub transport_status : Tally TaskStatus ℕ
  pub routes : List RouteItem
  pub alerts : List Alert
  pub reporting_store_count : ℕ
  pub report_coverage_pct : ℕ

-- `part / whole if whole else 0`
abbrev pub share : (ℕ → ℕ → ℕ) → ℕ → ℕ → ℕ
share percent part whole = if whole == 0 then 0 else percent part whole

module _ (master : Master) where
  unfoldable pub summary_of : Operations → Demand → Db → Summary
  summary_of op d db =
      let sales = total (λ v. v.sales_amount) op.channel in
      let third = third_space_sales master.stores op.store_sales in
      record {
        enterprise_count = length master.enterprises;
        store_count = length master.stores;
        third_space_count = length (select is_third_space master.stores);
        total_sales_amount = sales;
        preorder_count = d.preorder_count;
        operation_order_count = total (λ v. v.order_count) op.daily;
        third_space_sales_amount = third;
        third_space_sales_share_pct = share master.percent third sales;
        active_transport_count = length (select (λ t. is_active_transport t.status) db.tasks);
        open_alert_count = length (select (λ a. is_open a.status) (latest_alerts db.alerts));
        low_stock_count = low_stock_count db.balances;
      }

  unfoldable pub build_dashboard_snapshot : Instant → Db → DashboardSnapshot
  build_dashboard_snapshot now db =
      let reports = shown_reports (day_of now) db.reports in
      let op = operations (day_of now) master.stores db.reports in
      let d = demand master.stores db.tasks db.orders in
      let reporting = length (reporting_stores reports) in
      record {
        summary = summary_of op d db;
        operations = op;
        demand = d;
        third_space_ranking = third_space_ranking master.stores op.store_sales;
        inventory_by_product = inventory_by_product db.balances;
        transport_status = transport_counts db.tasks;
        routes = route_items master.stores master.vehicles db db.tasks;
        alerts = latest_alerts db.alerts;
        reporting_store_count = reporting;
        report_coverage_pct = share master.percent reporting (length master.stores);
      }

-- The row "current" of `dashboard_projections`.
pub record DashboardProjection : Type 0 where
  pub snapshot : DashboardSnapshot
  pub object_version : ℕ

abbrev pub stored_projection : DashboardSnapshot → Option DashboardProjection → DashboardProjection
stored_projection snapshot none = record { snapshot = snapshot; object_version = 1 }
stored_projection snapshot (some projection) = record projection {
  snapshot = snapshot;
  object_version = projection.object_version + 1;
}

-- The answer, and the row afterwards.
unfoldable pub refresh_dashboard_projection :
    Master
    → Instant
    → Db
    → Option DashboardProjection
    → DashboardSnapshot × Option DashboardProjection
refresh_dashboard_projection master now db row =
    let snapshot = build_dashboard_snapshot master now db in
    (snapshot, some (stored_projection snapshot row))

abbrev pub read_dashboard_projection : Option DashboardProjection → Option DashboardSnapshot
read_dashboard_projection none = none
read_dashboard_projection (some projection) = some projection.snapshot
