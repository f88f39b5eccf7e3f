-- ===== src/B01/Lists.antt =====
-- `list_orders`, `plan_detail`, `projected_tasks` and `projected_alerts` of app/b01/main.py.
use Prim.Native.Nat.{Ordering}
use Prim.Native.String.{compare}
use black_soil_loop_server.Db.{plan_key}
use black_soil_loop_server.Prelude.{
  ℕ, String, Bool, true, false, ◌&&◌, ◌||◌, Option, none, some, List, [], ◌∷◌, ◌==◌, ltb, str_eq,
  select, if◌then◌else◌,
}
use black_soil_loop_server.Tx.{◌>>=◌, ◌>>◌, Tx, raise, gets, pure, or_raise}
use black_soil_loop_server.Models.{
  TransportOrder, RowId, User, Instant, TransportPlan, Alert, is_park_admin,
}
use black_soil_loop_server.Db.{Db}
use black_soil_loop_server.Dashboard.Snapshot.{
  Master, DashboardSnapshot, DashboardProjection, read_dashboard_projection,
  refresh_dashboard_projection,
}
use black_soil_loop_server.Pages.{Page, page_of}
use black_soil_loop_server.Dashboard.Routes.{RouteItem}
use black_soil_loop_server.Auth.Roles.{require_roles}
use black_soil_loop_server.Errors.{error, ErrorCode}
use black_soil_loop_server.Table.{get}

abbrev pub not_after : Ordering → Bool
not_after Ordering.lt = true
not_after Ordering.eq = true
not_after Ordering.gt = false

-- The order of (departure_at, order_no).
abbrev pub order_before : TransportOrder → TransportOrder → Bool
order_before a b =
    ltb a.departure_at b.departure_at
    || (a.departure_at == b.departure_at && not_after (compare a.order_no b.order_no))

unfoldable pub insert_order : TransportOrder → List TransportOrder → List TransportOrder
insert_order o [] = o ∷ []
insert_order o (x ∷ orders) = if order_before o x then o ∷ x ∷ orders else x ∷ insert_order o orders

unfoldable pub sort_orders : List TransportOrder → List TransportOrder
sort_orders [] = []
sort_orders (o ∷ orders) = insert_order o (sort_orders orders)

-- No filter where the code is missing or empty.
abbrev pub in_scenario : Option String → TransportOrder → Bool
in_scenario none o = true
in_scenario (some code) o = str_eq code "" || str_eq o.scenario_code code

unfoldable pub list_orders : Option String → ℕ → ℕ → Db → Page TransportOrder
list_orders scenario_code page page_size db =
    page_of page page_size (sort_orders (select (in_scenario scenario_code) db.orders))

unfoldable pub plan_detail : RowId → User → Tx TransportPlan
plan_detail plan_id user = do
  require_roles is_park_admin user
  found ← gets (λ db. get plan_id db.plans)
  or_raise found (error ErrorCode.plan_not_found 404)

-- `_projection_items`: the projection is built anew but in production.
unfoldable pub projected :
    Bool → Master → Instant → Db → Option DashboardProjection → Option DashboardSnapshot
projected true master now db row = read_dashboard_projection row
projected false master now db row = some (refresh_dashboard_projection master now db row).0

abbrev pub task_page : ℕ → ℕ → Option DashboardSnapshot → Tx (Page RouteItem)
task_page page page_size none = raise (error ErrorCode.dashboard_not_ready 503)
task_page page page_size (some s) = pure (page_of page page_size s.routes)

abbrev pub alert_page : ℕ → ℕ → Option DashboardSnapshot → Tx (Page Alert)
alert_page page page_size none = raise (error ErrorCode.dashboard_not_ready 503)
alert_page page page_size (some s) = pure (page_of page page_size s.alerts)

module _ (is_production : Bool) (master : Master) (now : Instant)
    (row : Option DashboardProjection) where
  unfoldable pub projected_tasks : ℕ → ℕ → Tx (Page RouteItem)
  projected_tasks page page_size db =
      task_page page page_size (projected is_production master now db row) db

  unfoldable pub projected_alerts : ℕ → ℕ → Tx (Page Alert)
  projected_alerts page page_size db =
      alert_page page page_size (projected is_production master now db row) db
