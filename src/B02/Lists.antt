-- ===== src/B02/Lists.antt =====
-- What the mobile service shows: `list_tasks`, `task_detail`, `inventory` and `list_alerts` of
-- app/b02/main.py. A status in a query is one of the known ones here; any other text matches no row.
use black_soil_loop_server.Prelude.{
  ℕ, Bool, true, false, ◌&&◌, Option, none, some, List, [], ◌∷◌, ◌==◌, any, select, if◌then◌else◌,
  find,
}
use black_soil_loop_server.Tx.{◌>>=◌, ◌>>◌, Tx, gets, or_raise}
use black_soil_loop_server.Models.{
  TransportTask, TaskStatus, RowId, Role, User, AlertStatus, TaskStop, same_status,
  InventoryBalance, Alert, is_park_admin,
}
use black_soil_loop_server.Db.{Db}
use black_soil_loop_server.Table.{order_by, order_desc}
use black_soil_loop_server.Pages.{Page, page_of}
use black_soil_loop_server.B02.Visibility.{mobile_task_filter}
use black_soil_loop_server.Auth.Roles.{require_roles}
use black_soil_loop_server.Errors.{error, ErrorCode}

-- `_task_item`: the task with its stops in the order of the route.
pub record TaskItem : Type 0 where
  pub task : TransportTask
  pub stops : List TaskStop

unfoldable pub task_item : Db → TransportTask → TaskItem
task_item db task = record {
  task = task;
  stops = order_by (λ s. s.sequence_no) (select (λ s. s.task_id == task.id) db.stops);
}

unfoldable pub task_items : Db → List TransportTask → List TaskItem
task_items db [] = []
task_items db (task ∷ tasks) = task_item db task ∷ task_items db tasks

abbrev pub has_status : Option TaskStatus → TransportTask → Bool
has_status none task = true
has_status (some status) task = same_status task.status status

-- `ORDER BY planned_departure_at DESC`, with the OFFSET and LIMIT of the page. Tasks of one departure time
-- stand in a fixed order here; the database may return them in any.
unfoldable pub list_tasks : Option TaskStatus → ℕ → ℕ → User → Tx (Page TaskItem)
list_tasks status page page_size user = do
  filter ← mobile_task_filter user
  found ← gets (λ db. select (λ t. filter db t && has_status status t) db.tasks)
  let rows = order_desc (λ t. t.planned_departure_at) found
  gets (λ db. page_of page page_size (task_items db rows))

unfoldable pub task_detail : RowId → User → Tx TaskItem
task_detail task_id user = do
  filter ← mobile_task_filter user
  found ← gets (λ db. find (λ t. t.id == task_id && filter db t) db.tasks)
  task ← or_raise found (error ErrorCode.task_not_found 404)
  gets (λ db. task_item db task)

-- `require_roles("store_manager", "third_space_manager", "park_admin")`
abbrev pub stock_keepers : Role → Bool
stock_keepers Role.store_manager = true
stock_keepers Role.third_space_manager = true
stock_keepers Role.park_admin = true
stock_keepers _ = false

abbrev pub stock_rows : User → List InventoryBalance → List InventoryBalance
stock_rows user rows = elim user.store_id [
  | none ↦ (if is_park_admin user.role then rows else [])
  | some store_id ↦ select (λ b. b.store_id == store_id) rows
]

unfoldable pub inventory : User → Tx (List InventoryBalance)
inventory user = do require_roles stock_keepers user; gets (λ db. stock_rows user db.balances)

abbrev pub same_alert_status : AlertStatus → AlertStatus → Bool
same_alert_status AlertStatus.open_alert AlertStatus.open_alert = true
same_alert_status AlertStatus.acknowledged AlertStatus.acknowledged = true
same_alert_status AlertStatus.resolved AlertStatus.resolved = true
same_alert_status _ _ = false

abbrev pub has_alert_status : Option AlertStatus → Alert → Bool
has_alert_status none alert = true
has_alert_status (some status) alert = same_alert_status alert.status status

unfoldable pub list_alerts : Option AlertStatus → User → Tx (List Alert)
list_alerts status user = do
  filter ← mobile_task_filter user
  gets (λ db.
      order_desc (λ a. a.opened_at)
        (select
          (λ a. any (λ t. filter db t && t.id == a.task_id) db.tasks && has_alert_status status a)
          db.alerts))
