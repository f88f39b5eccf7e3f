-- ===== src/Dashboard/Routes.antt =====
-- The routes on the map of the dashboard: a task with its stops and its latest points.
use black_soil_loop_server.Prelude.{
  ℕ, String, Option, none, some, List, [], ◌∷◌, ◌==◌, find, select,
}
use black_soil_loop_server.Prelude.Int.{ℤ}
use black_soil_loop_server.Models.{
  TelemetryPoint, LocationPoint, Alert, RowId, Store, Vehicle, StopStatus, TaskStatus, TaskStop,
  TemperatureZone, TransportTask,
}
use black_soil_loop_server.Db.{Db}
use black_soil_loop_server.Dashboard.Sales.{store_of}
use black_soil_loop_server.Table.{order_by, limited, order_desc}

abbrev pub latest_limit : ℕ
latest_limit = 100

unfoldable pub latest_telemetry : List TelemetryPoint → List TelemetryPoint
latest_telemetry points = limited latest_limit (order_desc (λ p. p.sampled_at) points)

unfoldable pub latest_locations : List LocationPoint → List LocationPoint
latest_locations points = limited latest_limit (order_desc (λ p. p.recorded_at) points)

unfoldable pub latest_alerts : List Alert → List Alert
latest_alerts alerts = limited latest_limit (order_desc (λ a. a.opened_at) alerts)

-- `telemetry_by_task.get(task_id)`, a dict that keeps the first point of a task.
unfoldable pub telemetry_of : RowId → List TelemetryPoint → Option TelemetryPoint
telemetry_of task_id points = find (λ p. p.task_id == task_id) (latest_telemetry points)

unfoldable pub location_of : RowId → List LocationPoint → Option LocationPoint
location_of task_id points = find (λ p. p.task_id == task_id) (latest_locations points)

pub record RouteStop : Type 0 where
  pub store_id : RowId
  pub store_name : Option String
  pub channel : Option String
  pub latitude : ℤ
  pub longitude : ℤ
  pub status : StopStatus

pub record RouteItem : Type 0 where
  pub task_id : RowId
  pub task_no : String
  pub status : TaskStatus
  pub plate_no : Option String
  pub temperature_zone : TemperatureZone
  pub origin_latitude : ℤ
  pub origin_longitude : ℤ
  pub destination_latitude : ℤ
  pub destination_longitude : ℤ
  pub stops : List RouteStop
  pub latest_telemetry : Option TelemetryPoint
  pub latest_location : Option LocationPoint

abbrev pub name_of : Option Store → Option String
name_of none = none
name_of (some store) = some store.name

abbrev pub channel_of : Option Store → Option String
channel_of none = none
channel_of (some store) = some store.channel

abbrev pub plate_of : Option Vehicle → Option String
plate_of none = none
plate_of (some vehicle) = some vehicle.plate_no

abbrev pub route_stop : List Store → TaskStop → RouteStop
route_stop stores stop =
    let store = store_of stores stop.store_id in
    record {
      store_id = stop.store_id;
      store_name = name_of store;
      channel = channel_of store;
      latitude = stop.latitude;
      longitude = stop.longitude;
      status = stop.status;
    }

abbrev pub route_stops : List Store → List TaskStop → List RouteStop
route_stops stores [] = []
route_stops stores (stop ∷ stops) = route_stop stores stop ∷ route_stops stores stops

unfoldable pub route_item : List Store → List Vehicle → Db → TransportTask → RouteItem
route_item stores vehicles db task = record {
  task_id = task.id;
  task_no = task.task_no;
  status = task.status;
  plate_no = plate_of (find (λ v. v.id == task.vehicle_id) vehicles);
  temperature_zone = task.temperature_zone;
  origin_latitude = task.origin_latitude;
  origin_longitude = task.origin_longitude;
  destination_latitude = task.destination_latitude;
  destination_longitude = task.destination_longitude;
  stops =
      route_stops stores
        (order_by (λ s. s.sequence_no) (select (λ s. s.task_id == task.id) db.stops));
  latest_telemetry = telemetry_of task.id db.telemetry;
  latest_location = location_of task.id db.locations;
}

unfoldable pub route_items : List Store → List Vehicle → Db → List TransportTask → List RouteItem
route_items stores vehicles db [] = []
route_items stores vehicles db (task ∷ tasks) =
    route_item stores vehicles db task ∷ route_items stores vehicles db tasks
