-- ===== src/Tests/Dashboard.antt =====
-- Examples for the dashboard: two stores, three reports, two points of a task.
use black_soil_loop_server.Prelude.{◌≡◌, true, List, [], ◌∷◌, ◌==◌, String, ℕ, ◌/◌, ◌&&◌}
use black_soil_loop_server.Prelude.Int.{pos}
use black_soil_loop_server.Tests.Data.{db_with, task_in}
use black_soil_loop_server.Tests.Plans.{order}
use black_soil_loop_server.Dashboard.Demand.{demand}
use black_soil_loop_server.Dashboard.Sales.{operations, text_key, shown_reports, pair_key, id_key}
use black_soil_loop_server.Models.{
  Store, StoreDailyReport, TransportTask, TelemetryPoint, TaskStatus,
}
use black_soil_loop_server.Dashboard.Tally.{sum_at}
use black_soil_loop_server.Dashboard.Counts.{demand-wanted, wanted, goes_to, itself}
use black_soil_loop_server.Dashboard.Latest.{ShowsLatest, route_item-latest_telemetry}
use black_soil_loop_server.Db.{Db}
use black_soil_loop_server.Dashboard.Routes.{route_item}
use black_soil_loop_server.Dashboard.Sums.{amount, reported, is_in_channel, operations-channel}

abbrev store : Store
store = record {
  id = 7;
  enterprise_id = 1;
  code = "S";
  name = "S";
  channel = "THIRD_SPACE";
  latitude = pos 0;
  longitude = pos 0;
  enabled = true;
  object_version = 1;
}

abbrev stores : List Store
stores = store ∷ record store { id = 8; channel = "TRADITIONAL" } ∷ []

abbrev report : StoreDailyReport
report = record {
  id = 40;
  store_id = 7;
  report_date = 100;
  sales_amount = 250;
  order_count = 3;
  authorized_for_dashboard = true;
  summary = "";
  idempotency_key = "k";
  object_version = 1;
}

abbrev reports : List StoreDailyReport
reports =
    report
    ∷ record report { store_id = 8; sales_amount = 40 }
    ∷ record report { report_date = 80 }
    ∷ []

operations-channel_example :
    sum_at text_key amount "THIRD_SPACE" (operations 101 stores reports).channel
    ≡ reported (is_in_channel stores "THIRD_SPACE") (shown_reports 101 reports)
operations-channel_example = operations-channel 101 stores reports "THIRD_SPACE"

abbrev tasks : List TransportTask
tasks = task_in TaskStatus.in_transit ∷ task_in TaskStatus.cancelled ∷ []

demand-wanted_example :
    ((demand stores tasks (order ∷ [])).preorder_count ≡ wanted tasks (λ o. true) (order ∷ []))
    × ((channel : String)
        → sum_at text_key itself channel (demand stores tasks (order ∷ [])).preorder_by_channel
          ≡ wanted tasks (goes_to stores channel) (order ∷ []))
    × ((day : ℕ) (channel : String)
        → sum_at
            (pair_key id_key text_key)
            itself
            (day, channel)
            (demand stores tasks (order ∷ [])).daily_preorder_by_channel
          ≡ wanted tasks
              (λ o. o.departure_at / 86_400_000_000 == day && goes_to stores channel o)
              (order ∷ []))
demand-wanted_example = demand-wanted stores tasks (order ∷ [])

abbrev point : TelemetryPoint
point = record {
  id = 45;
  task_id = 10;
  vehicle_id = 4;
  sampled_at = 60;
  temperature_c = pos 4;
  humidity_pct = pos 40;
  latitude = pos 0;
  longitude = pos 0;
  anomaly_code = [];
}

abbrev db : Db
db = record (db_with tasks []) { telemetry = record point { sampled_at = 50 } ∷ point ∷ [] }

route_item-latest_telemetry_example :
    ShowsLatest
      (λ p. p.sampled_at)
      (λ p. p.task_id == 10)
      db.telemetry
      (route_item stores [] db (task_in TaskStatus.in_transit)).latest_telemetry
route_item-latest_telemetry_example =
    route_item-latest_telemetry stores [] db (task_in TaskStatus.in_transit)
