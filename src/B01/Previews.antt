-- ===== src/B01/Previews.antt =====
-- `carpool_preview` and `warehouse_preview` of app/b01/main.py: an algorithm run over stored orders.
-- The rows of `core` that they read, which no handler writes, are arguments.
pub mod Drafts
pub mod Confirmable
use black_soil_loop_server.Prelude.{ℕ, String, List, ◌++◌, ◌∷◌, [], some, none, Option, false, ◌+◌}
use black_soil_loop_server.Tx.{◌>>=◌, ◌>>◌, Tx, ok, gets, or_raise, pure}
use black_soil_loop_server.Models.{
  AlgorithmType, Vehicle, Warehouse, Candidate, MatchPreviewRequest, User, AlgorithmRun,
}
use black_soil_loop_server.Algorithms.Carpool.{Outcome, run_carpool}
use black_soil_loop_server.Algorithms.Rules.{Measures}
use black_soil_loop_server.Algorithms.Warehouse.{Survey, PoolOutcome, run_warehouse_pool}
use black_soil_loop_server.Auth.Roles.{require_roles, planners}
use black_soil_loop_server.B01.Orders.{selected_orders}
use black_soil_loop_server.Errors.{runtime_error}
use black_soil_loop_server.Algorithms.Carpool.Stops.{candidates_of}

-- The result of a preview, under the id of its run.
unfoldable pub add_run : AlgorithmType → Option String → String → List Candidate → Tx AlgorithmRun
add_run algorithm_type scenario_code rules_version candidates db =
    let run : AlgorithmRun = record {
      id = db.next_id;
      algorithm_type = algorithm_type;
      scenario_code = scenario_code;
      rules_version = rules_version;
      candidates = candidates;
      confirmed = false;
    } in
    ok (run, record db { runs = db.runs ++ run ∷ []; next_id = db.next_id + 1 })

-- Where the fuel of `run_carpool` ran out, this would raise; the code has no such case.
unfoldable pub carpool_preview :
    Measures → List Vehicle → MatchPreviewRequest → User → Tx (AlgorithmRun × Outcome)
carpool_preview m vehicles payload user = do
  require_roles planners user
  orders ← gets (selected_orders payload.order_ids payload.scenario_code)
  result ← or_raise (run_carpool m orders vehicles) runtime_error
  run ←
      add_run AlgorithmType.carpool payload.scenario_code "carpool-balanced-v1"
        (candidates_of m result.matches)
  pure (run, result)

unfoldable pub warehouse_preview :
    Survey → List Warehouse → MatchPreviewRequest → User → Tx (AlgorithmRun × PoolOutcome)
warehouse_preview s warehouses payload user = do
  require_roles planners user
  orders ← gets (selected_orders payload.order_ids payload.scenario_code)
  let result = run_warehouse_pool s orders warehouses
  run ← add_run AlgorithmType.warehouse payload.scenario_code "warehouse-balanced-v1" []
  pure (run, result)
