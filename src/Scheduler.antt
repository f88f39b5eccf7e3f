-- ===== src/Scheduler.antt =====
-- `run_scheduled_jobs` of app/scheduler.py, but for what the refresh writes to the projection
-- (Dashboard/Snapshot) and the result of a forecast, which no code reads again. The pairs of enterprise
-- and product of the demand history are an argument, and so is whether `forecast_demand` or
-- `refresh_dashboard_projection` raises: then nothing is committed.
pub mod Expiry
use black_soil_loop_server.Prelude.{
  ℕ, ◌+◌, String, Bool, true, false, not, ◌&&◌, Option, none, some, List, [], ◌∷◌, ◌++◌, leb,
  is_some, select, length,
}
use black_soil_loop_server.Models.{Instant, TransportPlan, RowId, UserSession, AlgorithmType}
use black_soil_loop_server.Db.{Db}
use black_soil_loop_server.Table.{update_where}
use black_soil_loop_server.Auth.Sessions.{revoke}
use black_soil_loop_server.Errors.{runtime_error}
use black_soil_loop_server.Tx.{Tx, ⊤, ok, err, pure, raise_if, gets, modify, ◌>>=◌, ◌>>◌}

abbrev pub is_expired_session : Instant → UserSession → Bool
is_expired_session now s = not (is_some s.revoked_at) && leb s.expires_at now

abbrev pub expires_by : Instant → Option Instant → Bool
expires_by now none = false
expires_by now (some expires_at) = leb expires_at now

abbrev pub is_expired_plan : Instant → TransportPlan → Bool
is_expired_plan now p = is_some p.published_qr_token && expires_by now p.qr_expires_at

abbrev pub without_code : TransportPlan → TransportPlan
without_code p = record p { published_qr_token = none; object_version = p.object_version + 1 }

-- `db.add(AlgorithmRun(...))`
abbrev pub with_run : Db → Db
with_run db = record db {
  runs =
      db.runs
      ++ record {
        id = db.next_id;
        algorithm_type = AlgorithmType.demand_forecast;
        scenario_code = none;
        rules_version = "forecast-auto-v1";
        candidates = [];
        confirmed = false;
      }
        ∷ [];
  next_id = db.next_id + 1;
}

-- `forecast_raises` is the parameter for `forecast_demand` (app/domain/algorithms.py), `refresh_raises`
-- the one for `refresh_dashboard_projection` (app/domain/dashboard.py).
module _ (forecast_raises : RowId × RowId → Db → Bool) (refresh_raises : Db → Bool) where
  -- One run for each pair.
  unfoldable pub add_forecasts : List (RowId × RowId) → Tx ⊤
  add_forecasts [] = pure tt
  add_forecasts (pair ∷ pairs) = do
    raises ← gets (forecast_raises pair)
    raise_if raises runtime_error
    modify with_run
    add_forecasts pairs

  -- The counts of forecasts and of cleared codes.
  unfoldable pub run_scheduled_jobs : Instant → List (RowId × RowId) → Tx (ℕ × ℕ)
  run_scheduled_jobs now pairs = do
    expired ← gets (λ db. select (is_expired_plan now) db.plans)
    modify (λ db. record db {
      sessions = update_where (is_expired_session now) (revoke now) db.sessions;
      plans = update_where (is_expired_plan now) without_code db.plans;
    })
    add_forecasts pairs
    raises ← gets refresh_raises
    raise_if raises runtime_error
    pure (length pairs, length expired)
