-- ===== src/Services/Telemetry.antt =====
-- `ingest_telemetry` of app/domain/services.py: samples, their anomalies, and the alerts opened.
-- Temperatures and humidities are counted in thousandths.
pub mod OneOpen
use black_soil_loop_server.Prelude.{
  ◌+◌, String, Bool, true, false, ◌&&◌, none, List, [], ◌∷◌, ◌++◌, ◌==◌, if◌then◌else◌, any, length,
}
use black_soil_loop_server.Prelude.Int.{ℤ, pos, negsuc, leb_ℤ}
use black_soil_loop_server.Models.{
  RowId, TemperatureZone, AlertType, AlertStatus, same_alert_type, is_open, Topic, ObjectType,
  TelemetrySample, Payload, Scope, Body, TransportTask, Alert,
}
use black_soil_loop_server.Tx.{Tx, ⊤, ok, pure, gets, ◌>>=◌, ◌>>◌}
use black_soil_loop_server.Env.{Env}
use black_soil_loop_server.Services.Idempotency.{once}
use black_soil_loop_server.Services.Journal.{add_outbox}

pub record Limits : Type 0 where
  pub t_low : ℤ
  pub t_high : ℤ
  pub h_low : ℤ
  pub h_high : ℤ

-- TEMPERATURE_LIMITS
unfoldable pub temperature_limits : TemperatureZone → Limits
temperature_limits TemperatureZone.ambient = record {
  t_low = pos 0;
  t_high = pos 25_000;
  h_low = pos 20_000;
  h_high = pos 80_000;
}
temperature_limits TemperatureZone.chilled = record {
  t_low = pos 0;
  t_high = pos 8_000;
  h_low = pos 30_000;
  h_high = pos 85_000;
}
temperature_limits TemperatureZone.frozen = record {
  t_low = negsuc 24_999;
  t_high = negsuc 11_999;
  h_low = pos 20_000;
  h_high = pos 90_000;
}

-- `low <= x <= high`
abbrev pub within : ℤ → ℤ → ℤ → Bool
within low high x = leb_ℤ low x && leb_ℤ x high

-- `anomaly_codes` of one sample.
unfoldable pub anomaly_codes : Limits → TelemetrySample → List AlertType
anomaly_codes limits sample =
    (if within limits.t_low limits.t_high sample.temperature_c
      then []
      else AlertType.temperature ∷ [])
    ++ (if within limits.h_low limits.h_high sample.humidity_pct
        then []
        else AlertType.humidity ∷ [])

abbrev pub has_type : AlertType → List AlertType → Bool
has_type t codes = any (same_alert_type t) codes

-- `sorted(anomalies)`: "HUMIDITY" stands before "TEMPERATURE".
unfoldable pub sorted_types : List AlertType → List AlertType
sorted_types codes =
    (if has_type AlertType.humidity codes then AlertType.humidity ∷ [] else [])
    ++ (if has_type AlertType.temperature codes then AlertType.temperature ∷ [] else [])

unfoldable pub add_point : TransportTask → List AlertType → TelemetrySample → Tx ⊤
add_point task codes sample db = ok (
  tt,
  record db {
    telemetry =
        db.telemetry
        ++ record {
          id = db.next_id;
          task_id = task.id;
          vehicle_id = task.vehicle_id;
          sampled_at = sample.sampled_at;
          temperature_c = sample.temperature_c;
          humidity_pct = sample.humidity_pct;
          latitude = sample.latitude;
          longitude = sample.longitude;
          anomaly_code = codes;
        }
          ∷ [];
    next_id = db.next_id + 1;
  },
)

-- The loop over the samples: it stores each and returns the codes met.
unfoldable pub ingest_samples : TransportTask → Limits → List TelemetrySample → Tx (List AlertType)
ingest_samples task limits [] = pure []
ingest_samples task limits (sample ∷ samples) = do
  add_point task (anomaly_codes limits sample) sample
  rest ← ingest_samples task limits samples
  pure (anomaly_codes limits sample ++ rest)

-- The task has an open alert of the type.
abbrev pub is_open_alert : RowId → AlertType → Alert → Bool
is_open_alert task_id t a =
    a.task_id == task_id && (same_alert_type t a.alert_type && is_open a.status)

module _ (env : Env) where
  unfoldable pub add_alert : RowId → AlertType → Tx RowId
  add_alert task_id t db = ok (
    db.next_id,
    record db {
      alerts =
          db.alerts
          ++ record {
            id = db.next_id;
            task_id = task_id;
            alert_type = t;
            status = AlertStatus.open_alert;
            opened_at = env.now;
            acknowledged_at = none;
            resolved_at = none;
            actor_user_id = none;
            object_version = 1;
          }
            ∷ [];
      next_id = db.next_id + 1;
    },
  )

  unfoldable pub open_unless : Bool → RowId → AlertType → Tx ⊤
  open_unless true task_id t = pure tt
  open_unless false task_id t = do
    id ← add_alert task_id t
    add_outbox env Topic.alert_opened ObjectType.alert id 1 (Body.alert task_id t)

  -- The loop over the sorted types: an open alert is not opened again.
  unfoldable pub open_alerts : RowId → List AlertType → Tx ⊤
  open_alerts task_id [] = pure tt
  open_alerts task_id (t ∷ types) = do
    existing ← gets (λ db. any (is_open_alert task_id t) db.alerts)
    open_unless existing task_id t
    open_alerts task_id types

  unfoldable pub ingest : TransportTask → List TelemetrySample → Tx Body
  ingest task samples = do
    anomalies ← ingest_samples task (temperature_limits task.temperature_zone) samples
    open_alerts task.id (sorted_types anomalies)
    pure (Body.telemetry (length samples) (sorted_types anomalies))

  unfoldable pub ingest_telemetry : TransportTask → List TelemetrySample → String → Tx Body
  ingest_telemetry task samples key =
      once env (Scope.telemetry task.id) key (Payload.telemetry task.id task.vehicle_id samples) 202
        (ingest task samples)
