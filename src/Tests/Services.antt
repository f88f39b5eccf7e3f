-- ===== src/Tests/Services.antt =====
-- Examples for the other services: a login, an upload, alerts and a daily report.
use black_soil_loop_server.Prelude.{
  ◌+◌, ◌<◌, ◌≡◌, ◌≢◌, refl, true, false, List, [], ◌∷◌, some, none, any, select, length, ◌≤◌,
}
use black_soil_loop_server.Models.{
  RowId, AlertType, AlertStatus, AlertAction, AlertUpdate, Alert, Body, UserSession,
  DailyReportCreate,
}
use black_soil_loop_server.Table.{get}
use black_soil_loop_server.Db.{Db, alert_key}
use black_soil_loop_server.Auth.Sessions.{
  Crypto, Decoded, Settings, IssuedTokens, is_live_of, issue_tokens,
}
use black_soil_loop_server.Auth.Sessions.Single.{issue_tokens-single}
use black_soil_loop_server.B02.Upload.{
  ImageType, Bytes, valid_image_signature, read_upload, read_more, starts_with,
}
use black_soil_loop_server.B02.Upload.Content.{content_of, read_upload-stored}
use black_soil_loop_server.Services.Telemetry.{open_alerts, has_type, open_unless, add_alert}
use black_soil_loop_server.Services.Telemetry.OneOpen.{open_count, opened, open_alerts-count}
use black_soil_loop_server.Services.StoreReports.{submit_report, add_report}
use black_soil_loop_server.Services.StoreReports.Daily.{
  is_report_of, OnePerDay, submit_report-OnePerDay,
}
use black_soil_loop_server.B02.Alerts.{update_alert, check_driver, apply_alert_action, alert_move}
use black_soil_loop_server.B02.Alerts.LifeCycle.{stage, target, stamp, update_alert-forward}
use black_soil_loop_server.Tests.Data.{env, driver, db_with, state_of, moving}
use black_soil_loop_server.Auth.Roles.{require_roles}
use black_soil_loop_server.Services.Journal.{add_outbox, add_audit}

abbrev jpeg_bytes : Bytes
jpeg_bytes = 0xff ∷ 0xd8 ∷ 0xff ∷ 7 ∷ []

abbrev stored_bytes : Bytes
stored_bytes = 0xff ∷ 0xd8 ∷ 0xff ∷ 7 ∷ 8 ∷ 9 ∷ []

read_upload-stored_example :
    (stored_bytes ≡ content_of (jpeg_bytes ∷ (8 ∷ 9 ∷ []) ∷ []))
    × (length stored_bytes ≤ 6)
    × ((first : Bytes) × (rest : List Bytes) × (jpeg_bytes ∷ (8 ∷ 9 ∷ []) ∷ [] ≡ first ∷ rest)
        × (valid_image_signature ImageType.jpeg first ≡ true))
unfolding read_upload read_more valid_image_signature starts_with
read_upload-stored_example =
    read_upload-stored ImageType.jpeg 6 (jpeg_bytes ∷ (8 ∷ 9 ∷ []) ∷ []) stored_bytes refl

abbrev crypto : Crypto
crypto = record {
  encode = λ c. c.nonce;
  decode = λ now s. Decoded.malformed;
  token_hash = λ s. s;
  verify_password = λ p h. true;
}

abbrev settings : Settings
settings = record { access_token_life = 100; refresh_token_life = 1_000; idle_timeout = 50 }

abbrev session : RowId → RowId → UserSession
session id user_id = record {
  id = id;
  user_id = user_id;
  refresh_token_hash = "old";
  session_version = 1;
  expires_at = 900;
  last_activity_at = 10;
  revoked_at = none;
}

abbrev login_db : Db
login_db = record (db_with [] []) { sessions = session 60 1 ∷ session 61 2 ∷ [] }

abbrev tokens : IssuedTokens
tokens = record {
  access_token = "";
  refresh_token = "nonce";
  access_expires_at = 120;
  refresh_expires_at = 1_020;
}

abbrev logged_in : Db
logged_in = state_of login_db (issue_tokens crypto settings 20 "nonce" driver login_db)

issue_tokens-single_example :
    ((s : UserSession) × (select (is_live_of 1) logged_in.sessions ≡ s ∷ [])
      × (s.refresh_token_hash ≡ crypto.token_hash tokens.refresh_token)
      × (s.session_version ≡ driver.session_version + 1)
      × (s.expires_at ≡ tokens.refresh_expires_at))
    × ((other : RowId)
        → driver.id ≢ other
        → select (is_live_of other) logged_in.sessions
          ≡ select (is_live_of other) login_db.sessions)
unfolding issue_tokens
issue_tokens-single_example =
    issue_tokens-single crypto settings 20 "nonce" driver tokens login_db logged_in refl

abbrev types : List AlertType
types = AlertType.humidity ∷ AlertType.temperature ∷ []

abbrev alerted : Db
alerted = state_of (db_with [] []) (open_alerts env 10 types (db_with [] []))

open_alerts-count_example :
    open_count 10 AlertType.humidity alerted.alerts
    ≡ opened (has_type AlertType.humidity types) (open_count 10 AlertType.humidity [])
unfolding open_alerts open_unless add_alert add_outbox
open_alerts-count_example =
    open_alerts-count env 10 types (db_with [] []) alerted refl AlertType.humidity

abbrev alert : Alert
alert = record {
  id = 90;
  task_id = 10;
  alert_type = AlertType.humidity;
  status = AlertStatus.acknowledged;
  opened_at = 5;
  acknowledged_at = some 6;
  resolved_at = none;
  actor_user_id = none;
  object_version = 2;
}

abbrev resolve : AlertUpdate
resolve = record { object_version = 2; action = AlertAction.resolve }

abbrev alert_db : Db
alert_db = record (db_with (moving ∷ []) []) { alerts = alert ∷ [] }

abbrev resolved_db : Db
resolved_db = state_of alert_db (update_alert env 90 resolve driver alert_db)

update_alert-forward_example :
    (alert.object_version ≡ resolve.object_version)
    × ((after : Alert) × (get 90 resolved_db.alerts ≡ some after)
        × (after.status ≡ target AlertAction.resolve)
        × (stage alert.status < stage after.status)
        × (after.object_version ≡ alert.object_version + 1)
        × (after.actor_user_id ≡ some 1)
        × (stamp AlertAction.resolve after ≡ some 1_000))
unfolding update_alert require_roles check_driver apply_alert_action alert_move add_outbox add_audit
update_alert-forward_example =
    update_alert-forward env 90 resolve driver alert (Body.alert_status 90 AlertStatus.resolved 3)
      alert_db resolved_db refl refl

abbrev report : DailyReportCreate
report = record {
  report_date = 3;
  sales_amount = 9;
  order_count = 2;
  authorized_for_dashboard = true;
  summary = "";
}

abbrev reported : Db
reported = state_of (db_with [] []) (submit_report env 7 report "key" (db_with [] []))

submit_report-OnePerDay_example :
    OnePerDay reported.reports
    × (any (is_report_of 7 3) [] ≡ false)
    × (any (is_report_of 7 3) reported.reports ≡ true)
unfolding submit_report add_report add_outbox
submit_report-OnePerDay_example =
    submit_report-OnePerDay env 7 report "key" (Body.daily_report 100 3 1) (db_with [] []) reported
      tt refl
