-- ===== src/B02/Alerts.antt =====
-- `update_alert` of app/b02/main.py: an alert is acknowledged and resolved.
pub mod LifeCycle
use black_soil_loop_server.Prelude.{◌+◌, Bool, true, false, not, Option, none, some, ◌==◌, opt_eq}
use black_soil_loop_server.Models.{
  RowId, Instant, AlertStatus, AlertAction, is_driver, Topic, ObjectType, AlertUpdate, Body, User,
  TransportTask, Alert, AuditAction,
}
use black_soil_loop_server.Errors.{lookup_error, ErrorCode, error, version_conflict}
use black_soil_loop_server.Table.{get, put}
use black_soil_loop_server.Db.{task_key, alert_key}
use black_soil_loop_server.Tx.{Tx, ⊤, pure, raise_if, or_raise, gets, modify, ◌>>=◌, ◌>>◌}
use black_soil_loop_server.Env.{Env}
use black_soil_loop_server.Auth.Roles.{require_roles, carriers}
use black_soil_loop_server.Services.Journal.{add_outbox, add_audit}

-- The change of status that an action makes, with its time stamp.
unfoldable pub alert_move : Instant → AlertAction → AlertStatus → Alert → Option Alert
alert_move now AlertAction.acknowledge AlertStatus.open_alert a =
    some (record a { status = AlertStatus.acknowledged; acknowledged_at = some now })
alert_move now AlertAction.resolve AlertStatus.open_alert a =
    some (record a { status = AlertStatus.resolved; resolved_at = some now })
alert_move now AlertAction.resolve AlertStatus.acknowledged a =
    some (record a { status = AlertStatus.resolved; resolved_at = some now })
alert_move now _ _ a = none

unfoldable pub apply_alert_action : Instant → AlertAction → Alert → Option Alert
apply_alert_action now action a = alert_move now action a.status a

-- `task.driver_id` of a driver's request. A task that is gone is an attribute of None.
unfoldable pub check_driver : Bool → Option TransportTask → User → Tx ⊤
check_driver false task user = pure tt
check_driver true task user = do
  found ← or_raise task lookup_error
  raise_if (not (opt_eq (some found.driver_id) user.driver_id)) (error ErrorCode.forbidden 403)

unfoldable pub update_alert : Env → RowId → AlertUpdate → User → Tx Body
update_alert env alert_id payload user = do
  require_roles carriers user
  found ← gets (λ db. get alert_id db.alerts)
  alert ← or_raise found (error ErrorCode.alert_not_found 404)
  task ← gets (λ db. get alert.task_id db.tasks)
  check_driver (is_driver user.role) task user
  raise_if (not (alert.object_version == payload.object_version))
      (version_conflict alert.object_version)
  moved ←
      or_raise (apply_alert_action env.now payload.action alert)
        (error ErrorCode.invalid_transition 409)
  let changed : Alert = record moved {
    actor_user_id = some user.id;
    object_version = moved.object_version + 1;
  }
  modify (λ db. record db { alerts = put changed db.alerts })
  let response = Body.alert_status changed.id changed.status changed.object_version
  add_outbox env Topic.alert_status_changed ObjectType.alert changed.id changed.object_version
      response
  add_audit env (some user.id) (AuditAction.alert_action payload.action) ObjectType.alert changed.id
      (some (Body.alert_state alert.status)) (some response)
  pure response
