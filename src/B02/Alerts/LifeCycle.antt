-- ===== src/B02/Alerts/LifeCycle.antt =====
-- The life of an alert: open, acknowledged, resolved.
use black_soil_loop_server.Prelude.{
  ℕ, ◌+◌, ◌≡◌, refl, Bool, true, false, Option, some, none, ◌==◌, arith, inl, inr, Option-cases,
  ◌<◌, ◌∙◌, ==_iff, find-true,
}
use black_soil_loop_server.Models.{
  RowId, Instant, AlertStatus, AlertAction, AlertUpdate, Body, User, Alert, is_driver,
  TransportTask,
}
use black_soil_loop_server.Table.{get, put}
use black_soil_loop_server.Db.{Db, alert_key, task_key}
use black_soil_loop_server.Tx.{ok, Result-cases, ⊤}
use black_soil_loop_server.Env.{Env}
use black_soil_loop_server.Auth.Roles.{require_roles}
use black_soil_loop_server.Services.Journal.{add_outbox, add_audit}
use black_soil_loop_server.B02.Alerts.{alert_move, apply_alert_action, check_driver, update_alert}
use black_soil_loop_server.Table.Laws.{get-put_at}

-- How far an alert has come.
abbrev pub stage : AlertStatus → ℕ
stage AlertStatus.open_alert = 0
stage AlertStatus.acknowledged = 1
stage AlertStatus.resolved = 2

-- The status that an action leads to, and the column that it stamps.
abbrev pub target : AlertAction → AlertStatus
target AlertAction.acknowledge = AlertStatus.acknowledged
target AlertAction.resolve = AlertStatus.resolved

abbrev pub stamp : AlertAction → Alert → Option Instant
stamp AlertAction.acknowledge a = a.acknowledged_at
stamp AlertAction.resolve a = a.resolved_at

stamp-signed :
    (action : AlertAction) (a : Alert) (user_id : RowId) (version : ℕ)
    → stamp action (record a { actor_user_id = some user_id; object_version = version })
      ≡ stamp action a
stamp-signed AlertAction.acknowledge a user_id version = refl
stamp-signed AlertAction.resolve a user_id version = refl

apply-forward :
    (now : Instant) (action : AlertAction) (alert moved : Alert)
    → apply_alert_action now action alert ≡ some moved
    → (moved.status ≡ target action)
      × (stage alert.status < stage moved.status)
      × (moved.id ≡ alert.id)
      × (moved.object_version ≡ alert.object_version)
      × (stamp action moved ≡ some now)
unfolding apply_alert_action alert_move
apply-forward now action alert moved p =
    (ground arith, ground arith, ground arith, ground arith, ground arith)

check_driver-same :
    (drives : Bool) (task : Option TransportTask) (user : User) (u : ⊤) (db db' : Db)
    → check_driver drives task user db ≡ ok (u, db')
    → db' ≡ db
unfolding check_driver
check_driver-same false task user u db db' p = ground arith
check_driver-same true none user u db db' p = absurd (ground arith)
check_driver-same true (some task) user u db db' p = ground arith

-- A request on an alert that succeeds named the version that the alert has; it moves the stored alert forward, to the status that its action
-- names, under the next version and with the user, and stamps that status with the time.
pub update_alert-forward :
    (env : Env) (alert_id : RowId) (payload : AlertUpdate) (user : User) (alert : Alert)
    (body : Body) (db db' : Db)
    → get alert_id db.alerts ≡ some alert
    → update_alert env alert_id payload user db ≡ ok (body, db')
    → (alert.object_version ≡ payload.object_version)
      × ((after : Alert) × (get alert_id db'.alerts ≡ some after)
          × (after.status ≡ target payload.action)
          × (stage alert.status < stage after.status)
          × (after.object_version ≡ alert.object_version + 1)
          × (after.actor_user_id ≡ some user.id)
          × (stamp payload.action after ≡ some env.now))
unfolding update_alert require_roles add_outbox add_audit
update_alert-forward env alert_id payload user alert body db db' found p =
    elim (Result-cases (check_driver (is_driver user.role) (get alert.task_id db.tasks) user db)) [
      | inr (x, raised) ↦ absurd (ground arith)
      | inl (u, db₁, checked) ↦
          elim (Option-cases (apply_alert_action env.now payload.action alert)) [
            | inl refused ↦ absurd (ground arith)
            | inr (moved, accepted) ↦
                let (arrived, further, same_id, same_version, stamped) =
                  apply-forward env.now payload.action alert moved accepted in
                let kept =
                  check_driver-same (is_driver user.role) (get alert.task_id db.tasks) user u db db₁
                    checked in
                let after : Alert = record moved {
                  actor_user_id = some user.id;
                  object_version = moved.object_version + 1;
                } in
                let key : moved.id ≡ alert_id =
                  same_id
                  ∙ (==_iff _ _).0 (find-true (λ a. a.id == alert_id) db.alerts alert found) in
                let written : db'.alerts ≡ put after db.alerts = ground arith in
                (
                  ground arith,
                  (
                    after,
                    rw written (get-put_at after alert alert_id db.alerts key found),
                    arrived,
                    further,
                    ground arith,
                    refl,
                    stamp-signed payload.action moved user.id (moved.object_version + 1) ∙ stamped,
                  ),
                )
          ]
    ]
