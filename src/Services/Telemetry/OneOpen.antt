-- ===== src/Services/Telemetry/OneOpen.antt =====
-- The open alerts of a task, counted by type.
use black_soil_loop_server.Prelude.{
  ℕ, ◌+◌, ◌≡◌, refl, Bool, true, ◌&&◌, List, [], ◌∷◌, ◌++◌, any, arith, inl, inr, Bool-cases, ◌==◌,
  if◌then◌else◌, ltb, none,
}
use black_soil_loop_server.Models.{RowId, AlertType, AlertStatus, Alert, same_alert_type}
use black_soil_loop_server.Db.{Db}
use black_soil_loop_server.Tx.{ok, >>-eq-ok}
use black_soil_loop_server.Env.{Env}
use black_soil_loop_server.Services.Journal.{add_outbox}
use black_soil_loop_server.Services.Telemetry.{
  is_open_alert, add_alert, open_unless, open_alerts, has_type,
}

-- The number of open alerts of a type.
unfoldable pub open_count : RowId → AlertType → List Alert → ℕ
open_count task_id t [] = 0
open_count task_id t (a ∷ alerts) =
    let rest = open_count task_id t alerts in if is_open_alert task_id t a then 1 + rest else rest

same_type-eq : (u t : AlertType) → same_alert_type u t ≡ true → u ≡ t
same_type-eq AlertType.humidity AlertType.humidity h = refl
same_type-eq AlertType.temperature AlertType.temperature h = refl
same_type-eq AlertType.humidity AlertType.temperature h = absurd (ground arith)
same_type-eq AlertType.temperature AlertType.humidity h = absurd (ground arith)

open_count-any :
    (task_id : RowId) (t : AlertType) (alerts : List Alert)
    → any (is_open_alert task_id t) alerts ≡ ltb 0 (open_count task_id t alerts)
unfolding open_count
open_count-any task_id t [] = refl
open_count-any task_id t (a ∷ alerts) = ground (arith, open_count-any task_id t alerts)

open_count-append :
    (task_id : RowId) (t : AlertType) (xs ys : List Alert)
    → open_count task_id t (xs ++ ys) ≡ open_count task_id t xs + open_count task_id t ys
unfolding open_count
open_count-append task_id t [] ys = omega arith
open_count-append task_id t (x ∷ xs) ys = ground (arith, open_count-append task_id t xs ys)

-- A count after rounds that met the type or not.
abbrev pub opened : Bool → ℕ → ℕ
opened met n = if met && (n == 0) then 1 else n

round-count :
    (env : Env) (task_id : RowId) (t : AlertType) (db db' : Db)
    → open_unless env (any (is_open_alert task_id t) db.alerts) task_id t db ≡ ok (tt, db')
    → (u : AlertType)
    → open_count task_id u db'.alerts
      ≡ opened (same_alert_type u t) (open_count task_id u db.alerts)
unfolding open_unless add_alert add_outbox open_count
round-count env task_id t db db' p u =
    let counted = open_count-any task_id t db.alerts in
    let same = same_type-eq u t in
    elim (Bool-cases (any (is_open_alert task_id t) db.alerts)) [
      | inl there ↦
          let kept : db'.alerts ≡ db.alerts = ground arith in
          elim (Bool-cases (same_alert_type u t)) [
            | inl met ↦ simp (kept, same met) (ground (arith, counted))
            | inr other ↦ ground (arith, kept, other)
          ]
      | inr free ↦
          let new : Alert = record {
            id = db.next_id;
            task_id = task_id;
            alert_type = t;
            status = AlertStatus.open_alert;
            opened_at = env.now;
            acknowledged_at = none;
            resolved_at = none;
            actor_user_id = none;
            object_version = 1;
          } in
          let grown : db'.alerts ≡ db.alerts ++ new ∷ [] = ground arith in
          let total = open_count-append task_id u db.alerts (new ∷ []) in
          elim (Bool-cases (same_alert_type u t)) [
            | inl met ↦ ground (arith, grown, total, met, same met, counted)
            | inr other ↦ ground (arith, grown, total, other)
          ]
    ]

-- The loop leaves, of each type it is given, one open alert where the task had none, and the others as
-- they were: a type with at most one open alert has at most one afterwards.
pub open_alerts-count :
    (env : Env) (task_id : RowId) (types : List AlertType) (db db' : Db)
    → open_alerts env task_id types db ≡ ok (tt, db')
    → (t : AlertType)
    → open_count task_id t db'.alerts ≡ opened (has_type t types) (open_count task_id t db.alerts)
unfolding open_alerts
open_alerts-count env task_id [] db db' p t = ground arith
open_alerts-count env task_id (u ∷ types) db db' p t =
    let (mid, first, rest) =
      >>-eq-ok (open_unless env (any (is_open_alert task_id u) db.alerts) task_id u)
        (open_alerts env task_id types) db p in
    ground (
      arith,
      round-count env task_id u db mid first t,
      open_alerts-count env task_id types mid db' rest t,
    )
