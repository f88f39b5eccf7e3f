-- ===== src/Services/Transition/Authority.antt =====
-- Who may take a step of a task, and what is shown for it.
use black_soil_loop_server.Prelude.{
  ℕ, String, ◌≡◌, true, ◌||◌, arith, inl, inr, Option, none, some, opt_eq,
}
use black_soil_loop_server.Models.{
  TaskAction, TaskActionRequest, Body, User, TransportTask, TaskStatus,
}
use black_soil_loop_server.Db.{Db}
use black_soil_loop_server.Tx.{ok, >>-eq-ok}
use black_soil_loop_server.Env.{Env}
use black_soil_loop_server.Services.Qr.{ensure_task_scope}
use black_soil_loop_server.Services.Transition.{action_transition, is_deliver, is_pickup, perform}
use black_soil_loop_server.Services.Transition.Guards.{ShowsCode, next_status-cases}
use black_soil_loop_server.Services.Transition.Effects.{InScope, perform-Performed}

opt_eq-some : (o : Option ℕ) (x : ℕ) → opt_eq o (some x) ≡ true → o ≡ some x
opt_eq-some (some y) x h = ground arith
opt_eq-some none x h = ground arith

scope-InScope :
    (user : User) (task : TransportTask) (db db' : Db)
    → ensure_task_scope user task db ≡ ok (tt, db')
    → InScope user task
unfolding ensure_task_scope
scope-InScope user task db db' p = (
  λ drives. opt_eq-some user.driver_id task.driver_id (ground arith),
  λ keeps. opt_eq-some user.store_id task.store_id (ground arith),
)

-- The table knows no delivery.
table-pickup :
    (from : TaskStatus) (action : TaskAction) (to : TaskStatus)
    → action_transition from action ≡ some to
    → (is_pickup action || is_deliver action) ≡ true
    → is_pickup action ≡ true
unfolding action_transition
table-pickup from action to h needs = ground arith

-- A driver's step that succeeds was asked for by a user of the task's scope, on the version the
-- task has, and a pickup or a delivery showed the task's QR code before it expired.
pub perform-authority :
    (env : Env) (task : TransportTask) (user : User) (action : TaskAction) (version : ℕ)
    (key : String) (payload : TaskActionRequest) (body : Body) (db db' : Db)
    → perform env task user action version key payload db ≡ ok (body, db')
    → InScope user task
      × (task.object_version ≡ version)
      × ((is_pickup action || is_deliver action) ≡ true → ShowsCode env task payload.qr_token)
unfolding perform
perform-authority env task user action version key payload body db db' done =
    let (db₁, scoped, rest) = >>-eq-ok (ensure_task_scope user task) _ db done in
    let p = perform-Performed env task user action version key payload body db db' done in
    (
      scope-InScope user task db db₁ scoped,
      p.version,
      λ needs. elim (next_status-cases env task action payload p.to db p.mid p.step) [
        | inl delivered ↦ delivered.code
        | inr advanced ↦
            advanced.code (table-pickup task.status action p.to advanced.in_table needs)
      ],
    )
