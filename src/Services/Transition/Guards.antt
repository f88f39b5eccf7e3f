-- ===== src/Services/Transition/Guards.antt =====
-- What a step of a task has been checked for, and what it writes.
use black_soil_loop_server.Prelude.{
  ◌≤◌, String, ◌≡◌, refl, true, not, Option, none, some, arith, eq_iff, if◌then◌else◌, Bool-cases,
  Option-cases, ◌⊎◌, inl, inr, all,
}
use black_soil_loop_server.Models.{
  TaskStatus, TaskAction, TaskActionRequest, TransportTask, TaskStop, is_planned, Instant,
}
use black_soil_loop_server.Table.{put}
use black_soil_loop_server.Db.{Db, stop_key}
use black_soil_loop_server.Errors.{Raised}
use black_soil_loop_server.Tx.{Result, ⊤, ok, err, pure, or_raise-eq-ok, >>-eq-ok, ◌>>◌}
use black_soil_loop_server.Env.{Env}
use black_soil_loop_server.Services.Qr.{verify_task_qr, check_qr}
use black_soil_loop_server.Services.Transition.{
  invalid_transition, action_transition, is_deliver, is_pickup, deliver, advance, under_way,
  delivery_target, task_stops, deliver_stop, next_status,
}

-- The code that the caller showed is the task's, and has not expired.
pub record ShowsCode (env : Env) (task : TransportTask) (shown : Option String) : Type 0 where
  pub raw : String
  pub expires_at : Instant
  pub is_shown : shown ≡ some raw
  pub is_code : task.qr_token_hash ≡ some (env.sha256 raw)
  pub is_dated : task.qr_expires_at ≡ some expires_at
  pub in_time : env.now ≤ expires_at

check_qr-ok :
    (env : Env) (raw : String) (hash : Option String) (expiry : Option Instant) (db db' : Db)
    → check_qr env raw hash expiry db ≡ ok (tt, db')
    → (e : Instant) × (hash ≡ some (env.sha256 raw))
      × (expiry ≡ some e)
      × (env.now ≤ e)
      × (db' ≡ db)
unfolding check_qr
check_qr-ok env raw (some h) (some e) db db' p =
    (e, ground (arith, eq_iff h (env.sha256 raw)), refl, ground arith, ground arith)
check_qr-ok env raw (some h) none db db' p = absurd (ground arith)
check_qr-ok env raw none e db db' p = absurd (ground arith)

pub verify-ShowsCode :
    (env : Env) (task : TransportTask) (shown : Option String) (db db' : Db)
    → verify_task_qr env task shown db ≡ ok (tt, db')
    → ShowsCode env task shown × (db' ≡ db)
unfolding verify_task_qr
verify-ShowsCode env task none db db' p = absurd (ground arith)
verify-ShowsCode env task (some raw) db db' p =
    let (e, code, dated, fresh, same) =
      check_qr-ok env raw task.qr_token_hash task.qr_expires_at db db' p in
    (
      record {
        raw = raw;
        expires_at = e;
        is_shown = refl;
        is_code = code;
        is_dated = dated;
        in_time = fresh;
      },
      same,
    )

-- The check either holds and changes nothing, or raises.
pub verify-cases :
    (env : Env) (task : TransportTask) (shown : Option String) (db : Db)
    → (ShowsCode env task shown × (verify_task_qr env task shown db ≡ ok (tt, db)))
      ⊎ ((x : Raised) × (verify_task_qr env task shown db ≡ err x))
verify-cases env task shown db = go (verify_task_qr env task shown db) refl
  where
    go :
        (r : Result (⊤ × Db))
        → verify_task_qr env task shown db ≡ r
        → (ShowsCode env task shown × (verify_task_qr env task shown db ≡ ok (tt, db)))
          ⊎ ((x : Raised) × (verify_task_qr env task shown db ≡ err x))
    go (ok (_, db')) e =
        let (shows, same) = verify-ShowsCode env task shown db db' e in inl (shows, rw same at e)
    go (err x) e = inr (x, e)

-- A step by the table.
pub record Advanced (env : Env) (task : TransportTask) (action : TaskAction) (shown : Option String)
    (to : TaskStatus) (db db' : Db) : Type 0 where
  pub in_table : action_transition task.status action ≡ some to
  pub code : is_pickup action ≡ true → ShowsCode env task shown
  pub unchanged : db' ≡ db

pub advance-Advanced :
    (env : Env) (task : TransportTask) (action : TaskAction) (payload : TaskActionRequest)
    (to : TaskStatus) (db db' : Db)
    → advance env task action payload db ≡ ok (to, db')
    → Advanced env task action payload.qr_token to db db'
unfolding advance
advance-Advanced env task action payload to db db' p =
    let (to₁, looked, rest) =
      or_raise-eq-ok (action_transition task.status action) (invalid_transition task.status action)
        (λ t.
          (if is_pickup action then verify_task_qr env task payload.qr_token else pure tt)
          >> pure t)
        db p in
    let (db₁, checked, last) =
      >>-eq-ok (if is_pickup action then verify_task_qr env task payload.qr_token else pure tt)
        (pure to₁) db rest in
    elim (Bool-cases (is_pickup action)) [
      | inl picks ↦
          (let (shows, same) =
              verify-ShowsCode env task payload.qr_token db db₁ (rw picks at checked) in
            record { in_table = ground arith; code = λ _. shows; unchanged = ground arith })
      | inr other ↦ record {
        in_table = ground arith;
        code = λ q. absurd (ground arith);
        unchanged = ground arith;
      }
    ]

-- A delivery of a stop.
pub record Delivered (env : Env) (task : TransportTask) (payload : TaskActionRequest)
    (to : TaskStatus) (db db' : Db) : Type 0 where
  pub target : TaskStop
  pub is_under_way : under_way task.status ≡ true
  pub is_target : delivery_target payload.stop_id (task_stops task.id db) ≡ some target
  pub code : ShowsCode env task payload.qr_token
  pub status : to ≡ (
      if all (λ s. not (is_planned s.status)) (put (deliver_stop target) (task_stops task.id db))
      then TaskStatus.delivered
      else TaskStatus.in_transit)
  pub changed : db' ≡ record db { stops = put (deliver_stop target) db.stops }

pub deliver-Delivered :
    (env : Env) (task : TransportTask) (payload : TaskActionRequest) (to : TaskStatus) (db db' : Db)
    → deliver env task payload db ≡ ok (to, db')
    → Delivered env task payload to db db'
unfolding deliver
deliver-Delivered env task payload to db db' p =
    elim (Option-cases (delivery_target payload.stop_id (task_stops task.id db))) [
      | inl missing ↦ absurd (ground arith)
      | inr (target, found) ↦ elim (verify-cases env task payload.qr_token db) [
        | inl (shows, checked) ↦ record {
          target = target;
          is_under_way = ground arith;
          is_target = found;
          code = shows;
          status = ground arith;
          changed = ground arith;
        }
        | inr (x, raised) ↦ absurd (ground arith)
      ]
    ]

-- Which of the two branches a step took.
pub next_status-cases :
    (env : Env) (task : TransportTask) (action : TaskAction) (payload : TaskActionRequest)
    (to : TaskStatus) (db db' : Db)
    → next_status env task action payload db ≡ ok (to, db')
    → Delivered env task payload to db db' ⊎ Advanced env task action payload.qr_token to db db'
unfolding next_status
next_status-cases env task action payload to db db' p = elim (Bool-cases (is_deliver action)) [
  | inl delivers ↦ inl (deliver-Delivered env task payload to db db' (rw delivers at p))
  | inr other ↦ inr (advance-Advanced env task action payload to db db' (rw other at p))
]
