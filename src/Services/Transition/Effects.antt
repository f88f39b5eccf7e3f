-- ===== src/Services/Transition/Effects.antt =====
-- What a successful step writes.
use black_soil_loop_server.Prelude.{
  ℕ, ◌+◌, String, ◌≡◌, inl, inr, true, none, some, [], ◌∷◌, ◌++◌, arith, or_else, Bool-cases, false,
  ◌⊎◌,
}
use black_soil_loop_server.Models.{
  TaskStatus, TaskAction, TaskActionRequest, Body, User, TransportTask, EventAction, EventKey,
  Topic, is_driver, is_store_role, ObjectType, AuditAction, TaskStop,
}
use black_soil_loop_server.Table.{put}
use black_soil_loop_server.Db.{Db, task_key, stop_key}
use black_soil_loop_server.Tx.{ok, Result-cases}
use black_soil_loop_server.Env.{Env}
use black_soil_loop_server.Services.Journal.{add_outbox, add_audit, outbox_row, audit_row}
use black_soil_loop_server.Services.Events.{add_task_event-cases, event_row}
use black_soil_loop_server.Services.Qr.{ensure_task_scope}
use black_soil_loop_server.Services.Transition.{
  next_status, perform, is_deliver, delivery_target, task_stops, deliver_stop,
}
use black_soil_loop_server.Services.Transition.Guards.{deliver-Delivered, advance-Advanced}

-- The user is not a driver of another task, nor of a store that is not the task's.
abbrev pub InScope : User → TransportTask → Type 0
InScope user task =
    (is_driver user.role ≡ true → user.driver_id ≡ some task.driver_id)
    × (is_store_role user.role ≡ true → user.store_id ≡ some task.store_id)

-- What the branch of an action writes: a delivery the stop that was its target, another action nothing.
pub record Branch (task : TransportTask) (action : TaskAction) (payload : TaskActionRequest)
    (db mid : Db) : Type 0 where
  pub effect :
      ((is_deliver action ≡ false) × (mid ≡ db))
      ⊎ ((is_deliver action ≡ true)
          × ((target : TaskStop) × (delivery_target payload.stop_id (task_stops task.id db)
                ≡ some target)
              × (mid ≡ record db { stops = put (deliver_stop target) db.stops })))

-- The parts of a step that succeeded.
pub record Performed (env : Env) (task : TransportTask) (user : User) (action : TaskAction)
    (expected_version : ℕ) (key : String) (payload : TaskActionRequest) (body : Body) (db db' : Db)
    : Type 0 where
  pub to : TaskStatus
  pub mid : Db
  pub version : task.object_version ≡ expected_version
  pub branch : Branch task action payload db mid
  pub others : db' ≡ record mid {
    tasks = db'.tasks;
    events = db'.events;
    outbox = db'.outbox;
    audit = db'.audit;
    next_id = db'.next_id;
    next_sequence = mid.next_sequence + 1;
  }
  pub step : next_status env task action payload db ≡ ok (to, mid)
  pub answer : body ≡ Body.task task.id task.task_no to (task.object_version + 1)
  pub tasks :
      db'.tasks
      ≡ put (record task { status = to; object_version = task.object_version + 1 }) mid.tasks
  pub stops : db'.stops ≡ mid.stops
  pub records : db'.records ≡ mid.records
  pub events :
      db'.events
      ≡ mid.events
        ++ event_row mid.next_id task.id task.status to
            (EventAction.driver_action action)
            user.id
            (EventKey.request key)
            (Body.action_note (record payload { qr_token = none }))
            (or_else payload.occurred_at env.now)
          ∷ []
  pub outbox :
      db'.outbox
      ≡ mid.outbox
        ++ outbox_row env mid.next_sequence
            (mid.next_id + 1)
            Topic.task_status_changed
            ObjectType.transport_task
            task.id
            (task.object_version + 1)
            body
          ∷ []
  pub ids : db'.next_id ≡ mid.next_id + 1 + 1 + 1
  pub audit :
      db'.audit
      ≡ mid.audit
        ++ audit_row env
            (mid.next_id + 1 + 1)
            (some user.id)
            (AuditAction.task_action action)
            ObjectType.transport_task
            task.id
            (some (Body.task_state task.status task.object_version))
            (some body)
          ∷ []

next_status-Branch :
    (env : Env) (task : TransportTask) (action : TaskAction) (payload : TaskActionRequest)
    (to : TaskStatus) (db mid : Db)
    → next_status env task action payload db ≡ ok (to, mid)
    → Branch task action payload db mid
unfolding next_status
next_status-Branch env task action payload to db mid p = elim (Bool-cases (is_deliver action)) [
  | inl delivers ↦
      let d = deliver-Delivered env task payload to db mid (rw delivers at p) in
      record { effect = inr (delivers, (d.target, d.is_target, d.changed)) }
  | inr other ↦
      let a = advance-Advanced env task action payload to db mid (rw other at p) in
      record { effect = inl (other, a.unchanged) }
]

pub perform-Performed :
    (env : Env) (task : TransportTask) (user : User) (action : TaskAction) (expected_version : ℕ)
    (key : String) (payload : TaskActionRequest) (body : Body) (db db' : Db)
    → perform env task user action expected_version key payload db ≡ ok (body, db')
    → Performed env task user action expected_version key payload body db db'
unfolding perform ensure_task_scope add_outbox add_audit
perform-Performed env task user action expected_version key payload body db db' p =
    elim (Result-cases (next_status env task action payload db)) [
      | inr (x, raised) ↦ absurd (ground arith)
      | inl (to, mid, step) ↦
          (let moved : TransportTask = record task {
            status = to;
            object_version = task.object_version + 1;
          } in
            elim (add_task_event-cases task.id task.status to (EventAction.driver_action action)
              user.id (EventKey.request key) (Body.action_note (record payload { qr_token = none }))
              (or_else payload.occurred_at env.now) (record mid { tasks = put moved mid.tasks })) [
                | inr clash ↦ absurd (ground arith)
                | inl added ↦ record {
                  to = to;
                  mid = mid;
                  version = ground arith;
                  branch = next_status-Branch env task action payload to db mid step;
                  others = ground arith;
                  ids = ground arith;
                  step = step;
                  answer = ground arith;
                  tasks = ground arith;
                  stops = ground arith;
                  records = ground arith;
                  events = ground arith;
                  outbox = ground arith;
                  audit = ground arith;
                }
              ])
    ]
