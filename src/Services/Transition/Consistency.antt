-- ===== src/Services/Transition/Consistency.antt =====
-- The stops of a task beside its status: planned up to the departure, delivered or planned under
-- way, delivered at the end of the route, then signed one by one.
use black_soil_loop_server.Prelude.{
  ℕ, ◌+◌, ◌≡◌, ◌≢◌, refl, Bool, true, false, not, ◌||◌, Option, none, some, List, [], ◌∷◌, arith,
  ◌==◌, ==_iff, select, all, Bool-cases, inl, inr, ◌∙◌, all-find, all_of_forall, sym, String,
}
use black_soil_loop_server.Models.{
  RowId, TaskStatus, StopStatus, TransportTask, TaskStop, TaskAction, TaskActionRequest, User, Body,
  is_planned,
}
use black_soil_loop_server.Table.{get, put}
use black_soil_loop_server.Table.Laws.{
  Unique, put-Unique, all-put, all_of_put, all-put-Unique, all-order_by, all-select, put-cases,
}
use black_soil_loop_server.Db.{Db, task_key, stop_key}
use black_soil_loop_server.Tx.{ok}
use black_soil_loop_server.Env.{Env}
use black_soil_loop_server.Services.Transition.{
  action_transition, deliver_stop, task_stops, delivery_target, under_way, next_status, perform,
}
use black_soil_loop_server.Services.Transition.Guards.{Delivered, next_status-cases}
use black_soil_loop_server.Services.Transition.Effects.{perform-Performed}

-- The status that a stop may have under the status of its task.
unfoldable pub allows : TaskStatus → StopStatus → Bool
allows TaskStatus.in_transit StopStatus.planned = true
allows TaskStatus.in_transit StopStatus.delivered = true
allows TaskStatus.delivered StopStatus.delivered = true
allows TaskStatus.store_signed StopStatus.delivered = true
allows TaskStatus.store_signed StopStatus.signed = true
allows TaskStatus.completed StopStatus.signed = true
allows TaskStatus.confirmed StopStatus.planned = true
allows TaskStatus.published StopStatus.planned = true
allows TaskStatus.driver_accepted StopStatus.planned = true
allows TaskStatus.picked_up StopStatus.planned = true
allows TaskStatus.cancelled StopStatus.planned = true
allows _ _ = false

-- Every stop of the task has a status that the task's allows.
abbrev pub in_step : RowId → TaskStatus → List TaskStop → Bool
in_step id status stops = all (λ s. not (s.task_id == id) || allows status s.status) stops

abbrev pub IsConsistent : Db → Type 0
IsConsistent db =
    (id : RowId) (task : TransportTask)
    → get id db.tasks ≡ some task
    → in_step id task.status db.stops ≡ true

-- A step by the table leaves the stops where they are: planned, before and after.
in_step-advance :
    (id : RowId) (from to : TaskStatus) (action : TaskAction) (stops : List TaskStop)
    → action_transition from action ≡ some to
    → in_step id from stops ≡ true
    → in_step id to stops ≡ true
unfolding action_transition allows
in_step-advance id from to action [] h g = refl
in_step-advance id from to action (s ∷ stops) h g =
    ground (arith, in_step-advance id from to action stops h)

-- The target of a delivery is a stop of the task.
all-task_stops :
    (p : TaskStop → Bool) (id : RowId) (db : Db)
    → all p (task_stops id db) ≡ all (λ s. not (s.task_id == id) || p s) db.stops
unfolding task_stops
all-task_stops p id db =
    all-order_by (λ s. s.sequence_no) p (select (λ s. s.task_id == id) db.stops)
    ∙ all-select p (λ s. s.task_id == id) db.stops

stops-of_task : (id : RowId) (db : Db) → all (λ s. s.task_id == id) (task_stops id db) ≡ true
stops-of_task id db =
    all-task_stops (λ s. s.task_id == id) id db
    ∙ all_of_forall (λ s. not (s.task_id == id) || s.task_id == id) db.stops (λ s. ground arith)

target-of_task :
    (stop_id : Option RowId) (id : RowId) (db : Db) (target : TaskStop)
    → delivery_target stop_id (task_stops id db) ≡ some target
    → target.task_id ≡ id
unfolding delivery_target
target-of_task none id db target h = (==_iff _ _).0 (
    all-find (λ s. s.task_id == id) (λ s. is_planned s.status) (task_stops id db) target
      (stops-of_task id db) h)
target-of_task (some stop_id) id db target h = (==_iff _ _).0 (
    all-find (λ s. s.task_id == id) (λ s. s.id == stop_id) (task_stops id db) target
      (stops-of_task id db) h)

in_step-in_transit :
    (id : RowId) (from : TaskStatus) (stops : List TaskStop)
    → under_way from ≡ true
    → in_step id from stops ≡ true
    → in_step id TaskStatus.in_transit stops ≡ true
unfolding allows
in_step-in_transit id from [] u h = refl
in_step-in_transit id from (s ∷ stops) u h = ground (arith, in_step-in_transit id from stops)

-- Under way a stop that is not planned is delivered.
delivered-or-written :
    (id key : RowId) (from : TaskStatus) (stops : List TaskStop)
    → under_way from ≡ true
    → in_step id from stops ≡ true
    → all (λ s. not (s.task_id == id) || (not (is_planned s.status) || s.id == key)) stops ≡ true
    → all
        (λ s. (not (s.task_id == id) || allows TaskStatus.delivered s.status) || s.id == key)
        stops
      ≡ true
unfolding allows
delivered-or-written id key from [] u h g = refl
delivered-or-written id key from (s ∷ stops) u h g =
    ground (arith, delivered-or-written id key from stops)

module _ (id : RowId) (row : TaskStop) (is_of : row.task_id ≡ id)
    (done : row.status ≡ StopStatus.delivered) where
  -- The stop written is delivered, which both statuses under way allow.
  in_step-under_way :
      (from : TaskStatus) (stops : List TaskStop)
      → under_way from ≡ true
      → in_step id from stops ≡ true
      → in_step id TaskStatus.in_transit (put row stops) ≡ true
  unfolding allows
  in_step-under_way from stops u h =
      all-put (λ s. not (s.task_id == id) || allows TaskStatus.in_transit s.status) row stops
        (in_step-in_transit id from stops u h) (ground arith)

  -- No stop is left planned: all are delivered.
  in_step-delivered :
      (from : TaskStatus) (db : Db)
      → Unique db.stops
      → under_way from ≡ true
      → in_step id from db.stops ≡ true
      → all (λ s. not (is_planned s.status)) (put row (task_stops id db)) ≡ true
      → in_step id TaskStatus.delivered (put row db.stops) ≡ true
  unfolding allows
  in_step-delivered from db u way h left =
      all-put-Unique (λ s. not (s.task_id == id) || allows TaskStatus.delivered s.status) row
        db.stops u
        (delivered-or-written id row.id from db.stops way h (
          sym (all-task_stops (λ s. not (is_planned s.status) || s.id == row.id) id db)
          ∙ all_of_put (λ s. not (is_planned s.status)) row (task_stops id db) left))
        (ground arith)

-- A written stop of another task does not matter.
pub in_step-other :
    (id : RowId) (status : TaskStatus) (row : TaskStop) (stops : List TaskStop)
    → row.task_id ≢ id
    → in_step id status stops ≡ true
    → in_step id status (put row stops) ≡ true
in_step-other id status row stops ne h =
    all-put (λ s. not (s.task_id == id) || allows status s.status) row stops h (ground arith)

-- The step itself, for the task and for any other.
Delivered-in_step :
    (env : Env) (task : TransportTask) (payload : TaskActionRequest) (to : TaskStatus) (db mid : Db)
    → Unique db.stops
    → in_step task.id task.status db.stops ≡ true
    → Delivered env task payload to db mid
    → in_step task.id to mid.stops ≡ true
Delivered-in_step env task payload to db mid u h d =
    let row = deliver_stop d.target in
    let mine = target-of_task payload.stop_id task.id db d.target d.is_target in
    elim (Bool-cases (all (λ s. not (is_planned s.status)) (put row (task_stops task.id db)))) [
      | inl left ↦
          (let done =
              in_step-delivered task.id row mine refl task.status db u d.is_under_way h left in
            ground (arith, d.status, d.changed))
      | inr planned ↦
          (let moving =
              in_step-under_way task.id row mine refl task.status db.stops d.is_under_way h in
            ground (arith, d.status, d.changed))
    ]

step-in_step :
    (env : Env) (task : TransportTask) (action : TaskAction) (payload : TaskActionRequest)
    (to : TaskStatus) (db mid : Db)
    → Unique db.stops
    → next_status env task action payload db ≡ ok (to, mid)
    → in_step task.id task.status db.stops ≡ true
    → in_step task.id to mid.stops ≡ true
step-in_step env task action payload to db mid u step h =
    elim (next_status-cases env task action payload to db mid step) [
      | inl d ↦ Delivered-in_step env task payload to db mid u h d
      | inr a ↦ rw a.unchanged (in_step-advance task.id task.status to action db.stops a.in_table h)
    ]

step-other :
    (env : Env) (task : TransportTask) (action : TaskAction) (payload : TaskActionRequest)
    (to status : TaskStatus) (id : RowId) (db mid : Db)
    → task.id ≢ id
    → next_status env task action payload db ≡ ok (to, mid)
    → in_step id status db.stops ≡ true
    → in_step id status mid.stops ≡ true
step-other env task action payload to status id db mid ne step h =
    elim (next_status-cases env task action payload to db mid step) [
      | inl d ↦
          (let mine = target-of_task payload.stop_id task.id db d.target d.is_target in
            let kept =
              in_step-other id status (deliver_stop d.target) db.stops (λ e. ne (sym mine ∙ e)) h in
            ground (arith, d.changed))
      | inr a ↦ rw a.unchanged h
    ]

step-tables :
    (env : Env) (task : TransportTask) (action : TaskAction) (payload : TaskActionRequest)
    (to : TaskStatus) (db mid : Db)
    → Unique db.stops
    → next_status env task action payload db ≡ ok (to, mid)
    → Unique mid.stops × (mid.tasks ≡ db.tasks)
step-tables env task action payload to db mid u step =
    elim (next_status-cases env task action payload to db mid step) [
      | inl d ↦ (rw d.changed (put-Unique (deliver_stop d.target) db.stops u), rw d.changed)
      | inr a ↦ (rw a.unchanged u, rw a.unchanged)
    ]

-- The task as a step writes it.
abbrev stepped : TransportTask → TaskStatus → TransportTask
stepped task to = record task { status = to; object_version = task.object_version + 1 }

-- A driver's step that succeeds on the stored task, where the keys of the stops are unique and
-- every task is consistent with its stops, keeps both, for this task and for all others.
pub perform-IsConsistent :
    (env : Env) (task : TransportTask) (user : User) (action : TaskAction) (expected_version : ℕ)
    (key : String) (payload : TaskActionRequest) (body : Body) (db db' : Db)
    → Unique db.stops
    → get task.id db.tasks ≡ some task
    → IsConsistent db
    → perform env task user action expected_version key payload db ≡ ok (body, db')
    → Unique db'.stops × IsConsistent db'
perform-IsConsistent env task user action expected_version key payload body db db' u stored h done =
    let p = perform-Performed env task user action expected_version key payload body db db' done in
    let (u', same) = step-tables env task action payload p.to db p.mid u p.step in
    (
      rw p.stops u',
      λ id row found.
          elim (put-cases (stepped task p.to) id db.tasks row task stored
            (rw (p.tasks, same) at found)) [
              | inl (mine, new) ↦
                  rw (p.stops, ← mine, new)
                    (step-in_step env task action payload p.to db p.mid u p.step
                      (h task.id task stored))
              | inr (ne, old) ↦ rw p.stops (
                  step-other env task action payload p.to row.status id db p.mid ne p.step
                    (h id row old))
            ],
    )
