-- ===== src/Worker/Tasks/Redelivery.antt =====
-- The publication event of a plan, handled twice.
use black_soil_loop_server.Prelude.{
  ◌+◌, ◌≡◌, refl, true, false, arith, some, none, inl, inr, Option-cases, Bool-cases, find-true,
  ==_iff, ◌==◌,
}
use black_soil_loop_server.Models.{
  RowId, TaskStatus, PlanStatus, Body, OutboxEvent, TransportPlan, TransportTask, EventAction,
  EventKey,
}
use black_soil_loop_server.Table.{get, put}
use black_soil_loop_server.Table.Laws.{get-put_at}
use black_soil_loop_server.Db.{Db, plan_key, task_key}
use black_soil_loop_server.Tx.{⊤, ok, or_raise, or_raise-eq-ok, gets, ◌>>=◌, Result}
use black_soil_loop_server.Env.{Env}
use black_soil_loop_server.Services.Journal.{add_outbox}
use black_soil_loop_server.Services.Events.{add_task_event-cases}
use black_soil_loop_server.Services.Qr.{create_task_qr, qr_text, qr_lifetime}
use black_soil_loop_server.Worker.Tasks.{
  is_published_plan, publisher_of, publish_task, publish_unless_done, publish_execution_task,
}
use black_soil_loop_server.Errors.{runtime_error}

-- What publishing writes.
pub record Published (env : Env) (plan : TransportPlan) (task : TransportTask) (db db' : Db)
    : Type 0 where
  pub was_confirmed : task.status ≡ TaskStatus.confirmed
  pub tasks :
      db'.tasks
      ≡ put
          (record task {
            status = TaskStatus.published;
            object_version = task.object_version + 1;
            qr_token_hash = some (env.sha256 (qr_text task.task_no env.token));
            qr_expires_at = some (env.now + qr_lifetime);
          })
          db.tasks
  pub plans :
      db'.plans
      ≡ put
          (record plan {
            status = PlanStatus.published;
            published_qr_token = some (qr_text task.task_no env.token);
            qr_expires_at = some (env.now + qr_lifetime);
            object_version = plan.object_version + 1;
          })
          db.plans
  pub stops : db'.stops ≡ db.stops

pub publish_task-Published :
    (env : Env) (plan : TransportPlan) (task : TransportTask) (payload : Body) (db db' : Db)
    → publish_task env plan task payload db ≡ ok (tt, db')
    → Published env plan task db db'
unfolding publish_task create_task_qr add_outbox
publish_task-Published env plan task payload db db' p = elim (Option-cases (publisher_of payload)) [
  | inl missing ↦ absurd (ground arith)
  | inr (actor, found) ↦
      elim (add_task_event-cases task.id TaskStatus.confirmed TaskStatus.published
        EventAction.publish actor.actor_user_id (EventKey.request actor.idempotency_key)
        (Body.plan_ref plan.id) env.now
        (record db {
          tasks =
              put
                (record task {
                  status = TaskStatus.published;
                  object_version = task.object_version + 1;
                  qr_token_hash = some (env.sha256 (qr_text task.task_no env.token));
                  qr_expires_at = some (env.now + qr_lifetime);
                })
                db.tasks;
          plans =
              put
                (record plan {
                  status = PlanStatus.published;
                  published_qr_token = some (qr_text task.task_no env.token);
                  qr_expires_at = some (env.now + qr_lifetime);
                  object_version = plan.object_version + 1;
                })
                db.plans;
        })) [
          | inr clash ↦ absurd (ground arith)
          | inl added ↦ record {
            was_confirmed = ground arith;
            tasks = ground arith;
            plans = ground arith;
            stops = ground arith;
          }
        ]
]

-- A plan that is not there needs nothing.
gone-Published :
    (env : Env) (id : RowId) (payload : Body) (db : Db)
    → get id db.plans ≡ none
    → publish_unless_done env (get id db.plans) payload db ≡ ok (tt, db)
unfolding publish_unless_done
gone-Published env id payload db gone = rw gone

-- Two results of one call are one state.
same_state :
    {result : Result (⊤ × Db)} {db db' : Db}
    → result ≡ ok (tt, db)
    → result ≡ ok (tt, db')
    → db ≡ db'
same_state p q = ground arith

-- A plan that is there and published needs nothing.
done-Published :
    (env : Env) (id : RowId) (payload : Body) (plan : TransportPlan) (db : Db)
    → get id db.plans ≡ some plan
    → is_published_plan plan.status ≡ true
    → publish_unless_done env (get id db.plans) payload db ≡ ok (tt, db)
unfolding publish_unless_done
done-Published env id payload plan db found done = rw (found, done)

publish-leaves :
    (env later_env : Env) (id : RowId) (payload : Body) (plan : TransportPlan) (db db' : Db)
    → get id db.plans ≡ some plan
    → is_published_plan plan.status ≡ false
    → publish_unless_done env (some plan) payload db ≡ ok (tt, db')
    → publish_unless_done later_env (get id db'.plans) payload db' ≡ ok (tt, db')
unfolding publish_unless_done
publish-leaves env later_env id payload plan db db' found open_plan p =
    let (task_id, has_task, p₁) =
      or_raise-eq-ok plan.task_id runtime_error
        (λ task_id. gets (λ d. get task_id d.tasks) >>= λ t.
          or_raise t runtime_error >>= λ task. publish_task env plan task payload)
        db (rw open_plan at p) in
    let (task, has_row, p₂) =
      or_raise-eq-ok (get task_id db.tasks) runtime_error
        (λ task. publish_task env plan task payload) db p₁ in
    let w = publish_task-Published env plan task payload db db' p₂ in
    let written : TransportPlan = record plan {
      status = PlanStatus.published;
      published_qr_token = some (qr_text task.task_no env.token);
      qr_expires_at = some (env.now + qr_lifetime);
      object_version = plan.object_version + 1;
    } in
    let key : plan.id ≡ id = (==_iff _ _).0 (find-true (λ q. q.id == id) db.plans plan found) in
    let stored : get id db'.plans ≡ some written =
      rw w.plans (get-put_at written plan id db.plans key found) in
    done-Published later_env id payload written db' stored refl

-- A publication event that was handled is handled again, in the state that it left, without a
-- change: whatever the clock and the random token then are.
pub publish_execution_task-again :
    (env later_env : Env) (event : OutboxEvent) (db db' : Db)
    → publish_execution_task env event db ≡ ok (tt, db')
    → publish_execution_task later_env event db' ≡ ok (tt, db')
unfolding publish_execution_task
publish_execution_task-again env later_env event db db' p =
    elim (Option-cases (get event.object_id db.plans)) [
      | inl gone ↦
          let nothing = gone-Published env event.object_id event.payload db gone in
          rw (← same_state nothing p)
            (gone-Published later_env event.object_id event.payload db gone)
      | inr (plan, found) ↦ elim (Bool-cases (is_published_plan plan.status)) [
        | inl done ↦
            let nothing = done-Published env event.object_id event.payload plan db found done in
            rw (← same_state nothing p)
              (done-Published later_env event.object_id event.payload plan db found done)
        | inr open_plan ↦
            publish-leaves env later_env event.object_id event.payload plan db db' found open_plan
              (rw found at p)
      ]
    ]
