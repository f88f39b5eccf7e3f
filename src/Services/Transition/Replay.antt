-- ===== src/Services/Transition/Replay.antt =====
-- A driver's request that is sent again.
use black_soil_loop_server.Prelude.{ℕ, String, ◌≡◌, ◌≢◌, List, ◌++◌}
use black_soil_loop_server.Models.{
  TaskAction, TaskActionRequest, Scope, Payload, Body, User, TransportTask, IdempotencyRecord,
}
use black_soil_loop_server.Db.{Db}
use black_soil_loop_server.Tx.{ok, err}
use black_soil_loop_server.Env.{Env}
use black_soil_loop_server.Services.Idempotency.{idempotency_conflict}
use black_soil_loop_server.Services.Idempotency.Replay.{
  once-Answered, once-binds, once-conflict, Answered-append,
}
use black_soil_loop_server.Services.Transition.{transition_task, perform}

-- A request that succeeded is answered alike, and nothing is written, when it comes again for
-- the same task under the same key and hash function: whatever the fields of the task, the user,
-- the clock and the rest of the database have become, so long as idempotency records were only
-- added.
pub transition_task-replay :
    (env later_env : Env) (task later_task : TransportTask) (user later_user : User)
    (action : TaskAction) (version : ℕ) (key : String) (payload : TaskActionRequest) (body : Body)
    (db db' now : Db) (later : List IdempotencyRecord)
    → transition_task env task user action version key payload db ≡ ok (body, db')
    → now.records ≡ db'.records ++ later
    → later_task.id ≡ task.id
    → later_env.stable_hash ≡ env.stable_hash
    → transition_task later_env later_task later_user action version key payload now
      ≡ ok (body, now)
unfolding transition_task
transition_task-replay env later_env task later_task user later_user action version key payload body
      db db' now later done grown same_task same_hash =
    once-Answered later_env (Scope.task_action later_task.id) key (Payload.task_action payload) 200
      (perform later_env later_task later_user action version key payload) body now
      (rw (same_task, same_hash)
        (Answered-append (Scope.task_action task.id) key
          (env.stable_hash (Payload.task_action payload)) body db' now later
          (once-binds env (Scope.task_action task.id) key (Payload.task_action payload) 200
            (perform env task user action version key payload) body db db' done)
          grown))

-- The key of a request that succeeded is refused, with 409 and the scope, for a request on the
-- same task whose hash is another, so long as idempotency records were only added.
pub transition_task-conflict :
    (env : Env) (task later_task : TransportTask) (user later_user : User)
    (action later_action : TaskAction) (version later_version : ℕ) (key : String)
    (payload other : TaskActionRequest) (body : Body) (db db' now : Db)
    (later : List IdempotencyRecord)
    → transition_task env task user action version key payload db ≡ ok (body, db')
    → now.records ≡ db'.records ++ later
    → later_task.id ≡ task.id
    → env.stable_hash (Payload.task_action payload) ≢ env.stable_hash (Payload.task_action other)
    → transition_task env later_task later_user later_action later_version key other now
      ≡ err (idempotency_conflict (Scope.task_action task.id))
unfolding transition_task
transition_task-conflict env task later_task user later_user action later_action version
      later_version key payload other body db db' now later done grown same_task differ =
    simp same_task (
      once-conflict env (Scope.task_action task.id) key (Payload.task_action other)
        (env.stable_hash (Payload.task_action payload)) 200
        (perform env later_task later_user later_action later_version key other) body now
        (Answered-append (Scope.task_action task.id) key
          (env.stable_hash (Payload.task_action payload)) body db' now later
          (once-binds env (Scope.task_action task.id) key (Payload.task_action payload) 200
            (perform env task user action version key payload) body db db' done)
          grown)
        differ)
