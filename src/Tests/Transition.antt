-- ===== src/Tests/Transition.antt =====
-- Examples for the steps of a task: the last stop of the route is delivered.
use black_soil_loop_server.Prelude.{◌≡◌, ◌≢◌, refl, true, ◌||◌, [], ◌∷◌, ◌++◌, arith, eq_iff}
use black_soil_loop_server.Models.{
  TaskAction, TaskStatus, TaskActionRequest, Body, Scope, IdempotencyRecord, Payload,
}
use black_soil_loop_server.Table.{order_by, insert_by}
use black_soil_loop_server.Table.Laws.{Unique}
use black_soil_loop_server.Db.{Db, task_key, stop_key}
use black_soil_loop_server.Tx.{ok, err}
use black_soil_loop_server.Services.Idempotency.{
  idempotency_conflict, once, load_idempotent, save_idempotent, has_key, answer,
}
use black_soil_loop_server.Services.Transition.{
  is_pickup, is_deliver, perform, transition_task, next_status, deliver, task_stops,
  delivery_target,
}
use black_soil_loop_server.Services.Transition.Guards.{ShowsCode}
use black_soil_loop_server.Services.Transition.Authority.{perform-authority}
use black_soil_loop_server.Services.Transition.Effects.{InScope}
use black_soil_loop_server.Services.Transition.Consistency.{
  allows, IsConsistent, perform-IsConsistent,
}
use black_soil_loop_server.Services.Transition.Replay.{
  transition_task-replay, transition_task-conflict,
}
use black_soil_loop_server.Tests.Data.{
  env, env_at, driver, manager, moving, moving_db, request_of, state_of, test_hash,
}
use black_soil_loop_server.Services.Qr.{ensure_task_scope, verify_task_qr, check_qr}
use black_soil_loop_server.Services.Events.{add_task_event}
use black_soil_loop_server.Services.Journal.{add_outbox, add_audit}

abbrev request : TaskActionRequest
request = request_of TaskAction.deliver "left at the gate"

abbrev delivered_body : Body
delivered_body = Body.task 10 "BSL-1" TaskStatus.delivered 4

abbrev performed : Db
performed =
    state_of moving_db (perform env moving driver TaskAction.deliver 3 "key" request moving_db)

done :
    perform env moving driver TaskAction.deliver 3 "key" request moving_db
    ≡ ok (delivered_body, performed)
unfolding perform ensure_task_scope verify_task_qr check_qr next_status deliver task_stops
    delivery_target order_by insert_by add_task_event add_outbox add_audit
done = refl

consistent : IsConsistent moving_db
unfolding allows
consistent id task found = ground arith

perform-IsConsistent_example : Unique performed.stops × IsConsistent performed
perform-IsConsistent_example =
    perform-IsConsistent env moving driver TaskAction.deliver 3 "key" request delivered_body
      moving_db performed (refl, (refl, tt)) refl consistent done

perform-authority_example :
    InScope driver moving
    × (moving.object_version ≡ 3)
    × ((is_pickup TaskAction.deliver || is_deliver TaskAction.deliver) ≡ true
        → ShowsCode env moving request.qr_token)
perform-authority_example =
    perform-authority env moving driver TaskAction.deliver 3 "key" request delivered_body moving_db
      performed done

abbrev answered : Db
answered =
    state_of moving_db
      (transition_task env moving driver TaskAction.deliver 3 "key" request moving_db)

answered_lem :
    transition_task env moving driver TaskAction.deliver 3 "key" request moving_db
    ≡ ok (delivered_body, answered)
unfolding transition_task once load_idempotent answer save_idempotent has_key perform
    ensure_task_scope next_status deliver task_stops order_by insert_by delivery_target
    verify_task_qr check_qr add_task_event add_outbox add_audit
answered_lem = refl

abbrev later_record : IdempotencyRecord
later_record = record {
  id = 200;
  scope = Scope.stockout 7;
  key = "another";
  request_hash = "hash";
  status_code = 201;
  response_body = Body.empty;
}

abbrev later_db : Db
later_db = record answered { records = answered.records ++ later_record ∷ [] }

transition_task-replay_example :
    transition_task (env_at 5_000) moving manager TaskAction.deliver 3 "key" request later_db
    ≡ ok (delivered_body, later_db)
transition_task-replay_example =
    transition_task-replay env (env_at 5_000) moving moving driver manager TaskAction.deliver 3
      "key" request delivered_body moving_db answered later_db (later_record ∷ []) answered_lem refl
      refl refl

abbrev other_request : TaskActionRequest
other_request = request_of TaskAction.accept "other"

other_hash : test_hash (Payload.task_action request) ≢ test_hash (Payload.task_action other_request)
other_hash = λ e. ground (arith, (eq_iff "left at the gate" "other").1 e)

transition_task-conflict_example :
    transition_task env moving driver TaskAction.accept 4 "key" other_request later_db
    ≡ err (idempotency_conflict (Scope.task_action 10))
transition_task-conflict_example =
    transition_task-conflict env moving moving driver driver TaskAction.deliver TaskAction.accept 3
      4 "key" request other_request delivered_body moving_db answered later_db (later_record ∷ [])
      answered_lem refl refl other_hash
