-- ===== src/Services/Transition.antt =====
-- `transition_task` of app/domain/services.py: a driver's steps through a transport task.
pub mod Guards
pub mod Authority
pub mod Effects
pub mod Consistency
pub mod Replay
use black_soil_loop_server.Prelude.{
  ℕ, ◌+◌, String, Bool, true, false, not, Option, none, some, List, [], ◌∷◌, ◌==◌, if◌then◌else◌,
  find, select, all, or_else,
}
use black_soil_loop_server.Models.{
  RowId, TaskStatus, StopStatus, TaskAction, Topic, ObjectType, is_planned, TaskActionRequest,
  Scope, Payload, Body, User, TransportTask, TaskStop, EventAction, EventKey, AuditAction,
}
use black_soil_loop_server.Errors.{Raised, business, ErrorCode, Details, error, version_conflict}
use black_soil_loop_server.Table.{put, order_by}
use black_soil_loop_server.Db.{Db, task_key, stop_key}
use black_soil_loop_server.Tx.{Tx, pure, gets, or_raise, raise_if, modify, ◌>>=◌, ◌>>◌}
use black_soil_loop_server.Env.{Env}
use black_soil_loop_server.Services.Idempotency.{once}
use black_soil_loop_server.Services.Journal.{add_outbox, add_audit}
use black_soil_loop_server.Services.Events.{add_task_event}
use black_soil_loop_server.Services.Qr.{ensure_task_scope, verify_task_qr}

-- `ACTION_TRANSITIONS.get((status, action), "")`
unfoldable pub action_transition : TaskStatus → TaskAction → Option TaskStatus
action_transition TaskStatus.published TaskAction.accept = some TaskStatus.driver_accepted
action_transition TaskStatus.driver_accepted TaskAction.pickup = some TaskStatus.picked_up
action_transition TaskStatus.picked_up TaskAction.start_transit = some TaskStatus.in_transit
action_transition _ _ = none

-- `status in {"IN_TRANSIT", "DELIVERED"}`
abbrev pub under_way : TaskStatus → Bool
under_way TaskStatus.in_transit = true
under_way TaskStatus.delivered = true
under_way _ = false

abbrev pub is_deliver : TaskAction → Bool
is_deliver TaskAction.deliver = true
is_deliver _ = false

abbrev pub is_pickup : TaskAction → Bool
is_pickup TaskAction.pickup = true
is_pickup _ = false

abbrev pub invalid_transition : TaskStatus → TaskAction → Raised
invalid_transition status action = business (record {
  code = ErrorCode.invalid_transition;
  status_code = 409;
  details = Details.transition status action;
})

-- The stops of a task in the order of the route.
unfoldable pub task_stops : RowId → Db → List TaskStop
task_stops task_id db = order_by (λ s. s.sequence_no) (select (λ s. s.task_id == task_id) db.stops)

-- The stop that is named, or else the first one that is still planned.
unfoldable pub delivery_target : Option RowId → List TaskStop → Option TaskStop
delivery_target (some stop_id) stops = find (λ s. s.id == stop_id) stops
delivery_target none stops = find (λ s. is_planned s.status) stops

abbrev pub deliver_stop : TaskStop → TaskStop
deliver_stop s = record s { status = StopStatus.delivered; object_version = s.object_version + 1 }

abbrev pub is_empty {ℓ} : {A : Type ℓ} → List A → Bool
is_empty [] = true
is_empty (_ ∷ _) = false

module _ (env : Env) where
  -- The branch of `DELIVER`: the stop is delivered, and the task with the last of them.
  unfoldable pub deliver : TransportTask → TaskActionRequest → Tx TaskStatus
  deliver task payload = do
    raise_if (not (under_way task.status)) (error ErrorCode.invalid_transition 409)
    stops ← gets (task_stops task.id)
    raise_if (is_empty stops) (error ErrorCode.task_stops_missing 409)
    target ← or_raise (delivery_target payload.stop_id stops) (error ErrorCode.stop_not_found 409)
    verify_task_qr env task payload.qr_token
    modify (λ db. record db { stops = put (deliver_stop target) db.stops })
    pure (
        if all (λ s. not (is_planned s.status)) (put (deliver_stop target) stops)
        then TaskStatus.delivered
        else TaskStatus.in_transit)

  -- The other actions, by the table.
  unfoldable pub advance : TransportTask → TaskAction → TaskActionRequest → Tx TaskStatus
  advance task action payload = do
    to_status ←
        or_raise (action_transition task.status action) (invalid_transition task.status action)
    if is_pickup action then verify_task_qr env task payload.qr_token else pure tt
    pure to_status

  unfoldable pub next_status : TransportTask → TaskAction → TaskActionRequest → Tx TaskStatus
  next_status task action payload =
      if is_deliver action then deliver task payload else advance task action payload

  -- The work behind the idempotency key.
  unfoldable pub perform :
      TransportTask → User → TaskAction → ℕ → String → TaskActionRequest → Tx Body
  perform task user action expected_version idempotency_key payload = do
    ensure_task_scope user task
    raise_if (not (task.object_version == expected_version)) (version_conflict task.object_version)
    to_status ← next_status task action payload
    let version = task.object_version + 1
    let response = Body.task task.id task.task_no to_status version
    modify (λ db. record db {
      tasks = put (record task { status = to_status; object_version = version }) db.tasks;
    })
    add_task_event task.id task.status to_status (EventAction.driver_action action) user.id
        (EventKey.request idempotency_key) (Body.action_note (record payload { qr_token = none }))
        (or_else payload.occurred_at env.now)
    add_outbox env Topic.task_status_changed ObjectType.transport_task task.id version response
    add_audit env (some user.id) (AuditAction.task_action action) ObjectType.transport_task task.id
        (some (Body.task_state task.status task.object_version)) (some response)
    pure response

  -- The hashed and stored payload is `model_dump(mode="json")`, where `occurred_at` is a text; here it
  -- stays an instant.
  unfoldable pub transition_task :
      TransportTask → User → TaskAction → ℕ → String → TaskActionRequest → Tx Body
  transition_task task user action expected_version idempotency_key payload =
      once env (Scope.task_action task.id) idempotency_key (Payload.task_action payload) 200
        (perform task user action expected_version idempotency_key payload)
