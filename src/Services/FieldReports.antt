-- ===== src/Services/FieldReports.antt =====
-- `create_location_point` and `create_task_exception` of app/domain/services.py.
use black_soil_loop_server.Prelude.{
  ◌+◌, String, not, ◌&&◌, [], ◌∷◌, ◌++◌, ◌==◌, str_eq, if◌then◌else◌, any, or_else,
}
use black_soil_loop_server.Models.{
  RowId, Instant, Topic, ObjectType, is_driver, LocationCreate, TaskExceptionCreate, Payload, Scope,
  Body, User, TransportTask,
}
use black_soil_loop_server.Errors.{integrity_error, ErrorCode, error}
use black_soil_loop_server.Tx.{Tx, ok, err, pure, raise_if, or_raise, ◌>>=◌, ◌>>◌}
use black_soil_loop_server.Env.{Env}
use black_soil_loop_server.Services.Idempotency.{once}
use black_soil_loop_server.Services.Journal.{add_outbox}
use black_soil_loop_server.Services.Qr.{ensure_task_scope}

-- Refused by "uq_b02_location_idempotency".
unfoldable pub add_location : RowId → RowId → LocationCreate → String → Tx RowId
add_location task_id driver_id request key db =
    if any (λ r. r.task_id == task_id && str_eq r.idempotency_key key) db.locations
    then err integrity_error
    else ok (
      db.next_id,
      record db {
        locations =
            db.locations
            ++ record {
              id = db.next_id;
              task_id = task_id;
              driver_id = driver_id;
              latitude = request.latitude;
              longitude = request.longitude;
              speed_mps = request.speed_mps;
              accuracy_m = request.accuracy_m;
              recorded_at = request.recorded_at;
              idempotency_key = key;
            }
              ∷ [];
        next_id = db.next_id + 1;
      },
    )

-- Refused by "uq_b02_task_exception_idempotency".
unfoldable pub add_exception :
    TransportTask → RowId → TaskExceptionCreate → String → Instant → Tx RowId
add_exception task actor request key occurred_at db =
    if any (λ r. r.task_id == task.id && str_eq r.idempotency_key key) db.exceptions
    then err integrity_error
    else ok (
      db.next_id,
      record db {
        exceptions =
            db.exceptions
            ++ record {
              id = db.next_id;
              task_id = task.id;
              exception_type = request.exception_type;
              reason = request.reason;
              original_status = task.status;
              actor_user_id = actor;
              idempotency_key = key;
              occurred_at = occurred_at;
            }
              ∷ [];
        next_id = db.next_id + 1;
      },
    )

module _ (env : Env) where
  unfoldable pub record_location : TransportTask → User → LocationCreate → String → Tx Body
  record_location task user request key = do
    ensure_task_scope user task
    raise_if (not (is_driver user.role)) (error ErrorCode.driver_required 403)
    driver_id ← or_raise user.driver_id (error ErrorCode.driver_required 403)
    id ← add_location task.id driver_id request key
    let response = Body.location id task.id request.recorded_at
    add_outbox env Topic.location_recorded ObjectType.location_point id 1 response
    pure response

  unfoldable pub create_location_point : TransportTask → User → LocationCreate → String → Tx Body
  create_location_point task user request key =
      once env (Scope.task_location task.id) key (Payload.location request) 201
        (record_location task user request key)

  unfoldable pub record_exception : TransportTask → User → TaskExceptionCreate → String → Tx Body
  record_exception task user request key = do
    ensure_task_scope user task
    let occurred_at = or_else request.occurred_at env.now
    id ← add_exception task user.id request key occurred_at
    let response = Body.task_exception id task.id request.exception_type task.status occurred_at
    add_outbox env Topic.exception_reported ObjectType.task_exception id 1 response
    pure response

  unfoldable pub create_task_exception :
      TransportTask → User → TaskExceptionCreate → String → Tx Body
  create_task_exception task user request key =
      once env (Scope.task_exception task.id) key (Payload.task_exception request) 201
        (record_exception task user request key)
