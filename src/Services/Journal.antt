-- ===== src/Services/Journal.antt =====
-- `add_outbox` and `add_audit` of app/domain/services.py: the rows that every change leaves.
use black_soil_loop_server.Prelude.{ℕ, ◌+◌, Option, [], ◌∷◌, ◌++◌}
use black_soil_loop_server.Models.{
  RowId, Topic, ObjectType, EventStatus, AuditAction, Body, OutboxEvent, AuditLog,
}
use black_soil_loop_server.Tx.{Tx, ⊤, ok}
use black_soil_loop_server.Env.{Env}

module _ (env : Env) where
  -- A new event, under its number and its id.
  abbrev pub outbox_row : ℕ → RowId → Topic → ObjectType → RowId → ℕ → Body → OutboxEvent
  outbox_row sequence id topic object_type object_id object_version payload = record {
    sequence = sequence;
    event_id = id;
    topic = topic;
    object_type = object_type;
    object_id = object_id;
    object_version = object_version;
    payload = payload;
    status = EventStatus.pending;
    attempts = 0;
    available_at = env.now;
  }

  unfoldable pub add_outbox : Topic → ObjectType → RowId → ℕ → Body → Tx ⊤
  add_outbox topic object_type object_id object_version payload db = ok (
    tt,
    record db {
      outbox =
          db.outbox
          ++ outbox_row db.next_sequence db.next_id topic object_type object_id object_version
              payload
            ∷ [];
      next_id = db.next_id + 1;
      next_sequence = db.next_sequence + 1;
    },
  )

  abbrev pub audit_row :
      RowId → Option RowId → AuditAction → ObjectType → RowId → Option Body → Option Body → AuditLog
  audit_row id actor_user_id action object_type object_id before after = record {
    id = id;
    trace_id = env.trace_id;
    actor_user_id = actor_user_id;
    action = action;
    object_type = object_type;
    object_id = object_id;
    before_snapshot = before;
    after_snapshot = after;
  }

  unfoldable pub add_audit :
      Option RowId → AuditAction → ObjectType → RowId → Option Body → Option Body → Tx ⊤
  add_audit actor_user_id action object_type object_id before after db = ok (
    tt,
    record db {
      audit =
          db.audit
          ++ audit_row db.next_id actor_user_id action object_type object_id before after ∷ [];
      next_id = db.next_id + 1;
    },
  )
