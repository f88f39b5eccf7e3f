-- ===== src/Models/Integration.antt =====
-- Schema `integration`: idempotency records, the outbox, the audit log and dead letters.
use black_soil_loop_server.Prelude.{ℕ, String, Option}
use black_soil_loop_server.Models.Enums.{
  RowId, Instant, Topic, ObjectType, EventStatus, TaskAction, AlertAction,
}
use black_soil_loop_server.Models.Bodies.{Scope, Body}

pub record IdempotencyRecord : Type 0 where
  pub id : RowId
  pub scope : Scope
  pub key : String
  pub request_hash : String
  pub status_code : ℕ
  pub response_body : Body

pub record OutboxEvent : Type 0 where
  pub sequence : ℕ
  pub event_id : RowId
  pub topic : Topic
  pub object_type : ObjectType
  pub object_id : RowId
  pub object_version : ℕ
  pub payload : Body
  pub status : EventStatus
  pub attempts : ℕ
  pub available_at : Instant

pub data AuditAction : Type 0 where
  task_action : TaskAction → AuditAction
  alert_action : AlertAction → AuditAction
  sign_receipt confirm_carpool : AuditAction

pub record AuditLog : Type 0 where
  pub id : RowId
  pub trace_id : String
  pub actor_user_id : Option RowId
  pub action : AuditAction
  pub object_type : ObjectType
  pub object_id : RowId
  pub before_snapshot : Option Body
  pub after_snapshot : Option Body

-- `error_message` is the text of the exception, which nothing reads.
pub record DeadLetter : Type 0 where
  pub id : RowId
  pub event_id : RowId
  pub topic : Topic
  pub payload : Body
  pub attempts : ℕ
