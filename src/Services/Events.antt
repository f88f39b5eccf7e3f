-- ===== src/Services/Events.antt =====
-- The rows of `task_events`: `db.add(TaskEvent(...))`, refused by the unique constraint
-- "uq_b02_task_events_idempotency" where the task already has an event of that key.
use black_soil_loop_server.Prelude.{
  ◌≡◌, ◌⊎◌, inl, inr, Bool-cases, ◌+◌, Bool, false, ◌&&◌, [], ◌∷◌, ◌++◌, ◌==◌, str_eq,
  if◌then◌else◌, any,
}
use black_soil_loop_server.Models.{
  RowId, Instant, TaskStatus, Body, EventAction, EventKey, TaskEvent,
}
use black_soil_loop_server.Errors.{integrity_error}
use black_soil_loop_server.Tx.{Tx, ⊤, ok, err}
use black_soil_loop_server.Db.{Db}

abbrev pub event_key_eq : EventKey → EventKey → Bool
event_key_eq (EventKey.request a) (EventKey.request b) = str_eq a b
event_key_eq (EventKey.state a) (EventKey.state b) = str_eq a b
event_key_eq (EventKey.complete a) (EventKey.complete b) = str_eq a b
event_key_eq (EventKey.product a p) (EventKey.product b q) = str_eq a b && p == q
event_key_eq _ _ = false

-- A new event, under its id.
abbrev pub event_row :
    RowId
    → RowId
    → TaskStatus
    → TaskStatus
    → EventAction
    → RowId
    → EventKey
    → Body
    → Instant
    → TaskEvent
event_row id task_id from_status to_status action actor_user_id key payload occurred_at = record {
  id = id;
  task_id = task_id;
  from_status = from_status;
  to_status = to_status;
  action = action;
  actor_user_id = actor_user_id;
  idempotency_key = key;
  payload = payload;
  occurred_at = occurred_at;
}

-- The table with the new row.
abbrev pub with_event :
    RowId → TaskStatus → TaskStatus → EventAction → RowId → EventKey → Body → Instant → Db → Db
with_event task_id from_status to_status action actor_user_id key payload occurred_at db =
    record db {
      events =
          db.events
          ++ event_row db.next_id task_id from_status to_status action actor_user_id key payload
              occurred_at
            ∷ [];
      next_id = db.next_id + 1;
    }

unfoldable pub add_task_event :
    RowId → TaskStatus → TaskStatus → EventAction → RowId → EventKey → Body → Instant → Tx ⊤
add_task_event task_id from_status to_status action actor_user_id key payload occurred_at db =
    if any (λ e. e.task_id == task_id && event_key_eq e.idempotency_key key) db.events
    then err integrity_error
    else ok (
      tt,
      with_event task_id from_status to_status action actor_user_id key payload occurred_at db,
    )

pub add_task_event-cases :
    (task_id : RowId) (from_status to_status : TaskStatus) (action : EventAction) (actor : RowId)
    (key : EventKey) (payload : Body) (at : Instant) (db : Db)
    → (add_task_event task_id from_status to_status action actor key payload at db
        ≡ ok (tt, with_event task_id from_status to_status action actor key payload at db))
      ⊎ (add_task_event task_id from_status to_status action actor key payload at db
          ≡ err integrity_error)
unfolding add_task_event
add_task_event-cases task_id from_status to_status action actor key payload at db =
    elim (Bool-cases
      (any (λ e. e.task_id == task_id && event_key_eq e.idempotency_key key) db.events)) [
        | inl taken ↦ inr (rw taken)
        | inr free ↦ inl (rw free)
      ]
