-- ===== src/Services/Idempotency.antt =====
-- `load_idempotent` and `save_idempotent` of app/domain/services.py, and the frame that every
-- service puts round its work: answer from the record of the key, or work and save the answer.
pub mod Replay
use black_soil_loop_server.Prelude.{
  ◌+◌, ℕ, String, Bool, false, ◌&&◌, Option, none, some, [], ◌∷◌, ◌++◌, ◌==◌, str_eq, if◌then◌else◌,
  find, any,
}
use black_soil_loop_server.Models.{Scope, Payload, Body, IdempotencyRecord}
use black_soil_loop_server.Errors.{Raised, business, integrity_error, ErrorCode, Details}
use black_soil_loop_server.Tx.{Tx, ⊤, ok, err, pure, new_id, ◌>>=◌, ◌>>◌}
use black_soil_loop_server.Env.{Env}

-- Two scopes are the same string.
abbrev pub scope_eq : Scope → Scope → Bool
scope_eq (Scope.task_action a) (Scope.task_action b) = a == b
scope_eq (Scope.receipt a c) (Scope.receipt b d) = a == b && c == d
scope_eq (Scope.stockout a) (Scope.stockout b) = a == b
scope_eq (Scope.daily_report a) (Scope.daily_report b) = a == b
scope_eq (Scope.telemetry a) (Scope.telemetry b) = a == b
scope_eq (Scope.task_location a) (Scope.task_location b) = a == b
scope_eq (Scope.task_exception a) (Scope.task_exception b) = a == b
scope_eq (Scope.publish_plan a) (Scope.publish_plan b) = a == b
scope_eq (Scope.cancel_plan a) (Scope.cancel_plan b) = a == b
scope_eq _ _ = false

-- `scope == … AND key == …`
unfoldable pub has_key : Scope → String → IdempotencyRecord → Bool
has_key scope key r = scope_eq r.scope scope && str_eq r.key key

abbrev pub idempotency_conflict : Scope → Raised
idempotency_conflict scope = business (record {
  code = ErrorCode.idempotency_conflict;
  status_code = 409;
  details = Details.scope scope;
})

module _ (env : Env) (scope : Scope) (key : String) (payload : Payload) where
  unfoldable pub load_idempotent : Tx (Option Body)
  load_idempotent db = elim (find (has_key scope key) db.records) [
    | none ↦ ok (none, db)
    | some r ↦
        (if str_eq r.request_hash (env.stable_hash payload)
          then ok (some r.response_body, db)
          else err (idempotency_conflict scope))
  ]

  -- The new row.
  abbrev pub binding : ℕ → Body → ℕ → IdempotencyRecord
  binding id response_body status_code = record {
    id = id;
    scope = scope;
    key = key;
    request_hash = env.stable_hash payload;
    status_code = status_code;
    response_body = response_body;
  }

  -- The row is refused where the pair of scope and key is taken.
  unfoldable pub save_idempotent : Body → ℕ → Tx ⊤
  save_idempotent response_body status_code db =
      if any (has_key scope key) db.records
      then err integrity_error
      else ok (
        tt,
        record db {
          records = db.records ++ binding db.next_id response_body status_code ∷ [];
          next_id = db.next_id + 1;
        },
      )

  unfoldable pub answer : Option Body → ℕ → Tx Body → Tx Body
  answer (some cached) status_code work = pure cached
  answer none status_code work = do
    response ← work
    save_idempotent response status_code
    pure response

  unfoldable pub once : ℕ → Tx Body → Tx Body
  once status_code work = do cached ← load_idempotent; answer cached status_code work
