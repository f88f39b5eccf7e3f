-- ===== src/B01/Plans.antt =====
-- `confirm_carpool`, `publish_plan` and `cancel_plan` of app/b01/main.py.
pub mod Confirmed
use black_soil_loop_server.Prelude.{
  ℕ, zero, suc, ◌+◌, String, Bool, true, false, not, ◌||◌, Option, none, some, List, [], ◌∷◌, ◌++◌,
  ◌==◌, str_eq, if◌then◌else◌, any, select, is_some, max,
}
use black_soil_loop_server.Models.{
  RowId, OrderStatus, PlanStatus, AlgorithmType, is_draft, is_park_admin, Topic, ObjectType,
  Candidate, PlanBody, Body, Payload, Scope, User, VersionedRequest, CancelRequest,
  MatchConfirmRequest, AlgorithmRun, TransportOrder, TransportPlan, AuditAction,
}
use black_soil_loop_server.Errors.{integrity_error, ErrorCode, error, version_conflict}
use black_soil_loop_server.Table.{get, put, update_where}
use black_soil_loop_server.Db.{run_key, plan_key}
use black_soil_loop_server.Tx.{Tx, ok, err, pure, raise_if, or_raise, gets, modify, ◌>>=◌, ◌>>◌}
use black_soil_loop_server.Env.{Env}
use black_soil_loop_server.Auth.Roles.{require_roles}
use black_soil_loop_server.Services.Idempotency.{once}
use black_soil_loop_server.Services.Journal.{add_outbox, add_audit}
use black_soil_loop_server.Worker.Cancel.{is_one_of, with_status}

abbrev pub is_carpool : AlgorithmType → Bool
is_carpool AlgorithmType.carpool = true
is_carpool _ = false

-- `candidates[index]`, guarded by the test on the length.
abbrev pub candidate_at : List Candidate → ℕ → Option Candidate
candidate_at [] i = none
candidate_at (c ∷ cs) zero = some c
candidate_at (c ∷ cs) (suc i) = candidate_at cs i

-- `max(order.object_version for order in orders)`
abbrev pub max_version : List TransportOrder → ℕ
max_version [] = 0
max_version (o ∷ orders) = max o.object_version (max_version orders)

-- `status in {"CONFIRMED", "READY", "PUBLISHED"}`
abbrev pub is_cancellable : PlanStatus → Bool
is_cancellable PlanStatus.confirmed = true
is_cancellable PlanStatus.ready = true
is_cancellable PlanStatus.published = true
is_cancellable _ = false

abbrev pub is_ready : PlanStatus → Bool
is_ready PlanStatus.ready = true
is_ready _ = false

-- The answer to a request on a plan: its state after the request.
abbrev pub plan_body : TransportPlan → PlanBody
plan_body plan = record {
  plan_id = plan.id;
  task_id = plan.task_id;
  status = plan.status;
  object_version = plan.object_version;
}

module _ (env : Env) where
  -- Refused where the number of the plan is taken.
  unfoldable pub add_plan : RowId → Candidate → Tx TransportPlan
  add_plan run_id candidate db =
      let plan : TransportPlan = record {
        id = db.next_id;
        plan_no = env.plan_no run_id;
        algorithm_run_id = run_id;
        candidate_snapshot = candidate;
        status = PlanStatus.confirmed;
        task_id = none;
        published_qr_token = none;
        qr_expires_at = none;
        cancellation_reason = none;
        last_error = none;
        object_version = 1;
      } in
      if any (λ p. str_eq p.plan_no plan.plan_no) db.plans
      then err integrity_error
      else ok (plan, record db { plans = db.plans ++ plan ∷ []; next_id = db.next_id + 1 })

  -- From the checked candidate to the plan.
  unfoldable pub accept_candidate : AlgorithmRun → Candidate → User → Tx TransportPlan
  accept_candidate run candidate user = do
    plan ← add_plan run.id candidate
    modify (λ db. record db {
      orders =
          update_where (is_one_of candidate.order_ids) (with_status OrderStatus.confirmed)
            db.orders;
      runs = put (record run { confirmed = true }) db.runs;
    })
    add_outbox env Topic.plan_confirmed ObjectType.transport_plan plan.id plan.object_version
        (Body.plan_confirmed plan.id plan.plan_no candidate user.id)
    add_audit env (some user.id) AuditAction.confirm_carpool ObjectType.transport_plan plan.id none
        (some (Body.plan_state plan.status))
    pure plan

  unfoldable pub confirm_carpool : RowId → MatchConfirmRequest → User → Tx TransportPlan
  confirm_carpool run_id payload user = do
    require_roles is_park_admin user
    raise_if (not (payload.match_run_id == run_id)) (error ErrorCode.run_id_mismatch 409)
    found ← gets (λ db. get run_id db.runs)
    run ← or_raise found (error ErrorCode.match_run_not_found 404)
    raise_if (not (is_carpool run.algorithm_type)) (error ErrorCode.match_run_not_found 404)
    raise_if run.confirmed (error ErrorCode.match_run_confirmed 409)
    candidate ←
        or_raise (candidate_at run.candidates payload.candidate_index)
          (error ErrorCode.candidate_not_found 404)
    orders ← gets (λ db. select (is_one_of candidate.order_ids) db.orders)
    raise_if (any (λ o. not (o.object_version == payload.object_version)) orders)
        (version_conflict (max_version orders))
    raise_if (any (λ o. not (is_draft o.status)) orders) (error ErrorCode.order_state_changed 409)
    accept_candidate run candidate user

  unfoldable pub request_publish : TransportPlan → VersionedRequest → String → User → Tx Body
  request_publish plan payload key user = do
    raise_if (not (plan.object_version == payload.object_version))
        (version_conflict plan.object_version)
    raise_if (not (is_ready plan.status) || not (is_some plan.task_id))
        (error ErrorCode.plan_not_ready 409)
    let changed : TransportPlan = record plan {
      status = PlanStatus.publish_requested;
      object_version = plan.object_version + 1;
    }
    modify (λ db. record db { plans = put changed db.plans })
    add_outbox env Topic.plan_publish_requested ObjectType.transport_plan plan.id
        changed.object_version
        (Body.publish_requested (plan_body changed)
          (record { actor_user_id = user.id; idempotency_key = key }))
    pure (Body.plan (plan_body changed))

  unfoldable pub publish_plan : RowId → VersionedRequest → String → User → Tx Body
  publish_plan plan_id payload key user = do
    require_roles is_park_admin user
    found ← gets (λ db. get plan_id db.plans)
    plan ← or_raise found (error ErrorCode.plan_not_found 404)
    once env (Scope.publish_plan plan_id) key (Payload.versioned payload) 202
        (request_publish plan payload key user)

  unfoldable pub request_cancel : TransportPlan → CancelRequest → String → User → Tx Body
  request_cancel plan payload key user = do
    raise_if (not (plan.object_version == payload.object_version))
        (version_conflict plan.object_version)
    raise_if (not (is_cancellable plan.status)) (error ErrorCode.invalid_transition 409)
    let changed : TransportPlan = record plan {
      status = PlanStatus.cancellation_requested;
      cancellation_reason = some payload.reason;
      last_error = none;
      object_version = plan.object_version + 1;
    }
    modify (λ db. record db { plans = put changed db.plans })
    add_outbox env Topic.plan_cancellation_requested ObjectType.transport_plan plan.id
        changed.object_version
        (Body.cancellation_requested (plan_body changed) payload.reason
          (record { actor_user_id = user.id; idempotency_key = key }))
    pure (Body.plan (plan_body changed))

  unfoldable pub cancel_plan : RowId → CancelRequest → String → User → Tx Body
  cancel_plan plan_id payload key user = do
    require_roles is_park_admin user
    found ← gets (λ db. get plan_id db.plans)
    plan ← or_raise found (error ErrorCode.plan_not_found 404)
    once env (Scope.cancel_plan plan.id) key (Payload.cancel payload) 202
        (request_cancel plan payload key user)
