-- ===== src/B01/Plans/Confirmed.antt =====
-- The confirmation of a carpool run.
use black_soil_loop_server.Prelude.{
  ◌≡◌, true, false, not, some, [], ◌∷◌, ◌++◌, any, select, arith, inl, inr, Option-cases, ◌==◌,
  ==_iff, find-true,
}
use black_soil_loop_server.Models.{
  RowId, OrderStatus, PlanStatus, is_draft, Candidate, User, MatchConfirmRequest, AlgorithmRun,
  TransportPlan, is_park_admin,
}
use black_soil_loop_server.Errors.{ErrorCode, error}
use black_soil_loop_server.Table.{get, put, update_where}
use black_soil_loop_server.Db.{Db, run_key}
use black_soil_loop_server.Tx.{ok, err, Result-cases}
use black_soil_loop_server.Env.{Env}
use black_soil_loop_server.Auth.Roles.{require_roles}
use black_soil_loop_server.Services.Journal.{add_outbox, add_audit}
use black_soil_loop_server.Worker.Cancel.{is_one_of, with_status}
use black_soil_loop_server.B01.Plans.{
  is_carpool, candidate_at, add_plan, accept_candidate, confirm_carpool,
}
use black_soil_loop_server.Table.Laws.{get-put_at}

-- What a confirmation that succeeds was allowed by, and writes.
pub record Confirmed (env : Env) (run_id : RowId) (payload : MatchConfirmRequest) (user : User)
    (plan : TransportPlan) (db db' : Db) : Type 0 where
  pub role : is_park_admin user.role ≡ true
  pub named : payload.match_run_id ≡ run_id
  pub run : AlgorithmRun
  pub candidate : Candidate
  pub found : get run_id db.runs ≡ some run
  pub carpool : is_carpool run.algorithm_type ≡ true
  pub fresh : run.confirmed ≡ false
  pub chosen : candidate_at run.candidates payload.candidate_index ≡ some candidate
  pub version :
      any
        (λ o. not (o.object_version == payload.object_version))
        (select (is_one_of candidate.order_ids) db.orders)
      ≡ false
  pub draft :
      any (λ o. not (is_draft o.status)) (select (is_one_of candidate.order_ids) db.orders) ≡ false
  pub runs : db'.runs ≡ put (record run { confirmed = true }) db.runs
  pub orders :
      db'.orders
      ≡ update_where (is_one_of candidate.order_ids) (with_status OrderStatus.confirmed) db.orders
  pub plans : db'.plans ≡ db.plans ++ plan ∷ []
  pub plan_status : plan.status ≡ PlanStatus.confirmed
  pub plan_candidate : plan.candidate_snapshot ≡ candidate

add_plan-ok :
    (env : Env) (run_id : RowId) (candidate : Candidate) (plan : TransportPlan) (db db' : Db)
    → add_plan env run_id candidate db ≡ ok (plan, db')
    → (plan.status ≡ PlanStatus.confirmed)
      × (plan.candidate_snapshot ≡ candidate)
      × (db'.plans ≡ db.plans ++ plan ∷ [])
      × (db'.runs ≡ db.runs)
      × (db'.orders ≡ db.orders)
unfolding add_plan
add_plan-ok env run_id candidate plan db db' p =
    (ground arith, ground arith, ground arith, ground arith, ground arith)

-- A confirmation that succeeds was asked for by a park administrator, named the run of its path, and chose a
-- candidate of the stored run, a carpool run that was not confirmed before; all stored orders of the
-- candidate were drafts on the version of the request. It marks the run as confirmed, confirms those
-- orders under their next versions and no others, and adds one plan for the candidate.
pub confirm_carpool-Confirmed :
    (env : Env) (run_id : RowId) (payload : MatchConfirmRequest) (user : User)
    (plan : TransportPlan) (db db' : Db)
    → confirm_carpool env run_id payload user db ≡ ok (plan, db')
    → Confirmed env run_id payload user plan db db'
unfolding confirm_carpool accept_candidate add_outbox add_audit require_roles
confirm_carpool-Confirmed env run_id payload user plan db db' p =
    elim (Option-cases (get run_id db.runs)) [
      | inl missing ↦ absurd (ground arith)
      | inr (run, found) ↦
          elim (Option-cases (candidate_at run.candidates payload.candidate_index)) [
            | inl absent ↦ absurd (ground arith)
            | inr (candidate, chosen) ↦ elim (Result-cases (add_plan env run.id candidate db)) [
              | inr (x, taken) ↦ absurd (ground arith)
              | inl (added, mid, done) ↦
                  let (status, snapshot, plans, runs, orders) =
                    add_plan-ok env run.id candidate added db mid done in
                  record {
                    role = ground arith;
                    named = ground arith;
                    run = run;
                    candidate = candidate;
                    found = found;
                    carpool = ground arith;
                    fresh = ground arith;
                    chosen = chosen;
                    version = ground arith;
                    draft = ground arith;
                    runs = ground arith;
                    orders = ground arith;
                    plans = ground arith;
                    plan_status = ground arith;
                    plan_candidate = ground arith;
                  }
            ]
          ]
    ]

-- After a confirmation of a run that succeeded, in the state that it left, every further request
-- of a park administrator to confirm the run is refused with 409, whatever candidate and version
-- it names.
pub confirm_carpool-once :
    (env later_env : Env) (run_id : RowId) (payload again : MatchConfirmRequest)
    (user later_user : User) (plan : TransportPlan) (db db' : Db)
    → confirm_carpool env run_id payload user db ≡ ok (plan, db')
    → is_park_admin later_user.role ≡ true
    → again.match_run_id ≡ run_id
    → confirm_carpool later_env run_id again later_user db'
      ≡ err (error ErrorCode.match_run_confirmed 409)
unfolding confirm_carpool require_roles
confirm_carpool-once env later_env run_id payload again user later_user plan db db' p admin named =
    let c = confirm_carpool-Confirmed env run_id payload user plan db db' p in
    let marked : AlgorithmRun = record c.run { confirmed = true } in
    let key : c.run.id ≡ run_id =
      (==_iff _ _).0 (find-true (λ r. r.id == run_id) db.runs c.run c.found) in
    let stored : get run_id db'.runs ≡ some marked =
      rw c.runs (get-put_at marked c.run run_id db.runs key c.found) in
    ground (arith, stored, c.carpool, named, admin)
