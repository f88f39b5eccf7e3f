-- ===== src/B01/Previews/Confirmable.antt =====
-- From a preview to the confirmation of its candidates.
use black_soil_loop_server.Db.{run_key}
use black_soil_loop_server.Prelude.{
  ℕ, ◌≤◌, ◌≡◌, refl, true, false, not, List, [], ◌∷◌, ◌++◌, some, none, any, select, count,
  count-append, any-count, arith, ◌==◌, inl, inr, str_eq, Option-cases,
}
use black_soil_loop_server.Models.{
  TransportOrder, RowId, is_draft, Candidate, MatchPreviewRequest, Vehicle, AlgorithmRun, User,
  is_park_admin, TransportPlan, MatchConfirmRequest,
}
use black_soil_loop_server.Table.{get}
use black_soil_loop_server.Algorithms.Carpool.Stops.{candidates_of}
use black_soil_loop_server.Algorithms.Carpool.{ids_of, Outcome, run_carpool}
use black_soil_loop_server.Algorithms.Rules.{Measures}
use black_soil_loop_server.Algorithms.Carpool.Result.{draft_ids, run_carpool-SameIds}
use black_soil_loop_server.Worker.Cancel.{is_one_of}
use black_soil_loop_server.B01.Plans.{
  candidate_at, confirm_carpool, is_carpool, accept_candidate, add_plan,
}
use black_soil_loop_server.Algorithms.Carpool.Partition.{matched_ids, rejected_ids}
use black_soil_loop_server.B01.Orders.{selected_orders, is_selected}
use black_soil_loop_server.B01.Previews.{carpool_preview, add_run}
use black_soil_loop_server.Db.{Db}
use black_soil_loop_server.Env.{Env}
use black_soil_loop_server.Tx.{ok, Result-cases}
use black_soil_loop_server.Auth.Roles.{require_roles}
use black_soil_loop_server.Table.Laws.{get-append_last}
use black_soil_loop_server.Services.Journal.{add_outbox, add_audit}
use black_soil_loop_server.B01.Previews.Drafts.{
  other_ids, count-draft_ids, draft-order_by, draft-select-le, all_draft, candidate-ids-le,
}

-- The orders that a preview reads.
abbrev read_orders : MatchPreviewRequest → Db → List TransportOrder
read_orders payload db = selected_orders payload.order_ids payload.scenario_code db

draft-read_orders-le :
    (a : RowId) (payload : MatchPreviewRequest) (db : Db)
    → count a (draft_ids (read_orders payload db)) ≤ count a (draft_ids db.orders)
unfolding selected_orders
draft-read_orders-le a payload db =
    let p = is_selected payload.order_ids payload.scenario_code in
    omega (arith, draft-order_by a (select p db.orders), draft-select-le p a db.orders)

-- The ids of a candidate are those of drafts alone.
candidate-no_others :
    (m : Measures) (vehicles : List Vehicle) (payload : MatchPreviewRequest) (db : Db) (r : Outcome)
    (i : ℕ) (c : Candidate) (a : RowId)
    → ((b : RowId) → count b (ids_of db.orders) ≤ 1)
    → run_carpool m (read_orders payload db) vehicles ≡ some r
    → candidate_at (candidates_of m r.matches) i ≡ some c
    → any (λ x. x == a) c.order_ids ≡ true
    → count a (other_ids db.orders) ≡ 0
candidate-no_others m vehicles payload db r i c a unique e chosen mine =
    let unique' : ((b : RowId) → count b (draft_ids (read_orders payload db)) ≤ 1) = λ b.
      omega (arith, draft-read_orders-le b payload db, count-draft_ids b db.orders, unique b) in
    let same = run_carpool-SameIds m (read_orders payload db) vehicles r unique' e a in
    ground (
      arith,
      same,
      any-count a c.order_ids,
      mine,
      candidate-ids-le m a r.matches i c chosen,
      count-append a (matched_ids r.matches) (rejected_ids r.unmatched),
      draft-read_orders-le a payload db,
      count-draft_ids a db.orders,
      unique a,
    )

record Previewed (m : Measures) (vehicles : List Vehicle) (payload : MatchPreviewRequest)
    (run : AlgorithmRun) (r : Outcome) (db db' : Db) : Type 0 where
  pub result : run_carpool m (read_orders payload db) vehicles ≡ some r
  pub id : run.id ≡ db.next_id
  pub kind : is_carpool run.algorithm_type ≡ true
  pub fresh : run.confirmed ≡ false
  pub candidates : run.candidates ≡ candidates_of m r.matches
  pub runs : db'.runs ≡ db.runs ++ run ∷ []
  pub orders : db'.orders ≡ db.orders
  pub plans : db'.plans ≡ db.plans

carpool_preview-Previewed :
    (m : Measures) (vehicles : List Vehicle) (payload : MatchPreviewRequest) (user : User)
    (run : AlgorithmRun) (r : Outcome) (db db' : Db)
    → carpool_preview m vehicles payload user db ≡ ok ((run, r), db')
    → Previewed m vehicles payload run r db db'
unfolding carpool_preview add_run require_roles
carpool_preview-Previewed m vehicles payload user run r db db' p =
    elim (Option-cases (run_carpool m (read_orders payload db) vehicles)) [
      | inl never ↦ absurd (ground arith)
      | inr (result, e) ↦ record {
        result = ground arith;
        id = ground arith;
        kind = ground arith;
        fresh = ground arith;
        candidates = ground arith;
        runs = ground arith;
        orders = ground arith;
        plans = ground arith;
      }
    ]

add_plan-made :
    (env : Env) (run_id : RowId) (c : Candidate) (db : Db)
    → any (λ p. str_eq p.plan_no (env.plan_no run_id)) db.plans ≡ false
    → (plan : TransportPlan) × (db' : Db) × (add_plan env run_id c db ≡ ok (plan, db'))
unfolding add_plan
add_plan-made env run_id c db free = rw free (_, _, refl)

-- A confirmation that every guard lets pass succeeds.
confirm_carpool-ok :
    (env : Env) (run_id : RowId) (payload : MatchConfirmRequest) (user : User) (run : AlgorithmRun)
    (c : Candidate) (db : Db)
    → is_park_admin user.role ≡ true
    → payload.match_run_id ≡ run_id
    → get run_id db.runs ≡ some run
    → is_carpool run.algorithm_type ≡ true
    → run.confirmed ≡ false
    → candidate_at run.candidates payload.candidate_index ≡ some c
    → any
        (λ o. not (o.object_version == payload.object_version))
        (select (is_one_of c.order_ids) db.orders)
      ≡ false
    → any (λ o. not (is_draft o.status)) (select (is_one_of c.order_ids) db.orders) ≡ false
    → any (λ p. str_eq p.plan_no (env.plan_no run.id)) db.plans ≡ false
    → (plan : TransportPlan) × (db' : Db) × (confirm_carpool env run_id payload user db
        ≡ ok (plan, db'))
unfolding confirm_carpool accept_candidate add_outbox add_audit require_roles
confirm_carpool-ok env run_id payload user run c db role same found kind fresh chosen versions
      drafts free =
    let (plan, mid, made) = add_plan-made env run.id c db free in
    elim (Result-cases (confirm_carpool env run_id payload user db)) [
      | inl (plan', db', e) ↦ (plan', db', e)
      | inr (x, e) ↦
          absurd (ground (arith, e, made, role, same, found, kind, fresh, chosen, versions, drafts))
    ]

-- A candidate of a carpool preview can be confirmed: with no other change to the database, a park admin's
-- confirmation of it succeeds, where the ids of orders and runs are not doubled, the number of the plan is
-- free, and the request has the version that all orders of the candidate are on.
pub carpool_preview-confirmable :
    (env : Env) (m : Measures) (vehicles : List Vehicle) (payload : MatchPreviewRequest)
    (user admin : User) (run : AlgorithmRun) (r : Outcome) (db db' : Db) (i version : ℕ)
    (c : Candidate)
    → ((b : RowId) → count b (ids_of db.orders) ≤ 1)
    → get db.next_id db.runs ≡ none
    → any (λ p. str_eq p.plan_no (env.plan_no run.id)) db.plans ≡ false
    → is_park_admin admin.role ≡ true
    → carpool_preview m vehicles payload user db ≡ ok ((run, r), db')
    → candidate_at run.candidates i ≡ some c
    → any (λ o. not (o.object_version == version)) (select (is_one_of c.order_ids) db.orders)
      ≡ false
    → (plan : TransportPlan) × (db'' : Db) × (confirm_carpool env run.id
          (record { object_version = version; match_run_id = run.id; candidate_index = i })
          admin
          db'
        ≡ ok (plan, db''))
carpool_preview-confirmable env m vehicles payload user admin run r db db' i version c unique new_id
      free role p chosen same_version =
    let x = carpool_preview-Previewed m vehicles payload user run r db db' p in
    let drafts = all_draft c.order_ids db.orders (λ a mine.
      candidate-no_others m vehicles payload db r i c a unique x.result (rw (← x.candidates) chosen)
        mine) in
    confirm_carpool-ok env run.id
      (record { object_version = version; match_run_id = run.id; candidate_index = i }) admin run c
      db' role refl (rw x.runs (get-append_last run db.runs (rw x.id new_id))) x.kind x.fresh chosen
      (rw x.orders same_version) (rw x.orders drafts) (rw x.plans free)
