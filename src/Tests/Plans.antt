-- ===== src/Tests/Plans.antt =====
-- Examples for the plans: a carpool run with one candidate is confirmed.
use black_soil_loop_server.Prelude.{◌≡◌, refl, false, [], ◌∷◌, none}
use black_soil_loop_server.Prelude.Int.{pos}
use black_soil_loop_server.Models.{
  User, Role, OrderStatus, AlgorithmType, MatchConfirmRequest, AlgorithmRun, TransportOrder,
  TransportPlan, TemperatureZone, PlanStatus,
}
use black_soil_loop_server.Errors.{error, ErrorCode}
use black_soil_loop_server.Db.{Db, alert_key}
use black_soil_loop_server.Tx.{ok, err}
use black_soil_loop_server.B01.Plans.{confirm_carpool, accept_candidate, add_plan}
use black_soil_loop_server.B01.Plans.Confirmed.{
  Confirmed, confirm_carpool-Confirmed, confirm_carpool-once,
}
use black_soil_loop_server.Tests.Data.{env, env_at, driver, db_with, state_of}
use black_soil_loop_server.Tests.Outbox.{candidate}
use black_soil_loop_server.Auth.Roles.{require_roles}
use black_soil_loop_server.Services.Journal.{add_outbox, add_audit}

abbrev pub order : TransportOrder
order = record {
  id = 30;
  order_no = "ORD-1";
  scenario_code = "s";
  enterprise_id = 1;
  product_id = 40;
  store_id = 7;
  origin_latitude = pos 0;
  origin_longitude = pos 0;
  destination_latitude = pos 0;
  destination_longitude = pos 0;
  departure_at = 500;
  quantity = 9;
  unit = "box";
  weight_kg = 100;
  volume_m3 = 2;
  temperature_zone = TemperatureZone.chilled;
  status = OrderStatus.draft;
  object_version = 1;
}

abbrev pub run : AlgorithmRun
run = record {
  id = 60;
  algorithm_type = AlgorithmType.carpool;
  scenario_code = none;
  rules_version = "1";
  candidates = candidate ∷ [];
  confirmed = false;
}

abbrev pub admin : User
admin = record driver { id = 3; role = Role.park_admin; driver_id = none }

abbrev pub choice : MatchConfirmRequest
choice = record { object_version = 1; match_run_id = 60; candidate_index = 0 }

abbrev pub draft_db : Db
draft_db = record (db_with [] []) { orders = order ∷ []; runs = run ∷ [] }

abbrev confirmed_db : Db
confirmed_db = state_of draft_db (confirm_carpool env 60 choice admin draft_db)

abbrev pub confirmed_plan : TransportPlan
confirmed_plan = record {
  id = 100;
  plan_no = "PLAN-1";
  algorithm_run_id = 60;
  candidate_snapshot = candidate;
  status = PlanStatus.confirmed;
  task_id = none;
  published_qr_token = none;
  qr_expires_at = none;
  cancellation_reason = none;
  last_error = none;
  object_version = 1;
}

confirmed : confirm_carpool env 60 choice admin draft_db ≡ ok (confirmed_plan, confirmed_db)
unfolding confirm_carpool require_roles accept_candidate add_plan add_outbox add_audit
confirmed = refl

confirm_carpool-Confirmed_example :
    Confirmed env 60 choice admin confirmed_plan draft_db confirmed_db
confirm_carpool-Confirmed_example =
    confirm_carpool-Confirmed env 60 choice admin confirmed_plan draft_db confirmed_db confirmed

confirm_carpool-once_example :
    confirm_carpool (env_at 9_000) 60 choice admin confirmed_db
    ≡ err (error ErrorCode.match_run_confirmed 409)
confirm_carpool-once_example =
    confirm_carpool-once env (env_at 9_000) 60 choice choice admin admin confirmed_plan draft_db
      confirmed_db confirmed refl refl
