-- ===== src/Tests/Previews.antt =====
-- Examples for the previews: the stored drafts are matched, and the match is confirmed.
use black_soil_loop_server.Prelude.{◌≡◌, refl, none, [], ◌∷◌, arith, false}
use black_soil_loop_server.Db.{run_key, Db}
use black_soil_loop_server.Tests.Data.{env, db_with}
use black_soil_loop_server.Tests.Plans.{order, admin}
use black_soil_loop_server.Tests.Planning.{
  measures, orders, vehicles, outcome, second_order, vehicle,
}
use black_soil_loop_server.Models.{
  MatchPreviewRequest, AlgorithmRun, Candidate, TransportPlan, AlgorithmType,
}
use black_soil_loop_server.B01.Previews.{carpool_preview, add_run}
use black_soil_loop_server.Tx.{ok}
use black_soil_loop_server.Algorithms.Carpool.Stops.{candidate_of, candidates_of}
use black_soil_loop_server.B01.Plans.{confirm_carpool}
use black_soil_loop_server.B01.Previews.Confirmable.{carpool_preview-confirmable}
use black_soil_loop_server.Auth.Roles.{require_roles}
use black_soil_loop_server.Algorithms.Carpool.{
  run_carpool, match_all, available, round, settle_round, choice_for, choose, by_capacity, earliest,
  insert_vehicle, better, load_vehicle, group_of, carpool_reasons, first_reasons, why_unmatched,
  without,
}
use black_soil_loop_server.Table.{order_by, insert_by}
use black_soil_loop_server.B01.Orders.{selected_orders}

abbrev request : MatchPreviewRequest
request = record { scenario_code = none; order_ids = [] }

abbrev start : Db
start = record (db_with [] []) { orders = orders }

abbrev preview_run : AlgorithmRun
preview_run = record {
  id = 100;
  algorithm_type = AlgorithmType.carpool;
  scenario_code = none;
  rules_version = "carpool-balanced-v1";
  candidates = candidates_of measures outcome.matches;
  confirmed = false;
}

abbrev previewed : Db
previewed = record start { runs = preview_run ∷ []; next_id = 101 }

preview :
    carpool_preview measures vehicles request admin start ≡ ok ((preview_run, outcome), previewed)
unfolding carpool_preview require_roles run_carpool match_all available order_by selected_orders
    insert_by round settle_round choice_for choose by_capacity earliest insert_vehicle better
    load_vehicle group_of carpool_reasons first_reasons why_unmatched without add_run
preview = refl

abbrev shared : Candidate
shared =
    candidate_of measures
      (record { anchor = second_order; vehicle = vehicle; orders = second_order ∷ order ∷ [] })

carpool_preview-confirmable_example :
    (plan : TransportPlan) × (db : Db) × (confirm_carpool env 100
        (record { object_version = 1; match_run_id = 100; candidate_index = 0 })
        admin
        previewed
      ≡ ok (plan, db))
unfolding candidates_of candidate_of
carpool_preview-confirmable_example =
    carpool_preview-confirmable env measures vehicles request admin admin preview_run outcome start
      previewed 0 1 shared (λ a. ground arith) refl refl refl preview refl refl
