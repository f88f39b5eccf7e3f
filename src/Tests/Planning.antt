-- ===== src/Tests/Planning.antt =====
-- Examples for the planning algorithms: two orders share a vehicle, and one of another zone stays.
use black_soil_loop_server.Table.{order_by, insert_by}
use black_soil_loop_server.Algorithms.Carpool.{
  run_carpool, match_all, available, round, settle_round, choice_for, choose, by_capacity, earliest,
  insert_vehicle, better, load_vehicle, group_of, carpool_reasons, without, why_unmatched,
  first_reasons,
}
use black_soil_loop_server.Prelude.{
  ◌≤◌, ◌≡◌, refl, true, some, List, [], ◌∷◌, ◌++◌, count, bag, any, arith, select, not,
}
use black_soil_loop_server.Prelude.Int.{pos}
use black_soil_loop_server.Tests.Plans.{order}
use black_soil_loop_server.Algorithms.Carpool.{Outcome, run_carpool}
use black_soil_loop_server.Algorithms.Rules.{Measures, Unmatched}
use black_soil_loop_server.Models.{TransportOrder, Vehicle, Warehouse, TemperatureZone, RowId}
use black_soil_loop_server.Algorithms.Carpool.Partition.{matched_ids, AllMatch, rejected_ids}
use black_soil_loop_server.Algorithms.Carpool.Deliveries.{
  expected_at, AllOncePerProduct, ordered_for, stops_by_store-quantity, stores_of,
  stops_by_store-once,
}
use black_soil_loop_server.Algorithms.Warehouse.{
  Survey, Group, run_warehouse_pool, sort_groups, grouped,
}
use black_soil_loop_server.Algorithms.Warehouse.Sound.{
  item_ids, takes, items_of, run_warehouse_pool-takes, run_warehouse_pool-partition,
}
use black_soil_loop_server.Algorithms.Carpool.Stops.{stops_by_store}
use black_soil_loop_server.Algorithms.Carpool.Result.{
  run_carpool-ends, draft_ids, run_carpool-partition,
}

abbrev pub measures : Measures
measures = record { haversine_km = λ a b c d. 5_000; round_weight = λ x. x; round_volume = λ x. x }

abbrev pub second_order : TransportOrder
second_order = record order { id = 31; departure_at = 400; product_id = 41; quantity = 3 }

abbrev frozen_order : TransportOrder
frozen_order = record order { id = 32; temperature_zone = TemperatureZone.frozen }

abbrev pub orders : List TransportOrder
orders = order ∷ second_order ∷ frozen_order ∷ []

abbrev pub vehicle : Vehicle
vehicle = record {
  id = 80;
  driver_id = some 5;
  plate_no = "A-1";
  temperature_zone = TemperatureZone.chilled;
  max_weight_kg = 1_000;
  max_volume_m3 = 100;
  enabled = true;
  object_version = 1;
}

abbrev pub vehicles : List Vehicle
vehicles = vehicle ∷ []

abbrev pub outcome : Outcome
outcome = record {
  matches =
      record { anchor = second_order; vehicle = vehicle; orders = second_order ∷ order ∷ [] } ∷ [];
  unmatched = record { order = frozen_order; reason = Unmatched.no_vehicle } ∷ [];
}

found : run_carpool measures orders vehicles ≡ some outcome
unfolding run_carpool match_all available order_by insert_by round settle_round choice_for choose
    by_capacity earliest insert_vehicle better load_vehicle group_of carpool_reasons without
    why_unmatched first_reasons
found = refl

run_carpool-ends_example :
    (r : Outcome) × (run_carpool measures orders vehicles ≡ some r) × AllMatch measures r.matches
run_carpool-ends_example = run_carpool-ends measures orders vehicles

run_carpool-partition_example :
    bag (matched_ids outcome.matches ++ rejected_ids outcome.unmatched) ≡ bag (draft_ids orders)
run_carpool-partition_example =
    run_carpool-partition measures orders vehicles outcome (λ a. ground arith) found

stops_by_store-quantity_example : expected_at 7 40 (stops_by_store orders) ≡ ordered_for 7 40 orders
stops_by_store-quantity_example = stops_by_store-quantity orders 7 40

stops_by_store-once_example :
    AllOncePerProduct (stops_by_store orders)
    × ((store : RowId) → count store (stores_of (stops_by_store orders)) ≤ 1)
stops_by_store-once_example = stops_by_store-once orders

abbrev survey : Survey
survey = record {
  haversine_km = λ a b c d. 12_000;
  mean = λ xs. pos 0;
  round_km = λ x. x;
  round_volume = λ x. x;
}

abbrev warehouse : Warehouse
warehouse = record {
  id = 90;
  enterprise_id = 1;
  code = "W";
  name = "W";
  temperature_zone = TemperatureZone.chilled;
  latitude = pos 0;
  longitude = pos 0;
  capacity_m3 = 50;
  used_m3 = 10;
  object_version = 1;
}

abbrev chilled_group : Group
chilled_group = record {
  scenario_code = "s";
  temperature_zone = TemperatureZone.chilled;
  orders = order ∷ second_order ∷ [];
}

run_warehouse_pool-takes_example :
    let gs = sort_groups (grouped orders) in
    ((run_warehouse_pool survey orders (warehouse ∷ [])).candidates
      ≡ items_of survey (warehouse ∷ []) (select (λ g. any (takes survey g) (warehouse ∷ [])) gs))
    × ((run_warehouse_pool survey orders (warehouse ∷ [])).unmatched
        ≡ items_of survey
            (warehouse ∷ [])
            (select (λ g. not (any (takes survey g) (warehouse ∷ []))) gs))
run_warehouse_pool-takes_example = run_warehouse_pool-takes survey orders (warehouse ∷ [])

run_warehouse_pool-partition_example :
    bag (
      item_ids (run_warehouse_pool survey orders (warehouse ∷ [])).candidates
      ++ item_ids (run_warehouse_pool survey orders (warehouse ∷ [])).unmatched)
    ≡ bag (draft_ids orders)
run_warehouse_pool-partition_example = run_warehouse_pool-partition survey orders (warehouse ∷ [])
