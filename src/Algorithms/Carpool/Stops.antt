-- ===== src/Algorithms/Carpool/Stops.antt =====
-- The candidate that `run_carpool` builds from a loaded vehicle: its stops and its totals.
use black_soil_loop_server.Prelude.{
  ℕ, ◌+◌, none, some, List, [], ◌∷◌, ◌++◌, ◌==◌, if◌then◌else◌, min,
}
use black_soil_loop_server.Models.{
  RowId, Instant, DeliveryLine, CandidateStop, Candidate, TransportOrder, Vehicle,
}
use black_soil_loop_server.Algorithms.Carpool.{Match, ids_of}
use black_soil_loop_server.Algorithms.Rules.{Measures}

abbrev pub new_line : TransportOrder → DeliveryLine
new_line o = record {
  order_ids = o.id ∷ [];
  product_id = o.product_id;
  expected_quantity = o.quantity;
  unit = o.unit;
}

abbrev pub longer_line : TransportOrder → DeliveryLine → DeliveryLine
longer_line o line = record line {
  order_ids = line.order_ids ++ o.id ∷ [];
  expected_quantity = line.expected_quantity + o.quantity;
}

-- The first line of the product takes the order, or else a new line does.
unfoldable pub add_to_lines : TransportOrder → List DeliveryLine → List DeliveryLine
add_to_lines o [] = new_line o ∷ []
add_to_lines o (line ∷ lines) =
    if line.product_id == o.product_id
    then longer_line o line ∷ lines
    else line ∷ add_to_lines o lines

abbrev pub new_stop : TransportOrder → CandidateStop
new_stop o = record {
  store_id = o.store_id;
  latitude = o.destination_latitude;
  longitude = o.destination_longitude;
  delivery_lines = new_line o ∷ [];
}

abbrev pub fuller_stop : TransportOrder → CandidateStop → CandidateStop
fuller_stop o stop = record stop { delivery_lines = add_to_lines o stop.delivery_lines }

-- `stops_by_store.setdefault(order.store_id, …)` and the line of the order.
unfoldable pub add_to_stops : TransportOrder → List CandidateStop → List CandidateStop
add_to_stops o [] = new_stop o ∷ []
add_to_stops o (stop ∷ stops) =
    if stop.store_id == o.store_id then fuller_stop o stop ∷ stops else stop ∷ add_to_stops o stops

-- The loop over the group, from the stops so far.
unfoldable pub stops_from : List CandidateStop → List TransportOrder → List CandidateStop
stops_from stops [] = stops
stops_from stops (o ∷ orders) = stops_from (add_to_stops o stops) orders

unfoldable pub stops_by_store : List TransportOrder → List CandidateStop
stops_by_store orders = stops_from [] orders

abbrev pub total_weight : List TransportOrder → ℕ
total_weight [] = 0
total_weight (o ∷ orders) = o.weight_kg + total_weight orders

abbrev pub total_volume : List TransportOrder → ℕ
total_volume [] = 0
total_volume (o ∷ orders) = o.volume_m3 + total_volume orders

-- `min(order.departure_at for order in final_group)`
abbrev pub first_departure : Instant → List TransportOrder → Instant
first_departure t [] = t
first_departure t (o ∷ orders) = first_departure (min t o.departure_at) orders

abbrev pub departure_of : List TransportOrder → Instant
departure_of [] = 0
departure_of (o ∷ orders) = first_departure o.departure_at orders

-- `vehicle.driver_id` of a usable vehicle.
abbrev pub driver_of : Vehicle → RowId
driver_of v = elim v.driver_id [ none ↦ 0 | some id ↦ id ]

module _ (m : Measures) where
  unfoldable pub candidate_of : Match → Candidate
  candidate_of x = record {
    order_ids = ids_of x.orders;
    vehicle_id = x.vehicle.id;
    driver_id = driver_of x.vehicle;
    temperature_zone = x.anchor.temperature_zone;
    planned_departure_at = departure_of x.orders;
    origin_latitude = x.anchor.origin_latitude;
    origin_longitude = x.anchor.origin_longitude;
    destination_latitude = x.anchor.destination_latitude;
    destination_longitude = x.anchor.destination_longitude;
    stops = stops_by_store x.orders;
    total_weight_kg = m.round_weight (total_weight x.orders);
    total_volume_m3 = m.round_volume (total_volume x.orders);
  }

  unfoldable pub candidates_of : List Match → List Candidate
  candidates_of [] = []
  candidates_of (x ∷ xs) = candidate_of x ∷ candidates_of xs
