-- ===== src/Algorithms/Carpool.antt =====
-- `run_carpool` of app/domain/algorithms.py: draft orders are grouped round an anchor and loaded.
pub mod Stops
pub mod Groups
pub mod Rounds
pub mod Partition
pub mod Result
pub mod Deliveries
use black_soil_loop_server.Algorithms.Rules.{
  Measures, no_larger, within_capacity, Unmatched, Reason, is_accepted, is_usable, reason_if,
  origin_max_km, destination_max_km, departure_window, apart,
}
use black_soil_loop_server.Prelude.{
  ℕ, zero, suc, ◌+◌, ◌-◌, ◌*◌, String, Bool, true, false, not, ◌&&◌, ◌||◌, Option, none, some, List,
  [], ◌∷◌, ◌++◌, ◌==◌, ltb, leb, if◌then◌else◌, any, select, length, is_some, map,
}
use black_soil_loop_server.Prelude.Int.{ℤ}
use black_soil_loop_server.Models.{
  RowId, Instant, TemperatureZone, same_zone, is_draft, TransportOrder, Vehicle,
}
use black_soil_loop_server.Table.{order_by}

unfoldable pub insert_vehicle : Vehicle → List Vehicle → List Vehicle
insert_vehicle v [] = v ∷ []
insert_vehicle v (w ∷ ws) = if no_larger v w then v ∷ w ∷ ws else w ∷ insert_vehicle v ws

unfoldable pub by_capacity : List Vehicle → List Vehicle
by_capacity [] = []
by_capacity (v ∷ vs) = insert_vehicle v (by_capacity vs)

-- The loop over the group: what fits on the vehicle on top of a load.
unfoldable pub load_vehicle : Vehicle → ℕ → ℕ → List TransportOrder → List TransportOrder
load_vehicle v weight volume [] = []
load_vehicle v weight volume (o ∷ group) =
    let loaded = load_vehicle v (weight + o.weight_kg) (volume + o.volume_m3) group in
    let passed = load_vehicle v weight volume group in
    if within_capacity (weight + o.weight_kg) v.max_weight_kg
      && within_capacity (volume + o.volume_m3) v.max_volume_m3
    then o ∷ loaded
    else passed

-- `chosen` and `final_group`.
abbrev pub Choice : Type 0
Choice = Option (Vehicle × List TransportOrder)

abbrev pub choice_size : Choice → ℕ
choice_size none = 0
choice_size (some (_, orders)) = length orders

unfoldable pub better : Vehicle → List TransportOrder → Choice → Choice
better v selected best =
    if leb 2 (length selected) && ltb (choice_size best) (length selected)
    then some (v, selected)
    else best

unfoldable pub choose : List TransportOrder → List Vehicle → Choice → Choice
choose group [] best = best
choose group (v ∷ vs) best = choose group vs (better v (load_vehicle v 0 0 group) best)

-- `min(..., key=departure_at)`: the first of the earliest.
unfoldable pub earliest : TransportOrder → List TransportOrder → TransportOrder
earliest best [] = best
earliest best (o ∷ orders) =
    earliest (if ltb o.departure_at best.departure_at then o else best) orders

-- `remaining.pop(id, None)` for each id.
unfoldable pub without : List RowId → List TransportOrder → List TransportOrder
without ids orders = select (λ o. not (any (λ i. i == o.id) ids)) orders

abbrev pub ids_of : List TransportOrder → List RowId
ids_of [] = []
ids_of (o ∷ orders) = o.id ∷ ids_of orders

-- What a candidate is built from.
pub record Match : Type 0 where
  pub anchor : TransportOrder
  pub vehicle : Vehicle
  pub orders : List TransportOrder

pub record Rejected : Type 0 where
  pub order : TransportOrder
  pub reason : Unmatched

pub record Outcome : Type 0 where
  pub matches : List Match
  pub unmatched : List Rejected

-- The body of the loop: what one round adds, and what it leaves.
pub data Round : Type 0 where
  matched : Match → List TransportOrder → Round
  rejected : Rejected → List TransportOrder → Round

abbrev pub add_match : Match → Option Outcome → Option Outcome
add_match x none = none
add_match x (some r) = some (record r { matches = x ∷ r.matches })

abbrev pub add_rejected : Rejected → Option Outcome → Option Outcome
add_rejected x none = none
add_rejected x (some r) = some (record r { unmatched = x ∷ r.unmatched })

abbrev pub add_round : Round → Option Outcome → Option Outcome
add_round (Round.matched x left) rest = add_match x rest
add_round (Round.rejected x left) rest = add_rejected x rest

-- What a round leaves in `remaining`.
abbrev pub left_of : Round → List TransportOrder
left_of (Round.matched x left) = left
left_of (Round.rejected x left) = left

-- The drafts by departure.
unfoldable pub available : List TransportOrder → List TransportOrder
available orders = order_by (λ o. o.departure_at) (select (λ o. is_draft o.status) orders)

module _ (m : Measures) where
  -- `_carpool_compatible`
  unfoldable pub carpool_reasons : TransportOrder → TransportOrder → List Reason
  carpool_reasons anchor candidate =
      reason_if
        (ltb origin_max_km (
          m.haversine_km anchor.origin_latitude anchor.origin_longitude candidate.origin_latitude
            candidate.origin_longitude))
        Reason.origin_far
      ++ (reason_if
            (ltb destination_max_km (
              m.haversine_km anchor.destination_latitude anchor.destination_longitude
                candidate.destination_latitude candidate.destination_longitude))
            Reason.destination_far
          ++ (reason_if (ltb departure_window (apart anchor.departure_at candidate.departure_at))
                Reason.departure_apart
              ++ reason_if (not (same_zone anchor.temperature_zone candidate.temperature_zone))
                  Reason.zone_differs))

  abbrev pub compatible : TransportOrder → TransportOrder → Bool
  compatible anchor candidate = is_accepted (carpool_reasons anchor candidate)

  -- The anchor and the orders that are compatible with it, by departure.
  unfoldable pub group_of : TransportOrder → List TransportOrder → List TransportOrder
  group_of anchor remaining =
      anchor
      ∷ select (λ o. not (o.id == anchor.id) && compatible anchor o)
          (order_by (λ o. o.departure_at) remaining)

  -- `next(iter(rejection_reasons.values()))`, where there is one.
  unfoldable pub first_reasons : TransportOrder → List TransportOrder → Option (List Reason)
  first_reasons anchor [] = none
  first_reasons anchor (o ∷ orders) =
      let rest = first_reasons anchor orders in
      if not (o.id == anchor.id) && not (compatible anchor o)
      then some (carpool_reasons anchor o)
      else rest

  abbrev pub alone : List TransportOrder → Option (List Reason) → Unmatched
  alone (o ∷ []) (some reasons) = Unmatched.incompatible reasons
  alone _ _ = Unmatched.no_load_of_two

  unfoldable pub why_unmatched : TransportOrder → List TransportOrder → List Vehicle → Unmatched
  why_unmatched anchor remaining [] = Unmatched.no_vehicle
  why_unmatched anchor remaining (_ ∷ _) =
      alone (group_of anchor remaining)
        (first_reasons anchor (order_by (λ o. o.departure_at) remaining))

  -- The vehicle and the orders of one round.
  unfoldable pub choice_for : TransportOrder → List TransportOrder → List Vehicle → Choice
  choice_for anchor remaining vehicles =
      choose (group_of anchor remaining)
        (by_capacity (select (is_usable anchor.temperature_zone) vehicles)) none

  unfoldable pub settle_round : TransportOrder → List TransportOrder → List Vehicle → Choice → Round
  settle_round anchor remaining vehicles (some (vehicle, orders)) =
      Round.matched (record { anchor = anchor; vehicle = vehicle; orders = orders })
        (without (ids_of orders) remaining)
  settle_round anchor remaining vehicles none =
      Round.rejected
        (record {
          order = anchor;
          reason =
              why_unmatched anchor remaining (select (is_usable anchor.temperature_zone) vehicles);
        })
        (without (anchor.id ∷ []) remaining)

  unfoldable pub round : TransportOrder → List TransportOrder → List Vehicle → Round
  round anchor remaining vehicles =
      settle_round anchor remaining vehicles (choice_for anchor remaining vehicles)

  -- `while remaining`, on fuel: none where it runs out.
  unfoldable pub match_all : ℕ → List TransportOrder → List Vehicle → Option Outcome
  match_all fuel [] vehicles = some (record { matches = []; unmatched = [] })
  match_all zero (o ∷ remaining) vehicles = none
  match_all (suc fuel) (o ∷ remaining) vehicles =
      let r = round (earliest o remaining) (o ∷ remaining) vehicles in
      add_round r (match_all fuel (left_of r) vehicles)

  unfoldable pub run_carpool : List TransportOrder → List Vehicle → Option Outcome
  run_carpool orders vehicles = match_all (length (available orders)) (available orders) vehicles
