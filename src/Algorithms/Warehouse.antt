-- ===== src/Algorithms/Warehouse.antt =====
-- `run_warehouse_pool` of app/domain/algorithms.py: drafts of one scenario and one zone share a warehouse.
pub mod Sound
use Prim.Native.Nat.{Ordering}
use Prim.Native.String.{compare}
use black_soil_loop_server.Prelude.{
  ℕ, ◌+◌, ◌*◌, String, Bool, true, false, not, ◌&&◌, ◌||◌, List, [], ◌∷◌, ◌++◌, ltb, leb, ◌==◌,
  str_eq, if◌then◌else◌, select,
}
use black_soil_loop_server.Prelude.Int.{ℤ}
use black_soil_loop_server.Models.{
  RowId, TemperatureZone, same_zone, is_draft, TransportOrder, Warehouse,
}
use black_soil_loop_server.Algorithms.Carpool.{ids_of}
use black_soil_loop_server.Algorithms.Carpool.Stops.{total_volume}

-- What comes from floating-point code: `haversine_km`, in thousandths of a kilometre, the `mean` of
-- coordinates, and the `round` of a distance and of a volume to 2 digits.
pub record Survey : Type 0 where
  pub haversine_km : ℤ → ℤ → ℤ → ℤ → ℕ
  pub mean : List ℤ → ℤ
  pub round_km : ℕ → ℕ
  pub round_volume : ℕ → ℕ

-- WAREHOUSE_RULES
abbrev pub distance_max_km : ℕ
distance_max_km = 30_000

-- A key of `grouped` and its orders.
pub record Group : Type 0 where
  pub scenario_code : String
  pub temperature_zone : TemperatureZone
  pub orders : List TransportOrder

abbrev pub is_group_of : TransportOrder → Group → Bool
is_group_of o g =
    str_eq g.scenario_code o.scenario_code && same_zone g.temperature_zone o.temperature_zone

abbrev pub new_group : TransportOrder → Group
new_group o = record {
  scenario_code = o.scenario_code;
  temperature_zone = o.temperature_zone;
  orders = o ∷ [];
}

-- `grouped[(scenario_code, temperature_zone)].append(order)`
unfoldable pub add_to_groups : TransportOrder → List Group → List Group
add_to_groups o [] = new_group o ∷ []
add_to_groups o (g ∷ gs) =
    if is_group_of o g
    then record g { orders = g.orders ++ o ∷ [] } ∷ gs
    else g ∷ add_to_groups o gs

unfoldable pub groups_from : List Group → List TransportOrder → List Group
groups_from gs [] = gs
groups_from gs (o ∷ orders) = groups_from (add_to_groups o gs) orders

unfoldable pub grouped : List TransportOrder → List Group
grouped orders = groups_from [] (select (λ o. is_draft o.status) orders)

-- The order of the texts "AMBIENT", "CHILLED" and "FROZEN".
abbrev pub zone_rank : TemperatureZone → ℕ
zone_rank TemperatureZone.ambient = 0
zone_rank TemperatureZone.chilled = 1
zone_rank TemperatureZone.frozen = 2

abbrev pub key_before : Ordering → TemperatureZone → TemperatureZone → Bool
key_before Ordering.lt a b = true
key_before Ordering.eq a b = leb (zone_rank a) (zone_rank b)
key_before Ordering.gt a b = false

abbrev pub group_before : Group → Group → Bool
group_before g h =
    key_before (compare g.scenario_code h.scenario_code) g.temperature_zone h.temperature_zone

unfoldable pub insert_group : Group → List Group → List Group
insert_group g [] = g ∷ []
insert_group g (h ∷ hs) = if group_before g h then g ∷ h ∷ hs else h ∷ insert_group g hs

-- `sorted(grouped.items())`
unfoldable pub sort_groups : List Group → List Group
sort_groups [] = []
sort_groups (g ∷ gs) = insert_group g (sort_groups gs)

-- An entry of `ranked`.
pub record Ranked : Type 0 where
  pub warehouse : Warehouse
  pub estimated_distance_km : ℕ
  pub eligible : Bool

-- The order of the sort key (not eligible, estimated_distance_km).
abbrev pub ranks_before : Ranked → Ranked → Bool
ranks_before a b =
    a.eligible && not b.eligible
    || (a.eligible || not b.eligible) && leb a.estimated_distance_km b.estimated_distance_km

unfoldable pub insert_ranked : Ranked → List Ranked → List Ranked
insert_ranked a [] = a ∷ []
insert_ranked a (b ∷ bs) = if ranks_before a b then a ∷ b ∷ bs else b ∷ insert_ranked a bs

unfoldable pub sort_ranked : List Ranked → List Ranked
sort_ranked [] = []
sort_ranked (a ∷ rest) = insert_ranked a (sort_ranked rest)

abbrev pub origin_latitudes : List TransportOrder → List ℤ
origin_latitudes [] = []
origin_latitudes (o ∷ orders) = o.origin_latitude ∷ origin_latitudes orders

abbrev pub origin_longitudes : List TransportOrder → List ℤ
origin_longitudes [] = []
origin_longitudes (o ∷ orders) = o.origin_longitude ∷ origin_longitudes orders

pub record PoolItem : Type 0 where
  pub scenario_code : String
  pub temperature_zone : TemperatureZone
  pub order_ids : List RowId
  pub required_volume_m3 : ℕ
  pub candidate_warehouses : List Ranked

pub record PoolOutcome : Type 0 where
  pub candidates : List PoolItem
  pub unmatched : List PoolItem

-- `ranked and ranked[0]["eligible"]`
abbrev pub first_eligible : List Ranked → Bool
first_eligible [] = false
first_eligible (r ∷ _) = r.eligible

abbrev pub add_item : Bool → PoolItem → PoolOutcome → PoolOutcome
add_item true item r = record r { candidates = item ∷ r.candidates }
add_item false item r = record r { unmatched = item ∷ r.unmatched }

module _ (s : Survey) where
  -- From the centre of the origins of the group.
  unfoldable pub distance_to : List TransportOrder → Warehouse → ℕ
  distance_to orders w =
      s.haversine_km (s.mean (origin_latitudes orders)) (s.mean (origin_longitudes orders))
        w.latitude w.longitude

  -- `volume <= (capacity - used) * 0.9`, without the subtraction.
  unfoldable pub is_eligible : List TransportOrder → Warehouse → Bool
  is_eligible orders w =
      leb (distance_to orders w) distance_max_km
      && leb (10 * total_volume orders + 9 * w.used_m3) (9 * w.capacity_m3)

  abbrev pub ranked_of : List TransportOrder → Warehouse → Ranked
  ranked_of orders w = record {
    warehouse = w;
    estimated_distance_km = s.round_km (distance_to orders w);
    eligible = is_eligible orders w;
  }

  -- The loop over the warehouses of the zone.
  unfoldable pub rank : Group → List Warehouse → List Ranked
  rank g [] = []
  rank g (w ∷ ws) =
      let rest = rank g ws in
      if same_zone w.temperature_zone g.temperature_zone then ranked_of g.orders w ∷ rest else rest

  unfoldable pub pool_item : List Warehouse → Group → PoolItem
  pool_item ws g = record {
    scenario_code = g.scenario_code;
    temperature_zone = g.temperature_zone;
    order_ids = ids_of g.orders;
    required_volume_m3 = s.round_volume (total_volume g.orders);
    candidate_warehouses = sort_ranked (rank g ws);
  }

  unfoldable pub pool_groups : List Warehouse → List Group → PoolOutcome
  pool_groups ws [] = record { candidates = []; unmatched = [] }
  pool_groups ws (g ∷ gs) =
      let item = pool_item ws g in
      add_item (first_eligible item.candidate_warehouses) item (pool_groups ws gs)

  unfoldable pub run_warehouse_pool : List TransportOrder → List Warehouse → PoolOutcome
  run_warehouse_pool orders ws = pool_groups ws (sort_groups (grouped orders))
