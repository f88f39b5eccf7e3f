-- ===== src/Algorithms/Rules.antt =====
-- The rules of `run_carpool` (app/domain/algorithms.py): distances, times, loads and vehicles.
use black_soil_loop_server.Prelude.{
  ℕ, ◌+◌, ◌-◌, ◌*◌, Bool, true, false, ◌&&◌, ◌||◌, List, [], ◌∷◌, ◌==◌, ltb, leb, is_some,
}
use black_soil_loop_server.Prelude.Int.{ℤ}
use black_soil_loop_server.Models.{TemperatureZone, same_zone, Vehicle}

-- What comes from floating-point code: `haversine_km`, in thousandths of a kilometre, and the
-- `round` of the totals to 2 and 3 digits.
pub record Measures : Type 0 where
  pub haversine_km : ℤ → ℤ → ℤ → ℤ → ℕ
  pub round_weight : ℕ → ℕ
  pub round_volume : ℕ → ℕ

-- CARPOOL_RULES
abbrev pub origin_max_km : ℕ
origin_max_km = 20_000

abbrev pub destination_max_km : ℕ
destination_max_km = 25_000

-- 60 minutes, in microseconds.
abbrev pub departure_window : ℕ
departure_window = 3_600_000_000

-- `load <= capacity * 0.9`
abbrev pub within_capacity : ℕ → ℕ → Bool
within_capacity load capacity = leb (10 * load) (9 * capacity)

pub data Reason : Type 0 where
  origin_far destination_far departure_apart zone_differs : Reason

-- What `unmatched` tells of an order.
pub data Unmatched : Type 0 where
  no_load_of_two no_vehicle : Unmatched
  incompatible : List Reason → Unmatched

abbrev pub apart : ℕ → ℕ → ℕ
apart a b = (a - b) + (b - a)

-- One line of the list of reasons.
abbrev pub reason_if : Bool → Reason → List Reason
reason_if true r = r ∷ []
reason_if false r = []

abbrev pub is_accepted : List Reason → Bool
is_accepted [] = true
is_accepted (_ ∷ _) = false

-- `vehicle.enabled and vehicle.driver_id and vehicle.temperature_zone == zone`
abbrev pub is_usable : TemperatureZone → Vehicle → Bool
is_usable zone v = v.enabled && (is_some v.driver_id && same_zone v.temperature_zone zone)

-- The order of the sort key (max_weight_kg, max_volume_m3).
abbrev pub no_larger : Vehicle → Vehicle → Bool
no_larger v w =
    ltb v.max_weight_kg w.max_weight_kg
    || (v.max_weight_kg == w.max_weight_kg && leb v.max_volume_m3 w.max_volume_m3)
