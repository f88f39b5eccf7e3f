-- ===== src/Algorithms/Carpool/Rounds.antt =====
-- One round of `run_carpool`, and the rules that its match keeps to.
use black_soil_loop_server.Prelude.{
  ◌*◌, ◌≤◌, ◌<◌, ◌≡◌, refl, Bool, true, not, ◌&&◌, ◌||◌, none, some, List, [], ◌∷◌, ◌==◌, ltb, leb,
  all, select, length, count, arith, Bool-cases, inl, inr,
}
use black_soil_loop_server.Models.{RowId, TransportOrder, Vehicle}
use black_soil_loop_server.Table.{order_by}
use black_soil_loop_server.Algorithms.Carpool.{
  insert_vehicle, by_capacity, load_vehicle, Choice, choice_size, better, choose, without, ids_of,
  Match, compatible, group_of, choice_for, Round, settle_round, round,
}
use black_soil_loop_server.Algorithms.Rules.{Measures, is_usable}
use black_soil_loop_server.Algorithms.Carpool.Stops.{total_weight, total_volume}
use black_soil_loop_server.Algorithms.Carpool.Groups.{
  load_vehicle-le, load_vehicle-fits, load_vehicle-all, group_of-le,
}

-- A choice is none, or a vehicle that passes with at least two orders that were loaded on it.
abbrev pub Chosen : (Vehicle → Bool) → List TransportOrder → Choice → Type 0
Chosen p group none = Unit {0}
Chosen p group (some (v, orders)) =
    (p v ≡ true) × (orders ≡ load_vehicle v 0 0 group) × (2 ≤ length orders)

better-Chosen :
    (p : Vehicle → Bool) (group : List TransportOrder) (v : Vehicle) (best : Choice)
    → p v ≡ true
    → Chosen p group best
    → Chosen p group (better v (load_vehicle v 0 0 group) best)
unfolding better
better-Chosen p group v best h c =
    elim (Bool-cases (
      leb 2 (length (load_vehicle v 0 0 group))
      && ltb (choice_size best) (length (load_vehicle v 0 0 group)))) [
        | inl more ↦ rw more (h, refl, ground arith)
        | inr less ↦ rw less c
      ]

choose-Chosen :
    (p : Vehicle → Bool) (group : List TransportOrder) (vehicles : List Vehicle) (best : Choice)
    → all p vehicles ≡ true
    → Chosen p group best
    → Chosen p group (choose group vehicles best)
unfolding choose
choose-Chosen p group [] best h c = c
choose-Chosen p group (v ∷ vs) best h c =
    choose-Chosen p group vs (better v (load_vehicle v 0 0 group) best) (ground arith)
      (better-Chosen p group v best (ground arith) c)

all-insert_vehicle :
    (p : Vehicle → Bool) (v : Vehicle) (vs : List Vehicle)
    → all p (insert_vehicle v vs) ≡ (p v && all p vs)
unfolding insert_vehicle
all-insert_vehicle p v [] = refl
all-insert_vehicle p v (w ∷ vs) = ground (arith, all-insert_vehicle p v vs)

all-by_capacity : (p : Vehicle → Bool) (vs : List Vehicle) → all p (by_capacity vs) ≡ all p vs
unfolding by_capacity
all-by_capacity p [] = refl
all-by_capacity p (v ∷ vs) =
    ground (arith, all-insert_vehicle p v (by_capacity vs), all-by_capacity p vs)

all-select_self {ℓ} : {A : Type ℓ} (p : A → Bool) (xs : List A) → all p (select p xs) ≡ true
all-select_self p [] = refl
all-select_self p (x ∷ xs) = ground (arith, all-select_self p xs)

-- Only the anchor and the orders compatible with it are grouped.
group_of-compatible :
    (m : Measures) (anchor : TransportOrder) (remaining : List TransportOrder)
    → all (λ o. o.id == anchor.id || compatible m anchor o) (group_of m anchor remaining) ≡ true
unfolding group_of
group_of-compatible m anchor remaining =
    ground (arith, picked (order_by (λ (o : TransportOrder). o.departure_at) remaining))
  where
    picked :
        (orders : List TransportOrder)
        → all
            (λ o. o.id == anchor.id || compatible m anchor o)
            (select (λ o. not (o.id == anchor.id) && compatible m anchor o) orders)
          ≡ true
    picked [] = refl
    picked (o ∷ orders) = ground (arith, picked orders)

-- A match keeps the rules: the vehicle is enabled, has a driver and the zone of the anchor, the load is
-- within nine tenths of its capacity, there are two orders at least, and each of them is the anchor or
-- compatible with it.
pub record IsMatch (m : Measures) (x : Match) : Type 0 where
  pub usable : is_usable x.anchor.temperature_zone x.vehicle ≡ true
  pub weight : 10 * total_weight x.orders ≤ 9 * x.vehicle.max_weight_kg
  pub volume : 10 * total_volume x.orders ≤ 9 * x.vehicle.max_volume_m3
  pub two : 2 ≤ length x.orders
  pub close : all (λ o. o.id == x.anchor.id || compatible m x.anchor o) x.orders ≡ true

-- What a round does to the orders that remain.
unfoldable pub RoundOk : Measures → TransportOrder → List TransportOrder → Round → Type 0
RoundOk m anchor remaining (Round.matched x left) =
    IsMatch m x
    × (left ≡ without (ids_of x.orders) remaining)
    × ((a : RowId) → count a (ids_of x.orders) ≤ count a (ids_of remaining))
RoundOk m anchor remaining (Round.rejected x left) =
    (x.order ≡ anchor) × (left ≡ without (anchor.id ∷ []) remaining)

settle_round-RoundOk :
    (m : Measures) (anchor : TransportOrder) (remaining : List TransportOrder)
    (vehicles : List Vehicle) (choice : Choice)
    → 0 < count anchor.id (ids_of remaining)
    → Chosen (is_usable anchor.temperature_zone) (group_of m anchor remaining) choice
    → RoundOk m anchor remaining (settle_round m anchor remaining vehicles choice)
unfolding settle_round RoundOk
settle_round-RoundOk m anchor remaining vehicles none h c = (refl, refl)
settle_round-RoundOk m anchor remaining vehicles (some (v, orders)) h (usable, loaded, two) =
    let group = group_of m anchor remaining in
    let (w, u) = load_vehicle-fits v 0 0 group (omega arith) (omega arith) in
    (
      record {
        usable = usable;
        weight = rw loaded (ground (arith, w));
        volume = rw loaded (ground (arith, u));
        two = two;
        close = rw loaded (
            load_vehicle-all (λ o. o.id == anchor.id || compatible m anchor o) v 0 0 group
              (group_of-compatible m anchor remaining));
      },
      refl,
      λ a.
          rw loaded
            (omega (arith, load_vehicle-le v 0 0 a group, group_of-le m anchor remaining a h)),
    )

pub round-RoundOk :
    (m : Measures) (anchor : TransportOrder) (remaining : List TransportOrder)
    (vehicles : List Vehicle)
    → 0 < count anchor.id (ids_of remaining)
    → RoundOk m anchor remaining (round m anchor remaining vehicles)
unfolding round choice_for
round-RoundOk m anchor remaining vehicles h =
    settle_round-RoundOk m anchor remaining vehicles (choice_for m anchor remaining vehicles) h (
      choose-Chosen (is_usable anchor.temperature_zone) (group_of m anchor remaining)
        (by_capacity (select (is_usable anchor.temperature_zone) vehicles)) none
        (ground (
          arith,
          all-by_capacity (is_usable anchor.temperature_zone)
              (select (is_usable anchor.temperature_zone) vehicles),
          all-select_self (is_usable anchor.temperature_zone) vehicles,
        ))
        tt)
