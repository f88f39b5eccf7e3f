-- ===== src/Algorithms/Carpool/Groups.antt =====
-- How often an id occurs in what sorting, grouping and loading make of orders.
use black_soil_loop_server.Prelude.{
  ℕ, ◌+◌, ◌*◌, ◌≤◌, ◌<◌, ◌≡◌, refl, Bool, true, not, ◌&&◌, List, [], ◌∷◌, ◌==◌, ltb, if◌then◌else◌,
  any, all, select, count, arith, Bool-cases, inl, inr, ap, ==_iff,
}
use black_soil_loop_server.Models.{RowId, TransportOrder, Vehicle}
use black_soil_loop_server.Table.{insert_by, order_by}
use black_soil_loop_server.Algorithms.Carpool.{
  load_vehicle, earliest, without, ids_of, group_of, compatible,
}
use black_soil_loop_server.Algorithms.Rules.{Measures, within_capacity}
use black_soil_loop_server.Algorithms.Carpool.Stops.{total_weight, total_volume}

abbrev by_departure : TransportOrder → ℕ
by_departure o = o.departure_at

count-insert_by :
    (a : RowId) (o : TransportOrder) (orders : List TransportOrder)
    → count a (ids_of (insert_by by_departure o orders)) ≡ count a (ids_of (o ∷ orders))
unfolding insert_by
count-insert_by a o [] = refl
count-insert_by a o (x ∷ orders) = ground (arith, count-insert_by a o orders)

pub count-order_by :
    (a : RowId) (orders : List TransportOrder)
    → count a (ids_of (order_by by_departure orders)) ≡ count a (ids_of orders)
unfolding order_by
count-order_by a [] = refl
count-order_by a (o ∷ orders) =
    ground (arith, count-insert_by a o (order_by by_departure orders), count-order_by a orders)

pub count-select-le :
    (p : TransportOrder → Bool) (a : RowId) (orders : List TransportOrder)
    → count a (ids_of (select p orders)) ≤ count a (ids_of orders)
count-select-le p a [] = omega arith
count-select-le p a (o ∷ orders) = ground (arith, count-select-le p a orders)

-- Without an id nothing of it is left, and the others stay.
pub count-without :
    (ids : List RowId) (a : RowId) (orders : List TransportOrder)
    → count a (ids_of (without ids orders))
      ≡ (if any (λ i. i == a) ids then 0 else count a (ids_of orders))
unfolding without
count-without ids a [] = ground arith
count-without ids a (o ∷ orders) =
    let ih = count-without ids a orders in
    elim (Bool-cases (o.id == a)) [
      | inl same ↦
          let e : any (λ i. i == o.id) ids ≡ any (λ i. i == a) ids =
            ap (λ (x : RowId). any (λ i. i == x) ids) ((==_iff _ _).0 same) in
          ground (arith, e, ih)
      | inr other ↦ ground (arith, ih)
    ]

pub load_vehicle-le :
    (v : Vehicle) (weight volume : ℕ) (a : RowId) (group : List TransportOrder)
    → count a (ids_of (load_vehicle v weight volume group)) ≤ count a (ids_of group)
unfolding load_vehicle
load_vehicle-le v weight volume a [] = omega arith
load_vehicle-le v weight volume a (o ∷ group) = ground (
  arith,
  load_vehicle-le v (weight + o.weight_kg) (volume + o.volume_m3) a group,
  load_vehicle-le v weight volume a group,
)

-- A loaded vehicle is within nine tenths of its capacity, in weight and in volume.
pub load_vehicle-fits :
    (v : Vehicle) (weight volume : ℕ) (group : List TransportOrder)
    → 10 * weight ≤ 9 * v.max_weight_kg
    → 10 * volume ≤ 9 * v.max_volume_m3
    → (10 * (weight + total_weight (load_vehicle v weight volume group)) ≤ 9 * v.max_weight_kg)
      × (10 * (volume + total_volume (load_vehicle v weight volume group)) ≤ 9 * v.max_volume_m3)
unfolding load_vehicle
load_vehicle-fits v weight volume [] w u = (omega arith, omega arith)
load_vehicle-fits v weight volume (o ∷ group) w u =
    elim (Bool-cases (
      within_capacity (weight + o.weight_kg) v.max_weight_kg
      && within_capacity (volume + o.volume_m3) v.max_volume_m3)) [
        | inl fits ↦
            let (w', u') =
              load_vehicle-fits v (weight + o.weight_kg) (volume + o.volume_m3) group (ground arith)
                (ground arith) in
            rw fits (omega (arith, w'), omega (arith, u'))
        | inr full ↦ rw full (load_vehicle-fits v weight volume group w u)
      ]

pub load_vehicle-all :
    (p : TransportOrder → Bool) (v : Vehicle) (weight volume : ℕ) (group : List TransportOrder)
    → all p group ≡ true
    → all p (load_vehicle v weight volume group) ≡ true
unfolding load_vehicle
load_vehicle-all p v weight volume [] h = refl
load_vehicle-all p v weight volume (o ∷ group) h = ground (
  arith,
  load_vehicle-all p v (weight + o.weight_kg) (volume + o.volume_m3) group,
  load_vehicle-all p v weight volume group,
)

-- The anchor is one of the orders.
pub earliest-count :
    (best : TransportOrder) (orders : List TransportOrder)
    → 0 < count (earliest best orders).id (ids_of (best ∷ orders))
unfolding earliest
earliest-count best [] = ground arith
earliest-count best (o ∷ orders) =
    let ih = earliest-count (if ltb o.departure_at best.departure_at then o else best) orders in
    elim (Bool-cases (ltb o.departure_at best.departure_at)) [
      | inl sooner ↦ ground (arith, ih)
      | inr later ↦ ground (arith, ih)
    ]

select-absent :
    (p : TransportOrder → Bool) (a : RowId) (orders : List TransportOrder)
    → count a (ids_of (select (λ o. not (o.id == a) && p o) orders)) ≡ 0
select-absent p a [] = refl
select-absent p a (o ∷ orders) = ground (arith, select-absent p a orders)

-- A group takes each order of what remains once at most.
pub group_of-le :
    (m : Measures) (anchor : TransportOrder) (remaining : List TransportOrder) (a : RowId)
    → 0 < count anchor.id (ids_of remaining)
    → count a (ids_of (group_of m anchor remaining)) ≤ count a (ids_of remaining)
unfolding group_of
group_of-le m anchor remaining a h =
    let p = λ (o : TransportOrder). not (o.id == anchor.id) && compatible m anchor o in
    let sorted = order_by by_departure remaining in
    elim (Bool-cases (anchor.id == a)) [
      | inl same ↦ ground (arith, same, select-absent (compatible m anchor) anchor.id sorted)
      | inr other ↦ ground (arith, other, count-select-le p a sorted, count-order_by a remaining)
    ]
