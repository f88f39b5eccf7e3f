-- ===== src/Algorithms/Carpool/Deliveries.antt =====
-- The stops of a candidate beside its orders: `stops_by_store` in `run_carpool`.
use black_soil_loop_server.Prelude.{
  ℕ, ◌+◌, ◌≤◌, ◌≡◌, List, [], ◌∷◌, ◌==◌, ◌&&◌, count, max, arith, if◌then◌else◌, Bool-cases, inl,
  inr, arith,
}
use black_soil_loop_server.Models.{RowId, CandidateStop, DeliveryLine, TransportOrder}
use black_soil_loop_server.Algorithms.Carpool.Stops.{
  add_to_lines, add_to_stops, stops_from, stops_by_store,
}

-- The quantity that lines expect of a product.
abbrev pub expected_in : RowId → List DeliveryLine → ℕ
expected_in product [] = 0
expected_in product (line ∷ lines) =
    let rest = expected_in product lines in
    if line.product_id == product then line.expected_quantity + rest else rest

-- The quantity that stops expect of a product for a store.
abbrev pub expected_at : RowId → RowId → List CandidateStop → ℕ
expected_at store product [] = 0
expected_at store product (stop ∷ stops) =
    let rest = expected_at store product stops in
    if stop.store_id == store then expected_in product stop.delivery_lines + rest else rest

-- The quantity of a product that was ordered for a store.
abbrev pub ordered_for : RowId → RowId → List TransportOrder → ℕ
ordered_for store product [] = 0
ordered_for store product (o ∷ orders) =
    let rest = ordered_for store product orders in
    if o.store_id == store && o.product_id == product then o.quantity + rest else rest

abbrev pub stores_of : List CandidateStop → List RowId
stores_of [] = []
stores_of (stop ∷ stops) = stop.store_id ∷ stores_of stops

abbrev pub products_of : List DeliveryLine → List RowId
products_of [] = []
products_of (line ∷ lines) = line.product_id ∷ products_of lines

expected_in-add_to_lines :
    (product : RowId) (o : TransportOrder) (lines : List DeliveryLine)
    → expected_in product (add_to_lines o lines)
      ≡ (if o.product_id == product then o.quantity else 0) + expected_in product lines
unfolding add_to_lines
expected_in-add_to_lines product o [] = ground arith
expected_in-add_to_lines product o (line ∷ lines) =
    ground (arith, expected_in-add_to_lines product o lines)

expected_at-add_to_stops :
    (store product : RowId) (o : TransportOrder) (stops : List CandidateStop)
    → expected_at store product (add_to_stops o stops)
      ≡ (if o.store_id == store && o.product_id == product then o.quantity else 0)
        + expected_at store product stops
unfolding add_to_stops
expected_at-add_to_stops store product o [] = ground arith
expected_at-add_to_stops store product o (stop ∷ stops) = ground (
  arith,
  expected_at-add_to_stops store product o stops,
  expected_in-add_to_lines product o stop.delivery_lines,
)

expected_at-stops_from :
    (store product : RowId) (orders : List TransportOrder) (stops : List CandidateStop)
    → expected_at store product (stops_from stops orders)
      ≡ ordered_for store product orders + expected_at store product stops
unfolding stops_from
expected_at-stops_from store product [] stops = omega arith
expected_at-stops_from store product (o ∷ orders) stops = ground (
  arith,
  expected_at-stops_from store product orders (add_to_stops o stops),
  expected_at-add_to_stops store product o stops,
)

-- For each store and product, the stops built from a group of orders expect the quantity that its orders ask
-- for in total.
pub stops_by_store-quantity :
    (orders : List TransportOrder) (store product : RowId)
    → expected_at store product (stops_by_store orders) ≡ ordered_for store product orders
unfolding stops_by_store
stops_by_store-quantity orders store product =
    omega (arith, expected_at-stops_from store product orders [])

-- Each product once in the lines.
abbrev pub OncePerProduct : List DeliveryLine → Type 0
OncePerProduct lines = (product : RowId) → count product (products_of lines) ≤ 1

-- Each store once in the stops, and each product once in the lines of a stop.
abbrev pub AllOncePerProduct : List CandidateStop → Type 0
AllOncePerProduct [] = Unit
AllOncePerProduct (stop ∷ stops) = OncePerProduct stop.delivery_lines × AllOncePerProduct stops

count-add_to_lines :
    (product : RowId) (o : TransportOrder) (lines : List DeliveryLine)
    → count product (products_of (add_to_lines o lines)) ≡ (
        if o.product_id == product
        then max 1 (count product (products_of lines))
        else count product (products_of lines))
unfolding add_to_lines
count-add_to_lines product o [] = ground arith
count-add_to_lines product o (line ∷ lines) = ground (arith, count-add_to_lines product o lines)

count-add_to_stops :
    (store : RowId) (o : TransportOrder) (stops : List CandidateStop)
    → count store (stores_of (add_to_stops o stops)) ≡ (
        if o.store_id == store
        then max 1 (count store (stores_of stops))
        else count store (stores_of stops))
unfolding add_to_stops
count-add_to_stops store o [] = ground arith
count-add_to_stops store o (stop ∷ stops) = ground (arith, count-add_to_stops store o stops)

add_to_stops-Once :
    (o : TransportOrder) (stops : List CandidateStop)
    → AllOncePerProduct stops
    → AllOncePerProduct (add_to_stops o stops)
unfolding add_to_stops
add_to_stops-Once o [] h = (λ product. ground arith, tt)
add_to_stops-Once o (stop ∷ stops) (once, h) = elim (Bool-cases (stop.store_id == o.store_id)) [
  | inl same ↦
      rw same (
        λ product. ground (arith, once product, count-add_to_lines product o stop.delivery_lines),
        h,
      )
  | inr other ↦ rw other (once, add_to_stops-Once o stops h)
]

stops_from-Once :
    (orders : List TransportOrder) (stops : List CandidateStop)
    → AllOncePerProduct stops
    → ((store : RowId) → count store (stores_of stops) ≤ 1)
    → AllOncePerProduct (stops_from stops orders)
      × ((store : RowId) → count store (stores_of (stops_from stops orders)) ≤ 1)
unfolding stops_from
stops_from-Once [] stops h once = (h, once)
stops_from-Once (o ∷ orders) stops h once =
    stops_from-Once orders (add_to_stops o stops) (add_to_stops-Once o stops h)
      (λ store. ground (arith, once store, count-add_to_stops store o stops))

-- The stops built from a group of orders have each store once, and each product once in the lines of a stop.
pub stops_by_store-once :
    (orders : List TransportOrder)
    → AllOncePerProduct (stops_by_store orders)
      × ((store : RowId) → count store (stores_of (stops_by_store orders)) ≤ 1)
unfolding stops_by_store
stops_by_store-once orders = stops_from-Once orders [] tt (λ store. omega arith)
