-- ===== src/Algorithms/Warehouse/Sound.antt =====
-- The outcome of `run_warehouse_pool`: its groups, and the warehouses they are offered.
use black_soil_loop_server.Prelude.{
  ◌+◌, ◌≡◌, refl, Bool, true, false, ◌&&◌, ◌||◌, List, [], ◌∷◌, ◌++◌, sym, ◌∙◌, ap, Bool-cases, inl,
  inr, count, count-append, bag, same_bag, any, select, arith, leb, not, ◌*◌,
}
use black_soil_loop_server.Algorithms.Warehouse.{
  Survey, insert_ranked, sort_ranked, Group, Ranked, first_eligible, is_eligible, rank, pool_item,
  PoolItem, add_to_groups, groups_from, insert_group, sort_groups, pool_groups, run_warehouse_pool,
  PoolOutcome, grouped, is_group_of, group_before, add_item, distance_to, origin_latitudes,
  origin_longitudes,
}
use black_soil_loop_server.Models.{Warehouse, same_zone, RowId, TransportOrder, is_draft}
use black_soil_loop_server.Algorithms.Carpool.{ids_of}
use black_soil_loop_server.Algorithms.Carpool.Result.{draft_ids}
use black_soil_loop_server.Algorithms.Carpool.Stops.{total_volume}

-- A warehouse that takes a group: of its zone, within 30 km of the centre of its origins, and with room
-- for its volume in nine tenths of what is free.
abbrev pub takes : Survey → Group → Warehouse → Bool
takes s g w =
    same_zone w.temperature_zone g.temperature_zone
    && leb
        (s.haversine_km (s.mean (origin_latitudes g.orders)) (s.mean (origin_longitudes g.orders))
          w.latitude w.longitude)
        30_000
    && leb (10 * total_volume g.orders + 9 * w.used_m3) (9 * w.capacity_m3)

any-insert_ranked :
    (a : Ranked) (rs : List Ranked)
    → any (λ r. r.eligible) (insert_ranked a rs) ≡ (a.eligible || any (λ r. r.eligible) rs)
unfolding insert_ranked
any-insert_ranked a [] = refl
any-insert_ranked a (b ∷ rs) = ground (arith, any-insert_ranked a rs)

-- The eligible ones come first.
first-insert_ranked :
    (a : Ranked) (rs : List Ranked)
    → first_eligible rs ≡ any (λ r. r.eligible) rs
    → first_eligible (insert_ranked a rs) ≡ (a.eligible || any (λ r. r.eligible) rs)
unfolding insert_ranked
first-insert_ranked a [] h = ground arith
first-insert_ranked a (b ∷ rs) h = ground (arith, h)

any-sort_ranked :
    (rs : List Ranked) → any (λ r. r.eligible) (sort_ranked rs) ≡ any (λ r. r.eligible) rs
unfolding sort_ranked
any-sort_ranked [] = refl
any-sort_ranked (a ∷ rs) = ground (arith, any-insert_ranked a (sort_ranked rs), any-sort_ranked rs)

first-sort_ranked : (rs : List Ranked) → first_eligible (sort_ranked rs) ≡ any (λ r. r.eligible) rs
unfolding sort_ranked
first-sort_ranked [] = refl
first-sort_ranked (a ∷ rs) =
    let h : first_eligible (sort_ranked rs) ≡ any (λ r. r.eligible) (sort_ranked rs) =
      first-sort_ranked rs ∙ sym (any-sort_ranked rs) in
    first-insert_ranked a (sort_ranked rs) h ∙ ap (λ b. a.eligible || b) (any-sort_ranked rs)

any-rank :
    (s : Survey) (g : Group) (ws : List Warehouse)
    → any (λ r. r.eligible) (rank s g ws) ≡ any (takes s g) ws
unfolding rank is_eligible distance_to
any-rank s g [] = refl
any-rank s g (w ∷ ws) = ground (arith, any-rank s g ws)

first_eligible-pool_item :
    (s : Survey) (ws : List Warehouse) (g : Group)
    → first_eligible (pool_item s ws g).candidate_warehouses ≡ any (takes s g) ws
unfolding pool_item
first_eligible-pool_item s ws g = first-sort_ranked (rank s g ws) ∙ any-rank s g ws

-- The items of some groups.
abbrev pub items_of : Survey → List Warehouse → List Group → List PoolItem
items_of s ws [] = []
items_of s ws (g ∷ gs) = pool_item s ws g ∷ items_of s ws gs

pool_groups-takes :
    (s : Survey) (ws : List Warehouse) (gs : List Group)
    → ((pool_groups s ws gs).candidates ≡ items_of s ws (select (λ g. any (takes s g) ws) gs))
      × ((pool_groups s ws gs).unmatched
          ≡ items_of s ws (select (λ g. not (any (takes s g) ws)) gs))
unfolding pool_groups
pool_groups-takes s ws [] = (refl, refl)
pool_groups-takes s ws (g ∷ gs) =
    let offered = first_eligible-pool_item s ws g in
    let (c, u) = pool_groups-takes s ws gs in
    elim (Bool-cases (any (takes s g) ws)) [
      | inl some_takes ↦ (ground (arith, offered, c), ground (arith, offered, u))
      | inr none_takes ↦ (ground (arith, offered, c), ground (arith, offered, u))
    ]

-- The candidates of a warehouse run are the items of exactly those of its sorted groups of drafts for which
-- some warehouse of the zone lies within 30 km of the centre of their origins and has room for their
-- volume in nine tenths of what is free, in order; the items of all other groups are unmatched.
pub run_warehouse_pool-takes :
    (s : Survey) (orders : List TransportOrder) (ws : List Warehouse)
    → let gs = sort_groups (grouped orders) in
      ((run_warehouse_pool s orders ws).candidates
        ≡ items_of s ws (select (λ g. any (takes s g) ws) gs))
      × ((run_warehouse_pool s orders ws).unmatched
          ≡ items_of s ws (select (λ g. not (any (takes s g) ws)) gs))
unfolding run_warehouse_pool
run_warehouse_pool-takes s orders ws = pool_groups-takes s ws (sort_groups (grouped orders))

-- The ids of the orders of groups, and of items.
abbrev pub group_ids : List Group → List RowId
group_ids [] = []
group_ids (g ∷ gs) = ids_of g.orders ++ group_ids gs

abbrev pub item_ids : List PoolItem → List RowId
item_ids [] = []
item_ids (x ∷ xs) = x.order_ids ++ item_ids xs

count-ids_of_append :
    (a : RowId) (xs ys : List TransportOrder)
    → count a (ids_of (xs ++ ys)) ≡ count a (ids_of xs) + count a (ids_of ys)
count-ids_of_append a [] ys = omega arith
count-ids_of_append a (x ∷ xs) ys = ground (arith, count-ids_of_append a xs ys)

count-add_to_groups :
    (a : RowId) (o : TransportOrder) (gs : List Group)
    → count a (group_ids (add_to_groups o gs)) ≡ count a (ids_of (o ∷ [])) + count a (group_ids gs)
unfolding add_to_groups
count-add_to_groups a o [] = ground arith
count-add_to_groups a o (g ∷ gs) = elim (Bool-cases (is_group_of o g)) [
  | inl here ↦ rw here (
      omega (
        arith,
        count-append a (ids_of (g.orders ++ o ∷ [])) (group_ids gs),
        count-append a (ids_of g.orders) (group_ids gs),
        count-ids_of_append a g.orders (o ∷ []),
      ))
  | inr later ↦ rw later (
      omega (
        arith,
        count-append a (ids_of g.orders) (group_ids (add_to_groups o gs)),
        count-append a (ids_of g.orders) (group_ids gs),
        count-add_to_groups a o gs,
      ))
]

count-groups_from :
    (a : RowId) (orders : List TransportOrder) (gs : List Group)
    → count a (group_ids (groups_from gs orders)) ≡ count a (ids_of orders) + count a (group_ids gs)
unfolding groups_from
count-groups_from a [] gs = omega arith
count-groups_from a (o ∷ orders) gs =
    ground (arith, count-groups_from a orders (add_to_groups o gs), count-add_to_groups a o gs)

count-insert_group :
    (a : RowId) (g : Group) (gs : List Group)
    → count a (group_ids (insert_group g gs)) ≡ count a (ids_of g.orders) + count a (group_ids gs)
unfolding insert_group
count-insert_group a g [] = omega (arith, count-append a (ids_of g.orders) [])
count-insert_group a g (h ∷ hs) = elim (Bool-cases (group_before g h)) [
  | inl first ↦ rw first (count-append a (ids_of g.orders) (ids_of h.orders ++ group_ids hs))
  | inr later ↦ rw later (
      omega (
        arith,
        count-append a (ids_of h.orders) (group_ids (insert_group g hs)),
        count-append a (ids_of h.orders) (group_ids hs),
        count-insert_group a g hs,
      ))
]

count-sort_groups :
    (a : RowId) (gs : List Group) → count a (group_ids (sort_groups gs)) ≡ count a (group_ids gs)
unfolding sort_groups
count-sort_groups a [] = refl
count-sort_groups a (g ∷ gs) = omega (
  arith,
  count-insert_group a g (sort_groups gs),
  count-sort_groups a gs,
  count-append a (ids_of g.orders) (group_ids gs),
)

count-add_item :
    (a : RowId) (b : Bool) (x : PoolItem) (r : PoolOutcome)
    → count a (item_ids (add_item b x r).candidates) + count a (item_ids (add_item b x r).unmatched)
      ≡ count a x.order_ids + (count a (item_ids r.candidates) + count a (item_ids r.unmatched))
count-add_item a true x r = omega (arith, count-append a x.order_ids (item_ids r.candidates))
count-add_item a false x r = omega (arith, count-append a x.order_ids (item_ids r.unmatched))

count-pool_groups :
    (a : RowId) (s : Survey) (ws : List Warehouse) (gs : List Group)
    → count a (item_ids (pool_groups s ws gs).candidates)
        + count a (item_ids (pool_groups s ws gs).unmatched)
      ≡ count a (group_ids gs)
unfolding pool_groups pool_item
count-pool_groups a s ws [] = refl
count-pool_groups a s ws (g ∷ gs) = omega (
  arith,
  count-add_item a (first_eligible (pool_item s ws g).candidate_warehouses) (pool_item s ws g)
      (pool_groups s ws gs),
  count-pool_groups a s ws gs,
  count-append a (ids_of g.orders) (group_ids gs),
)

-- Each draft stands in one item of the result, a candidate or an unmatched one, as often as it is among the
-- given orders: the ids of the items are those of the drafts, up to order.
pub run_warehouse_pool-partition :
    (s : Survey) (orders : List TransportOrder) (ws : List Warehouse)
    → bag (
        item_ids (run_warehouse_pool s orders ws).candidates
        ++ item_ids (run_warehouse_pool s orders ws).unmatched)
      ≡ bag (draft_ids orders)
unfolding run_warehouse_pool grouped
run_warehouse_pool-partition s orders ws =
    let gs = grouped orders in
    let r = run_warehouse_pool s orders ws in
    same_bag _ _ (λ a. omega (
      arith,
      count-append a (item_ids r.candidates) (item_ids r.unmatched),
      count-pool_groups a s ws (sort_groups gs),
      count-sort_groups a gs,
      count-groups_from a (select (λ o. is_draft o.status) orders) [],
    ))
