-- ===== src/Dashboard/Counts.antt =====
-- What the counts and sums of orders, tasks and balances are.
use black_soil_loop_server.Prelude.{
  ℕ, ◌+◌, ◌≡◌, refl, String, List, [], ◌∷◌, arith, if◌then◌else◌, ◌==◌, select, length, Bool-cases,
  inl, inr, Bool, any, ◌&&◌, any-append, ◌∙◌, ap, ◌||◌, true, false, ◌/◌,
}
use black_soil_loop_server.Dashboard.Tally.{
  Adds, total, Tally, sum_at, add_to, total-add_to, sum_at-add_to,
}
use black_soil_loop_server.Dashboard.Demand.{
  count_statuses, transport_counts, add_inventory, inventory_by_product, Demand, add_demand,
  add_demands, demand, number_sum, add_preorder, is_preorder, status_key, channel_name,
  committed_order_ids, no_demand, day_of, is_confirmed_order,
}
use black_soil_loop_server.Models.{
  RowId, TransportOrder, TransportTask, TaskStatus, InventoryBalance, Store, OrderStatus,
}
use black_soil_loop_server.Dashboard.Sales.{pair_key, id_key, text_key, store_of}

abbrev pub itself : ℕ → ℕ
itself n = n

itself-Adds : Adds number_sum itself
itself-Adds = record { adds = λ a b. refl; starts = refl }

total-count_statuses :
    (tasks : List TransportTask) (counts : Tally TaskStatus ℕ)
    → total itself (count_statuses tasks counts) ≡ length tasks + total itself counts
unfolding count_statuses
total-count_statuses [] counts = omega arith
total-count_statuses (t ∷ tasks) counts = omega (
  arith,
  total-count_statuses tasks (add_to status_key number_sum t.status 1 counts),
  total-add_to status_key number_sum itself itself-Adds t.status 1 counts,
)

sum_at-count_statuses :
    (status : TaskStatus) (tasks : List TransportTask) (counts : Tally TaskStatus ℕ)
    → sum_at status_key itself status (count_statuses tasks counts)
      ≡ length (select (λ t. status_key.same t.status status) tasks)
        + sum_at status_key itself status counts
unfolding count_statuses
sum_at-count_statuses status [] counts = omega arith
sum_at-count_statuses status (t ∷ tasks) counts = ground (
  arith,
  sum_at-count_statuses status tasks (add_to status_key number_sum t.status 1 counts),
  sum_at-add_to status_key number_sum itself itself-Adds status t.status 1 counts,
)

-- The chart of transport statuses counts for each status the tasks that have it, and in total every task.
pub transport_counts-tasks :
    (tasks : List TransportTask)
    → (total itself (transport_counts tasks) ≡ length tasks)
      × ((status : TaskStatus)
          → sum_at status_key itself status (transport_counts tasks)
            ≡ length (select (λ t. status_key.same t.status status) tasks))
unfolding transport_counts
transport_counts-tasks tasks = (
  omega (arith, total-count_statuses tasks []),
  λ status. omega (arith, sum_at-count_statuses status tasks []),
)

-- The stock of a product in all stores.
abbrev pub stock_of : RowId → List InventoryBalance → ℕ
stock_of product [] = 0
stock_of product (b ∷ balances) =
    let rest = stock_of product balances in
    if b.product_id == product then b.quantity + rest else rest

sum_at-add_inventory :
    (product : RowId) (balances : List InventoryBalance) (stock : Tally RowId ℕ)
    → sum_at id_key itself product (add_inventory balances stock)
      ≡ stock_of product balances + sum_at id_key itself product stock
unfolding add_inventory
sum_at-add_inventory product [] stock = omega arith
sum_at-add_inventory product (b ∷ balances) stock = ground (
  arith,
  sum_at-add_inventory product balances (add_to id_key number_sum b.product_id b.quantity stock),
  sum_at-add_to id_key number_sum itself itself-Adds product b.product_id b.quantity stock,
)

-- The chart of the inventory shows for each product the sum of its balances in all stores.
pub inventory_by_product-stock :
    (balances : List InventoryBalance) (product : RowId)
    → sum_at id_key itself product (inventory_by_product balances) ≡ stock_of product balances
unfolding inventory_by_product
inventory_by_product-stock balances product =
    omega (arith, sum_at-add_inventory product balances [])

abbrev pub has_status : OrderStatus → OrderStatus → Bool
has_status OrderStatus.draft OrderStatus.draft = true
has_status OrderStatus.confirmed OrderStatus.confirmed = true
has_status OrderStatus.completed OrderStatus.completed = true
has_status _ _ = false

-- An order that counts as a preorder: confirmed, completed, or named by a task of any status.
abbrev pub is_wanted : List TransportTask → TransportOrder → Bool
is_wanted tasks o =
    has_status OrderStatus.confirmed o.status
    || has_status OrderStatus.completed o.status
    || any (λ t. any (λ i. i == o.id) t.source_order_ids) tasks

any-committed_order_ids :
    (p : RowId → Bool) (tasks : List TransportTask)
    → any p (committed_order_ids tasks) ≡ any (λ t. any p t.source_order_ids) tasks
unfolding committed_order_ids
any-committed_order_ids p [] = refl
any-committed_order_ids p (t ∷ tasks) =
    any-append p t.source_order_ids (committed_order_ids tasks)
    ∙ ap (λ b. any p t.source_order_ids || b) (any-committed_order_ids p tasks)

wanted_status :
    (status : OrderStatus) (b : Bool)
    → (is_confirmed_order status || b)
      ≡ (has_status OrderStatus.confirmed status || has_status OrderStatus.completed status || b)
wanted_status OrderStatus.confirmed b = refl
wanted_status OrderStatus.completed b = refl
wanted_status _ b = refl

is_wanted-is_preorder :
    (tasks : List TransportTask) (o : TransportOrder)
    → is_preorder (committed_order_ids tasks) o ≡ is_wanted tasks o
unfolding is_preorder
is_wanted-is_preorder tasks o =
    ap (λ b. is_confirmed_order o.status || b) (any-committed_order_ids (λ i. i == o.id) tasks)
    ∙ wanted_status o.status _

-- Of the store of an order, or "UNKNOWN".
abbrev pub goes_to : List Store → String → TransportOrder → Bool
goes_to stores channel o = text_key.same (channel_name (store_of stores o.store_id)) channel

-- How many of the orders are wanted, and satisfy a test.
abbrev pub wanted : List TransportTask → (TransportOrder → Bool) → List TransportOrder → ℕ
wanted tasks p orders = length (select (λ o. is_wanted tasks o && p o) orders)

-- What the loop over orders adds to a count: its orders that count and pass.
add_demands-count :
    (stores : List Store) (tasks : List TransportTask) (read : Demand → ℕ)
    (p : TransportOrder → Bool)
    (step : (o : TransportOrder) (d : Demand)
      → read (add_preorder (channel_name (store_of stores o.store_id)) o d)
        ≡ (if p o then 1 else 0) + read d)
    (orders : List TransportOrder) (d : Demand)
    → read (add_demands stores (committed_order_ids tasks) orders d)
      ≡ wanted tasks p orders + read d
unfolding add_demands add_demand
add_demands-count stores tasks read p step [] d = omega arith
add_demands-count stores tasks read p step (o ∷ orders) d = elim (Bool-cases (is_wanted tasks o)) [
  | inl counted ↦
      let preorder : is_preorder (committed_order_ids tasks) o ≡ true =
        is_wanted-is_preorder tasks o ∙ counted in
      ground (
        arith,
        counted,
        preorder,
        step o d,
        add_demands-count stores tasks read p step orders
            (add_preorder (channel_name (store_of stores o.store_id)) o d),
      )
  | inr skipped ↦
      let other : is_preorder (committed_order_ids tasks) o ≡ false =
        is_wanted-is_preorder tasks o ∙ skipped in
      ground (arith, skipped, other, add_demands-count stores tasks read p step orders d)
]

-- The number of preorders is that of the orders that are confirmed, completed or named by a task of any
-- status; the chart by channel counts for each channel those of them whose store is of the channel, an
-- unknown store being of "UNKNOWN", and the chart by day and channel those that depart on the day besides.
pub demand-wanted :
    (stores : List Store) (tasks : List TransportTask) (orders : List TransportOrder)
    → ((demand stores tasks orders).preorder_count ≡ wanted tasks (λ o. true) orders)
      × ((channel : String)
          → sum_at text_key itself channel (demand stores tasks orders).preorder_by_channel
            ≡ wanted tasks (goes_to stores channel) orders)
      × ((day : ℕ) (channel : String)
          → sum_at
              (pair_key id_key text_key)
              itself
              (day, channel)
              (demand stores tasks orders).daily_preorder_by_channel
            ≡ wanted tasks
                (λ o. o.departure_at / 86_400_000_000 == day && goes_to stores channel o)
                orders)
unfolding demand
demand-wanted stores tasks orders = (
  omega (
    arith,
    add_demands-count stores tasks (λ d. d.preorder_count) (λ o. true) (λ o d. omega arith) orders
        no_demand,
  ),
  λ channel. omega (
    arith,
    add_demands-count stores tasks (λ d. sum_at text_key itself channel d.preorder_by_channel)
        (goes_to stores channel)
        (λ o d.
          sum_at-add_to text_key number_sum itself itself-Adds channel
            (channel_name (store_of stores o.store_id)) 1 d.preorder_by_channel)
        orders no_demand,
  ),
  λ day channel. omega (
    arith,
    add_demands-count stores tasks
        (λ d. sum_at (pair_key id_key text_key) itself (day, channel) d.daily_preorder_by_channel)
        (λ o. o.departure_at / 86_400_000_000 == day && goes_to stores channel o)
        (λ o d.
          sum_at-add_to (pair_key id_key text_key) number_sum itself itself-Adds (day, channel)
            (day_of o.departure_at, channel_name (store_of stores o.store_id)) 1
            d.daily_preorder_by_channel)
        orders no_demand,
  ),
)
