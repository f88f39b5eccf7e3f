-- ===== src/Dashboard/Demand.antt =====
-- The loops over orders, tasks and balances in `build_dashboard_snapshot`.
use black_soil_loop_server.Prelude.{
  ℕ, ◌+◌, ◌/◌, ◌≡◌, refl, String, Bool, true, false, ◌||◌, Option, none, some, List, [], ◌∷◌, ◌++◌,
  any, leb, if◌then◌else◌, ◌==◌, ==_iff, ap, sym, ◌∙◌,
}
use black_soil_loop_server.Dashboard.Tally.{Sum, Tally, Key, add_to}
use black_soil_loop_server.Models.{
  OrderStatus, TransportTask, RowId, Instant, Store, TransportOrder, TaskStatus, InventoryBalance,
  status_rank, same_status,
}
use black_soil_loop_server.Dashboard.Sales.{store_of, id_key, text_key, pair_key}

abbrev pub number_sum : Sum ℕ
number_sum = record { plus = λ a b. a + b; start = 0 }

-- `status in {"CONFIRMED", "COMPLETED"}`
abbrev pub is_confirmed_order : OrderStatus → Bool
is_confirmed_order OrderStatus.confirmed = true
is_confirmed_order OrderStatus.completed = true
is_confirmed_order _ = false

-- `committed_order_ids`: of every task, whatever its status.
unfoldable pub committed_order_ids : List TransportTask → List RowId
committed_order_ids [] = []
committed_order_ids (t ∷ tasks) = t.source_order_ids ++ committed_order_ids tasks

unfoldable pub is_preorder : List RowId → TransportOrder → Bool
is_preorder committed o = is_confirmed_order o.status || any (λ i. i == o.id) committed

-- `as_utc(departure_at).date()` as the number of its day.
abbrev pub day_of : Instant → ℕ
day_of t = t / 86_400_000_000

-- `order_store.channel if order_store else "UNKNOWN"`
abbrev pub channel_name : Option Store → String
channel_name none = "UNKNOWN"
channel_name (some store) = store.channel

pub record Demand : Type 0 where
  pub preorder_count : ℕ
  pub demand_by_enterprise : Tally RowId ℕ
  pub preorder_by_channel : Tally String ℕ
  pub daily_preorder_by_channel : Tally (ℕ × String) ℕ
  pub daily_demand_by_unit : Tally (ℕ × (String × String)) ℕ

abbrev pub no_demand : Demand
no_demand = record {
  preorder_count = 0;
  demand_by_enterprise = [];
  preorder_by_channel = [];
  daily_preorder_by_channel = [];
  daily_demand_by_unit = [];
}

abbrev pub add_preorder : String → TransportOrder → Demand → Demand
add_preorder channel o d =
    let day = day_of o.departure_at in
    record {
      preorder_count = d.preorder_count + 1;
      demand_by_enterprise =
          add_to id_key number_sum o.enterprise_id o.weight_kg d.demand_by_enterprise;
      preorder_by_channel = add_to text_key number_sum channel 1 d.preorder_by_channel;
      daily_preorder_by_channel =
          add_to (pair_key id_key text_key) number_sum (day, channel) 1 d.daily_preorder_by_channel;
      daily_demand_by_unit =
          add_to (pair_key id_key (pair_key text_key text_key)) number_sum (day, (channel, o.unit))
            o.quantity d.daily_demand_by_unit;
    }

unfoldable pub add_demand : List Store → List RowId → TransportOrder → Demand → Demand
add_demand stores committed o d =
    if is_preorder committed o
    then add_preorder (channel_name (store_of stores o.store_id)) o d
    else d

unfoldable pub add_demands : List Store → List RowId → List TransportOrder → Demand → Demand
add_demands stores committed [] d = d
add_demands stores committed (o ∷ orders) d =
    add_demands stores committed orders (add_demand stores committed o d)

unfoldable pub demand : List Store → List TransportTask → List TransportOrder → Demand
demand stores tasks orders = add_demands stores (committed_order_ids tasks) orders no_demand

abbrev status_at : ℕ → TaskStatus
status_at n =
    if n == 0
    then TaskStatus.confirmed
    else if n == 1
    then TaskStatus.published
    else if n == 2
    then TaskStatus.driver_accepted
    else if n == 3
    then TaskStatus.picked_up
    else if n == 4
    then TaskStatus.in_transit
    else if n == 5
    then TaskStatus.delivered
    else if n == 6
    then TaskStatus.store_signed
    else if n == 7
    then TaskStatus.completed
    else TaskStatus.cancelled

status_at-rank : (a : TaskStatus) → status_at (status_rank a) ≡ a
status_at-rank TaskStatus.confirmed = refl
status_at-rank TaskStatus.published = refl
status_at-rank TaskStatus.driver_accepted = refl
status_at-rank TaskStatus.picked_up = refl
status_at-rank TaskStatus.in_transit = refl
status_at-rank TaskStatus.delivered = refl
status_at-rank TaskStatus.store_signed = refl
status_at-rank TaskStatus.completed = refl
status_at-rank TaskStatus.cancelled = refl

pub status_rank-injective : (a b : TaskStatus) → status_rank a ≡ status_rank b → a ≡ b
status_rank-injective a b h = sym (status_at-rank a) ∙ ap status_at h ∙ status_at-rank b

abbrev pub status_key : Key TaskStatus
status_key = record {
  same = λ a b. same_status a b;
  same_iff = λ a b.
      (λ h. status_rank-injective a b ((==_iff _ _).0 h), λ e. (==_iff _ _).1 (ap status_rank e));
}

unfoldable pub count_statuses : List TransportTask → Tally TaskStatus ℕ → Tally TaskStatus ℕ
count_statuses [] counts = counts
count_statuses (t ∷ tasks) counts =
    count_statuses tasks (add_to status_key number_sum t.status 1 counts)

unfoldable pub transport_counts : List TransportTask → Tally TaskStatus ℕ
transport_counts tasks = count_statuses tasks []

unfoldable pub add_inventory : List InventoryBalance → Tally RowId ℕ → Tally RowId ℕ
add_inventory [] stock = stock
add_inventory (b ∷ balances) stock =
    add_inventory balances (add_to id_key number_sum b.product_id b.quantity stock)

unfoldable pub inventory_by_product : List InventoryBalance → Tally RowId ℕ
inventory_by_product balances = add_inventory balances []

unfoldable pub low_stock_count : List InventoryBalance → ℕ
low_stock_count [] = 0
low_stock_count (b ∷ balances) =
    let rest = low_stock_count balances in
    if leb b.quantity b.low_stock_threshold then 1 + rest else rest
