-- ===== src/Dashboard/Sums.antt =====
-- What the sums of the reports are, by channel, by store and by day.
use black_soil_loop_server.Prelude.{
  ℕ, ◌+◌, ◌≡◌, refl, String, Bool, false, Option, none, some, List, [], ◌∷◌, arith, if◌then◌else◌,
  str_eq, is_some, ◌≤◌,
}
use black_soil_loop_server.Dashboard.Sales.{
  SalesSum, add_operation, add_operations, sales_sum, store_of, add_at_store, Operations, text_key,
  sales_of, operations, id_key, shown_reports, no_operations, pair_key,
}
use black_soil_loop_server.Dashboard.Tally.{
  Adds, sum_at, sum_at-add_to, add_to, total, total-add_to,
}
use black_soil_loop_server.Models.{StoreDailyReport, Store}

-- Both measures of the sums add up.
abbrev pub amount : SalesSum → ℕ
amount v = v.sales_amount

amount-Adds : Adds sales_sum amount
amount-Adds = record { adds = λ a b. refl; starts = refl }

-- The amount of the reports of stores that pass a test.
abbrev pub reported : (StoreDailyReport → Bool) → List StoreDailyReport → ℕ
reported p [] = 0
reported p (r ∷ rs) = let rest = reported p rs in if p r then r.sales_amount + rest else rest

-- Of a known store of a channel.
abbrev pub is_of_channel : String → Option Store → Bool
is_of_channel channel none = false
is_of_channel channel (some store) = str_eq store.channel channel

abbrev pub is_in_channel : List Store → String → StoreDailyReport → Bool
is_in_channel stores channel r = is_of_channel channel (store_of stores r.store_id)

channel-add_operation :
    (stores : List Store) (channel : String) (r : StoreDailyReport) (op : Operations)
    → sum_at text_key amount channel (add_operation stores r op).channel
      ≡ (if is_in_channel stores channel r then r.sales_amount else 0)
        + sum_at text_key amount channel op.channel
unfolding add_operation add_at_store
channel-add_operation stores channel r op = at_store (store_of stores r.store_id)
  where
    at_store :
        (o : Option Store)
        → sum_at text_key amount channel
            (add_at_store o r (record op {
              daily = add_to id_key sales_sum r.report_date (sales_of r) op.daily;
            })).channel
          ≡ (if is_of_channel channel o then r.sales_amount else 0)
            + sum_at text_key amount channel op.channel
    at_store none = omega arith
    at_store (some store) =
        sum_at-add_to text_key sales_sum amount amount-Adds channel store.channel (sales_of r)
          op.channel

channel-add_operations :
    (stores : List Store) (channel : String) (rs : List StoreDailyReport) (op : Operations)
    → sum_at text_key amount channel (add_operations stores rs op).channel
      ≡ reported (is_in_channel stores channel) rs + sum_at text_key amount channel op.channel
unfolding add_operations
channel-add_operations stores channel [] op = omega arith
channel-add_operations stores channel (r ∷ rs) op = ground (
  arith,
  channel-add_operations stores channel rs (add_operation stores r op),
  channel-add_operation stores channel r op,
)

-- The amount of sales that the dashboard shows for a channel is that of the reports of its stores, of the
-- last 14 days and authorized, whatever the stores and the reports are.
pub operations-channel :
    (today : ℕ) (stores : List Store) (reports : List StoreDailyReport) (channel : String)
    → sum_at text_key amount channel (operations today stores reports).channel
      ≡ reported (is_in_channel stores channel) (shown_reports today reports)
unfolding operations
operations-channel today stores reports channel =
    omega (arith, channel-add_operations stores channel (shown_reports today reports) no_operations)

total-add_operation :
    (stores : List Store) (r : StoreDailyReport) (op : Operations)
    → (total amount (add_operation stores r op).daily ≡ r.sales_amount + total amount op.daily)
      × (total amount (add_operation stores r op).channel
          ≡ (if is_some (store_of stores r.store_id) then r.sales_amount else 0)
            + total amount op.channel)
      × (total amount (add_operation stores r op).store_sales
          ≡ (if is_some (store_of stores r.store_id) then r.sales_amount else 0)
            + total amount op.store_sales)
      × (total amount (add_operation stores r op).daily_channel
          ≡ (if is_some (store_of stores r.store_id) then r.sales_amount else 0)
            + total amount op.daily_channel)
unfolding add_operation add_at_store
total-add_operation stores r op = at_store (store_of stores r.store_id)
  where
    at_store :
        (o : Option Store)
        → let op' =
            add_at_store o r
              (record op { daily = add_to id_key sales_sum r.report_date (sales_of r) op.daily }) in
          (total amount op'.daily ≡ r.sales_amount + total amount op.daily)
          × (total amount op'.channel
              ≡ (if is_some o then r.sales_amount else 0) + total amount op.channel)
          × (total amount op'.store_sales
              ≡ (if is_some o then r.sales_amount else 0) + total amount op.store_sales)
          × (total amount op'.daily_channel
              ≡ (if is_some o then r.sales_amount else 0) + total amount op.daily_channel)
    at_store none = (
      total-add_to id_key sales_sum amount amount-Adds r.report_date (sales_of r) op.daily,
      omega arith,
      omega arith,
      omega arith,
    )
    at_store (some store) = (
      total-add_to id_key sales_sum amount amount-Adds r.report_date (sales_of r) op.daily,
      total-add_to text_key sales_sum amount amount-Adds store.channel (sales_of r) op.channel,
      total-add_to id_key sales_sum amount amount-Adds store.id (sales_of r) op.store_sales,
      total-add_to (pair_key id_key text_key) sales_sum amount amount-Adds
          (r.report_date, store.channel) (sales_of r) op.daily_channel,
    )

-- The tables of sums agree on their totals.
abbrev pub Balanced : Operations → Type 0
Balanced op =
    (total amount op.store_sales ≡ total amount op.channel)
    × (total amount op.daily_channel ≡ total amount op.channel)
    × (total amount op.channel ≤ total amount op.daily)

add_operations-Balanced :
    (stores : List Store) (rs : List StoreDailyReport) (op : Operations)
    → Balanced op
    → Balanced (add_operations stores rs op)
unfolding add_operations
add_operations-Balanced stores [] op h = h
add_operations-Balanced stores (r ∷ rs) op (a, b, c) =
    let (d, e, f, g) = total-add_operation stores r op in
    add_operations-Balanced stores rs (add_operation stores r op)
      (ground (arith, a, e, f), ground (arith, b, e, g), ground (arith, c, d, e))

-- The charts by channel, by store, and by day and channel add up to one total, which is at most that of the
-- chart by day.
pub operations-Balanced :
    (today : ℕ) (stores : List Store) (reports : List StoreDailyReport)
    → Balanced (operations today stores reports)
unfolding operations
operations-Balanced today stores reports =
    add_operations-Balanced stores (shown_reports today reports) no_operations
      (refl, refl, omega arith)
