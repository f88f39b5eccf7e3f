-- ===== src/Dashboard/Sales.antt =====
-- The loop over the daily reports in `build_dashboard_snapshot`. Amounts are counted in the hundredths that
-- `_number` rounds to; a date is the number of its day.
use black_soil_loop_server.Prelude.{
  ℕ, ◌+◌, ◌≡◌, String, true, ◌&&◌, Option, none, some, List, [], ◌∷◌, leb, str_eq, eq_iff, ◌==◌,
  ==_iff, select, find, arith, ap, ◌↔◌, ◌↔◌,
}
use black_soil_loop_server.Dashboard.Tally.{Sum, Key, Tally, add_to}
use black_soil_loop_server.Models.{StoreDailyReport, Store, RowId}

-- {"sales_amount": 0.0, "order_count": 0}
pub record SalesSum : Type 0 where
  pub sales_amount : ℕ
  pub order_count : ℕ

abbrev pub sales_sum : Sum SalesSum
sales_sum = record {
  plus = λ a b. record {
    sales_amount = a.sales_amount + b.sales_amount;
    order_count = a.order_count + b.order_count;
  };
  start = record { sales_amount = 0; order_count = 0 };
}

abbrev pub id_key : Key ℕ
id_key = record { same = λ a b. a == b; same_iff = λ a b. ==_iff a b }

abbrev pub text_key : Key String
text_key = record { same = λ a b. str_eq a b; same_iff = λ a b. eq_iff a b }

-- A pair of keys is equal where both parts are.
pub pair_iff :
    {K L : Type 0} (k : Key K) (l : Key L) (a b : K × L)
    → (k.same a.0 b.0 && l.same a.1 b.1 ≡ true) ↔ (a ≡ b)
pair_iff k l a b = (
  λ h.
      let p = (k.same_iff a.0 b.0).0 (ground (arith, h)) in
      let q = (l.same_iff a.1 b.1).0 (ground (arith, h)) in λ i. (p i, q i),
  λ e.
      ground
        (arith, (k.same_iff a.0 b.0).1 (ap (λ x. x.0) e), (l.same_iff a.1 b.1).1 (ap (λ x. x.1) e)),
)

abbrev pub pair_key : {K L : Type 0} → Key K → Key L → Key (K × L)
pair_key k l = record {
  same = λ a b. k.same a.0 b.0 && l.same a.1 b.1;
  same_iff = λ a b. pair_iff k l a b;
}

-- The four sums that the reports are added to.
pub record Operations : Type 0 where
  pub daily : Tally ℕ SalesSum
  pub daily_channel : Tally (ℕ × String) SalesSum
  pub channel : Tally String SalesSum
  pub store_sales : Tally RowId SalesSum

abbrev pub no_operations : Operations
no_operations = record { daily = []; daily_channel = []; channel = []; store_sales = [] }

abbrev pub sales_of : StoreDailyReport → SalesSum
sales_of r = record { sales_amount = r.sales_amount; order_count = r.order_count }

-- `stores.get(id)`
abbrev pub store_of : List Store → RowId → Option Store
store_of stores id = find (λ s. s.id == id) stores

-- The `if store:` of the loop.
unfoldable pub add_at_store : Option Store → StoreDailyReport → Operations → Operations
add_at_store none r op = op
add_at_store (some store) r op = record op {
  channel = add_to text_key sales_sum store.channel (sales_of r) op.channel;
  daily_channel =
      add_to (pair_key id_key text_key) sales_sum (r.report_date, store.channel) (sales_of r)
        op.daily_channel;
  store_sales = add_to id_key sales_sum store.id (sales_of r) op.store_sales;
}

unfoldable pub add_operation : List Store → StoreDailyReport → Operations → Operations
add_operation stores r op =
    add_at_store (store_of stores r.store_id) r
      (record op { daily = add_to id_key sales_sum r.report_date (sales_of r) op.daily })

unfoldable pub add_operations : List Store → List StoreDailyReport → Operations → Operations
add_operations stores [] op = op
add_operations stores (r ∷ rs) op = add_operations stores rs (add_operation stores r op)

-- `report_date >= cutoff_day` and authorized, for the 14 days up to today.
unfoldable pub shown_reports : ℕ → List StoreDailyReport → List StoreDailyReport
shown_reports today reports =
    select (λ r. leb today (r.report_date + 13) && r.authorized_for_dashboard) reports

unfoldable pub operations : ℕ → List Store → List StoreDailyReport → Operations
operations today stores reports = add_operations stores (shown_reports today reports) no_operations
