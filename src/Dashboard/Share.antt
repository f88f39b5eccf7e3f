-- ===== src/Dashboard/Share.antt =====
-- The share of the third space in the sales.
use black_soil_loop_server.Prelude.{
  ℕ, ◌+◌, ◌≡◌, refl, ◌≤◌, List, [], ◌∷◌, arith, Bool-cases, inl, inr,
}
use black_soil_loop_server.Table.{insert_desc}
use black_soil_loop_server.Dashboard.Snapshot.{
  third_space_sales, build_dashboard_snapshot, third_space_ranking, summary_of, Master,
  is_third_space_id,
}
use black_soil_loop_server.Models.{RowId, Store, Instant}
use black_soil_loop_server.Dashboard.Sales.{SalesSum, operations}
use black_soil_loop_server.Dashboard.Tally.{Tally, total}
use black_soil_loop_server.Dashboard.Rows.{Descending, insert_desc-Descending}
use black_soil_loop_server.Dashboard.Sums.{amount, operations-Balanced}
use black_soil_loop_server.Db.{Db}
use black_soil_loop_server.Dashboard.Demand.{day_of}

third_space_sales-le :
    (stores : List Store) (rows : Tally RowId SalesSum)
    → third_space_sales stores rows ≤ total amount rows
unfolding third_space_sales
third_space_sales-le stores [] = omega arith
third_space_sales-le stores ((id, v) ∷ rows) = ground (arith, third_space_sales-le stores rows)

-- The third space's part of the sales that the dashboard shows is at most all of them, so that its share is
-- that of a part in a whole.
pub build_dashboard_snapshot-third_space :
    (master : Master) (now : Instant) (db : Db)
    → (build_dashboard_snapshot master now db).summary.third_space_sales_amount
      ≤ (build_dashboard_snapshot master now db).summary.total_sales_amount
unfolding build_dashboard_snapshot summary_of
build_dashboard_snapshot-third_space master now db =
    let op = operations (day_of now) master.stores db.reports in
    let (same, other, le) = operations-Balanced (day_of now) master.stores db.reports in
    omega (arith, same, third_space_sales-le master.stores op.store_sales)

abbrev pub by_amount : RowId × SalesSum → ℕ
by_amount row = row.1.sales_amount

total-insert_desc :
    (row : RowId × SalesSum) (rows : Tally RowId SalesSum)
    → total amount (insert_desc by_amount row rows) ≡ by_amount row + total amount rows
unfolding insert_desc
total-insert_desc row [] = refl
total-insert_desc row (x ∷ rows) = ground (arith, total-insert_desc row rows)

-- The ranking of the third space has the greatest amounts first, and its amounts add up to the sales of the
-- third space.
pub third_space_ranking-sales :
    (stores : List Store) (rows : Tally RowId SalesSum)
    → Descending by_amount (third_space_ranking stores rows)
      × (total amount (third_space_ranking stores rows) ≡ third_space_sales stores rows)
unfolding third_space_ranking third_space_sales
third_space_ranking-sales stores [] = (tt, refl)
third_space_ranking-sales stores (row ∷ rows) =
    let (sorted, sum) = third_space_ranking-sales stores rows in
    elim (Bool-cases (is_third_space_id stores row.0)) [
      | inl third ↦ rw third (
        insert_desc-Descending by_amount row (third_space_ranking stores rows) sorted,
        omega (arith, total-insert_desc row (third_space_ranking stores rows), sum),
      )
      | inr other ↦ rw other (sorted, sum)
    ]
