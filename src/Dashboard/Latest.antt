-- ===== src/Dashboard/Latest.antt =====
-- Which points a route shows.
use black_soil_loop_server.Prelude.{
  ℕ, ◌≡◌, sym, ◌∙◌, Bool, true, some, List, ◌==◌, leb, all, find, ◌||◌, not, arith, Bool-cases, inl,
  inr, none, Option, Option-cases, ltb, find-true,
}
use black_soil_loop_server.Dashboard.Routes.{
  route_item, telemetry_of, location_of, latest_telemetry, latest_locations,
}
use black_soil_loop_server.Table.{order_desc, limited}
use black_soil_loop_server.Models.{Store, Vehicle, TransportTask, TelemetryPoint, LocationPoint}
use black_soil_loop_server.Db.{Db}
use black_soil_loop_server.Dashboard.Rows.{
  order_desc-Descending, find-limited, Among, how_many, all_of_Among, Among-order_desc, Among-find,
  how_many-order_desc, outranked, all-order_desc,
}

-- What a route shows of some rows: the latest that passes, and none only where more than a hundred rows are as
-- late as each that passes.
abbrev pub ShowsLatest : {A : Type 0} → (A → ℕ) → (A → Bool) → List A → Option A → Type 0
ShowsLatest by p xs (some a) =
    (p a ≡ true) × Among a xs × (all (λ y. not (p y) || leb (by y) (by a)) xs ≡ true)
ShowsLatest by p xs none =
    all (λ y. not (p y) || ltb 100 (how_many (λ q. leb (by y) (by q)) xs)) xs ≡ true

find-ShowsLatest :
    {A : Type 0} (by : A → ℕ) (p : A → Bool) (xs : List A)
    → ShowsLatest by p xs (find p (limited 100 (order_desc by xs)))
find-ShowsLatest {A} by p xs =
    let sorted = order_desc by xs in
    let d = order_desc-Descending by xs in
    elim (Option-cases (find p (limited 100 sorted))) [
      | inl hidden ↦
          let late : A → Bool = λ y. not (p y) || ltb 100 (how_many (λ q. leb (by y) (by q)) xs) in
          rw hidden (
            sym (all-order_desc by late xs)
            ∙ all_of_Among by late sorted (λ a among. elim (Bool-cases (p a)) [
              | inl passes ↦ ground (
                arith,
                passes,
                outranked by p 100 sorted a d hidden among passes,
                how_many-order_desc by (λ q. leb (by a) (by q)) xs,
              )
              | inr fails ↦ ground (arith, fails)
            ]))
      | inr (a, shown) ↦ rw shown (
        find-true p (limited 100 sorted) a shown,
        Among-order_desc by p a xs (Among-find by p 100 sorted a shown),
        sym (all-order_desc by (λ y. not (p y) || leb (by y) (by a)) xs)
            ∙ find-limited by p 100 sorted a d shown,
      )
    ]

-- A route shows a telemetry point of its task that is stored, and no stored point of the task was sampled after it;
-- it shows none only where, for each stored point of the task, more than a hundred stored points were sampled
-- at its time or after.
pub route_item-latest_telemetry :
    (stores : List Store) (vehicles : List Vehicle) (db : Db) (task : TransportTask)
    → ShowsLatest
        (λ p. p.sampled_at)
        (λ p. p.task_id == task.id)
        db.telemetry
        (route_item stores vehicles db task).latest_telemetry
unfolding route_item telemetry_of latest_telemetry
route_item-latest_telemetry stores vehicles db task =
    find-ShowsLatest (λ (p : TelemetryPoint). p.sampled_at) (λ p. p.task_id == task.id) db.telemetry

-- The location it shows is the latest of the task alike.
pub route_item-latest_location :
    (stores : List Store) (vehicles : List Vehicle) (db : Db) (task : TransportTask)
    → ShowsLatest
        (λ p. p.recorded_at)
        (λ p. p.task_id == task.id)
        db.locations
        (route_item stores vehicles db task).latest_location
unfolding route_item location_of latest_locations
route_item-latest_location stores vehicles db task =
    find-ShowsLatest (λ (p : LocationPoint). p.recorded_at) (λ p. p.task_id == task.id) db.locations
