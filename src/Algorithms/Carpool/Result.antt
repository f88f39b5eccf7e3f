-- ===== src/Algorithms/Carpool/Result.antt =====
-- What `run_carpool` returns for the orders it is given.
use black_soil_loop_server.Prelude.{
  ◌≤◌, ◌≡◌, refl, subst, Option, some, List, ◌++◌, count, bag, select, none, length, arith,
  same_bag, count-append, SameIds,
}
use black_soil_loop_server.Models.{TransportOrder, RowId, Vehicle, is_draft}
use black_soil_loop_server.Algorithms.Carpool.{run_carpool, available, Outcome, ids_of}
use black_soil_loop_server.Algorithms.Rules.{Measures}
use black_soil_loop_server.Algorithms.Carpool.Partition.{
  Splits, AllMatch, matched_ids, match_all-Splits, rejected_ids,
}
use black_soil_loop_server.Algorithms.Carpool.Groups.{count-order_by}

-- The ids of the drafts, in the order of the table.
abbrev pub draft_ids : List TransportOrder → List RowId
draft_ids orders = ids_of (select (λ o. is_draft o.status) orders)

outcome-Splits :
    (m : Measures) (orders : List TransportOrder) (vehicles : List Vehicle)
    → Splits m (available orders) (run_carpool m orders vehicles)
unfolding run_carpool
outcome-Splits m orders vehicles =
    match_all-Splits m (length (available orders)) (available orders) vehicles (omega arith)

ended :
    (m : Measures) (remaining : List TransportOrder) (out : Option Outcome)
    → Splits m remaining out
    → (r : Outcome) × (out ≡ some r) × AllMatch m r.matches
ended m remaining none s = absurd s
ended m remaining (some r) s = (r, refl, s.0)

-- `run_carpool` ends with a result, and each of its matches keeps the rules: the vehicle is enabled, has a
-- driver and the temperature zone of the anchor, its load is within nine tenths of its capacity in weight
-- and in volume, it takes two orders or more, and each of them is the anchor or compatible with it.
pub run_carpool-ends :
    (m : Measures) (orders : List TransportOrder) (vehicles : List Vehicle)
    → (r : Outcome) × (run_carpool m orders vehicles ≡ some r) × AllMatch m r.matches
run_carpool-ends m orders vehicles =
    ended m (available orders) (run_carpool m orders vehicles) (outcome-Splits m orders vehicles)

pub run_carpool-SameIds :
    (m : Measures) (orders : List TransportOrder) (vehicles : List Vehicle) (r : Outcome)
    → ((a : RowId) → count a (draft_ids orders) ≤ 1)
    → run_carpool m orders vehicles ≡ some r
    → SameIds (matched_ids r.matches ++ rejected_ids r.unmatched) (draft_ids orders)
unfolding available
run_carpool-SameIds m orders vehicles r unique e a =
    let drafts = select (λ (o : TransportOrder). is_draft o.status) orders in
    let s = subst (Splits m (available orders)) e (outcome-Splits m orders vehicles) in
    let unique' : ((b : RowId) → count b (ids_of (available orders)) ≤ 1) =
      λ b. omega (arith, count-order_by b drafts, unique b) in
    omega (
      arith,
      s.1 unique' a,
      count-order_by a drafts,
      count-append a (matched_ids r.matches) (rejected_ids r.unmatched),
    )

-- The result of `run_carpool` takes each draft once: the ids in its matches and in its unmatched orders are
-- the ids of the drafts, up to order, where no two drafts have one id.
pub run_carpool-partition :
    (m : Measures) (orders : List TransportOrder) (vehicles : List Vehicle) (r : Outcome)
    → ((a : RowId) → count a (draft_ids orders) ≤ 1)
    → run_carpool m orders vehicles ≡ some r
    → bag (matched_ids r.matches ++ rejected_ids r.unmatched) ≡ bag (draft_ids orders)
run_carpool-partition m orders vehicles r unique e =
    same_bag _ _ (run_carpool-SameIds m orders vehicles r unique e)
