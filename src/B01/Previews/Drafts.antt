-- ===== src/B01/Previews/Drafts.antt =====
-- Which of the stored orders are drafts, and which of them a candidate names.
use black_soil_loop_server.Db.{run_key}
use black_soil_loop_server.Prelude.{
  ℕ, zero, suc, ◌+◌, ◌≤◌, ◌≡◌, refl, Bool, true, false, not, List, [], ◌∷◌, some, any, select,
  count, count-append, arith, ◌==◌, Bool-cases, inl, inr, suc,
}
use black_soil_loop_server.Models.{TransportOrder, RowId, is_draft, Candidate}
use black_soil_loop_server.Table.{insert_by, order_by}
use black_soil_loop_server.Algorithms.Carpool.Stops.{candidates_of, candidate_of}
use black_soil_loop_server.Algorithms.Carpool.{ids_of, Match}
use black_soil_loop_server.Algorithms.Rules.{Measures}
use black_soil_loop_server.Algorithms.Carpool.Result.{draft_ids}
use black_soil_loop_server.Worker.Cancel.{is_one_of}
use black_soil_loop_server.B01.Plans.{candidate_at}
use black_soil_loop_server.Algorithms.Carpool.Partition.{matched_ids}

-- The orders that are not drafts.
abbrev pub other_ids : List TransportOrder → List RowId
other_ids orders = ids_of (select (λ o. not (is_draft o.status)) orders)

pub count-draft_ids :
    (a : RowId) (orders : List TransportOrder)
    → count a (draft_ids orders) + count a (other_ids orders) ≡ count a (ids_of orders)
count-draft_ids a [] = refl
count-draft_ids a (o ∷ orders) = ground (arith, count-draft_ids a orders)

draft-insert_by :
    (a : RowId) (o : TransportOrder) (orders : List TransportOrder)
    → count a (draft_ids (insert_by (λ x. x.departure_at) o orders))
      ≡ count a (draft_ids (o ∷ orders))
unfolding insert_by
draft-insert_by a o [] = refl
draft-insert_by a o (x ∷ orders) = ground (arith, draft-insert_by a o orders)

pub draft-order_by :
    (a : RowId) (orders : List TransportOrder)
    → count a (draft_ids (order_by (λ x. x.departure_at) orders)) ≡ count a (draft_ids orders)
unfolding order_by
draft-order_by a [] = refl
draft-order_by a (o ∷ orders) =
    ground
      (arith, draft-insert_by a o (order_by (λ x. x.departure_at) orders), draft-order_by a orders)

pub draft-select-le :
    (p : TransportOrder → Bool) (a : RowId) (orders : List TransportOrder)
    → count a (draft_ids (select p orders)) ≤ count a (draft_ids orders)
draft-select-le p a [] = omega arith
draft-select-le p a (o ∷ orders) = ground (arith, draft-select-le p a orders)

-- Where no id of an order that is not a draft is among some ids, the orders of these ids are drafts.
pub all_draft :
    (ids : List RowId) (orders : List TransportOrder)
    → ((a : RowId) → any (λ i. i == a) ids ≡ true → count a (other_ids orders) ≡ 0)
    → any (λ o. not (is_draft o.status)) (select (is_one_of ids) orders) ≡ false
all_draft ids [] h = refl
all_draft ids (o ∷ orders) h =
    let ih = all_draft ids orders (λ a mine. ground (arith, h a mine)) in
    elim (Bool-cases (any (λ i. i == o.id) ids)) [
      | inl mine ↦ ground (arith, ih, h o.id mine, mine)
      | inr not_mine ↦ ground (arith, ih, not_mine)
    ]

pub candidate-ids-le :
    (m : Measures) (a : RowId) (xs : List Match) (i : ℕ) (c : Candidate)
    → candidate_at (candidates_of m xs) i ≡ some c
    → count a c.order_ids ≤ count a (matched_ids xs)
unfolding candidates_of candidate_of
candidate-ids-le m a [] i c h = absurd (ground arith)
candidate-ids-le m a (x ∷ xs) zero c h =
    ground (arith, h, count-append a (ids_of x.orders) (matched_ids xs))
candidate-ids-le m a (x ∷ xs) (suc i) c h =
    omega (arith, candidate-ids-le m a xs i c h, count-append a (ids_of x.orders) (matched_ids xs))
