-- ===== src/Algorithms/Carpool/Partition.antt =====
-- The whole loop of `run_carpool`: what its rounds make of the orders.
use black_soil_loop_server.Prelude.{
  ℕ, zero, suc, ◌+◌, ◌≤◌, ◌<◌, ◌≡◌, refl, true, Option, none, some, List, [], ◌∷◌, ◌++◌, ◌==◌, any,
  length, count, count-append, any-count, arith, Bool-cases, inl, inr, ap, ==_iff,
}
use black_soil_loop_server.Models.{RowId, TransportOrder, Vehicle}
use black_soil_loop_server.Algorithms.Carpool.{
  without, ids_of, Match, Rejected, Outcome, Round, round, earliest, add_match, add_rejected,
  add_round, left_of, match_all,
}
use black_soil_loop_server.Algorithms.Rules.{Measures}
use black_soil_loop_server.Algorithms.Carpool.Groups.{count-without, earliest-count}
use black_soil_loop_server.Algorithms.Carpool.Rounds.{IsMatch, RoundOk, round-RoundOk}

-- The ids in the matches, and in the rejections.
abbrev pub matched_ids : List Match → List RowId
matched_ids [] = []
matched_ids (x ∷ xs) = ids_of x.orders ++ matched_ids xs

abbrev pub rejected_ids : List Rejected → List RowId
rejected_ids [] = []
rejected_ids (x ∷ xs) = x.order.id ∷ rejected_ids xs

-- Every match of an outcome keeps the rules.
abbrev pub AllMatch : Measures → List Match → Type 0
AllMatch m [] = Unit
AllMatch m (x ∷ xs) = IsMatch m x × AllMatch m xs

length-without-le :
    (ids : List RowId) (orders : List TransportOrder) → length (without ids orders) ≤ length orders
unfolding without
length-without-le ids [] = omega arith
length-without-le ids (o ∷ orders) = ground (arith, length-without-le ids orders)

length-without-lt :
    (a : RowId) (ids : List RowId) (orders : List TransportOrder)
    → any (λ i. i == a) ids ≡ true
    → 0 < count a (ids_of orders)
    → length (without ids orders) < length orders
unfolding without
length-without-lt a ids [] h c = absurd (omega arith)
length-without-lt a ids (o ∷ orders) h c = elim (Bool-cases (o.id == a)) [
  | inl same ↦
      let e : any (λ i. i == o.id) ids ≡ any (λ i. i == a) ids =
        ap (λ (x : RowId). any (λ i. i == x) ids) ((==_iff _ _).0 same) in
      ground (arith, e, length-without-le ids orders)
  | inr other ↦ ground (arith, length-without-lt a ids orders)
]

-- A round leaves fewer orders.
left-lt :
    (m : Measures) (anchor : TransportOrder) (remaining : List TransportOrder) (r : Round)
    → 0 < count anchor.id (ids_of remaining)
    → RoundOk m anchor remaining r
    → length (left_of r) < length remaining
unfolding RoundOk
left-lt m anchor remaining (Round.rejected x left) h (_, same) =
    rw same (length-without-lt anchor.id (anchor.id ∷ []) remaining (ground arith) h)
left-lt m anchor remaining (Round.matched x left) h (ok, same, few) =
    rw same (nonempty x.orders ok.two few)
  where
    nonempty :
        (orders : List TransportOrder)
        → 2 ≤ length orders
        → ((a : RowId) → count a (ids_of orders) ≤ count a (ids_of remaining))
        → length (without (ids_of orders) remaining) < length remaining
    nonempty [] two few = absurd (omega arith)
    nonempty (o ∷ orders) two few =
        length-without-lt o.id (o.id ∷ ids_of orders) remaining (ground arith)
          (ground (arith, few o.id))

-- What the loop makes of its orders: an outcome, whose matches keep the rules and whose ids are theirs.
abbrev pub Splits : Measures → List TransportOrder → Option Outcome → Type 0
Splits m remaining none = ⊥
Splits m remaining (some r) =
    AllMatch m r.matches
    × (((a : RowId) → count a (ids_of remaining) ≤ 1)
        → (a : RowId)
        → count a (matched_ids r.matches) + count a (rejected_ids r.unmatched)
          ≡ count a (ids_of remaining))

few-without :
    (ids : List RowId) (orders : List TransportOrder)
    → ((a : RowId) → count a (ids_of orders) ≤ 1)
    → (a : RowId) → count a (ids_of (without ids orders)) ≤ 1
few-without ids orders h a = ground (arith, count-without ids a orders, h a)

add-Splits :
    (m : Measures) (anchor : TransportOrder) (remaining : List TransportOrder) (x : Match)
    (left : List TransportOrder) (rest : Option Outcome)
    → RoundOk m anchor remaining (Round.matched x left)
    → Splits m left rest
    → Splits m remaining (add_match x rest)
unfolding RoundOk
add-Splits m anchor remaining x left none ok h = h
add-Splits m anchor remaining x left (some r) (good, same, few) (all_good, h) = (
  (good, all_good),
  λ unique a.
      let h' = h (rw same (few-without (ids_of x.orders) remaining unique)) a in
      let taken = any-count a (ids_of x.orders) in
      ground (
        arith,
        same,
        h',
        taken,
        few a,
        unique a,
        count-without (ids_of x.orders) a remaining,
        count-append a (ids_of x.orders) (matched_ids r.matches),
      ),
)

reject-Splits :
    (m : Measures) (anchor : TransportOrder) (remaining : List TransportOrder) (x : Rejected)
    (left : List TransportOrder) (rest : Option Outcome)
    → 0 < count anchor.id (ids_of remaining)
    → RoundOk m anchor remaining (Round.rejected x left)
    → Splits m left rest
    → Splits m remaining (add_rejected x rest)
unfolding RoundOk
reject-Splits m anchor remaining x left none c ok h = h
reject-Splits m anchor remaining x left (some r) c (mine, same) (all_good, h) = (
  all_good,
  λ unique a.
      let h' = h (rw same (few-without (anchor.id ∷ []) remaining unique)) a in
      elim (Bool-cases (anchor.id == a)) [
        | inl this ↦
            ground
              (arith, same, h', mine, this, c, unique a, count-without (anchor.id ∷ []) a remaining)
        | inr other ↦
            ground (arith, same, h', mine, other, count-without (anchor.id ∷ []) a remaining)
      ],
)

round-Splits :
    (m : Measures) (anchor : TransportOrder) (remaining : List TransportOrder) (r : Round)
    (rest : Option Outcome)
    → 0 < count anchor.id (ids_of remaining)
    → RoundOk m anchor remaining r
    → Splits m (left_of r) rest
    → Splits m remaining (add_round r rest)
round-Splits m anchor remaining (Round.matched x left) rest c ok h =
    add-Splits m anchor remaining x left rest ok h
round-Splits m anchor remaining (Round.rejected x left) rest c ok h =
    reject-Splits m anchor remaining x left rest c ok h

pub match_all-Splits :
    (m : Measures) (fuel : ℕ) (remaining : List TransportOrder) (vehicles : List Vehicle)
    → length remaining ≤ fuel
    → Splits m remaining (match_all m fuel remaining vehicles)
unfolding match_all
match_all-Splits m fuel [] vehicles le = (tt, λ unique a. refl)
match_all-Splits m zero (o ∷ remaining) vehicles le = absurd (omega arith)
match_all-Splits m (suc fuel) (o ∷ remaining) vehicles le =
    let anchor = earliest o remaining in
    let c = earliest-count o remaining in
    let ok = round-RoundOk m anchor (o ∷ remaining) vehicles c in
    let r = round m anchor (o ∷ remaining) vehicles in
    let lt = left-lt m anchor (o ∷ remaining) r c ok in
    round-Splits m anchor (o ∷ remaining) r (match_all m fuel (left_of r) vehicles) c ok
      (match_all-Splits m fuel (left_of r) vehicles (omega (arith, lt, le)))
