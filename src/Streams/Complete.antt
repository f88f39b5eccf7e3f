-- ===== src/Streams/Complete.antt =====
-- What the streams send of the events behind a cursor.
use black_soil_loop_server.Prelude.{
  select-append, ℕ, zero, suc, ◌*◌, ◌≤◌, ◌≡◌, refl, sym, ◌∙◌, ap, Bool, true, List, [], ◌∷◌, ◌++◌,
  max, all, select, length, arith,
}
use black_soil_loop_server.Table.{limited, dropped}
use black_soil_loop_server.Models.{OutboxEvent, User}
use black_soil_loop_server.Streams.{
  next_events, cursor_after, batch_limit, dashboard_events, furthest, mobile_events,
}
use black_soil_loop_server.Db.{Db}
use black_soil_loop_server.B02.Visibility.{event_visible}
use black_soil_loop_server.Table.Laws.{length-dropped-le, limited-dropped}
use black_soil_loop_server.Streams.Batches.{
  after, Ascending, pending_after, all-select-after, select-Ascending, next_events-limited,
  batch-pending,
}

-- With polls enough for the events behind its cursor, the stream of the dashboard sends each of them once, in
-- the order of their sequence numbers, and no others, where the outbox stands in that order and does not
-- change between the polls.
pub dashboard_events_complete :
    (polls cursor : ℕ) (outbox : List OutboxEvent)
    → Ascending outbox
    → length (pending_after cursor outbox) ≤ polls * 100
    → dashboard_events polls cursor outbox ≡ pending_after cursor outbox
unfolding dashboard_events
dashboard_events_complete zero cursor outbox h enough = empty (pending_after cursor outbox) enough
  where
    empty : (xs : List OutboxEvent) → length xs ≤ 0 * 100 → [] ≡ xs
    empty [] e = refl
    empty (x ∷ xs) e = absurd (omega (arith, e))
dashboard_events_complete (suc polls) cursor outbox h enough =
    let rows = pending_after cursor outbox in
    let (batch, left) = batch-pending cursor outbox h in
    let c' = cursor_after cursor (next_events cursor outbox) in
    let few : length (pending_after c' outbox) ≤ polls * 100 =
      rw left (length-dropped-le 100 (polls * 100) rows (omega (arith, enough))) in
    ap (λ xs. next_events cursor outbox ++ xs)
      (dashboard_events_complete polls c' outbox h few ∙ left)
    ∙ ap (λ xs. xs ++ dropped batch_limit rows) batch
    ∙ limited-dropped batch_limit rows

all-limited :
    (p : OutboxEvent → Bool) (n : ℕ) (events : List OutboxEvent)
    → all p events ≡ true
    → all p (limited n events) ≡ true
unfolding limited
all-limited p zero events h = refl
all-limited p (suc n) [] h = refl
all-limited p (suc n) (e ∷ events) h = ground (arith, all-limited p n events)

furthest-cursor_after :
    (cursor : ℕ) (events : List OutboxEvent)
    → Ascending events
    → all (after cursor) events ≡ true
    → furthest cursor events ≡ cursor_after cursor events
unfolding furthest cursor_after
furthest-cursor_after cursor [] h first = refl
furthest-cursor_after cursor (e ∷ events) (next, h) first =
    let m : max cursor e.sequence ≡ e.sequence = ground (arith, first) in
    ap (λ c. furthest c events) m ∙ furthest-cursor_after e.sequence events h next

limited-Ascending :
    (n : ℕ) (events : List OutboxEvent) → Ascending events → Ascending (limited n events)
unfolding limited
limited-Ascending zero events h = tt
limited-Ascending (suc n) [] h = tt
limited-Ascending (suc n) (e ∷ events) (next, h) =
    (all-limited (after e.sequence) n events next, limited-Ascending n events h)

batch-furthest :
    (cursor : ℕ) (outbox : List OutboxEvent)
    → Ascending outbox
    → furthest cursor (next_events cursor outbox) ≡ cursor_after cursor (next_events cursor outbox)
batch-furthest cursor outbox h =
    let rows = pending_after cursor outbox in
    rw (next_events-limited cursor outbox h) (
      furthest-cursor_after cursor (limited batch_limit rows)
        (limited-Ascending batch_limit rows (select-Ascending (after cursor) outbox h))
        (all-limited (after cursor) batch_limit rows (all-select-after cursor outbox)))

-- A mobile user is sent what the stream of the dashboard sends from the same cursor, less the events that are
-- not visible to the user, where the outbox stands in the order of its sequence numbers.
pub mobile_events-dashboard :
    (polls : ℕ) (user : User) (cursor : ℕ) (db : Db)
    → Ascending db.outbox
    → mobile_events polls user cursor db
      ≡ select (λ e. event_visible user e db) (dashboard_events polls cursor db.outbox)
unfolding mobile_events dashboard_events
mobile_events-dashboard zero user cursor db h = refl
mobile_events-dashboard (suc polls) user cursor db h =
    let seen = λ (e : OutboxEvent). event_visible user e db in
    let events = next_events cursor db.outbox in
    let c' = cursor_after cursor events in
    ap (λ c. select seen events ++ mobile_events polls user c db)
      (batch-furthest cursor db.outbox h)
    ∙ ap (λ xs. select seen events ++ xs) (mobile_events-dashboard polls user c' db h)
    ∙ sym (select-append seen events (dashboard_events polls c' db.outbox))
