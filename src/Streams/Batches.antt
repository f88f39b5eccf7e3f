-- ===== src/Streams/Batches.antt =====
-- A batch of a stream: what it takes of the events behind a cursor, and what it leaves.
use black_soil_loop_server.Prelude.{
  ℕ, zero, suc, ◌≤◌, ◌≡◌, refl, sym, ◌∙◌, ap, Bool, true, List, [], ◌∷◌, ltb, all, select, arith,
  Bool-cases, inl, inr,
}
use black_soil_loop_server.Table.{order_by, insert_by, limited, dropped}
use black_soil_loop_server.Models.{OutboxEvent}
use black_soil_loop_server.Streams.{next_events, cursor_after, batch_limit}

abbrev pub by_sequence : OutboxEvent → ℕ
by_sequence e = e.sequence

abbrev pub after : ℕ → OutboxEvent → Bool
after cursor e = ltb cursor e.sequence

-- The rows stand in the order of their sequence numbers.
abbrev pub Ascending : List OutboxEvent → Type 0
Ascending [] = Unit
Ascending (e ∷ events) = (all (after e.sequence) events ≡ true) × Ascending events

-- The events behind a cursor.
abbrev pub pending_after : ℕ → List OutboxEvent → List OutboxEvent
pending_after cursor events = select (after cursor) events

insert_by-first :
    (e : OutboxEvent) (events : List OutboxEvent)
    → all (after e.sequence) events ≡ true
    → insert_by by_sequence e events ≡ e ∷ events
unfolding insert_by
insert_by-first e [] h = refl
insert_by-first e (x ∷ events) h = ground (arith, h)

order_by-Ascending :
    (events : List OutboxEvent) → Ascending events → order_by by_sequence events ≡ events
unfolding order_by
order_by-Ascending [] h = refl
order_by-Ascending (e ∷ events) (first, h) =
    ap (insert_by by_sequence e) (order_by-Ascending events h) ∙ insert_by-first e events first

all-select :
    (p q : OutboxEvent → Bool) (events : List OutboxEvent)
    → all p events ≡ true
    → all p (select q events) ≡ true
all-select p q [] h = refl
all-select p q (e ∷ events) h = ground (arith, all-select p q events)

pub select-Ascending :
    (q : OutboxEvent → Bool) (events : List OutboxEvent)
    → Ascending events
    → Ascending (select q events)
select-Ascending q [] h = tt
select-Ascending q (e ∷ events) (first, h) = elim (Bool-cases (q e)) [
  | inl taken ↦ rw taken (all-select (after e.sequence) q events first, select-Ascending q events h)
  | inr left ↦ rw left (select-Ascending q events h)
]

pub next_events-limited :
    (cursor : ℕ) (outbox : List OutboxEvent)
    → Ascending outbox
    → next_events cursor outbox ≡ limited batch_limit (pending_after cursor outbox)
unfolding next_events
next_events-limited cursor outbox h =
    ap (limited batch_limit)
      (order_by-Ascending (pending_after cursor outbox) (select-Ascending (after cursor) outbox h))

pub all-select-after :
    (cursor : ℕ) (events : List OutboxEvent)
    → all (after cursor) (pending_after cursor events) ≡ true
all-select-after cursor [] = refl
all-select-after cursor (e ∷ events) = ground (arith, all-select-after cursor events)

select-all-after :
    (cursor : ℕ) (events : List OutboxEvent)
    → all (after cursor) events ≡ true
    → pending_after cursor events ≡ events
select-all-after cursor [] h = refl
select-all-after cursor (e ∷ events) h = ground (arith, select-all-after cursor events)

-- The cursor does not go back.
cursor_after-le :
    (cursor n : ℕ) (events : List OutboxEvent)
    → Ascending events
    → all (after cursor) events ≡ true
    → cursor ≤ cursor_after cursor (limited n events)
unfolding cursor_after limited
cursor_after-le cursor zero events h first = omega arith
cursor_after-le cursor (suc n) [] h first = omega arith
cursor_after-le cursor (suc n) (e ∷ events) (next, h) first =
    ground (arith, first, cursor_after-le e.sequence n events h next)

-- Behind the cursor that a batch leaves stand the events that it did not take.
pending-dropped :
    (cursor n : ℕ) (events : List OutboxEvent)
    → Ascending events
    → all (after cursor) events ≡ true
    → pending_after (cursor_after cursor (limited n events)) events ≡ dropped n events
unfolding cursor_after limited dropped
pending-dropped cursor zero events h first = select-all-after cursor events first
pending-dropped cursor (suc n) [] h first = refl
pending-dropped cursor (suc n) (e ∷ events) (next, h) first =
    let le = cursor_after-le e.sequence n events h next in
    ground (arith, le, pending-dropped e.sequence n events h next)

pending-pending :
    (c d : ℕ) (events : List OutboxEvent)
    → c ≤ d
    → pending_after d (pending_after c events) ≡ pending_after d events
pending-pending c d [] h = refl
pending-pending c d (e ∷ events) h = ground (arith, pending-pending c d events h)

-- A batch and the events behind the cursor that it leaves.
pub batch-pending :
    (cursor : ℕ) (outbox : List OutboxEvent)
    → Ascending outbox
    → (next_events cursor outbox ≡ limited batch_limit (pending_after cursor outbox))
      × (pending_after (cursor_after cursor (next_events cursor outbox)) outbox
          ≡ dropped batch_limit (pending_after cursor outbox))
batch-pending cursor outbox h =
    let rows = pending_after cursor outbox in
    let batch = next_events-limited cursor outbox h in
    let sorted = select-Ascending (after cursor) outbox h in
    let first = all-select-after cursor outbox in
    let c' = cursor_after cursor (limited batch_limit rows) in
    (
      batch,
      ap (λ xs. pending_after (cursor_after cursor xs) outbox) batch
          ∙ sym (
              pending-pending cursor c' outbox
                (cursor_after-le cursor batch_limit rows sorted first))
          ∙ pending-dropped cursor batch_limit rows sorted first,
    )
