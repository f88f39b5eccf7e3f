-- ===== src/Worker/Process/Settled.antt =====
-- How often an event of the outbox is attempted.
use black_soil_loop_server.Prelude.{◌⊎◌, leb, subst, sym}
use black_soil_loop_server.Db.{event_key, Db}
use black_soil_loop_server.Prelude.{
  ℕ, ◌+◌, ◌≤◌, ◌<◌, ◌≡◌, refl, Bool, true, false, Option, none, some, List, [], ◌∷◌, length, arith,
  Option-cases, Bool-cases, inl, inr,
}
use black_soil_loop_server.Models.{OutboxEvent, is_pending, RowId, EventStatus}
use black_soil_loop_server.Env.{Env}
use black_soil_loop_server.Worker.Process.{
  attempt, process_one, record_failure, process_found, process_event,
}
use black_soil_loop_server.Table.{get, put}
use black_soil_loop_server.Tx.{ok, Result-cases}
use black_soil_loop_server.Worker.Process.Outcome.{process_one-pending}
use black_soil_loop_server.Table.Laws.{get-put_self}

-- Whether a row found is still to be attempted.
abbrev pub is_waiting : Option OutboxEvent → Bool
is_waiting none = false
is_waiting (some e) = is_pending e.status

waiting-put :
    (row : OutboxEvent) (rows : List OutboxEvent)
    → is_pending row.status ≡ false
    → is_waiting (get row.event_id (put row rows)) ≡ false
waiting-put row [] h = refl
waiting-put row (x ∷ rows) h = ground (arith, waiting-put row rows)

module _ (refresh_raises : Db → Bool) where
  -- One attempt at an event for each time of a list.
  abbrev pub retry : List Env → RowId → Db → Db
  retry [] id db = db
  retry (env ∷ envs) id db = retry envs id (process_one env refresh_raises id db).0

  attempt-settles :
      (env : Env) (event : OutboxEvent) (db db' : Db)
      → attempt env refresh_raises event db ≡ ok (tt, db')
      → is_waiting (get event.event_id db'.outbox) ≡ false
  unfolding attempt
  attempt-settles env event db db' p =
      elim (Result-cases (process_event env refresh_raises event db)) [
        | inr (x, e) ↦ absurd (ground (arith, p, e))
        | inl (_, mid, e) ↦
            let row : OutboxEvent = record event {
              status = EventStatus.published;
              attempts = event.attempts + 1;
            } in
            let out : db'.outbox ≡ put row mid.outbox = ground (arith, p, e) in
            rw out (waiting-put row mid.outbox refl)
      ]

  -- An event that is not waiting is left alone.
  process_one-idle :
      (env : Env) (id : RowId) (db : Db)
      → is_waiting (get id db.outbox) ≡ false
      → process_one env refresh_raises id db ≡ (db, 0)
  unfolding process_one process_found
  process_one-idle env id db h = elim (Option-cases (get id db.outbox)) [
    | inl e ↦ ground (arith, e)
    | inr (event, e) ↦ ground (arith, e, h)
  ]

  retry-after :
      (env : Env) (envs : List Env) (id : RowId) (db db' : Db) (n : ℕ)
      → process_one env refresh_raises id db ≡ (db', n)
      → is_waiting (get id (retry envs id db').outbox) ≡ false
      → is_waiting (get id (retry (env ∷ envs) id db).outbox) ≡ false
  retry-after env envs id db db' n e h =
      subst (λ (r : Db × ℕ). is_waiting (get id (retry envs id r.0).outbox) ≡ false) (sym e) h

  retry-idle :
      (envs : List Env) (id : RowId) (db : Db)
      → is_waiting (get id db.outbox) ≡ false
      → is_waiting (get id (retry envs id db).outbox) ≡ false
  retry-idle [] id db h = h
  retry-idle (env ∷ envs) id db h =
      retry-after env envs id db db 0 (process_one-idle env id db h) (retry-idle envs id db h)

  -- A failure settles the event at the fifth attempt, and counts before it.
  failure-counts :
      (env : Env) (event : OutboxEvent) (db : Db)
      → get event.event_id db.outbox ≡ some event
      → is_pending event.status ≡ true
      → (is_waiting (get event.event_id (record_failure env refresh_raises event db).outbox)
          ≡ false)
        ⊎ ((event.attempts + 1 < 5)
            × (get event.event_id (record_failure env refresh_raises event db).outbox
                ≡ some (record event { attempts = event.attempts + 1 })))
  unfolding record_failure
  failure-counts env event db stored pending = elim (Bool-cases (leb 5 (event.attempts + 1))) [
    | inl last ↦ inl (
        rw last (
          waiting-put (record event { status = EventStatus.dead; attempts = event.attempts + 1 })
            db.outbox refl))
    | inr more ↦ inr (
      ground arith,
      rw more (
          get-put_self (record event { attempts = event.attempts + 1 }) db.outbox {old = event}
            stored),
    )
  ]

  -- Of an event with fewer than five attempts, no more are made than are left up to five: whatever their times
  -- and their outcomes, afterwards it is not pending any more.
  pub retry-settles :
      (envs : List Env) (event : OutboxEvent) (db : Db)
      → get event.event_id db.outbox ≡ some event
      → event.attempts < 5
      → 5 ≤ event.attempts + length envs
      → is_waiting (get event.event_id (retry envs event.event_id db).outbox) ≡ false
  retry-settles [] event db stored few enough = absurd (omega (arith, few, enough))
  retry-settles (env ∷ envs) event db stored few enough =
      elim (Bool-cases (is_pending event.status)) [
        | inr settled ↦ retry-idle (env ∷ envs) event.event_id db (rw stored settled)
        | inl pending ↦ elim (process_one-pending env refresh_raises event db stored pending) [
          | inl (db', done, one) ↦
              retry-after env envs event.event_id db db' 1 one
                (retry-idle envs event.event_id db' (attempt-settles env event db db' done))
          | inr (x, failed, one) ↦ elim (failure-counts env event db stored pending) [
            | inl settled ↦
                retry-after env envs event.event_id db (record_failure env refresh_raises event db)
                  0 one
                  (retry-idle envs event.event_id (record_failure env refresh_raises event db)
                    settled)
            | inr (again, found) ↦
                retry-after env envs event.event_id db (record_failure env refresh_raises event db)
                  0 one
                  (retry-settles envs (record event { attempts = event.attempts + 1 })
                    (record_failure env refresh_raises event db) found again
                    (omega (arith, enough)))
          ]
        ]
      ]
