-- ===== src/Worker/Process/Outcome.antt =====
-- How the attempt at one event ends.
use black_soil_loop_server.Prelude.{◌≡◌, Bool, true, arith, some, ◌⊎◌, inl, inr}
use black_soil_loop_server.Models.{is_pending, OutboxEvent}
use black_soil_loop_server.Table.{get}
use black_soil_loop_server.Db.{Db, event_key}
use black_soil_loop_server.Tx.{Result-cases, ok, err}
use black_soil_loop_server.Env.{Env}
use black_soil_loop_server.Worker.Process.{
  attempt, record_failure, settle, process_found, process_one,
}
use black_soil_loop_server.Errors.{Raised}

module _ (env : Env) (refresh_raises : Db → Bool) where
  -- A pending event is attempted: either its attempt commits and counts as processed, or it raises,
  -- nothing that the attempt wrote is kept, and only the failure is recorded.
  pub process_one-pending :
      (event : OutboxEvent) (db : Db)
      → get event.event_id db.outbox ≡ some event
      → is_pending event.status ≡ true
      → ((db' : Db) × (attempt env refresh_raises event db ≡ ok (tt, db'))
          × (process_one env refresh_raises event.event_id db ≡ (db', 1)))
        ⊎ ((x : Raised) × (attempt env refresh_raises event db ≡ err x)
            × (process_one env refresh_raises event.event_id db
                ≡ (record_failure env refresh_raises event db, 0)))
  unfolding process_one process_found settle
  process_one-pending event db stored pending =
      elim (Result-cases (attempt env refresh_raises event db)) [
        | inl (u, db', done) ↦ inl (db', done, ground arith)
        | inr (x, raised) ↦ inr (x, raised, ground arith)
      ]
