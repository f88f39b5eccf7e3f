-- ===== src/Worker/Process/Dead.antt =====
-- An event that fails each time.
use black_soil_loop_server.Prelude.{◌≡◌, some, ◌++◌, ◌+◌, ◌∷◌, []}
use black_soil_loop_server.Db.{event_key, Db}
use black_soil_loop_server.Models.{OutboxEvent, EventStatus}
use black_soil_loop_server.Table.{get}
use black_soil_loop_server.Env.{Env}

-- The event is given up at five attempts, with one dead letter, and nothing else has changed.
pub record Buried (event : OutboxEvent) (db db' : Db) : Type 0 where
  pub dead :
      get event.event_id db'.outbox
      ≡ some (record event { status = EventStatus.dead; attempts = 5 })
  pub letter :
      db'.dead_letters
      ≡ db.dead_letters
        ++ record {
          id = db.next_id;
          event_id = event.event_id;
          topic = event.topic;
          payload = event.payload;
          attempts = 5;
        }
          ∷ []
  pub others :
      db'
      ≡ record db { outbox = db'.outbox; dead_letters = db'.dead_letters; next_id = db.next_id + 1 }
