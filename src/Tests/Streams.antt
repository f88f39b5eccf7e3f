-- ===== src/Tests/Streams.antt =====
-- Examples for the streams: three events, two of them behind the cursor.
use black_soil_loop_server.Prelude.{◌≡◌, refl, List, [], ◌∷◌, select, arith}
use black_soil_loop_server.Tests.Data.{db_with, driver}
use black_soil_loop_server.Tests.Outbox.{event}
use black_soil_loop_server.Models.{OutboxEvent}
use black_soil_loop_server.Streams.{dashboard_events, mobile_events}
use black_soil_loop_server.Db.{Db}
use black_soil_loop_server.Streams.Complete.{dashboard_events_complete, mobile_events-dashboard}
use black_soil_loop_server.Streams.Batches.{pending_after}
use black_soil_loop_server.B02.Visibility.{event_visible}

abbrev outbox : List OutboxEvent
outbox = event ∷ record event { sequence = 2 } ∷ record event { sequence = 5 } ∷ []

dashboard_events_complete_example : dashboard_events 1 1 outbox ≡ pending_after 1 outbox
dashboard_events_complete_example =
    dashboard_events_complete 1 1 outbox (refl, (refl, (refl, tt))) (omega arith)

abbrev db : Db
db = record (db_with [] []) { outbox = outbox }

mobile_events-dashboard_example :
    mobile_events 2 driver 1 db
    ≡ select (λ e. event_visible driver e db) (dashboard_events 2 1 db.outbox)
mobile_events-dashboard_example = mobile_events-dashboard 2 driver 1 db (refl, (refl, (refl, tt)))
