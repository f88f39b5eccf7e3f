-- ===== src/Lib.antt =====
-- Verification of the Black Soil Loop server: two HTTP services over one database, and a worker.
-- B01 (app/b01/main.py) plans transport: orders, algorithm runs, transport plans. B02
-- (app/b02/main.py) carries it out: tasks, stops, QR codes, receipts, inventory, store reports,
-- telemetry and alerts. They meet in the outbox: a service writes an event in its own transaction,
-- and the worker (app/worker.py) turns the event of a plan into an execution task, publishes it,
-- cancels it, and carries the status of a task back to its plan and orders.
--
-- Files and code:
--   Models            app/shared/models.py, app/shared/schemas.py: tables, request bodies, the
--                     strings of the status columns as data, the JSON answers as data
--   Errors            app/shared/errors.py
--   Table, Db, Tx     a table as a list of rows, all tables, and a unit of work of a session
--   Env               clock, hashes, random tokens and date formats, which come from outside
--   Services          app/domain/services.py: Idempotency (load_idempotent, save_idempotent),
--                     Journal (add_outbox, add_audit), Qr, Events, Transition (transition_task),
--                     Receipt with Quantities and Inventory (sign_receipt), StoreReports,
--                     Telemetry (ingest_telemetry), FieldReports
--   RateLimit         app/shared/rate_limit.py
--   Http              trace_middleware of app/shared/http.py
--   Auth              app/shared/security.py, app/shared/dependencies.py (Sessions, Roles) and
--                     app/shared/auth_api.py (Api)
--   Worker            app/worker.py: Tasks, Cancel, Process; Text is str.replace with a count of 1
--   Algorithms        app/domain/algorithms.py: Rules and Carpool (run_carpool, with the Stops of
--                     its candidates) and Warehouse (run_warehouse_pool)
--   Dashboard         app/domain/dashboard.py: Tally (its defaultdicts), Sales, Demand, Routes and
--                     Snapshot (build_dashboard_snapshot and the projection row)
--   B01, B02          the handlers of app/b01/main.py and app/b02/main.py: orders, previews, plans,
--                     tasks, reports, alerts, lists, visibility, attachments, the WeChat login
--   Streams           dashboard_events of app/b01/main.py and mobile_events of app/b02/main.py
--   Pages             page_payload of app/shared/responses.py, with OFFSET and LIMIT
--   Scheduler         app/scheduler.py
--   Tests             examples of the theorems at concrete states
--
-- How state is modelled. A service is a function from its arguments and the database to an answer
-- with the new database, or to what it raises; a raise keeps nothing, as the session is closed
-- without a commit. A unique constraint refuses an insertion; foreign keys are not modelled. Where
-- the code commits and raises (an idle session), the call returns both the error and the database.
-- A changed object is written over the row of its key, so an object that a caller read before
-- holds the old fields, as a parameter; the theorems say which row it must be. Row ids are numbers
-- from a counter: UUIDs are only compared, and are taken never to repeat. Instants are in
-- microseconds and the clock is read once for each call. Quantities are in billionths, with the
-- tolerance 1e-6 as 1000 of them; temperatures, humidities and coordinates are in signed
-- thousandths. Strings that the code builds by formatting, the scopes of keys and the keys of
-- events with a suffix, are data, so that a client key that itself ends in ":state" is kept apart
-- from the derived one. created_at, updated_at and the Chinese message texts are left out.
--
-- Fuel. The loop of run_carpool takes orders out of a dict until it is empty; here it has fuel, as
-- many rounds as there are drafts, and every round takes one order at least. The streams, which
-- never end, are functions of a number of polls. All other loops of the code go over lists, and
-- are structural recursion.
--
-- Parameters: jwt and password hashing (Crypto), the settings that are read, the hash functions,
-- whether a forecast raises in the scheduled jobs, and the refresh of the dashboard projection there
-- and in the worker, the answer of WeChat, what floating-point code computes (distances by
-- haversine_km, means of coordinates, rounding, percentages), and the rows of the schema core, which
-- no modelled code writes (vehicles, warehouses, stores, enterprises).
--
-- How the planning is modelled. Weights, volumes and quantities are exact numbers, so that a sum
-- within nine tenths of a capacity is a comparison of numbers, where the code compares floats.
-- What a candidate shows beside its data (order numbers, the plate, utilizations, counts of
-- enterprises and products) is left out.
--
-- Not modelled: run_procurement and forecast_demand (app/domain/algorithms.py), whose results are
-- quotients and averages of floats; the assistant (app/domain/assistant.py,
-- app/domain/openai_layer.py), which calls an external service; the JSON envelopes and the set-up
-- of the web framework; the lists that are ordered by updated_at, and master_data; configuration,
-- seed data, scripts and migrations.
pub mod Prelude
pub mod Models
pub mod Errors
pub mod Table
pub mod Dashboard
pub mod Db
pub mod Tx
pub mod Env
pub mod Services
pub mod Algorithms
pub mod RateLimit
pub mod Http
pub mod Text
pub mod Worker
pub mod Auth
pub mod B01
pub mod B02
pub mod Pages
pub mod Scheduler
pub mod Streams
pub mod Tests
