-- ===== src/Streams.antt =====
-- The two event streams over the outbox: `dashboard_events` of app/b01/main.py and `mobile_events` of
-- app/b02/main.py. A poll reads a batch and moves the cursor; sleeping and heartbeats are left out.
pub mod Batches
pub mod Complete
use black_soil_loop_server.Tx.{◌>>=◌, Tx, gets, pure}
use black_soil_loop_server.Db.{user_key, session_key, Db}
use black_soil_loop_server.Table.{limited}
use black_soil_loop_server.Models.{UserSession, OutboxEvent, User, Instant}
use black_soil_loop_server.Prelude.{
  ℕ, zero, suc, String, Bool, true, false, not, ◌||◌, Option, none, some, List, [], ◌∷◌, ◌++◌, max,
  ltb, ◌==◌, if◌then◌else◌, is_some, select,
}
use black_soil_loop_server.Auth.Sessions.{Crypto, Settings, decode_token, TokenType}
use black_soil_loop_server.Table.{order_by, get}
use black_soil_loop_server.B02.Visibility.{event_visible}

abbrev pub batch_limit : ℕ
batch_limit = 100

-- `WHERE sequence > cursor ORDER BY sequence LIMIT 100`
unfoldable pub next_events : ℕ → List OutboxEvent → List OutboxEvent
next_events cursor outbox =
    limited batch_limit (order_by (λ e. e.sequence) (select (λ e. ltb cursor e.sequence) outbox))

-- `max(cursor, int(header_cursor))`, where the header is a number.
abbrev pub first_cursor : ℕ → Option ℕ → ℕ
first_cursor cursor none = cursor
first_cursor cursor (some header_cursor) = max cursor header_cursor

-- The loop `cursor = event.sequence`.
unfoldable pub cursor_after : ℕ → List OutboxEvent → ℕ
cursor_after cursor [] = cursor
cursor_after cursor (e ∷ events) = cursor_after e.sequence events

-- `max(cursor, max(event.sequence for event in events))`
unfoldable pub furthest : ℕ → List OutboxEvent → ℕ
furthest cursor [] = cursor
furthest cursor (e ∷ events) = furthest (max cursor e.sequence) events

-- What the stream of the dashboard sends in a number of polls.
unfoldable pub dashboard_events : ℕ → ℕ → List OutboxEvent → List OutboxEvent
dashboard_events zero cursor outbox = []
dashboard_events (suc polls) cursor outbox =
    let events = next_events cursor outbox in
    events ++ dashboard_events polls (cursor_after cursor events) outbox

-- What a mobile user gets: the visible events of each batch, while the cursor passes over all of it.
unfoldable pub mobile_events : ℕ → User → ℕ → Db → List OutboxEvent
mobile_events zero user cursor db = []
mobile_events (suc polls) user cursor db =
    let events = next_events cursor db.outbox in
    select (λ e. event_visible user e db) events
    ++ mobile_events polls user (furthest cursor events) db

-- `not user or not session or revoked or another version`, negated.
abbrev pub may_listen : ℕ → Option User → Option UserSession → Bool
may_listen version (some user) (some session) =
    not (is_some session.revoked_at || not (version == user.session_version))
may_listen version _ _ = false

-- Whether the websocket is accepted: false for the close with 4401.
unfoldable pub accepts : Crypto → Settings → Instant → String → String → Tx Bool
accepts crypto settings now nonce token = do
  payload ← decode_token crypto settings now nonce token TokenType.access
  owner ← gets (λ db. get payload.sub db.users)
  found ← gets (λ db. get payload.sid db.sessions)
  pure (may_listen payload.ver owner found)
