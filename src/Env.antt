-- ===== src/Env.antt =====
-- What a unit of work takes from outside: the clock, the hash functions, random tokens and the
-- formatting of dates. The program reads the clock several times in one call; here it is read once.
use black_soil_loop_server.Prelude.{String}
use black_soil_loop_server.Models.{RowId, Instant, Payload}

pub record Env : Type 0 where
  pub now : Instant  -- `utcnow()`
  pub trace_id : String  -- `request.state.trace_id`
  pub stable_hash : Payload → String  -- SHA-256 of the sorted JSON text of a request
  pub sha256 : String → String
  pub token : String  -- `secrets.token_urlsafe`, `secrets.token_hex`
  pub plan_no : RowId → String  -- "PLAN-", the time and the head of the run's id
