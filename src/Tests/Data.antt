-- ===== src/Tests/Data.antt =====
-- A small database for the examples: a park, a task with two stops and the people around it.
use black_soil_loop_server.Prelude.{String, none, some, List, [], ◌∷◌, or_else, ℕ, true}
use black_soil_loop_server.Prelude.Int.{pos}
use black_soil_loop_server.Models.{
  Role, TaskStatus, StopStatus, TaskAction, TemperatureZone, TaskActionRequest, Payload, User,
  TransportTask, TaskStop, RowId,
}
use black_soil_loop_server.Db.{Db}
use black_soil_loop_server.Tx.{Result, ok, err}
use black_soil_loop_server.Env.{Env}

-- A hash that tells the tests' requests apart by their notes.
abbrev pub test_hash : Payload → String
test_hash (Payload.task_action request) = or_else request.note "no note"
test_hash _ = "other"

abbrev pub env_at : ℕ → Env
env_at now = record {
  now = now;
  trace_id = "trace";
  stable_hash = test_hash;
  sha256 = λ s. s;
  token = "token";
  plan_no = λ _. "PLAN-1";
}

abbrev pub env : Env
env = env_at 1_000

abbrev pub driver : User
driver = record {
  id = 1;
  username = "driver";
  display_name = "Driver";
  password_hash = "hash";
  role = Role.driver;
  enterprise_id = none;
  store_id = none;
  driver_id = some 5;
  wechat_openid = none;
  active = true;
  session_version = 1;
  object_version = 1;
}

abbrev pub manager : User
manager = record driver { id = 2; role = Role.store_manager; driver_id = none; store_id = some 7 }

abbrev pub task_in : TaskStatus → TransportTask
task_in status = record {
  id = 10;
  task_no = "BSL-1";
  source_order_ids = 30 ∷ [];
  vehicle_id = 4;
  driver_id = 5;
  store_id = 7;
  status = status;
  temperature_zone = TemperatureZone.chilled;
  total_weight_kg = 100;
  total_volume_m3 = 2;
  origin_latitude = pos 0;
  origin_longitude = pos 0;
  destination_latitude = pos 0;
  destination_longitude = pos 0;
  planned_departure_at = 500;
  qr_token_hash = some "code";
  qr_expires_at = some 2_000;
  object_version = 3;
}

abbrev pub stop_in : RowId → RowId → ℕ → StopStatus → TaskStop
stop_in id store_id sequence_no status = record {
  id = id;
  task_id = 10;
  store_id = store_id;
  sequence_no = sequence_no;
  latitude = pos 0;
  longitude = pos 0;
  status = status;
  delivery_lines =
      record { order_ids = 30 ∷ []; product_id = 40; expected_quantity = 9; unit = "box" } ∷ [];
  object_version = 1;
}

abbrev pub db_with : List TransportTask → List TaskStop → Db
db_with tasks stops = record {
  users = driver ∷ manager ∷ [];
  sessions = [];
  orders = [];
  runs = [];
  plans = [];
  tasks = tasks;
  stops = stops;
  events = [];
  exceptions = [];
  receipts = [];
  balances = [];
  movements = [];
  stockouts = [];
  reports = [];
  telemetry = [];
  locations = [];
  alerts = [];
  records = [];
  outbox = [];
  audit = [];
  dead_letters = [];
  next_id = 100;
  next_sequence = 1;
}

abbrev pub request_of : TaskAction → String → TaskActionRequest
request_of action note = record {
  object_version = 3;
  action = action;
  qr_token = some "code";
  stop_id = none;
  occurred_at = none;
  note = some note;
}

abbrev pub moving : TransportTask
moving = task_in TaskStatus.in_transit

abbrev pub moving_db : Db
moving_db =
    db_with (moving ∷ [])
      (stop_in 20 7 1 StopStatus.delivered ∷ stop_in 21 8 2 StopStatus.planned ∷ [])

-- The database after a call, `fallback` where the call raised.
abbrev pub state_of : {A : Type 0} → Db → Result (A × Db) → Db
state_of fallback (ok (_, db)) = db
state_of fallback (err _) = fallback
