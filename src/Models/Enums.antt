-- ===== src/Models/Enums.antt =====
-- The strings that the program stores in its status, role, action and topic columns, as data.
-- `Role.other` stands for any role that no test of the program names.
use black_soil_loop_server.Prelude.{ℕ, Bool, true, false, ◌==◌}

-- Identifiers are UUID strings that are only compared; instants are counted in microseconds.
abbrev pub RowId : Type 0
RowId = ℕ

abbrev pub Instant : Type 0
Instant = ℕ

pub data Role : Type 0 where
  park_admin enterprise_admin driver store_manager third_space_manager other : Role

pub data TaskStatus : Type 0 where
  confirmed published driver_accepted picked_up in_transit delivered store_signed completed
        cancelled :
      TaskStatus

pub data StopStatus : Type 0 where
  planned delivered signed : StopStatus

pub data TaskAction : Type 0 where
  accept pickup start_transit deliver : TaskAction

pub data ReceiptStatus : Type 0 where
  full partial rejected : ReceiptStatus

pub data OrderStatus : Type 0 where
  draft confirmed completed cancelled : OrderStatus

pub data PlanStatus : Type 0 where
  confirmed ready publish_requested published cancellation_requested cancelled
        cancellation_rejected :
      PlanStatus

pub data EventStatus : Type 0 where
  pending published dead : EventStatus

pub data AlertStatus : Type 0 where
  open_alert acknowledged resolved : AlertStatus

pub data AlertType : Type 0 where
  humidity temperature : AlertType

pub data AlertAction : Type 0 where
  acknowledge resolve : AlertAction

pub data TemperatureZone : Type 0 where
  ambient chilled frozen : TemperatureZone

pub data ExceptionType : Type 0 where
  delay damage vehicle temperature other : ExceptionType

pub data AlgorithmType : Type 0 where
  carpool warehouse procurement demand_forecast : AlgorithmType

pub data ObjectType : Type 0 where
  transport_order transport_plan transport_task receipt stockout_request store_daily_report alert
        location_point task_exception :
      ObjectType

pub data Topic : Type 0 where
  order_created plan_confirmed plan_publish_requested plan_cancellation_requested
        plan_cancellation_rejected task_confirmed task_published task_cancelled task_status_changed
        receipt_completed stockout_submitted daily_report_submitted alert_opened
        alert_status_changed location_recorded exception_reported :
      Topic

-- Tests against one constant, as the source writes them.
abbrev pub is_planned : StopStatus → Bool
is_planned StopStatus.planned = true
is_planned _ = false

abbrev pub is_delivered : StopStatus → Bool
is_delivered StopStatus.delivered = true
is_delivered _ = false

abbrev pub is_signed : StopStatus → Bool
is_signed StopStatus.signed = true
is_signed _ = false

abbrev pub is_pending : EventStatus → Bool
is_pending EventStatus.pending = true
is_pending _ = false

abbrev pub is_open : AlertStatus → Bool
is_open AlertStatus.open_alert = true
is_open _ = false

abbrev pub is_draft : OrderStatus → Bool
is_draft OrderStatus.draft = true
is_draft _ = false

abbrev pub is_driver : Role → Bool
is_driver Role.driver = true
is_driver _ = false

-- `role in {"store_manager", "third_space_manager"}`
abbrev pub is_store_role : Role → Bool
is_store_role Role.store_manager = true
is_store_role Role.third_space_manager = true
is_store_role _ = false

abbrev pub is_park_admin : Role → Bool
is_park_admin Role.park_admin = true
is_park_admin _ = false

abbrev pub same_alert_type : AlertType → AlertType → Bool
same_alert_type AlertType.humidity AlertType.humidity = true
same_alert_type AlertType.temperature AlertType.temperature = true
same_alert_type _ _ = false

abbrev pub same_zone : TemperatureZone → TemperatureZone → Bool
same_zone TemperatureZone.ambient TemperatureZone.ambient = true
same_zone TemperatureZone.chilled TemperatureZone.chilled = true
same_zone TemperatureZone.frozen TemperatureZone.frozen = true
same_zone _ _ = false

-- Statuses are told apart by their place in the life cycle.
abbrev pub status_rank : TaskStatus → ℕ
status_rank TaskStatus.confirmed = 0
status_rank TaskStatus.published = 1
status_rank TaskStatus.driver_accepted = 2
status_rank TaskStatus.picked_up = 3
status_rank TaskStatus.in_transit = 4
status_rank TaskStatus.delivered = 5
status_rank TaskStatus.store_signed = 6
status_rank TaskStatus.completed = 7
status_rank TaskStatus.cancelled = 8

abbrev pub same_status : TaskStatus → TaskStatus → Bool
same_status a b = status_rank a == status_rank b
