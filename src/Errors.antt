-- ===== src/Errors.antt =====
-- app/shared/errors.py: `BusinessError`, and the other exceptions that end a transaction. The
-- Chinese message texts are not modelled: clients are told to branch on the code alone.
use black_soil_loop_server.Prelude.{ℕ}
use black_soil_loop_server.Models.{Scope, TaskStatus, TaskAction}

pub data ErrorCode : Type 0 where
  idempotency_conflict forbidden qr_required qr_expired qr_invalid version_conflicted
        invalid_transition task_stops_missing stop_not_found stop_not_delivered
        receipt_lines_mismatch expected_quantity_mismatch received_quantity_exceeded
        full_receipt_quantity_mismatch partial_receipt_requires_difference
        rejected_receipt_requires_zero store_scope_required daily_report_exists driver_required :
      ErrorCode
  plan_not_found plan_not_ready task_not_found alert_not_found telemetry_task_mismatch
        order_no_exists device_auth_failed upload_type_not_allowed upload_too_large
        upload_content_invalid upload_empty run_id_mismatch match_run_not_found match_run_confirmed
        candidate_not_found order_state_changed :
      ErrorCode
  invalid_credentials session_invalid session_replaced session_timeout auth_required token_expired
        token_invalid token_type_invalid refresh_token_required csrf_validation_failed
        dashboard_not_ready attachment_not_found attachment_file_missing wechat_not_configured
        wechat_login_failed wechat_account_unbound :
      ErrorCode

pub data Details : Type 0 where
  nothing : Details
  scope : Scope → Details
  versions : ℕ → ℕ → Details
  transition : TaskStatus → TaskAction → Details

pub record BusinessError : Type 0 where
  pub code : ErrorCode
  pub status_code : ℕ
  pub details : Details

-- What ends a transaction: a business error, a violated unique constraint, the worker's
-- `RuntimeError`, or a failed look-up (`KeyError`, `IndexError`, an attribute of None).
pub data Raised : Type 0 where
  business : BusinessError → Raised
  integrity_error runtime_error lookup_error : Raised

abbrev pub error : ErrorCode → ℕ → Raised
error c n = business (record { code = c; status_code = n; details = Details.nothing })

-- Both versions of the details are the current one.
abbrev pub version_conflict : ℕ → Raised
version_conflict current_version = business (record {
  code = ErrorCode.version_conflicted;
  status_code = 409;
  details = Details.versions current_version current_version;
})
