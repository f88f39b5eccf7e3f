-- ===== src/Services/Qr.antt =====
-- `ensure_task_scope`, `create_task_qr` and `verify_task_qr` of app/domain/services.py.
use Prim.Native.String.{◌++◌}
use black_soil_loop_server.Prelude.{
  ◌+◌, String, ◌&&◌, ◌||◌, not, Option, none, some, str_eq, ltb, opt_eq,
}
use black_soil_loop_server.Models.{is_driver, is_store_role, User, TransportTask, Instant}
use black_soil_loop_server.Errors.{ErrorCode, error}
use black_soil_loop_server.Tx.{Tx, ⊤, raise, raise_if, ◌>>◌}
use black_soil_loop_server.Env.{Env}

unfoldable pub ensure_task_scope : User → TransportTask → Tx ⊤
ensure_task_scope user task = do
  raise_if (is_driver user.role && not (opt_eq user.driver_id (some task.driver_id)))
      (error ErrorCode.forbidden 403)
  raise_if (is_store_role user.role && not (opt_eq user.store_id (some task.store_id)))
      (error ErrorCode.forbidden 403)

-- Two days, in microseconds.
abbrev pub qr_lifetime : Instant
qr_lifetime = 172_800_000_000

-- `task_no` and the random token between colons.
abbrev pub qr_text : String → String → String
qr_text task_no token = "BSL:" ++ task_no ++ ":" ++ token

module _ (env : Env) where
  -- The changed task and the text of its code.
  unfoldable pub create_task_qr : TransportTask → TransportTask × String
  create_task_qr task =
      let raw = qr_text task.task_no env.token in
      (
        record task {
          qr_token_hash = some (env.sha256 raw);
          qr_expires_at = some (env.now + qr_lifetime);
        },
        raw,
      )

  -- The tests on the parts that are there.
  unfoldable pub check_qr : String → Option String → Option Instant → Tx ⊤
  check_qr raw (some qr_token_hash) (some expires_at) = do
    raise_if (str_eq raw "" || str_eq qr_token_hash "") (error ErrorCode.qr_required 400)
    raise_if (ltb expires_at env.now) (error ErrorCode.qr_expired 409)
    raise_if (not (str_eq qr_token_hash (env.sha256 raw))) (error ErrorCode.qr_invalid 409)
  check_qr _ _ _ = raise (error ErrorCode.qr_required 400)

  unfoldable pub verify_task_qr : TransportTask → Option String → Tx ⊤
  verify_task_qr task (some raw) = check_qr raw task.qr_token_hash task.qr_expires_at
  verify_task_qr task none = raise (error ErrorCode.qr_required 400)
